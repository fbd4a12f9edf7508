-- ===== src/Worker/Input.antt =====
-- worker/input: the inputs are downloaded, each by a goroutine of its own. These functions run the
-- goroutines one after the other, in the order in which their channels are read; Threads has them
-- interleaved in any order, on one disk.
pub mod Laws
pub mod Answers
pub mod Threads
use pzsvc_exec.Prelude.{
  ℕ, zero, suc, String, ◌<>◌, ◌+◌, ◌-◌, Bool, true, false, Option, none, some, List, [], ◌∷◌, ◌++◌,
  nat_eq, if◌then◌else◌, nonempty,
}
use pzsvc_exec.Prelude.Int.{ℤ, pos, negsuc}
use pzsvc_exec.Text.{atoi, itoa, decimal}
use pzsvc_exec.Host.{
  Host, Response, FileState, present, absent, unknown, Go, GoError, plain, Try, ok, err, error_text,
  logged, stat_file, opened, written, look, emit, pure, crash, on_nil, on_error, ◌>>=◌, ◌>>◌,
}
use pzsvc_exec.Pzsvc.Http.{send}
use pzsvc_exec.Worker.Config.{WorkerConfig, InputSource}
use pzsvc_exec.Worker.Log.{info}

repeated : ℕ → String
repeated zero = ""
repeated (suc zero) = "error downloading source imagery;"
repeated (suc (suc n)) = "error downloading source imagery; " <> repeated (suc n)

-- The error of FetchInputs for so many errors.
unfoldable pub error_of : ℕ → Option GoError
unfolding repeated
error_of errors = if nat_eq errors 0 then none else some (plain ("[" <> repeated errors <> "]"))

module _ (host : Host) where
  unfoldable pub get_client_retries : ℤ
  get_client_retries =
      let env = host.getenv "HTTP_RETRIES" in if nonempty env then (atoi env).0 else pos 1

  -- The timeout in seconds.
  unfoldable pub get_client_timeout : ℤ
  get_client_timeout =
      let env = host.getenv "HTTP_TIMEOUT" in if nonempty env then (atoi env).0 else pos 180

  -- From the answer of the stat on.
  unfoldable pub open_new : String → FileState → Go (Option GoError)
  open_new file_name present = pure (some (plain ("File already exists: " <> file_name)))
  open_new file_name (unknown e) =
      pure (some (plain ("Error statting file: " <> file_name <> "; " <> error_text e)))
  open_new file_name (absent e) = do
    e' ← look (λ t. host.open_file t file_name)
    emit (opened file_name)
    pure e'

  -- The error, or nil with the file open. The file must be new.
  unfoldable pub check_and_open : String → Go (Option GoError)
  unfolding open_new
  check_and_open file_name = do
    state ← look (λ t. host.stat t file_name)
    emit (stat_file file_name)
    open_new file_name state

  -- One attempt: the reply and the error, which may both be there.
  unfoldable pub attempt : String → Go (Option Response × Option GoError)
  attempt url = do
    answer ← send host (record { method = "GET"; url = url; header = []; body = "" })
    on_error answer (λ e. pure (none, some e))
        (λ r.
          if nat_eq r.status_code 200
          then pure (some r, none)
          else pure (
            some r,
            some (plain ("unexpected status downloading input (" <> decimal r.status_code <> ")")),
          ))

  -- The loop `for i := 0; i <= retries; i++`, by the rounds left. No round leaves it early: what
  -- the last attempt gave is kept.
  unfoldable pub attempts :
      (url : String) (retries : ℤ)
      → (left i : ℕ) → Option Response × Option GoError
      → Go (Option Response × Option GoError)
  attempts url retries zero i last = pure last
  attempts url retries (suc left) i last = do
    (r, e) ← attempt url
    on_nil e (pure tt) (λ e'. emit (
        logged (
          "Failed to download URL "
          <> url
          <> " on the "
          <> decimal (i + 1)
          <> " attempt: "
          <> error_text e'
          <> ". Timing out after "
          <> itoa retries
          <> " retries.\n")))
    attempts url retries left (i + 1) (r, e)

  -- How often the loop runs.
  abbrev pub rounds : ℤ → ℕ
  rounds (pos n) = suc n
  rounds (negsuc n) = 0

  -- After the loop: `resp.Body` is read where the error is nil.
  unfoldable pub store : String → Option Response × Option GoError → Go (Option GoError)
  store file_name (r, e) =
      on_nil e
        (on_nil r crash (λ resp. do
          e' ← look (λ t. host.write_file t file_name resp.body.content)
          emit (written file_name resp.body.content)
          pure (on_nil e' resp.body.failure some)))
        (λ e'. pure (some e'))

  -- What the goroutine sends on its channel before it closes it.
  unfoldable pub download_input : ℤ → InputSource → Go (Option GoError)
  download_input retries source = do
    e ← check_and_open source.file_name
    on_nil e
        (do
          last ← attempts source.url retries (rounds retries) 0 (none, none)
          store source.file_name last)
        (λ e'. pure (some e'))

  module _ (cfg : WorkerConfig) where
    unfoldable pub start_downloads : List InputSource → Go (Unit {0})
    start_downloads [] = pure tt
    start_downloads (source ∷ rest) = do
      info host cfg ("async downloading input: " <> source.file_name <> "; from: " <> source.url)
      start_downloads rest

    -- The loop over the channels, with the number of errors so far.
    unfoldable pub collect : ℤ → List InputSource → ℕ → Go ℕ
    collect retries [] errors = pure errors
    collect retries (source ∷ rest) errors = do
      e ← download_input retries source
      on_nil e
          (do info host cfg ("downloaded input: " <> source.file_name); collect retries rest errors)
          (λ _. collect retries rest (errors + 1))

    unfoldable pub fetch_inputs : List InputSource → Go (Option GoError)
    fetch_inputs inputs = do
      start_downloads inputs
      errors ← collect get_client_retries inputs 0
      pure (error_of errors)
