-- ===== src/Worker/Input/Laws.antt =====
-- How often an input is downloaded, and where the download panics.
use pzsvc_exec.Prelude.{ℕ, zero, suc, ◌+◌, String, ◌<>◌, Option, none, some, ◌∷◌, ◌≡◌, refl, arith}
use pzsvc_exec.Prelude.Int.{ℤ, negsuc}
use pzsvc_exec.Host.{
  Host, Response, present, absent, Trace, GoError, plain, ret, panic, stat_file, is_sent,
}
use pzsvc_exec.Host.Exactly.{
  Exactly, Exactly-pure, Exactly-other, Exactly-on_nil, Exactly-bind, Exactly-cast, Exactly-after,
  exactly_rules,
}
use pzsvc_exec.Pzsvc.Http.{send}
use pzsvc_exec.Worker.Config.{InputSource}
use pzsvc_exec.Worker.Input.{check_and_open, open_new, attempt, attempts, store, download_input}

module _ (host : Host) where
  attempt-Exactly : (url : String) → Exactly is_sent 1 (attempt host url)
  unfolding attempt send
  attempt-Exactly url = search (exactly_rules) depth 12

  -- The loop over the retries does not end early: whether the downloads succeed or not, it sends
  -- as many requests as it has rounds, and it returns.
  pub attempts-Exactly :
      (url : String) (retries : ℤ) (left i : ℕ) (last : Option Response × Option GoError)
      → Exactly is_sent left (attempts host url retries left i last)
  unfolding attempts
  attempts-Exactly url retries zero i last = Exactly-pure last
  attempts-Exactly url retries (suc left) i last = Exactly-cast (1 + left) (omega arith) (
      Exactly-bind 1 left (attempt host url) _ (attempt-Exactly url) (λ (r, e).
        Exactly-after _ _ (Exactly-on_nil e _ _ (Exactly-pure tt) (λ e'. Exactly-other _ refl))
          (λ _. attempts-Exactly url retries left (i + 1) (r, e))))

  -- A file that is there already is not downloaded: the error says so, and nothing is sent,
  -- opened or written.
  pub download_input_present :
      (retries : ℤ) (source : InputSource) (t : Trace)
      → host.stat t source.file_name ≡ present
      → download_input host retries source t ≡ (
        ret (some (plain ("File already exists: " <> source.file_name))),
        stat_file source.file_name ∷ t,
      )
  unfolding download_input check_and_open open_new
  download_input_present retries source t there = rw there refl

  -- A negative HTTP_RETRIES makes every download of a new file panic: the loop has no round, and
  -- the body of the nil response is read.
  download_input_panics :
      (n : ℕ) (source : InputSource) (t : Trace) (e : GoError)
      → host.stat t source.file_name ≡ absent e
      → host.open_file (stat_file source.file_name ∷ t) source.file_name ≡ none
      → (download_input host (negsuc n) source t).0 ≡ panic
  unfolding download_input check_and_open open_new attempts store
  download_input_panics n source t e new opens = rw (new, opens) refl
