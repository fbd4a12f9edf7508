-- ===== src/Worker/Exec/Rules.antt =====
-- What the steps of a job other than its commands add to the trace.
use pzsvc_exec.Prelude.{
  ◌≡◌, ◌<>◌, sym, subst, All, ℕ, zero, suc, ◌+◌, String, Option, List, [], ◌∷◌,
}
use pzsvc_exec.Prelude.Int.{ℤ}
use pzsvc_exec.Host.{
  Host, Event, Response, GoError, FileState, present, absent, unknown, logged, sent, slept, read,
  written, opened, stat_file,
}
use pzsvc_exec.Host.Adds.{
  Adds, Adds-bind, Adds-on_nil, Adds-on_error, Adds-pure, Adds-emit, adds_rules,
}
use pzsvc_exec.Host.Runs.{Adds-bind_of}
use pzsvc_exec.Pzsvc.Json.{PzJson}
use pzsvc_exec.Pzsvc.CustomError.Laws.{log-Adds}
use pzsvc_exec.Pzsvc.File.Laws.{IngestRequests, ingest_file-Adds}
use pzsvc_exec.Pzsvc.ExecResult.Laws.{send_exec_result_data-Adds}
use pzsvc_exec.Pzsvc.Http.{json_request}
use pzsvc_exec.Pzsvc.Http.Laws.{send-Adds}
use pzsvc_exec.Worker.Config.{WorkerConfig, InputSource}
use pzsvc_exec.Worker.Log.{info-Adds, simple_err-Adds}
use pzsvc_exec.Worker.Input.{
  open_new, check_and_open, attempt, attempts, store, download_input, start_downloads, collect,
  fetch_inputs,
}
use pzsvc_exec.Worker.Ingest.{
  MultiIngestOutput, AsyncIngestorCall, ingest_file_async, prepare_call, assemble_ingestor_calls,
  collect_results, output_files_to_piazza,
}
use pzsvc_exec.Worker.Ingest.Sessions.{HaveSession, assemble-HaveSession}
use pzsvc_exec.Worker.Exec.{new_worker, WorkerOutputData, EncodeOutput, output_to_piazza}

module _ (host : Host) (cfg : WorkerConfig) {Q : Event → Type 0}
    (q : (line : String) → Q (logged line)) where
  module _
      (gets : (url : String)
        → Q (sent (record { method = "GET"; url = url; header = []; body = "" })))
      (stats : (f : String) → Q (stat_file f)) (opens : (f : String) → Q (opened f))
      (writes : (f c : String) → Q (written f c)) where
    open_new-Adds : (f : String) (state : FileState) → Adds Q (open_new host f state)
    unfolding open_new
    open_new-Adds f present = search adds_rules
    open_new-Adds f (unknown e) = search adds_rules
    open_new-Adds f (absent e) = search (adds_rules, opens)

    check_and_open-Adds : (f : String) → Adds Q (check_and_open host f)
    unfolding check_and_open
    check_and_open-Adds f = search (adds_rules, stats, open_new-Adds) depth 9

    attempt-Adds : (url : String) → Adds Q (attempt host url)
    unfolding attempt
    attempt-Adds url = search (adds_rules, send-Adds host {Q = Q}, gets) depth 9

    attempts-Adds :
        (url : String) (retries : ℤ) (left i : ℕ) (last : Option Response × Option GoError)
        → Adds Q (attempts host url retries left i last)
    unfolding attempts
    attempts-Adds url retries zero i last = search adds_rules
    attempts-Adds url retries (suc left) i last =
        Adds-bind (attempt host url) _ (attempt-Adds url) (λ (r, e).
          Adds-bind _ _ (Adds-on_nil e _ _ (Adds-pure tt) (λ e'. Adds-emit _ (q _)))
            (λ _. attempts-Adds url retries left (i + 1) (r, e)))

    store-Adds : (f : String) (last : Option Response × Option GoError) → Adds Q (store host f last)
    unfolding store
    store-Adds f last = search (adds_rules, writes) depth 9

    download_input-Adds :
        (retries : ℤ) (source : InputSource) → Adds Q (download_input host retries source)
    unfolding download_input
    download_input-Adds retries source =
        search (adds_rules, check_and_open-Adds, attempts-Adds, store-Adds) depth 9

    collect-Adds :
        (retries : ℤ) (inputs : List InputSource) (n : ℕ)
        → Adds Q (collect host cfg retries inputs n)
    unfolding collect
    collect-Adds retries [] n = search adds_rules
    collect-Adds retries (i ∷ inputs) n =
        search
          (
            adds_rules,
            download_input-Adds,
            info-Adds host cfg {Q = Q} q,
            collect-Adds retries inputs,
          )
          depth 9

    start_downloads-Adds : (inputs : List InputSource) → Adds Q (start_downloads host cfg inputs)
    unfolding start_downloads
    start_downloads-Adds [] = search adds_rules
    start_downloads-Adds (i ∷ inputs) =
        Adds-bind _ _ (info-Adds host cfg {Q = Q} q _) (λ _. start_downloads-Adds inputs)

    pub fetch_inputs-Adds : (inputs : List InputSource) → Adds Q (fetch_inputs host cfg inputs)
    unfolding fetch_inputs
    fetch_inputs-Adds inputs = search (adds_rules, start_downloads-Adds, collect-Adds) depth 9

  module _ (requests : IngestRequests Q host cfg.session) (json : PzJson)
      (sleeps : Q (slept 1)) where
    pub output_to_piazza-Adds :
        ((body : String)
          → Q (
              sent (
                json_request "POST" body
                  (cfg.piazza_base_url <> "/service/" <> cfg.piazza_service_id <> "/task/"
                    <> cfg.job_id)
                  cfg.session.pz_auth)))
        → (encode : EncodeOutput) (d : WorkerOutputData)
        → Adds Q (output_to_piazza host cfg (new_worker host json) encode d)
    unfolding output_to_piazza
    output_to_piazza-Adds reports encode d =
        search
          (
            adds_rules,
            info-Adds host cfg {Q = Q} q,
            log-Adds host {Q = Q} q,
            send_exec_result_data-Adds host json cfg.session {Q = Q} q sleeps requests
                cfg.piazza_base_url cfg.piazza_service_id cfg.job_id reports,
          )
          depth 9

    module _ (reads : (f : String) → Q (read f)) (stats : (f : String) → Q (stat_file f)) where
      async-Adds :
          (c : AsyncIngestorCall) → c.session ≡ cfg.session → Adds Q (ingest_file_async host json c)
      unfolding ingest_file_async
      async-Adds c e =
          search
            (
              adds_rules,
              ingest_file-Adds host json c.session {Q = Q} q sleeps
                  (subst (λ s. IngestRequests Q host s) (sym e) requests) reads,
            )
            depth 9

      prepare-Adds :
          (command version f : String) → Adds Q (prepare_call host json cfg command version f)
      unfolding prepare_call
      prepare-Adds command version f =
          search
            (adds_rules, info-Adds host cfg {Q = Q} q, simple_err-Adds host cfg {Q = Q} q, stats)
            depth 14

      assemble-Adds :
          (command version : String) (files : List String)
          → Adds Q (assemble_ingestor_calls host json cfg command version files)
      unfolding assemble_ingestor_calls
      assemble-Adds command version [] = search adds_rules
      assemble-Adds command version (f ∷ files) =
          Adds-bind _ _ (prepare-Adds command version f) (λ r.
            Adds-bind _ _ (assemble-Adds command version files) (λ (calls, errors). Adds-pure _))

      collect_results-Adds :
          (calls : List AsyncIngestorCall) (out : MultiIngestOutput)
          → All (λ c. c.session ≡ cfg.session) calls
          → Adds Q (collect_results host json cfg calls out)
      unfolding collect_results
      collect_results-Adds [] out h = search adds_rules
      collect_results-Adds (c ∷ calls) out (h, hs) =
          let rest : (o : MultiIngestOutput) → Adds Q (collect_results host json cfg calls o) =
            λ o. collect_results-Adds calls o hs in
          let call : Adds Q (ingest_file_async host json c) = async-Adds c h in
          Adds-bind _ _ call (λ r.
            Adds-bind _ _
              (Adds-on_error r.result _ _ (λ e. simple_err-Adds host cfg {Q = Q} q _ _)
                (λ id. info-Adds host cfg {Q = Q} q _))
              (λ _. rest _))

      pub output_files-Adds :
          (command version : String) → Adds Q (output_files_to_piazza host json cfg command version)
      unfolding output_files_to_piazza
      output_files-Adds command version =
          Adds-bind_of (HaveSession host json cfg) _ _ (assemble-Adds command version cfg.outputs)
            (assemble-HaveSession host json cfg command version cfg.outputs)
            (λ (calls, errors) h.
              Adds-bind _ _ (collect_results-Adds calls _ h)
                (λ out. search (adds_rules, simple_err-Adds host cfg {Q = Q} q) depth 12))
