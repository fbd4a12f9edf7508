-- ===== src/Worker/Exec/Reported.antt =====
-- worker/workerexec and pzsvc/execresult.go: the report of a job to the address of its task.
use text.Mathlib.TextLemmas.{append_cancel_left, append-ne-nil_of_right_ne-nil}
use pzsvc_exec.Prelude.{
  ℕ, suc, sym, List, ◌∷◌, eq_refl, String, ◌<>◌, ◌==◌, Bool, false, ◌&&◌, Option, none, ◌≡◌, ◌≢◌,
  refl, ap, ◌∙◌, arith, eq_iff,
}
use pzsvc_exec.Text.{codes}
use pzsvc_exec.Text.Laws.{codes-append}
use pzsvc_exec.Host.{Host, Event, Trace, Go, Outcome, panic, sent, ret}
use pzsvc_exec.Host.Adds.{Adds, Adds-on_error, adds_rules}
use pzsvc_exec.Host.Triple.{Post, Triple, Triple-pure, Triple-bind, Triple-keeps}
use pzsvc_exec.Pzsvc.Json.{PzJson}
use pzsvc_exec.Pzsvc.Log.Laws.{log_info-Adds}
use pzsvc_exec.Pzsvc.Http.{submit_single_part, send, json_request}
use pzsvc_exec.Pzsvc.File.Laws.{IngestRequests, ingest-Adds}
use pzsvc_exec.Pzsvc.ExecResult.{send_exec_result_data}
use pzsvc_exec.Worker.Config.{WorkerConfig}
use pzsvc_exec.Worker.Exec.{new_worker}
use pzsvc_exec.Worker.Exec.Rules.{fetch_inputs-Adds, output_files-Adds}
use pzsvc_exec.Worker.Exec.Once.{HasReported, Always, ReportsOnce}

-- The address of a task at Piazza.
abbrev pub task_url : (base svc_id job_id : String) → String
task_url base svc_id job_id = base <> "/service/" <> svc_id <> "/task/" <> job_id

-- A status that is sent for the task.
abbrev pub is_task_report : (url : String) → Event → Bool
is_task_report url (sent r) = (r.method == "POST") && (r.url == url)
is_task_report url _ = false

abbrev second : List ℕ → ℕ
second (a ∷ b ∷ l) = b
second _ = 0

-- No upload goes to an address of a service: "/data" and "/service" differ in their second letter.
other_path : (path x : String) → second (codes path) ≡ 100 → path ≢ "/service/" <> x
other_path path x h e =
    let differ : 100 ≡ 115 =
      sym h ∙ ap (λ s. second (codes s)) e ∙ ap second (codes-append "/service/" x) in
    absurd (omega (arith, differ))

has_service : (base x : String) → (base <> "/service/" <> x == "") ≡ false
has_service base x = ground (arith, eq_iff (base <> "/service/" <> x) "", no_text)
  where
    no_text : base <> "/service/" <> x ≢ ""
    no_text =
        append-ne-nil_of_right_ne-nil base
          (λ e. absurd (cc (sym (codes-append "/service/" x) ∙ ap codes e)))

other_url : (base p q : String) → p ≢ q → (base <> p == base <> q) ≡ false
other_url base p q h =
    ground (arith, eq_iff (base <> p) (base <> q), append_cancel_left base p q, h)

module _ (host : Host) (url : String) where
  abbrev Reported : ℕ → Trace → Type 0
  Reported = HasReported (is_task_report url)

  -- An action without a report.
  quiet {ℓ} :
      {A : Type ℓ} (k : ℕ) (m : Go A)
      → Adds (λ e. is_task_report url e ≡ false) m
      → Triple Always (Reported k) m (λ _. Reported k)
  quiet k m h = Triple-keeps _ m (λ e t q p. rw q p) (λ t p. tt) h

  -- The request is sent, whatever the answer.
  submit-trace :
      (body auth : String) (t : Trace)
      → (url == "") ≡ false
      → host.request_error "POST" url ≡ none
      → (submit_single_part host "POST" body url auth t).1
        ≡ sent (json_request "POST" body url auth) ∷ t
  unfolding submit_single_part send
  submit-trace body auth t named accepted = ground (arith, named, accepted)

  Post-known :
      {A : Type 0} (k : ℕ) (o : Outcome A) (t : Trace)
      → Reported k t
      → Post Always (λ _. Reported k) (o, t)
  Post-known k (ret a) t h = h
  Post-known k panic t h = tt

  submit_once :
      (body auth : String) (n : ℕ)
      → (url == "") ≡ false
      → host.request_error "POST" url ≡ none
      → Triple Always
          (Reported n)
          (submit_single_part host "POST" body url auth)
          (λ _. Reported (suc n))
  submit_once body auth n named accepted = record {
    at = λ t h.
        Post-known (suc n) _ _ (rw (submit-trace body auth t named accepted, eq_refl url, h) refl);
  }

module _ (host : Host) (cfg : WorkerConfig) (json : PzJson)
    (same : cfg.session.pz_addr ≡ cfg.piazza_base_url)
    (accepted : host.request_error "POST"
        (task_url cfg.piazza_base_url cfg.piazza_service_id cfg.job_id)
      ≡ none) where
  abbrev url : String
  url = task_url cfg.piazza_base_url cfg.piazza_service_id cfg.job_id

  abbrev NoReport : Event → Type 0
  NoReport e = is_task_report url e ≡ false

  other_request :
      (path : String) → second (codes path) ≡ 100 → (cfg.session.pz_addr <> path == url) ≡ false
  other_request path h = rw same (
      other_url cfg.piazza_base_url path
        ("/service/" <> cfg.piazza_service_id <> "/task/" <> cfg.job_id) (other_path path _ h))

  requests : IngestRequests NoReport host cfg.session
  requests = record {
    submits = λ body. rw (other_request "/data" refl) refl;
    uploads = λ body filename file. rw (other_request "/data/file" refl) refl;
    polls = λ id. refl;
  }

  send_once-task :
      (n : ℕ) (status : String) (report : Option String)
      → Triple Always
          (HasReported (is_task_report url) n)
          (send_exec_result_data host json cfg.session cfg.piazza_base_url cfg.piazza_service_id
            cfg.job_id status report)
          (λ _. HasReported (is_task_report url) (suc n))
  unfolding send_exec_result_data
  send_once-task n status report =
      Triple-bind _ _ _
        (quiet host url n _ (log_info-Adds host {Q = NoReport} (λ line. refl) cfg.session _))
        (λ _.
          Triple-bind _ _ _
            (quiet host url n _ (log_info-Adds host {Q = NoReport} (λ line. refl) cfg.session _))
            (λ _.
              Triple-bind _ _ _
                (quiet host url n _ (
                  ingest-Adds host json cfg.session {Q = NoReport} (λ line. refl) refl requests _ _
                    _ _ _ _))
                (λ r.
                  Triple-bind _ _ _
                    (quiet host url n _ (
                      Adds-on_error r _ _
                        (λ e. log_info-Adds host {Q = NoReport} (λ line. refl) cfg.session _)
                        (λ d. log_info-Adds host {Q = NoReport} (λ line. refl) cfg.session _)))
                    (λ _.
                      Triple-bind _ _ _
                        (submit_once host url _ _ n
                          (has_service cfg.piazza_base_url
                            (cfg.piazza_service_id <> "/task/" <> cfg.job_id))
                          accepted)
                        (λ (r, e). Triple-pure e (λ t h. h))))))

  -- The worker that NewWorker makes.
  pub new_worker-ReportsOnce : ReportsOnce (is_task_report url) cfg (new_worker host json)
  new_worker-ReportsOnce = record {
    logs = λ line. refl;
    fetches =
        fetch_inputs-Adds host cfg {Q = NoReport} (λ line. refl) (λ u. refl) (λ f. refl) (λ f. refl)
          (λ f c. refl) cfg.inputs;
    runs = λ argv. search (adds_rules) depth 9;
    ingests = λ command version.
        output_files-Adds host cfg {Q = NoReport} (λ line. refl) requests json refl (λ f. refl)
          (λ f. refl) command version;
    sends = send_once-task;
  }
