-- ===== src/Dispatcher/Poll/Failures.antt =====
-- What happens to a job whose task could not be created.
use pzsvc_exec.Prelude.{
  String, ◌==◌, ◌<>◌, true, false, none, some, ◌∷◌, ◌≡◌, ◌⊎◌, inl, inr, Bool-cases, refl,
}
use pzsvc_exec.Host.{
  Host, Trace, GoError, Try, Request, Response, plain, ok, err, ret, sent, pure, ◌>>=◌,
}
use pzsvc_exec.Pzsvc.Model.{piazza_status_fail}
use pzsvc_exec.Pzsvc.Log.{log_info, log_audit, log_message}
use pzsvc_exec.Pzsvc.Http.{json_request, submit_single_part, send, is_failure}
use pzsvc_exec.Pzsvc.ExecResult.{send_exec_result_no_data}
use pzsvc_exec.Dispatcher.JobData.{DispatcherJson}
use pzsvc_exec.Dispatcher.Cf.{is_memory_limit_error}
use pzsvc_exec.Dispatcher.Poll.{Loop, after_create}

Try-cases {ℓ} : {A : Type ℓ} (r : Try A) → ((a : A) × (r ≡ ok a)) ⊎ ((e : GoError) × (r ≡ err e))
Try-cases (ok a) = inl (a, refl)
Try-cases (err e) = inr (e, refl)

module _ (host : Host) (json : DispatcherJson) (l : Loop) (job_id : String) (e : GoError) where
  -- The report that the job has failed.
  abbrev pub fail_report : Request
  fail_report =
      json_request "POST"
        (json.pz.encode_status (record { status = piazza_status_fail; result = none }))
        (l.pz_session.pz_addr <> "/service/" <> l.svc_id <> "/task/" <> job_id) l.pz_session.pz_auth

  -- The trace when the report is sent.
  abbrev pub before_report : Trace → Trace
  before_report t =
      (log_info host l.pz_session
        ("Sending exec results, no body data. URL=" <> fail_report.url <> " Status="
          <> piazza_status_fail <> " ")
        t).1

  reported :
      (t : Trace) (answer : Try Response)
      → (fail_report.url == "") ≡ false
      → host.request_error "POST" fail_report.url ≡ none
      → host.respond t fail_report ≡ answer
      → (submit_single_part host "POST" fail_report.body fail_report.url l.pz_session.pz_auth
            >>= (λ (_, e'). pure e')
            >>= λ _. pure (some e))
          t
        ≡ (ret (some e), sent fail_report ∷ t)
  unfolding submit_single_part send
  reported t (err e') named free reply = rw (named, free, reply) refl
  reported t (ok r) named free reply = elim (Bool-cases (is_failure r.status_code)) [
    | inl bad ↦ rw (named, free, reply, bad) refl
    | inr good ↦ rw (named, free, reply, good) refl
  ]

  -- Where a task could not be created for another reason than a limit on memory, the job is
  -- reported as failed with one request, and nothing else is sent; where a limit on memory was met
  -- nothing is sent, and the job stays as it is. The session has no audit log, and the report's URL
  -- is one that a request can be made of.
  pub after_create_lem :
      (t : Trace)
      → l.pz_session.log_audit ≡ false
      → (fail_report.url == "") ≡ false
      → host.request_error "POST" fail_report.url ≡ none
      → (is_memory_limit_error host e ≡ false
          → after_create host json l job_id (some e) t
            ≡ (ret (some e), sent fail_report ∷ before_report t))
        × (is_memory_limit_error host e ≡ true
            → after_create host json l job_id (some e) t
              ≡ (ret (some (plain "CF memory limit hit, will retry job later")), t))
  unfolding after_create log_audit send_exec_result_no_data log_info log_message
  after_create_lem t quiet named free = (
    λ job. simp (job, quiet) (reported (before_report t) _ named free refl),
    λ limit. simp (limit, quiet) refl,
  )
