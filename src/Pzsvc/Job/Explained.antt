-- ===== src/Pzsvc/Job/Explained.antt =====
-- pzsvc/http.go: the reply behind what GetJobResponse returns.
use pzsvc_exec.Prelude.{
  ℕ, zero, suc, String, ◌<>◌, ◌==◌, Bool, true, false, Option, none, some, ◌≡◌, refl, sym, ap, ◌∙◌,
  arith, eq_iff, if◌then◌else◌, is_some,
}
use text.Mathlib.TextLemmas.{append_assoc}
use pzsvc_exec.Host.{Host, Go, Trace, ret, on_nil, pure, emit, slept}
use pzsvc_exec.Pzsvc.Log.{log_audit, info_level}
use pzsvc_exec.Host.Returns.{Returns, Returns-pure, Returns-then, Returns-bind, Returns-if_eq}
use pzsvc_exec.Pzsvc.Model.{Session, DataResult, JobStatusResp}
use pzsvc_exec.Pzsvc.Json.{PzJson}
use pzsvc_exec.Pzsvc.CustomError.{PzCustomError, with_log_msg}
use pzsvc_exec.Pzsvc.Http.{request_known_json}
use pzsvc_exec.Pzsvc.Job.{must_wait, conclude, poll_round, poll_job, get_job_response}
use pzsvc_exec.Pzsvc.Job.Answers.{Returns-settle}

if_cases {ℓ} :
    {A : Type ℓ} (P : A → Type 0) (b : Bool) (x y : A)
    → (b ≡ true → P x)
    → (b ≡ false → P y)
    → P (if b then x else y)
if_cases P true x y hx hy = hx refl
if_cases P false x y hx hy = hy refl

module _ (host : Host) (json : PzJson) (s : Session) (id : String) where
  -- The request for the job's status, at some point of a run, was answered with these.
  abbrev pub IsReply : JobStatusResp × String × Option PzCustomError → Type 0
  IsReply reply =
      (t : Trace) × ((request_known_json host "GET" "" (s.pz_addr <> "/job/" <> id) s.pz_auth
          json.job_status t).0
        ≡ ret reply)

  -- What the wait for a job may return, and why: the result of a reply that reports success; an
  -- error that quotes a reply with another status, one that is not waited for; the error of a request;
  -- too many replies; no job.
  pub data Explained : Option DataResult × Option PzCustomError → Type 0 where
    succeeded :
        {r : JobStatusResp} {buf : String} {d : DataResult}
        → IsReply (r, buf, none)
        → r.status ≡ "Success"
        → r.result ≡ some d
        → Explained (some d, none)
    ended :
        {r : JobStatusResp} {buf : String} {e : PzCustomError} (m : String)
        → IsReply (r, buf, none)
        → (r.status == "Success") ≡ false
        → (r.status == "Submitted") ≡ false
        → (r.status == "Running") ≡ false
        → (r.status == "Pending") ≡ false
        → e ≡ with_log_msg (m <> buf)
        → Explained (none, some e)
    refused :
        {r : JobStatusResp} {buf : String} {e : PzCustomError}
        → IsReply (r, buf, some e)
        → Explained (none, some e)
    unfinished : Explained (none, some (with_log_msg ("Job never completed.  JobId: " <> id)))
    unnamed :
        (id == "") ≡ true
        → Explained (none, some (with_log_msg "JobID not provided.  Cannot get Job Response."))

  -- What a reply that is not waited for is like.
  not_waited :
      (r : JobStatusResp)
      → must_wait r ≡ ret false
      → ((r.status == "Submitted") ≡ false)
        × ((r.status == "Running") ≡ false)
        × ((r.status == "Pending") ≡ false)
        × ((r.status == "Success") ≡ true → is_some r.result ≡ true)
  unfolding must_wait
  not_waited r h = ground arith

  succeeded_if :
      {r : JobStatusResp} {buf : String} (result : Option DataResult)
      → is_some result ≡ true
      → IsReply (r, buf, none)
      → r.status ≡ "Success"
      → r.result ≡ result
      → Explained (result, none)
  succeeded_if none some_result reply st res = absurd (cc)
  succeeded_if (some d) some_result reply st res = succeeded reply st res

  conclude-Explained :
      (r : JobStatusResp) (buf : String)
      → IsReply (r, buf, none)
      → must_wait r ≡ ret false
      → Explained (conclude r buf)
  unfolding conclude
  conclude-Explained r buf reply h =
      let (sub, run, pen, has) = not_waited r h in
      if_cases Explained (r.status == "Success") _ _
        (λ k. succeeded_if r.result (has k) reply ((eq_iff r.status "Success").0 k) refl)
        (λ k.
          let failed : (m : String) (e : PzCustomError)
              → e ≡ with_log_msg (m <> buf)
              → Explained (none, some e) =
            λ m e same. ended m reply k sub run pen same in
          if_cases Explained (r.status == "Fail") _ _
            (λ _. failed "Piazza failure when acquiring DataId.  Response json: " _ refl)
            (λ _.
              if_cases Explained (r.status == "Error") _ _
                (λ _. failed "Piazza error when acquiring DataId.  Response json: " _ refl)
                (λ _.
                  failed
                    ("Unknown status \"" <> r.status
                      <> "\" when acquiring DataId.  Response json: ")
                    _
                    (sym (
                      ap with_log_msg (
                        append_assoc "Unknown status \""
                          (r.status <> "\" when acquiring DataId.  Response json: ") buf
                        ∙ ap (λ x. "Unknown status \"" <> x)
                            (append_assoc r.status "\" when acquiring DataId.  Response json: "
                              buf)))))))

  on_reply :
      (k : Go (Option DataResult × Option PzCustomError)) (obj : JobStatusResp) (buf : String)
      (e : Option PzCustomError)
      → IsReply (obj, buf, e)
      → (IsReply (obj, buf, none) → Returns Explained k)
      → Returns Explained (on_nil e k (λ e'. pure (none, some e')))
  on_reply k obj buf none reply hk = hk reply
  on_reply k obj buf (some e) reply hk = Returns-pure _ (refused reply)

  poll_round-Explained :
      (m : Go (Option DataResult × Option PzCustomError))
      → Returns Explained m
      → Returns Explained (poll_round host json s id m)
  unfolding poll_round
  poll_round-Explained m h = Returns-then _ _ (λ _.
      Returns-bind IsReply _ _ (record { at = λ t r e. (t, e) })
        (λ (obj, buf, e) reply. on_reply _ obj buf e reply (λ received.
          Returns-then
            (log_audit host s (s.pz_addr <> "/job/" <> id)
              "http call - Checking job status - response" s.user_id buf info_level)
            _
            (λ _.
              Returns-settle (must_wait obj) _ _ (Returns-then (emit (slept 1)) (λ _. m) (λ _. h))
                (λ done. Returns-pure _ (conclude-Explained obj buf received done))))))

  poll_job-Explained : (n : ℕ) → Returns Explained (poll_job host json s id n)
  unfolding poll_job
  poll_job-Explained zero = Returns-pure _ unfinished
  poll_job-Explained (suc n) = poll_round-Explained _ (poll_job-Explained n)

  -- Whenever the wait for a job returns, it returns the result of a reply with the status "Success",
  -- or an error that quotes a reply with a status that is neither "Success" nor waited for, or the
  -- error of a request, or that the job was never completed, or that no job is named.
  pub get_job_response-Explained :
      (t : Trace) (r : Option DataResult × Option PzCustomError)
      → (get_job_response host json s id t).0 ≡ ret r
      → Explained r
  unfolding get_job_response
  get_job_response-Explained =
      (Returns-if_eq (id == "") _ _ (λ k. Returns-pure _ (unnamed k))
        (λ _. poll_job-Explained 300)).at
