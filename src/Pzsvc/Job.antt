-- ===== src/Pzsvc/Job.antt =====
-- pzsvc/http.go: GetJobResponse, which polls a job until Piazza has finished it.
pub mod Laws
pub mod Polling
pub mod Answers
pub mod Explained
pub mod Progress
use pzsvc_exec.Prelude.{
  ℕ, zero, suc, String, ◌<>◌, ◌==◌, Bool, true, false, ◌||◌, ◌&&◌, Option, none, some,
  if◌then◌else◌, is_some, not,
}
use pzsvc_exec.Host.{Host, Go, Outcome, ret, panic, slept, emit, pure, crash, on_nil, ◌>>=◌, ◌>>◌}
use pzsvc_exec.Pzsvc.Model.{Session, JobStatusResp, DataResult}
use pzsvc_exec.Pzsvc.Json.{PzJson}
use pzsvc_exec.Pzsvc.Log.{log_audit, info_level}
use pzsvc_exec.Pzsvc.CustomError.{PzCustomError, with_log_msg}
use pzsvc_exec.Pzsvc.Http.{request_known_json}

-- The test before `time.Sleep`. With the status "Error" it reads the result's message.
unfoldable pub must_wait : JobStatusResp → Outcome Bool
must_wait r =
    if r.status == "Submitted"
      || r.status == "Running"
      || r.status == "Pending"
      || (r.status == "Success" && not (is_some r.result))
    then ret true
    else if r.status == "Error"
    then on_nil r.result panic (λ d. ret (d.message == "Job Not Found."))
    else ret false

-- The answer for a job that need not be waited for.
unfoldable pub conclude : JobStatusResp → String → Option DataResult × Option PzCustomError
conclude r buf =
    if r.status == "Success"
    then (r.result, none)
    else if r.status == "Fail"
    then (
      none,
      some (with_log_msg ("Piazza failure when acquiring DataId.  Response json: " <> buf)),
    )
    else if r.status == "Error"
    then (none, some (with_log_msg ("Piazza error when acquiring DataId.  Response json: " <> buf)))
    else (
      none,
      some (
          with_log_msg (
            "Unknown status \"" <> r.status <> "\" when acquiring DataId.  Response json: "
            <> buf)),
    )

abbrev pub settle {ℓ} : {A : Type ℓ} → Outcome Bool → Go A → Go A → Go A
settle panic again done = crash
settle (ret true) again done = again
settle (ret false) again done = done

module _ (host : Host) (json : PzJson) (s : Session) (job_id : String) where
  -- One round of the loop, where `again` is what follows `time.Sleep`.
  unfoldable pub poll_round :
      Go (Option DataResult × Option PzCustomError) → Go (Option DataResult × Option PzCustomError)
  poll_round again = do
    let targ_addr = s.pz_addr <> "/job/" <> job_id
    log_audit host s s.user_id "http call - Checking job status - request" targ_addr "" info_level
    (obj, buf, e) ← request_known_json host "GET" "" targ_addr s.pz_auth json.job_status
    on_nil e
        (do
          log_audit host s targ_addr "http call - Checking job status - response" s.user_id buf
              info_level
          settle (must_wait obj) (do emit (slept 1); again) (pure (conclude obj buf)))
        (λ e'. pure (none, some e'))

  -- The loop, by the rounds that are left.
  unfoldable pub poll_job : ℕ → Go (Option DataResult × Option PzCustomError)
  poll_job zero = pure (none, some (with_log_msg ("Job never completed.  JobId: " <> job_id)))
  poll_job (suc n) = let again = poll_job n in poll_round again

  unfoldable pub get_job_response : Go (Option DataResult × Option PzCustomError)
  unfolding poll_job
  get_job_response =
      if job_id == ""
      then pure (none, some (with_log_msg "JobID not provided.  Cannot get Job Response."))
      else poll_job 300
