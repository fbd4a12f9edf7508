-- ===== src/Tests/PzsvcRuns.antt =====
-- The theorems on pzsvc at concrete inputs.
use pzsvc_exec.Prelude.{
  ◌+◌, ◌≤◌, Bool, true, none, some, [], ◌∷◌, ◌≡◌, ◌↔◌, refl, arith, String, count,
}
use pzsvc_exec.Host.{Host, Trace, Event, ok, slept, ret, sent, is_sent, is_log}
use pzsvc_exec.Host.Adds.{Adds}
use pzsvc_exec.Pzsvc.Model.{zero_job_status}
use pzsvc_exec.Pzsvc.Json.{PzJson}
use pzsvc_exec.Pzsvc.Log.{log_audit}
use pzsvc_exec.Pzsvc.Http.{json_request, request_known_json, submit_single_part}
use pzsvc_exec.Pzsvc.Http.Laws.{ToPiazza}
use pzsvc_exec.Pzsvc.Job.{get_job_response, poll_job, poll_round, must_wait, conclude}
use pzsvc_exec.Pzsvc.Job.Polling.{get_job_response_bounded}
use pzsvc_exec.Pzsvc.Job.Progress.{Replies, at_once, and_again, decides, get_job_response-Settles}
use pzsvc_exec.Pzsvc.Job.Explained.{get_job_response-Explained, Explained}
use pzsvc_exec.Pzsvc.Service.{manage_registration}
use pzsvc_exec.Pzsvc.Service.Laws.{manage_registration-ToPiazza}
use pzsvc_exec.Pzsvc.Config.{check_config}
use pzsvc_exec.Pzsvc.Config.Laws.{check_config-CanRegister, CanRegister}
use pzsvc_exec.Tests.Sample.{host, response, session, json, config, service, result_data}

get_job_response_bounded_example :
    count is_sent (get_job_response host json session "7" []).1 ≤ count is_sent [] + 300
get_job_response_bounded_example = get_job_response_bounded host json session "7" []

-- A Piazza whose job runs until it is asked for the second time.
abbrev stage : Trace → String
stage (slept n ∷ t) = "Success"
stage t = "Running"

abbrev slow_host : Host
slow_host = record host {
  respond = λ t r. ok (record response { body = record { content = stage t; failure = none } });
}

abbrev stage_json : PzJson
stage_json = record json {
  job_status = record {
    zero = zero_job_status;
    decode = λ text. (record zero_job_status { status = text; result = some result_data }, none);
  };
}

abbrev job_request : Event
job_request = sent (json_request "GET" "" "https://piazza/job/7" "Basic key")

first_reply :
    Replies slow_host stage_json session "7" []
      (record zero_job_status { status = "Running"; result = some result_data })
      "Running"
      (job_request ∷ [])
unfolding log_audit request_known_json submit_single_part
first_reply = record {
  before = [];
  after = job_request ∷ [];
  asks = refl;
  answers = refl;
  notes = refl;
}

second_reply :
    Replies slow_host stage_json session "7"
      (slept 1 ∷ job_request ∷ [])
      (record zero_job_status { status = "Success"; result = some result_data })
      "Success"
      (job_request ∷ slept 1 ∷ job_request ∷ [])
unfolding log_audit request_known_json submit_single_part
second_reply = record {
  before = slept 1 ∷ job_request ∷ [];
  after = job_request ∷ slept 1 ∷ job_request ∷ [];
  asks = refl;
  answers = refl;
  notes = refl;
}

get_job_response-Settles_example :
    get_job_response slow_host stage_json session "7" []
    ≡ (ret (some result_data, none), job_request ∷ slept 1 ∷ job_request ∷ [])
unfolding must_wait conclude
get_job_response-Settles_example =
    get_job_response-Settles slow_host stage_json session "7" refl
      (and_again first_reply refl at_once) (decides (omega arith) second_reply refl)

get_job_response-Explained_example : Explained host json session "7" (some result_data, none)
unfolding get_job_response poll_job poll_round must_wait conclude request_known_json
    submit_single_part log_audit
get_job_response-Explained_example =
    get_job_response-Explained host json session "7" [] (some result_data, none) refl

manage_registration-ToPiazza_example :
    Adds (ToPiazza session) (manage_registration host json session service)
manage_registration-ToPiazza_example = manage_registration-ToPiazza host json session service

check_config-CanRegister_example :
    (b : Bool) × ((check_config host session config []).0 ≡ ret b)
    × ((b ≡ true) ↔ CanRegister config)
    × Adds (λ e. is_log e ≡ true) (check_config host session config)
check_config-CanRegister_example = check_config-CanRegister host session config []
