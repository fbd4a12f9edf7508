-- ===== src/Tests/ThreadRuns.antt =====
-- The theorems on the goroutines at concrete interleavings.
use pzsvc_exec.Prelude.{All, assign, true, String, none, List, [], ◌∷◌, ◌≡◌, ◌↔◌, refl, map}
use pzsvc_exec.Host.{Try, ok, plain}
use pzsvc_exec.Worker.Ingest.{
  MultiIngestOutput, AsyncIngestorCall, collect_results, ingest_file_async, add_result,
}
use pzsvc_exec.Pzsvc.Log.{log_audit, log_info, log_message, log_audit_response}
use pzsvc_exec.Pzsvc.File.{
  ingest_file, ingest, submit_ingest, typed_content, await_data_id, copy_map, ingest_request,
  loc_string,
}
use pzsvc_exec.Pzsvc.Http.{get_job_id, request_known_json, send, submit_single_part}
use pzsvc_exec.Pzsvc.Http.Uploads.{submit_multipart, fill_multipart}
use pzsvc_exec.Pzsvc.Job.{conclude, get_job_response, must_wait, poll_job, poll_round}
use pzsvc_exec.Worker.Log.{info, simple_err}
use pzsvc_exec.Worker.Ingest.Threads.{
  Ingestor, Inner, Outer, calling, offering, sending, sent, closed, answers, closes, here, Reading,
  behind, ahead, goes_on, start, later, launched, call_async_ingestor,
}
use pzsvc_exec.Worker.Ingest.Threads.Order.{InOrder, Ends, call_async_ingestor-Ends_iff}
use pzsvc_exec.Worker.Ingest.Threads.Panics.{Program, running}
use pzsvc_exec.Worker.Ingest.Threads.Leaks.{AreStillLeaked, Reach-AreStillLeaked}
use pzsvc_exec.Worker.Ingest.Threads.Sequential.{IsAnswer, ByTimer, collect_results-Ends}
use pzsvc_exec.Tests.Sample.{host, session, json, worker_config}

abbrev call_of : String → AsyncIngestorCall
call_of path = record {
  session = session;
  file_path = path;
  file_type = "text";
  service_id = "s1";
  alg_version = "1";
  att_map = [];
}

abbrev calls : List (AsyncIngestorCall × Try String)
calls = (call_of "a.txt", ok "d1") ∷ (call_of "b.txt", ok "d2") ∷ []

-- The first ingest in time, the second too late.
abbrev output : MultiIngestOutput
output = record {
  data_ids = ("a.txt", "d1") ∷ [];
  errors = plain "Unexpected error storing job output" ∷ [];
  combined_error = none;
}

call_async_ingestor-Ends_iff_example :
    Ends (call_async_ingestor calls []) output
    ↔ InOrder calls (record { data_ids = []; errors = []; combined_error = none }) output
call_async_ingestor-Ends_iff_example = call_async_ingestor-Ends_iff calls [] output

-- The second ingest ends before the first.
-- After the second ingest has answered, and its answer was passed on.
abbrev after_two : Program
after_two = running (record {
  passed = [];
  waiting =
      launched (call_of "a.txt", ok "d1")
      ∷ record {
        call = call_of "b.txt";
        answer = ok "d2";
        inner = Inner.finished;
        outer = sending (ok "d2");
      }
      ∷ [];
  output = record { data_ids = []; errors = []; combined_error = none };
})

-- The timeout, then the answer, which nobody receives, while the reader goes on.
abbrev late_call : Outer → Inner → Ingestor
late_call o i = record { call = call_of "a.txt"; answer = ok "d1"; inner = i; outer = o }

abbrev reading : List Ingestor → List Ingestor → Reading
reading p w = record { passed = p; waiting = w; output = output }

Reach-AreStillLeaked_example :
    AreStillLeaked (late_call sent calling ∷ []) (late_call closed (offering (ok "d1")) ∷ [])
Reach-AreStillLeaked_example =
    Reach-AreStillLeaked {s = reading [] (late_call sent calling ∷ [])}
      {t = reading (late_call closed (offering (ok "d1")) ∷ []) []}
      (later (later (later start (ahead (here closes))) goes_on) (behind (here answers)))

collect_results-Ends_example :
    (answered : List (AsyncIngestorCall × Try String)) × (map (λ c. c.0) answered
      ≡ call_of "a.txt" ∷ [])
    × All (IsAnswer host json) answered
    × ByTimer host json answered
        (record { data_ids = []; errors = []; combined_error = none })
        (record { data_ids = ("a.txt", "d1") ∷ []; errors = []; combined_error = none })
    × Ends
        (call_async_ingestor answered [])
        (record { data_ids = ("a.txt", "d1") ∷ []; errors = []; combined_error = none })
unfolding collect_results info ingest_file_async ingest_file log_audit ingest submit_ingest
    typed_content log_info log_message submit_multipart await_data_id log_audit_response assign
    copy_map ingest_request fill_multipart get_job_id request_known_json send submit_single_part
    conclude get_job_response must_wait poll_job poll_round loc_string simple_err add_result
collect_results-Ends_example =
    collect_results-Ends host json (record worker_config { mute_logs = true })
      (call_of "a.txt" ∷ []) [] [] _ refl
