-- ===== src/Tests/ReportRuns.antt =====
-- The reports of a worker whose functions are doubles.
use pzsvc_exec.Prelude.{String, suc, Option, none, some, [], ◌≡◌, refl, ap, count}
use pzsvc_exec.Host.{Event, is_sent, sent, ran, pure, emit, ◌>>◌}
use pzsvc_exec.Host.Adds.{Adds, Adds-pure, Adds-emit, Adds-bind, adds_rules}
use pzsvc_exec.Host.Returns.{Returns-pure}
use pzsvc_exec.Pzsvc.Log.{log_info, log_message}
use pzsvc_exec.Worker.Log.{info}
use pzsvc_exec.Worker.Exec.{
  Worker, WorkerOutputData, exec, exec_version, exec_algorithm, exec_ingest, output_to_piazza,
  run_command,
}
use pzsvc_exec.Worker.Exec.Once.{ReportsOnce, exec-ReportsOnce}
use pzsvc_exec.Worker.Exec.Reports.{IsReport, Behaves, exec-Behaves}
use pzsvc_exec.Tests.Sample.{host, worker_config}

abbrev encode : WorkerOutputData → String
encode d = d.prog_std_out

abbrev text_of : Option String → String
text_of none = ""
text_of (some s) = s

-- Reports are sent with their status as the method and the output as the body.
abbrev doubles : Worker
doubles = record {
  fetch_inputs_func = λ cfg inputs. pure none;
  output_files_to_piazza_func =
      λ cfg command version. pure (record { data_ids = []; errors = []; combined_error = none });
  piazza_outputter = record {
    send_func = λ s addr svc_id job_id status report.
        emit (sent (record { method = status; url = addr; header = []; body = text_of report }))
        >> pure none;
  };
  command_runner = record { exec_func = λ argv. emit (ran argv) >> pure ("1.0", none) };
}

-- What is sent is a report.
abbrev SendsReport : Event → Type 0
SendsReport (sent r) = IsReport encode r.method (some r.body)
SendsReport _ = Unit

doubles-Behaves : Behaves SendsReport worker_config doubles encode
doubles-Behaves = record {
  logs = λ line. tt;
  fetches = Adds-pure none;
  runs = λ argv. search (adds_rules, Adds-emit) depth 6;
  ingests = λ command version. Adds-pure _;
  explains = λ command version. Returns-pure _ (λ h. absurd (h refl));
  sends = λ status report (d, e, outcome).
      Adds-bind _ _ (Adds-emit _ (d, ap (λ r. some (text_of r)) e, outcome)) (λ _. Adds-pure none);
}

exec-Behaves_example : Adds SendsReport (exec host worker_config doubles encode)
exec-Behaves_example = exec-Behaves host worker_config doubles encode SendsReport doubles-Behaves

doubles-ReportsOnce : ReportsOnce is_sent worker_config doubles
doubles-ReportsOnce = record {
  logs = λ line. refl;
  fetches = Adds-pure none;
  runs = λ argv. Adds-bind _ _ (Adds-emit (ran argv) refl) (λ _. Adds-pure ("1.0", none));
  ingests = λ command version. Adds-pure _;
  sends = λ n status report. record { at = λ t h. ap suc h };
}

exec-ReportsOnce_example :
    count is_sent (exec host worker_config doubles encode []).1 ≡ suc (count is_sent [])
unfolding exec exec_version exec_algorithm exec_ingest output_to_piazza run_command info log_info
    log_message
exec-ReportsOnce_example =
    exec-ReportsOnce host worker_config doubles encode is_sent doubles-ReportsOnce [] none refl
