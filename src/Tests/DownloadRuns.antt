-- ===== src/Tests/DownloadRuns.antt =====
-- The theorems on the interleaved downloads at concrete inputs.
use pzsvc_exec.Prelude.{◌*◌, ◌≤◌, eq_iff, ◌≡◌, ◌≢◌, refl, none, some, [], ◌∷◌, All}
use pzsvc_exec.Worker.Config.{InputSource}
use pzsvc_exec.Worker.Input.Threads.{
  Disk, write, set_file, done, finds_none, opens, copies, here, there, receives_nil, further,
  Fetching, moves, reads, Runs, none_yet, and_then, started,
}
use pzsvc_exec.Worker.Input.Threads.Kept.{sources_of}
use pzsvc_exec.Worker.Input.Threads.Files.{IsDone, IsDownloaded, Runs-IsDownloaded}
use pzsvc_exec.Worker.Input.Threads.Ends.{started-Ends, IsStuck, HasEnded}
use pzsvc_exec.Prelude.{arith}
use pzsvc_exec.Prelude.Int.{negsuc}
use pzsvc_exec.Worker.Input.Threads.Panics.{
  panicked, goes, panics, fetches_here, program_start, program_later,
}
use pzsvc_exec.Text.{codes, atoi}
use pzsvc_exec.Pzsvc.Http.{send}
use pzsvc_exec.Pzsvc.Log.{log_info, log_message}
use pzsvc_exec.Worker.Log.{info}
use pzsvc_exec.Worker.Input.{
  fetch_inputs, start_downloads, collect, download_input, check_and_open, open_new,
  get_client_retries, error_of, attempts, attempt, store,
}
use pzsvc_exec.Worker.Input.Threads.Sequential.{AgreesWith, fetch_inputs-Runs}
use pzsvc_exec.Tests.Sample.{host, worker_config}
use pzsvc_exec.Worker.Input.Threads.Races.{twins, twins-IsDone}

abbrev empty_disk : Disk
empty_disk name = none

abbrev input_a : InputSource
input_a = record { file_name = "a.tif"; url = "https://h/a" }

abbrev input_b : InputSource
input_b = record { file_name = "b.tif"; url = "https://h/b" }

-- Both are downloaded, the second before the first.
abbrev disk_after : Disk
disk_after =
    write "a.tif" (1 ∷ 2 ∷ [])
      (set_file "a.tif" [] (write "b.tif" (3 ∷ []) (set_file "b.tif" [] empty_disk)))

abbrev fetched : Fetching
fetched = record {
  disk = disk_after;
  downloads =
      record { source = input_a; progress = done (1 ∷ 2 ∷ []) }
      ∷ record { source = input_b; progress = done (3 ∷ []) }
      ∷ [];
  position = 2;
  errors = 0;
}

fetched_run : Runs (started empty_disk (input_a ∷ input_b ∷ [])) fetched
fetched_run =
    and_then
      (and_then
        (and_then
          (and_then
            (and_then
              (and_then
                (and_then (and_then none_yet (moves (there (here (finds_none refl)))))
                  (moves (there (here opens))))
                (moves (there (here (copies (3 ∷ []))))))
              (moves (here (finds_none refl))))
            (moves (here opens)))
          (moves (here (copies (1 ∷ 2 ∷ [])))))
        (reads receives_nil))
      (reads (further receives_nil))

other_name : input_b.file_name ≢ input_a.file_name
other_name e = absurd (cc ((eq_iff "b.tif" "a.tif").1 e))

Runs-IsDownloaded_example :
    (sources_of fetched.downloads ≡ input_a ∷ input_b ∷ [])
    × All (IsDownloaded disk_after) fetched.downloads
Runs-IsDownloaded_example =
    Runs-IsDownloaded empty_disk (input_a ∷ input_b ∷ []) fetched ((other_name, tt), (tt, tt))
      fetched_run refl refl

twins-IsDone_example :
    (s : Fetching) × Runs (started empty_disk (twins "a.tif" "https://h/a" "https://h/b")) s
    × (s.position ≡ 2)
    × (s.errors ≡ 0)
    × All IsDone s.downloads
    × (s.disk "a.tif" ≡ some (4 ∷ 2 ∷ []))
    × ¬ All (IsDownloaded s.disk) s.downloads
twins-IsDone_example =
    twins-IsDone empty_disk "a.tif" "https://h/a" "https://h/b" (1 ∷ 2 ∷ []) (4 ∷ []) refl
      (λ e. absurd (cc))

-- HTTP_RETRIES is -1: the first download opens its file, and panics.
started-Ends_example : (3 ≤ 4 * 2) × (IsStuck (negsuc 0) panicked → HasEnded (negsuc 0) 2 panicked)
started-Ends_example = started-Ends (negsuc 0) empty_disk (input_a ∷ input_b ∷ []) 3 panicked (
    program_later
      (program_later
        (program_later program_start (goes (λ n e. omega arith) (moves (here (finds_none refl)))))
        (goes (λ n e. omega arith) (moves (here opens))))
      (panics refl fetches_here))

fetch_inputs-Runs_example :
    (s : Fetching) × Runs (started empty_disk (input_a ∷ input_b ∷ [])) s
    × (s.position ≡ 2)
    × (sources_of s.downloads ≡ input_a ∷ input_b ∷ [])
    × All (AgreesWith host codes) s.downloads
    × (none ≡ error_of s.errors)
unfolding fetch_inputs start_downloads collect info download_input check_and_open open_new
    get_client_retries atoi error_of attempts attempt store send log_info log_message
fetch_inputs-Runs_example =
    fetch_inputs-Runs host codes worker_config empty_disk (input_a ∷ input_b ∷ []) [] none
      ((other_name, tt), (tt, tt)) ((λ new. refl), ((λ new. refl), tt)) refl
