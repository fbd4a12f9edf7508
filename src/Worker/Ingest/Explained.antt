-- ===== src/Worker/Ingest/Explained.antt =====
-- worker/ingest: the combined error beside the errors that it combines.
use pzsvc_exec.Prelude.{String, none, List, [], ◌∷◌, ◌≡◌, ◌≢◌, refl}
use pzsvc_exec.Host.{Host, GoError, Try, ok, err}
use pzsvc_exec.Host.Returns.{Returns, Returns-pure, Returns-then, Returns-bind}
use pzsvc_exec.Pzsvc.Json.{PzJson}
use pzsvc_exec.Worker.Config.{WorkerConfig}
use pzsvc_exec.Worker.Ingest.{
  MultiIngestOutput, AsyncIngestorCall, add_result, combine, ingest_file_async, collect_results,
  output_files_to_piazza,
}

-- A combined error comes with errors.
abbrev pub IsExplained : MultiIngestOutput → Type 0
IsExplained out = out.combined_error ≢ none → out.errors ≢ []

abbrev IsUncombined : MultiIngestOutput → Type 0
IsUncombined out = out.combined_error ≡ none

add_result-IsUncombined :
    (out : MultiIngestOutput) (f : String) (r : Try String)
    → IsUncombined out
    → IsUncombined (add_result out (record { file_path = f; result = r }))
unfolding add_result
add_result-IsUncombined out f (ok id) h = h
add_result-IsUncombined out f (err e) h = h

combine_errors :
    (out : MultiIngestOutput) (errors : List GoError)
    → IsUncombined out
    → IsExplained (combine (record out { errors = errors }))
unfolding combine
combine_errors out [] h = λ k. absurd (k h)
combine_errors out (e ∷ es) h = λ k l. absurd (cc)

module _ (host : Host) (json : PzJson) (cfg : WorkerConfig) where
  collect-IsUncombined :
      (calls : List AsyncIngestorCall) (out : MultiIngestOutput)
      → IsUncombined out
      → Returns IsUncombined (collect_results host json cfg calls out)
  unfolding collect_results
  collect-IsUncombined [] out h = Returns-pure out h
  collect-IsUncombined (c ∷ calls) out h =
      Returns-bind (λ r. Unit {0}) (ingest_file_async host json c) _ (record { at = λ t r e. tt })
        (λ r _. Returns-then _ _ (λ _.
          collect-IsUncombined calls (add_result out r)
            (add_result-IsUncombined out r.file_path r.result h)))

  -- Where the ingest of the outputs returns a combined error, it returns errors too.
  pub output_files_to_piazza-IsExplained :
      (command version : String)
      → Returns IsExplained (output_files_to_piazza host json cfg command version)
  unfolding output_files_to_piazza
  output_files_to_piazza-IsExplained command version = Returns-then _ _ (λ (calls, errors).
      Returns-bind IsUncombined _ _ (collect-IsUncombined calls _ refl)
        (λ out h. Returns-then _ _ (λ _. Returns-pure _ (combine_errors out out.errors h))))
