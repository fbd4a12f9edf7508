-- ===== src/Pzsvc/File/Given.antt =====
-- pzsvc/file.go: where the data ID of an ingest comes from.
use pzsvc_exec.Prelude.{String, Option, none, some, ◌≡◌, refl, Map}
use pzsvc_exec.Host.{Host, Go, GoError, Response, Try, ok, err, pure, ◌>>=◌}
use pzsvc_exec.Host.Returns.{
  Returns, Returns-pure, Returns-crash, Returns-if, Returns-then, Returns-bind, Returns-on_nil,
  Returns-on_error,
}
use pzsvc_exec.Pzsvc.Model.{Session, DataResult}
use pzsvc_exec.Pzsvc.Json.{PzJson}
use pzsvc_exec.Pzsvc.CustomError.{PzCustomError}
use pzsvc_exec.Pzsvc.Job.{get_job_response}
use pzsvc_exec.Pzsvc.Job.Explained.{Explained, get_job_response-Explained}
use pzsvc_exec.Pzsvc.File.{failing, await_data_id, ingest, ingest_file}

module _ (host : Host) (json : PzJson) (s : Session) where
  -- The ID is that of the result of some job, which a reply with the status "Success" gave.
  abbrev pub IsGiven : String → Type 0
  IsGiven id =
      (job_id : String) × (d : DataResult) × Explained host json s job_id (some d, none)
      × (id ≡ d.data_id)

  abbrev pub IsGivenIf : Try String → Type 0
  IsGivenIf (ok id) = IsGiven id
  IsGivenIf (err e) = Unit

  given :
      (job_id : String) (d : DataResult)
      → Explained host json s job_id (some d, none)
      → Returns IsGivenIf (pure (ok d.data_id))
  given job_id d h = Returns-pure (ok d.data_id) (job_id, d, h, refl)

  not_given : (e : GoError) → Returns IsGivenIf (pure (err e))
  not_given e = Returns-pure (err e) tt

  failing-IsGiven : (e : PzCustomError) (m : String) → Returns IsGivenIf (failing host json s e m)
  unfolding failing
  failing-IsGiven e m = search (not_given, Returns-then) depth 9

  wait_for :
      (job_id : String) (f : Option DataResult × Option PzCustomError → Go (Try String))
      → ((d : DataResult)
          → Explained host json s job_id (some d, none)
          → Returns IsGivenIf (f (some d, none)))
      → Returns IsGivenIf (f (none, none))
      → ((o : Option DataResult) (e : PzCustomError) → Returns IsGivenIf (f (o, some e)))
      → Returns IsGivenIf (get_job_response host json s job_id >>= f)
  wait_for job_id f hd hn he =
      Returns-bind (Explained host json s job_id) _ f
        (record { at = get_job_response-Explained host json s job_id })
        (λ (o, e) h. by_result o e h)
    where
      by_result :
          (o : Option DataResult) (e : Option PzCustomError)
          → Explained host json s job_id (o, e)
          → Returns IsGivenIf (f (o, e))
      by_result (some d) none h = hd d h
      by_result none none h = hn
      by_result o (some e) h = he o e

  await_data_id-IsGiven :
      (targ : String) (r : Option Response) → Returns IsGivenIf (await_data_id host json s targ r)
  unfolding await_data_id
  await_data_id-IsGiven targ r =
      search (wait_for, given, failing-IsGiven, Returns-crash, Returns-on_nil, Returns-then) depth
        14

  ingest-IsGiven :
      (f_name f_type source version : String) (b : Option String) (props : Map String)
      → Returns IsGivenIf (ingest host json s f_name f_type source version b props)
  unfolding ingest
  ingest-IsGiven f_name f_type source version b props =
      search
        (
          await_data_id-IsGiven, not_given, failing-IsGiven, Returns-on_nil, Returns-on_error,
          Returns-then,
        )
        depth 14

  pub ingest_file-IsGiven :
      (f_name f_type source version : String) (props : Map String)
      → Returns IsGivenIf (ingest_file host json s f_name f_type source version props)
  unfolding ingest_file
  ingest_file-IsGiven f_name f_type source version props =
      search (ingest-IsGiven, not_given, Returns-if, Returns-on_error, Returns-then) depth 14
