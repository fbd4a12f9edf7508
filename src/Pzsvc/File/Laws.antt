-- ===== src/Pzsvc/File/Laws.antt =====
-- Everything that an ingest sends goes to the session's Piazza.
use pzsvc_exec.Prelude.{String, ◌<>◌, Option, Map}
use pzsvc_exec.Host.{Host, Response, Event, logged, sent, slept, read}
use pzsvc_exec.Host.Adds.{Adds, adds_rules}
use pzsvc_exec.Pzsvc.Model.{Session}
use pzsvc_exec.Pzsvc.Json.{PzJson}
use pzsvc_exec.Pzsvc.Log.Laws.{
  log_info-Adds, log_audit-Adds, log_audit_response-Adds, log_simple_err-Adds,
}
use pzsvc_exec.Pzsvc.CustomError.{PzCustomError}
use pzsvc_exec.Pzsvc.CustomError.Laws.{log-Adds}
use pzsvc_exec.Pzsvc.Http.{json_request}
use pzsvc_exec.Pzsvc.Http.Uploads.{form_request}
use pzsvc_exec.Pzsvc.Http.Laws.{
  submit_single_part-Adds, submit_multipart-Adds, ToPiazza, json_request-ToPiazza,
  form_request-ToPiazza,
}
use pzsvc_exec.Pzsvc.Job.Laws.{get_job_response-Adds}
use pzsvc_exec.Pzsvc.File.{submit_ingest, failing, await_data_id, ingest, ingest_file}

-- The requests that an ingest sends, for a property of them all.
pub record IngestRequests (Q : Event → Type 0) (host : Host) (s : Session) : Type 0 where
  pub submits :
      (body : String) → Q (sent (json_request "POST" body (s.pz_addr <> "/data") s.pz_auth))
  pub uploads :
      (body filename : String) (file : Option String)
      → Q (sent (form_request host body (s.pz_addr <> "/data/file") filename s.pz_auth file))
  pub polls :
      (id : String) → Q (sent (json_request "GET" "" (s.pz_addr <> "/job/" <> id) s.pz_auth))

module _ (host : Host) (json : PzJson) (s : Session) {Q : Event → Type 0}
    (q : (line : String) → Q (logged line)) (w : Q (slept 1)) (i : IngestRequests Q host s) where
  submit_ingest-Adds :
      (f_name bbuff : String) (file : Option String)
      → Adds Q (submit_ingest host json s f_name bbuff file)
  unfolding submit_ingest
  submit_ingest-Adds f_name bbuff file =
      search
        (
          adds_rules,
          log_info-Adds host {Q = Q} q s,
          log_audit-Adds host {Q = Q} q s,
          submit_single_part-Adds host {Q = Q},
          submit_multipart-Adds host {Q = Q},
          i.submits,
          i.uploads,
        )
        depth 9

  failing-Adds : (e : PzCustomError) (m : String) → Adds Q (failing host json s e m)
  unfolding failing
  failing-Adds e m = search (adds_rules, log-Adds host {Q = Q} q)

  await_data_id-Adds :
      (targ : String) (r : Option Response) → Adds Q (await_data_id host json s targ r)
  unfolding await_data_id
  await_data_id-Adds targ r =
      search
        (
          adds_rules,
          log_audit_response-Adds host {Q = Q} q s,
          get_job_response-Adds host json {Q = Q} q w s,
          failing-Adds,
          i.polls,
        )
        depth 9

  pub ingest-Adds :
      (f_name f_type source version : String) (b : Option String) (props : Map String)
      → Adds Q (ingest host json s f_name f_type source version b props)
  unfolding ingest
  ingest-Adds f_name f_type source version b props =
      search
        (
          adds_rules,
          log_simple_err-Adds host {Q = Q} q s,
          submit_ingest-Adds,
          await_data_id-Adds,
          failing-Adds,
        )
        depth 9

  pub ingest_file-Adds :
      ((path : String) → Q (read path))
      → (f_name f_type source version : String) (props : Map String)
      → Adds Q (ingest_file host json s f_name f_type source version props)
  unfolding ingest_file
  ingest_file-Adds rd f_name f_type source version props =
      search
        (
          adds_rules,
          log_simple_err-Adds host {Q = Q} q s,
          log_audit-Adds host {Q = Q} q s,
          ingest-Adds,
        )
        depth 9

-- Every request of an ingest, from the upload to the last poll for its result, goes to the
-- session's Piazza and carries the session's authorization.
pub ingest_file-ToPiazza :
    (host : Host) (json : PzJson) (s : Session) (f_name f_type source version : String)
    (props : Map String)
    → Adds (ToPiazza s) (ingest_file host json s f_name f_type source version props)
ingest_file-ToPiazza host json s =
    ingest_file-Adds host json s {Q = ToPiazza s} (λ line. tt) tt
      (record {
        submits = λ body. json_request-ToPiazza s "POST" body "/data";
        uploads =
            λ body filename file. form_request-ToPiazza s host body "/data/file" filename file;
        polls = λ id. json_request-ToPiazza s "GET" "" ("/job/" <> id);
      })
      (λ path. tt)
