-- ===== src/Worker/Exec/Allowed.antt =====
-- The requests that a job may send.
use pzsvc_exec.Prelude.{some, ◌≡◌, ◌⊎◌, inl, inr, refl, ◌<>◌, lookup, String, []}
use pzsvc_exec.Host.{Host, Event, Request, sent}
use pzsvc_exec.Pzsvc.Http.{json_request}
use pzsvc_exec.Pzsvc.Http.Laws.{ToPiazza, json_request-ToPiazza, form_request-ToPiazza}
use pzsvc_exec.Pzsvc.File.Laws.{IngestRequests}
use pzsvc_exec.Worker.Config.{WorkerConfig}

-- A request without a header, or one to the job's Piazza that carries the session's authorization.
abbrev pub IsAllowed : WorkerConfig → Request → Type 0
IsAllowed cfg r =
    (r.header ≡ [])
    ⊎ ((address : String) × (path : String) × ((address ≡ cfg.session.pz_addr)
          ⊎ (address ≡ cfg.piazza_base_url))
        × (r.url ≡ address <> path)
        × (lookup "Authorization" r.header ≡ some cfg.session.pz_auth))

ToPiazza-IsAllowed :
    (cfg : WorkerConfig) (r : Request) → ToPiazza cfg.session (sent r) → IsAllowed cfg r
ToPiazza-IsAllowed cfg r (path, u, a) = inr (cfg.session.pz_addr, path, inl refl, u, a)

report-IsAllowed :
    (cfg : WorkerConfig) (body path : String)
    → IsAllowed cfg (json_request "POST" body (cfg.piazza_base_url <> path) cfg.session.pz_auth)
report-IsAllowed cfg body path =
    let (p, u, a) =
      json_request-ToPiazza (record cfg.session { pz_addr = cfg.piazza_base_url }) "POST" body
        path in
    inr (cfg.piazza_base_url, p, inr refl, u, a)

-- The requests that a job may send, for a property of them all.
module _ (Q : Event → Type 0) (host : Host) (cfg : WorkerConfig)
    (sends : (r : Request) → IsAllowed cfg r → Q (sent r)) where
  -- It holds of a request to the session's Piazza.
  sent_to_piazza : (r : Request) → ToPiazza cfg.session (sent r) → Q (sent r)
  sent_to_piazza r h = sends r (ToPiazza-IsAllowed cfg r h)

  pub ingests : IngestRequests Q host cfg.session
  ingests = record {
    submits = λ body. sent_to_piazza _ (json_request-ToPiazza cfg.session "POST" body "/data");
    uploads = λ body filename file.
        sent_to_piazza _ (form_request-ToPiazza cfg.session host body "/data/file" filename file);
    polls = λ id. sent_to_piazza _ (json_request-ToPiazza cfg.session "GET" "" ("/job/" <> id));
  }

  pub sends_report :
      (body path : String)
      → Q (sent (json_request "POST" body (cfg.piazza_base_url <> path) cfg.session.pz_auth))
  sends_report body path =
      sends (json_request "POST" body (cfg.piazza_base_url <> path) cfg.session.pz_auth)
        (report-IsAllowed cfg body path)
