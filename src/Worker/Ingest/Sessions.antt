-- ===== src/Worker/Ingest/Sessions.antt =====
-- Every call of an ingest has the worker's session.
use pzsvc_exec.Prelude.{String, List, [], ◌∷◌, ◌≡◌, All}
use pzsvc_exec.Host.{Host, GoError, Try, ok, err, on_error}
use pzsvc_exec.Host.Returns.{Returns, Returns-pure, Returns-bind, returns_rules}
use pzsvc_exec.Pzsvc.Json.{PzJson}
use pzsvc_exec.Worker.Config.{WorkerConfig}
use pzsvc_exec.Worker.Ingest.{AsyncIngestorCall, prepare_call, assemble_ingestor_calls}

module _ (host : Host) (json : PzJson) (cfg : WorkerConfig) where
  abbrev pub HasSession : Try AsyncIngestorCall → Type 0
  HasSession (ok c) = c.session ≡ cfg.session
  HasSession (err e) = Unit

  abbrev pub HaveSession : List AsyncIngestorCall × List GoError → Type 0
  HaveSession (calls, errors) = All (λ c. c.session ≡ cfg.session) calls

  prepare-HasSession :
      (command version f : String)
      → Returns HasSession (prepare_call host json cfg command version f)
  unfolding prepare_call
  prepare-HasSession command version f = search returns_rules depth 14

  session_kept :
      (r : Try AsyncIngestorCall) (calls : List AsyncIngestorCall) (errors : List GoError)
      → HasSession r
      → All (λ c. c.session ≡ cfg.session) calls
      → HaveSession (on_error r (λ e. (calls, e ∷ errors)) (λ c. (c ∷ calls, errors)))
  session_kept (ok c) calls errors h hs = (h, hs)
  session_kept (err e) calls errors h hs = hs

  pub assemble-HaveSession :
      (command version : String) (files : List String)
      → Returns HaveSession (assemble_ingestor_calls host json cfg command version files)
  unfolding assemble_ingestor_calls
  assemble-HaveSession command version [] = Returns-pure _ tt
  assemble-HaveSession command version (f ∷ files) =
      Returns-bind HasSession _ _ (prepare-HasSession command version f) (λ r h.
        Returns-bind HaveSession _ _ (assemble-HaveSession command version files)
          (λ (calls, errors) k. Returns-pure _ (session_kept r calls errors h k)))
