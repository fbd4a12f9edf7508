-- ===== src/Worker/Ingest/Given.antt =====
-- worker/ingest: where the data IDs of the outputs come from.
use pzsvc_exec.Prelude.{
  String, Bool, true, false, List, [], ◌∷◌, ◌≡◌, ◌==◌, sym, subst, arith, All, Map, assign,
  if◌then◌else◌,
}
use pzsvc_exec.Host.{Host, Try, ok, err, ret, Trace, look, pure}
use pzsvc_exec.Host.Returns.{Returns, Returns-pure, Returns-then, Returns-bind}
use pzsvc_exec.Pzsvc.Json.{PzJson}
use pzsvc_exec.Pzsvc.Model.{Session}
use pzsvc_exec.Pzsvc.File.Given.{IsGiven, IsGivenIf, ingest_file-IsGiven}
use pzsvc_exec.Worker.Config.{WorkerConfig}
use pzsvc_exec.Worker.Ingest.{
  MultiIngestOutput, AsyncIngestorCall, add_result, combine, settled, timed_out, ingest_file_async,
  collect_results, output_files_to_piazza,
}
use pzsvc_exec.Worker.Ingest.Sessions.{HaveSession, assemble-HaveSession}

-- Of all values of a map.
abbrev pub AllValues : (String → Type 0) → Map String → Type 0
AllValues P ids = All (λ (k, v). P v) ids

AllValues-assign :
    (P : String → Type 0) (k v : String) (ids : Map String)
    → P v
    → AllValues P ids
    → AllValues P (assign k v ids)
unfolding assign
AllValues-assign P k v [] p h = (p, tt)
AllValues-assign P k v ((j, w) ∷ ids) p (h, hs) =
    by_key (j == k) _ (AllValues-assign P k v ids p hs)
  where
    by_key :
        (b : Bool) (rest : Map String)
        → AllValues P rest
        → AllValues P (if b then (k, v) ∷ ids else (j, w) ∷ rest)
    by_key true rest r = (p, hs)
    by_key false rest r = (h, r)

module _ (host : Host) (json : PzJson) (cfg : WorkerConfig) where
  -- All data IDs so far were given by Piazza.
  abbrev AreGiven : MultiIngestOutput → Type 0
  AreGiven out = AllValues (IsGiven host json cfg.session) out.data_ids

  settled-IsGiven :
      (s : Session) (late : Bool) (r : Try String)
      → IsGivenIf host json s r
      → IsGivenIf host json s (if late then timed_out else r)
  settled-IsGiven s true r h = tt
  settled-IsGiven s false r h = h

  async-IsGiven :
      (c : AsyncIngestorCall)
      → Returns (λ r. IsGivenIf host json c.session r.result) (ingest_file_async host json c)
  unfolding ingest_file_async
  async-IsGiven c = Returns-then (look (λ t. host.times_out t c.file_path)) _ (λ late.
      Returns-bind _ _ (λ a. pure (settled c (if late then timed_out else a)))
        (ingest_file-IsGiven host json c.session c.file_path c.file_type c.service_id c.alg_version
          c.att_map)
        (λ a h. Returns-pure _ (settled-IsGiven c.session late a h)))

  add_result-AreGiven :
      (out : MultiIngestOutput) (f : String) (r : Try String)
      → IsGivenIf host json cfg.session r
      → AreGiven out
      → AreGiven (add_result out (record { file_path = f; result = r }))
  unfolding add_result
  add_result-AreGiven out f (ok id) g h = AllValues-assign _ f id out.data_ids g h
  add_result-AreGiven out f (err e) g h = h

  collect-AreGiven :
      (calls : List AsyncIngestorCall) (out : MultiIngestOutput)
      → All (λ c. c.session ≡ cfg.session) calls
      → AreGiven out
      → Returns AreGiven (collect_results host json cfg calls out)
  unfolding collect_results
  collect-AreGiven [] out k h = Returns-pure out h
  collect-AreGiven (c ∷ calls) out (k, ks) h =
      Returns-bind (λ r. IsGivenIf host json c.session r.result) _ _ (async-IsGiven c)
        (λ r g. Returns-then _ _ (λ _. collect-AreGiven calls (add_result out r) ks (
          add_result-AreGiven out r.file_path r.result
            (subst (λ s. IsGivenIf host json s r.result) k g) h)))

  combine-AreGiven : (out : MultiIngestOutput) → AreGiven out → AreGiven (combine out)
  unfolding combine
  combine-AreGiven out h =
      let same : (combine out).data_ids ≡ out.data_ids = ground arith in
      subst (AllValues (IsGiven host json cfg.session)) (sym same) h

  -- Every data ID of the outputs, with or without a combined error, is one that Piazza gave: that of
  -- the result of a job, in a reply with the status "Success" to a request for it in the worker's
  -- session.
  pub output_files_to_piazza-AreGiven :
      (command version : String) (t : Trace) (out : MultiIngestOutput)
      → (output_files_to_piazza host json cfg command version t).0 ≡ ret out
      → AllValues (IsGiven host json cfg.session) out.data_ids
  unfolding output_files_to_piazza
  output_files_to_piazza-AreGiven command version t out =
      let h : Returns AreGiven (output_files_to_piazza host json cfg command version) =
        Returns-bind (HaveSession host json cfg) _ _
          (assemble-HaveSession host json cfg command version cfg.outputs)
          (λ (calls, errors) k.
            Returns-bind AreGiven _ _ (collect-AreGiven calls _ k tt)
              (λ o g. Returns-then _ _ (λ _. Returns-pure _ (combine-AreGiven o g)))) in
      h.at t out
