-- ===== src/Worker/Ingest/Threads/Sequential.antt =====
-- worker/ingest: the loop over the results with the goroutines one after the other, and interleaved.
use pzsvc_exec.Prelude.{
  String, Bool, true, false, none, List, [], ◌∷◌, map, ◌≡◌, refl, ap, subst, inl, inr, ◌⊎◌, All,
  if◌then◌else◌,
}
use pzsvc_exec.Host.{Host, Trace, GoError, Try, ret, pure, ◌>>=◌}
use pzsvc_exec.Host.Returns.{Returns, Returns-pure, Returns-then, Returns-bind, Returns-ask}
use pzsvc_exec.Pzsvc.Json.{PzJson}
use pzsvc_exec.Pzsvc.File.{ingest_file}
use pzsvc_exec.Worker.Config.{WorkerConfig}
use pzsvc_exec.Worker.Ingest.{
  MultiIngestOutput, SingleIngestOutput, AsyncIngestorCall, add_result, settled, timed_out,
  ingest_file_async, collect_results,
}
use pzsvc_exec.Worker.Ingest.Threads.{call_async_ingestor}
use pzsvc_exec.Worker.Ingest.Threads.Order.{InOrder, Ends, call_async_ingestor-Ends_iff}

module _ (host : Host) (json : PzJson) where
  -- The ingest of the call's file returned the answer.
  abbrev pub IsAnswer : AsyncIngestorCall × Try String → Type 0
  IsAnswer (c, a) =
      (t : Trace) × ((ingest_file host json c.session c.file_path c.file_type c.service_id
          c.alg_version c.att_map t).0
        ≡ ret a)

  -- The clock says at some time whether the timeout of the call has passed.
  abbrev pub IsTimed : AsyncIngestorCall → Bool → Type 0
  IsTimed c late = (t : Trace) × (host.times_out t c.file_path ≡ late)

  -- The output with the answers in order, or with the timeout's error where the timeout has passed.
  abbrev pub ByTimer :
      List (AsyncIngestorCall × Try String) → MultiIngestOutput → MultiIngestOutput → Type 0
  ByTimer [] out final = out ≡ final
  ByTimer ((c, a) ∷ calls) out final =
      (IsTimed c false × ByTimer calls (add_result out (settled c a)) final)
      ⊎ (IsTimed c true × ByTimer calls (add_result out (settled c timed_out)) final)

  ByTimer-InOrder :
      (calls : List (AsyncIngestorCall × Try String)) (out final : MultiIngestOutput)
      → ByTimer calls out final
      → InOrder calls out final
  ByTimer-InOrder [] out final e = e
  ByTimer-InOrder (c ∷ calls) out final (inl (t, h)) = inl (ByTimer-InOrder calls _ final h)
  ByTimer-InOrder (c ∷ calls) out final (inr (t, h)) = inr (ByTimer-InOrder calls _ final h)

  -- The answer of the call, or the timeout's error.
  abbrev IsSettled : AsyncIngestorCall → SingleIngestOutput → Type 0
  IsSettled c r =
      (a : Try String) × IsAnswer (c, a)
      × ((IsTimed c false × (r ≡ settled c a)) ⊎ (IsTimed c true × (r ≡ settled c timed_out)))

  -- Answers of the calls give this output.
  abbrev IsRead : List AsyncIngestorCall → MultiIngestOutput → MultiIngestOutput → Type 0
  IsRead calls out final =
      (answered : List (AsyncIngestorCall × Try String)) × (map (λ c. c.0) answered ≡ calls)
      × All IsAnswer answered
      × ByTimer answered out final

  cons-IsRead :
      (c : AsyncIngestorCall) (calls : List AsyncIngestorCall) (r : SingleIngestOutput)
      (out final : MultiIngestOutput)
      → IsSettled c r
      → IsRead calls (add_result out r) final
      → IsRead (c ∷ calls) out final
  cons-IsRead c calls r out final (a, h, inl (t, e)) (answered, same, hs, b) = (
    (c, a) ∷ answered,
    ap (λ l. c ∷ l) same,
    (h, hs),
    inl (t, subst (λ q. ByTimer answered (add_result out q) final) e b),
  )
  cons-IsRead c calls r out final (a, h, inr (t, e)) (answered, same, hs, b) = (
    (c, a) ∷ answered,
    ap (λ l. c ∷ l) same,
    (h, hs),
    inr (t, subst (λ q. ByTimer answered (add_result out q) final) e b),
  )

  settled-IsSettled :
      (c : AsyncIngestorCall) (a : Try String) (late : Bool)
      → IsAnswer (c, a)
      → IsTimed c late
      → IsSettled c (settled c (if late then timed_out else a))
  settled-IsSettled c a false h t = (a, h, inl (t, refl))
  settled-IsSettled c a true h t = (a, h, inr (t, refl))

  async-IsSettled : (c : AsyncIngestorCall) → Returns (IsSettled c) (ingest_file_async host json c)
  unfolding ingest_file_async
  async-IsSettled c =
      Returns-ask (λ t. host.times_out t c.file_path)
        (λ late.
          ingest_file host json c.session c.file_path c.file_type c.service_id c.alg_version
            c.att_map
          >>= λ a. pure (settled c (if late then timed_out else a)))
        (λ t.
          Returns-bind (λ a. IsAnswer (c, a)) _ _ (record { at = λ t' a e. (t', e) })
            (λ a h.
              Returns-pure _ (settled-IsSettled c a (host.times_out t c.file_path) h (t, refl))))

  module _ (cfg : WorkerConfig) where
    collect-IsRead :
        (calls : List AsyncIngestorCall) (out : MultiIngestOutput)
        → Returns (IsRead calls out) (collect_results host json cfg calls out)
    unfolding collect_results
    collect-IsRead [] out = Returns-pure out ([], refl, tt, refl)
    collect-IsRead (c ∷ calls) out = Returns-bind (IsSettled c) _ _ (async-IsSettled c) (λ r h.
        Returns-then _ _ (λ _. record {
          at = λ t final e.
              cons-IsRead c calls r out final h
                ((collect-IsRead calls (add_result out r)).at t final e);
        }))

    -- Whatever the loop over the results returns where the goroutines run one after the other, with
    -- these errors of the assembly, is made of answers that IngestFile returned for the calls, in
    -- order, with the timeout's error in place of an answer where the clock said at some
    -- time that the timeout had passed; and the interleaved goroutines of the same calls with these
    -- answers can end with it.
    pub collect_results-Ends :
        (calls : List AsyncIngestorCall) (errors : List GoError) (t : Trace)
        (final : MultiIngestOutput)
        → (collect_results host json cfg calls
            (record { data_ids = []; errors = errors; combined_error = none })
            t).0
          ≡ ret final
        → (answered : List (AsyncIngestorCall × Try String)) × (map (λ c. c.0) answered ≡ calls)
          × All IsAnswer answered
          × ByTimer answered
              (record { data_ids = []; errors = errors; combined_error = none })
              final
          × Ends (call_async_ingestor answered errors) final
    collect_results-Ends calls errors t final e =
        let (answered, same, hs, b) = (collect-IsRead calls _).at t final e in
        (
          answered,
          same,
          hs,
          b,
          (call_async_ingestor-Ends_iff answered errors final).1
              (ByTimer-InOrder answered _ final b),
        )
