-- ===== src/Worker/Ingest/Laws.antt =====
-- A job whose ingest reports no error has every output file stored.
use pzsvc_exec.Prelude.{
  String, true, none, List, [], ◌∷◌, ◌++◌, map, ◌≡◌, refl, ap, arith, All, Map, lookup, assign,
  lookup-assign, is_some, subst, sym, eq_refl,
}
use pzsvc_exec.Host.{Host, Trace, GoError, Try, ok, err, ret, on_error}
use pzsvc_exec.Host.Returns.{Returns, Returns-pure, Returns-then, Returns-bind, returns_rules}
use pzsvc_exec.Pzsvc.Json.{PzJson}
use pzsvc_exec.Worker.Config.{WorkerConfig}
use pzsvc_exec.Worker.Ingest.{
  MultiIngestOutput, SingleIngestOutput, AsyncIngestorCall, add_result, combine, prepare_call,
  ingest_file_async, assemble_ingestor_calls, collect_results, output_files_to_piazza,
}

-- The file has a data ID.
abbrev pub IsStored : Map String → String → Type 0
IsStored ids f = is_some (lookup f ids) ≡ true

-- Without errors, the calls are for exactly these files, in their order.
record Covers (files : List String) (r : List AsyncIngestorCall × List GoError) : Type 0 where
  covered : r.1 ≡ [] → map (λ c. c.file_path) r.0 ≡ files

Covers-cons :
    (c : AsyncIngestorCall) (files : List String) (calls : List AsyncIngestorCall)
    (errors : List GoError)
    → Covers files (calls, errors)
    → Covers (c.file_path ∷ files) (c ∷ calls, errors)
Covers-cons c files calls errors h = record {
  covered = λ e. ap (λ l. c.file_path ∷ l) (h.covered e);
}

Covers-error :
    (files : List String) (calls : List AsyncIngestorCall) (e : GoError) (errors : List GoError)
    → Covers files (calls, e ∷ errors)
Covers-error files calls e errors = record { covered = λ h. absurd (cc) }

IsStored-assign : (f k v : String) (ids : Map String) → IsStored ids f → IsStored (assign k v ids) f
IsStored-assign f k v ids h = rw (lookup-assign k f v ids) (ground (arith, h))

IsStored-new : (k v : String) (ids : Map String) → IsStored (assign k v ids) k
IsStored-new k v ids = rw (lookup-assign k k v ids, eq_refl k) refl

IsStored-All :
    (files : List String) (k v : String) (ids : Map String)
    → All (IsStored ids) files
    → All (IsStored (assign k v ids)) files
IsStored-All [] k v ids h = tt
IsStored-All (f ∷ files) k v ids (h, hs) =
    (IsStored-assign f k v ids h, IsStored-All files k v ids hs)

snoc_nonempty {ℓ} : {A : Type ℓ} (xs : List A) (x : A) → ¬ (xs ++ (x ∷ []) ≡ [])
snoc_nonempty [] x h = absurd (cc)
snoc_nonempty (y ∷ xs) x h = absurd (cc)

-- Without errors, there were none at the start and every one of these files is stored.
abbrev HasStored : List GoError → List String → MultiIngestOutput → Type 0
HasStored start files out = out.errors ≡ [] → (start ≡ []) × All (IsStored out.data_ids) files

add_result-HasStored :
    (start : List GoError) (files : List String) (out : MultiIngestOutput) (f : String)
    (r : Try String)
    → HasStored start files out
    → HasStored start (f ∷ files) (add_result out (record { file_path = f; result = r }))
unfolding add_result
add_result-HasStored start files out f (ok id) h =
    λ e. ((h e).0, (IsStored-new f id out.data_ids, IsStored-All files f id out.data_ids (h e).1))
add_result-HasStored start files out f (err e) h =
    λ none_left. absurd (snoc_nonempty out.errors e none_left)

-- The files of the calls are put before those that are stored.
abbrev with_calls : List AsyncIngestorCall → List String → List String
with_calls [] files = files
with_calls (c ∷ calls) files = with_calls calls (c.file_path ∷ files)

module _ (host : Host) (json : PzJson) where
  async-path :
      (c : AsyncIngestorCall)
      → Returns (λ r. r.file_path ≡ c.file_path) (ingest_file_async host json c)
  unfolding ingest_file_async
  async-path c = search returns_rules depth 9

  module _ (cfg : WorkerConfig) where
    step-HasStored :
        (start : List GoError) (files : List String) (out : MultiIngestOutput) (f : String)
        (r : SingleIngestOutput)
        → r.file_path ≡ f
        → HasStored start files out
        → HasStored start (f ∷ files) (add_result out r)
    step-HasStored start files out f r e h =
        subst (λ k. HasStored start (k ∷ files) (add_result out r)) e
          (add_result-HasStored start files out r.file_path r.result h)

    collect-HasStored :
        (start : List GoError) (calls : List AsyncIngestorCall) (files : List String)
        (out : MultiIngestOutput)
        → HasStored start files out
        → Returns
            (HasStored start (with_calls calls files))
            (collect_results host json cfg calls out)
    unfolding collect_results
    collect-HasStored start [] files out h = Returns-pure out h
    collect-HasStored start (c ∷ calls) files out h =
        Returns-bind (λ r. r.file_path ≡ c.file_path) _ _ (async-path c)
          (λ r e. Returns-then _ _ (λ _.
            collect-HasStored start calls (c.file_path ∷ files) (add_result out r)
              (step-HasStored start files out c.file_path r e h)))

    abbrev IsCallFor : String → Try AsyncIngestorCall → Type 0
    IsCallFor f (ok c) = c.file_path ≡ f
    IsCallFor f (err e) = Unit

    prepare-IsCallFor :
        (command version f : String)
        → Returns (IsCallFor f) (prepare_call host json cfg command version f)
    unfolding prepare_call
    prepare-IsCallFor command version f = search returns_rules depth 14

    extend :
        (f : String) (files : List String) (r : Try AsyncIngestorCall)
        (calls : List AsyncIngestorCall) (errors : List GoError)
        → IsCallFor f r
        → Covers files (calls, errors)
        → Covers (f ∷ files) (on_error r (λ e. (calls, e ∷ errors)) (λ c. (c ∷ calls, errors)))
    extend f files (ok c) calls errors h k =
        subst (λ g. Covers (g ∷ files) (c ∷ calls, errors)) h (Covers-cons c files calls errors k)
    extend f files (err e) calls errors h k = Covers-error (f ∷ files) calls e errors

    assemble-Covers :
        (command version : String) (files : List String)
        → Returns (Covers files) (assemble_ingestor_calls host json cfg command version files)
    unfolding assemble_ingestor_calls
    assemble-Covers command version [] = Returns-pure _ (record { covered = λ e. refl })
    assemble-Covers command version (f ∷ files) =
        Returns-bind (IsCallFor f) _ _ (prepare-IsCallFor command version f) (λ r h.
          Returns-bind (Covers files) _ _ (assemble-Covers command version files)
            (λ (calls, errors) k. Returns-pure _ (extend f files r calls errors h k)))

    keep-IsStored :
        (calls : List AsyncIngestorCall) (files : List String) (ids : Map String)
        → All (IsStored ids) (with_calls calls files)
        → All (IsStored ids) (map (λ c. c.file_path) calls) × All (IsStored ids) files
    keep-IsStored [] files ids h = (tt, h)
    keep-IsStored (c ∷ calls) files ids h =
        let (hs, k) = keep-IsStored calls (c.file_path ∷ files) ids h in ((k.0, hs), k.1)

    combine-none :
        (out : MultiIngestOutput)
        → (combine out).combined_error ≡ none
        → (out.errors ≡ []) × ((combine out).data_ids ≡ out.data_ids)
    unfolding combine
    combine-none out h = (ground (arith, h), ground (arith, h))

    whole_output :
        (calls : List AsyncIngestorCall) (errors : List GoError) (out : MultiIngestOutput)
        → Covers cfg.outputs (calls, errors)
        → HasStored errors (with_calls calls []) out
        → (combine out).combined_error ≡ none
        → All (IsStored (combine out).data_ids) cfg.outputs
    whole_output calls errors out cov h none_left =
        let (clean, same) = combine-none out none_left in
        let (fine, stored) = h clean in
        subst (λ files. All (IsStored (combine out).data_ids) files) (cov.covered fine)
          (subst (λ ids. All (IsStored ids) (map (λ c. c.file_path) calls)) (sym same)
            (keep-IsStored calls [] out.data_ids stored).0)

    -- Where the ingest of the outputs reports no combined error, every output file of the job has
    -- got a data ID: no missing file, failed ingest or timeout is passed over.
    pub output_files_to_piazza-IsStored :
        (command version : String) (t : Trace) (out : MultiIngestOutput)
        → (output_files_to_piazza host json cfg command version t).0 ≡ ret out
        → out.combined_error ≡ none
        → All (IsStored out.data_ids) cfg.outputs
    unfolding output_files_to_piazza
    output_files_to_piazza-IsStored command version t out =
        let h : Returns (λ o. o.combined_error ≡ none → All (IsStored o.data_ids) cfg.outputs)
            (output_files_to_piazza host json cfg command version) =
          Returns-bind (Covers cfg.outputs) _ _ (assemble-Covers command version cfg.outputs)
            (λ (calls, errors) cov.
              Returns-bind (HasStored errors (with_calls calls [])) _ _
                (collect-HasStored errors calls [] _ (λ e. (e, tt)))
                (λ o k.
                  Returns-then _ _ (λ _. Returns-pure _ (whole_output calls errors o cov k)))) in
        h.at t out
