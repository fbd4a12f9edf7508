-- ===== src/Worker/Input/Threads/Sequential.antt =====
-- worker/input: the loop over the channels with the downloads one after the other, and interleaved.
use pzsvc_exec.Prelude.{
  ℕ, suc, ◌+◌, String, ◌≡◌, ◌≢◌, refl, ap, sym, ◌∙◌, Option, none, some, List, [], ◌∷◌, map, All,
  subst, length, arith,
}
use pzsvc_exec.Prelude.Int.{ℤ}
use pzsvc_exec.Host.{Host, Trace, GoError, ret, Go, on_nil}
use pzsvc_exec.Host.Returns.{Returns, Returns-pure, Returns-then, Returns-bind, Returns-map}
use pzsvc_exec.Worker.Config.{WorkerConfig, InputSource}
use pzsvc_exec.Worker.Input.{collect, error_of, fetch_inputs}
use pzsvc_exec.Worker.Input.Answers.{IsAbsent, IsWritten, IsAnswer, download-IsAnswer}
use pzsvc_exec.Worker.Input.Threads.{
  Bytes, Disk, set_file, write, done, Download, finds_none, stat_fails, opens, copies, here, there,
  receives_nil, receives_error, further, Fetching, Step, moves, reads, Runs, none_yet, and_then,
  new_download, started, failed,
}
use pzsvc_exec.Worker.Input.Threads.Kept.{AreDistinct, names, sources_of, set_file-other}

-- The loop with one more channel, which was read.
abbrev beside : Download → Fetching → Fetching
beside g s = record {
  disk = s.disk;
  downloads = g ∷ s.downloads;
  position = suc s.position;
  errors = s.errors;
}

Step-beside : {s t : Fetching} (g : Download) → Step s t → Step (beside g s) (beside g t)
Step-beside g (moves m) = moves (there m)
Step-beside g (reads r) = reads (further r)

Runs-beside : {s t : Fetching} (g : Download) → Runs s t → Runs (beside g s) (beside g t)
Runs-beside g none_yet = none_yet
Runs-beside g (and_then r m) = and_then (Runs-beside g r) (Step-beside g m)

Runs-after : {s t u : Fetching} → Runs s t → Runs t u → Runs s u
Runs-after r none_yet = r
Runs-after r (and_then q m) = and_then (Runs-after r q) m

abbrev waiting : Disk → List InputSource → ℕ → Fetching
waiting d sources n = record {
  disk = d;
  downloads = map new_download sources;
  position = 0;
  errors = n;
}

module _ (host : Host) where
  -- A file that a stat does not find was not on the disk.
  abbrev pub IsFound : Disk → String → Type 0
  IsFound d name = IsAbsent host name → d name ≡ none

  set_file-IsFound :
      (d : Disk) (name : String) (content : Bytes) (ns : List String)
      → All (λ m. m ≢ name) ns
      → All (IsFound d) ns
      → All (IsFound (set_file name content d)) ns
  set_file-IsFound d name content [] h f = tt
  set_file-IsFound d name content (n ∷ ns) (h, hs) (f, fs) =
      ((λ new. set_file-other name n content d h ∙ f new), set_file-IsFound d name content ns hs fs)

  module _ (bytes : String → Bytes) where
    -- If the download ended without an error, it has copied what was written.
    abbrev pub AgreesWith : Download → Type 0
    AgreesWith g =
        (c : Bytes)
        → g.progress ≡ done c
        → (content : String) × IsWritten host g.source.file_name content × (c ≡ bytes content)

    add_nil : (n : ℕ) → n ≡ n + 0
    add_nil n = omega arith

    -- The downloads of these inputs can end with this many errors more.
    record CanEnd (d : Disk) (sources : List InputSource) (before after : ℕ) : Type 0 where
      final : Fetching
      run : Runs (waiting d sources before) final
      all_read : final.position ≡ length sources
      count : final.errors ≡ after
      same : sources_of final.downloads ≡ sources
      agree : All AgreesWith final.downloads

    after_nil :
        (d : Disk) (source : InputSource) (sources : List InputSource) (content : String)
        (before after : ℕ)
        → d source.file_name ≡ none
        → IsWritten host source.file_name content
        → CanEnd
            (write source.file_name (bytes content) (set_file source.file_name [] d))
            sources
            before
            after
        → CanEnd d (source ∷ sources) before after
    after_nil d source sources content before after new w h =
        let g : Download = record { source = source; progress = done (bytes content) } in
        let d' : Disk = write source.file_name (bytes content) (set_file source.file_name [] d) in
        record {
          final = beside g h.final;
          run =
              Runs-after
                (and_then
                  (and_then
                    (and_then (and_then none_yet (moves (here (finds_none new))))
                      (moves (here opens)))
                    (moves (here (copies (bytes content)))))
                  (reads receives_nil))
                (subst (λ n. Runs (beside g (waiting d' sources n)) (beside g h.final))
                  (add_nil before) (Runs-beside g h.run));
          all_read = omega (arith, h.all_read);
          count = h.count;
          same = ap (λ l. source ∷ l) h.same;
          agree = ((λ c e. (content, w, ground (arith, e))), h.agree);
        }

    after_error :
        (d : Disk) (source : InputSource) (sources : List InputSource) (e : GoError)
        (before after : ℕ)
        → CanEnd d sources (before + 1) after
        → CanEnd d (source ∷ sources) before after
    after_error d source sources e before after h =
        let g : Download = record { source = source; progress = failed } in
        record {
          final = beside g h.final;
          run =
              Runs-after
                (and_then (and_then none_yet (moves (here (stat_fails e)))) (reads receives_error))
                (Runs-beside g h.run);
          all_read = omega (arith, h.all_read);
          count = h.count;
          same = ap (λ l. source ∷ l) h.same;
          agree = ((λ c k. absurd (cc)), h.agree);
        }

    answer-CanEnd :
        (d : Disk) (source : InputSource) (sources : List InputSource) (before : ℕ)
        (r : Option GoError) (m k : Go ℕ)
        → IsFound d source.file_name
        → IsAnswer host source r
        → ((content : String)
            → Returns
                (CanEnd
                  (write source.file_name (bytes content) (set_file source.file_name [] d))
                  sources
                  before)
                m)
        → Returns (CanEnd d sources (before + 1)) k
        → Returns (CanEnd d (source ∷ sources) before) (on_nil r m (λ _. k))
    answer-CanEnd d source sources before none m k f (new, (content, w)) hm hk =
        Returns-map m (λ n. after_nil d source sources content before n (f new) w) (hm content)
    answer-CanEnd d source sources before (some e) m k f a hm hk =
        Returns-map k (λ n. after_error d source sources e before n) hk

    module _ (cfg : WorkerConfig) where
      collect-CanEnd :
          (retries : ℤ) (sources : List InputSource) (d : Disk) (before : ℕ)
          → AreDistinct (names sources)
          → All (IsFound d) (names sources)
          → Returns (CanEnd d sources before) (collect host cfg retries sources before)
      unfolding collect
      collect-CanEnd retries [] d before h f = Returns-pure before (record {
        final = waiting d [] before;
        run = none_yet;
        all_read = refl;
        count = refl;
        same = refl;
        agree = tt;
      })
      collect-CanEnd retries (source ∷ sources) d before (h, hs) (f, fs) =
          Returns-bind _ _ _ (download-IsAnswer host retries source) (λ r a.
            answer-CanEnd d source sources before r _ _ f a
              (λ content. Returns-then _ _ (λ _.
                collect-CanEnd retries sources _ before hs
                  (set_file-IsFound _ _ _ _ h (set_file-IsFound _ _ _ _ h fs))))
              (collect-CanEnd retries sources d (before + 1) hs fs))

      -- What the errors at the end are told as.
      abbrev IsOutcome : Disk → List InputSource → Option GoError → Type 0
      IsOutcome disk sources r =
          (s : Fetching) × Runs (started disk sources) s
          × (s.position ≡ length sources)
          × (sources_of s.downloads ≡ sources)
          × All AgreesWith s.downloads
          × (r ≡ error_of s.errors)

      fetch-IsOutcome :
          (disk : Disk) (sources : List InputSource)
          → AreDistinct (names sources)
          → All (IsFound disk) (names sources)
          → Returns (IsOutcome disk sources) (fetch_inputs host cfg sources)
      unfolding fetch_inputs
      fetch-IsOutcome disk sources h f = Returns-then _ _ (λ _.
          Returns-bind _ _ _ (collect-CanEnd _ sources disk 0 h f) (λ n k.
            Returns-pure _
              (k.final, k.run, k.all_read, k.same, k.agree, ap error_of (sym k.count))))

      -- Whatever fetching returns where the downloads run one after the other and the names of the
      -- inputs differ, on a disk that had no file which a stat did not find, is what it returns at
      -- the end of some run of the interleaved downloads. All channels are read in it, and each
      -- download without an error has copied what the host wrote to the file.
      pub fetch_inputs-Runs :
          (disk : Disk) (sources : List InputSource) (t : Trace) (r : Option GoError)
          → AreDistinct (names sources)
          → All (IsFound disk) (names sources)
          → (fetch_inputs host cfg sources t).0 ≡ ret r
          → (s : Fetching) × Runs (started disk sources) s
            × (s.position ≡ length sources)
            × (sources_of s.downloads ≡ sources)
            × All AgreesWith s.downloads
            × (r ≡ error_of s.errors)
      fetch_inputs-Runs disk sources t r h f e = (fetch-IsOutcome disk sources h f).at t r e
