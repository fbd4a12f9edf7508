-- ===== src/Worker/Input/Threads/Files.antt =====
-- worker/input: the files of inputs with different names.
use pzsvc_exec.Prelude.{
  ℕ, zero, suc, ◌≡◌, refl, ap, sym, ◌∙◌, some, List, [], ◌∷◌, map, All, length, arith, subst,
}
use pzsvc_exec.Worker.Config.{InputSource}
use pzsvc_exec.Worker.Input.Threads.{
  Bytes, Disk, done, Download, Move, finds_file, stat_fails, finds_none, opens, open_fails, copies,
  fetch_fails, OneMoves, here, there, ReadsAt, receives_nil, receives_error, further, Fetching,
  Step, moves, reads, Runs, none_yet, and_then, new_download, started,
}
use pzsvc_exec.Worker.Input.Threads.Kept.{
  AreDistinct, names, sources_of, content_of, IsKept, OneMoves-sources, OneMoves-IsKept,
  ReadsAt-sources, ReadsAt-IsKept,
}

-- The download has ended without an error.
abbrev pub IsDone : Download → Type 0
IsDone g = (c : Bytes) × (g.progress ≡ done c)

-- So many downloads from the front have.
abbrev AreDone : ℕ → List Download → Type 0
AreDone zero gs = Unit
AreDone (suc n) [] = Unit
AreDone (suc n) (g ∷ gs) = IsDone g × AreDone n gs

Move-IsDone : {d d' : Disk} {g g' : Download} → Move d g d' g' → IsDone g → IsDone g'
Move-IsDone (finds_file e) (c, h) = absurd (cc)
Move-IsDone (stat_fails e) (c, h) = absurd (cc)
Move-IsDone (finds_none e) (c, h) = absurd (cc)
Move-IsDone opens (c, h) = absurd (cc)
Move-IsDone (open_fails e) (c, h) = absurd (cc)
Move-IsDone (copies c') (c, h) = (c', refl)
Move-IsDone (fetch_fails c' e) (c, h) = absurd (cc)

OneMoves-AreDone :
    {d d' : Disk} {gs gs' : List Download} (n : ℕ)
    → OneMoves d gs d' gs'
    → AreDone n gs
    → AreDone n gs'
OneMoves-AreDone zero m h = tt
OneMoves-AreDone (suc n) (here m) (h, hs) = (Move-IsDone m h, hs)
OneMoves-AreDone (suc n) (there m) (h, hs) = (h, OneMoves-AreDone n m hs)

ReadsAt-AreDone :
    {gs gs' : List Download} {n k : ℕ}
    → ReadsAt n gs k gs'
    → k ≡ 0
    → AreDone n gs
    → AreDone (suc n) gs'
ReadsAt-AreDone (receives_nil {c = c}) e h = ((c, refl), tt)
ReadsAt-AreDone receives_error e h = absurd (omega (arith, e))
ReadsAt-AreDone (further r) e (h, hs) = (h, ReadsAt-AreDone r e hs)

-- What every step keeps.
record IsSound (sources : List InputSource) (s : Fetching) : Type 0 where
  same : sources_of s.downloads ≡ sources
  kept : All (IsKept s.disk) s.downloads
  clean : s.errors ≡ 0 → AreDone s.position s.downloads

Step-IsSound :
    {s t : Fetching} (sources : List InputSource)
    → AreDistinct (names sources)
    → Step s t
    → IsSound sources s
    → IsSound sources t
Step-IsSound sources h (moves {gs = gs} {n = n} m) k = record {
  same = OneMoves-sources m ∙ k.same;
  kept = OneMoves-IsKept m (subst (λ l. AreDistinct (names l)) (sym k.same) h) k.kept;
  clean = λ e. OneMoves-AreDone n m (k.clean e);
}
Step-IsSound sources h (reads {d = d} {e = e} {k = more} r) k = record {
  same = ReadsAt-sources r ∙ k.same;
  kept = ReadsAt-IsKept d r k.kept;
  clean = λ none_left.
      ReadsAt-AreDone r (omega (arith, none_left)) (k.clean (omega (arith, none_left)));
}

started-sources : (sources : List InputSource) → sources_of (map new_download sources) ≡ sources
started-sources [] = refl
started-sources (s ∷ sources) = ap (λ l. s ∷ l) (started-sources sources)

started-IsKept : (d : Disk) (sources : List InputSource) → All (IsKept d) (map new_download sources)
started-IsKept d [] = tt
started-IsKept d (s ∷ sources) = ((λ c e. absurd (cc)), started-IsKept d sources)

started-IsSound :
    (disk : Disk) (sources : List InputSource) → IsSound sources (started disk sources)
started-IsSound disk sources = record {
  same = started-sources sources;
  kept = started-IsKept disk sources;
  clean = λ e. tt;
}

Runs-IsSound :
    {s t : Fetching} (sources : List InputSource)
    → AreDistinct (names sources)
    → Runs s t
    → IsSound sources s
    → IsSound sources t
Runs-IsSound sources h none_yet k = k
Runs-IsSound sources h (and_then r m) k = Step-IsSound sources h m (Runs-IsSound sources h r k)

-- The download has ended without an error, and its file holds what it has copied.
abbrev pub IsDownloaded : Disk → Download → Type 0
IsDownloaded d g = (c : Bytes) × (g.progress ≡ done c) × (d g.source.file_name ≡ some c)

all-IsDownloaded :
    (d : Disk) (gs : List Download)
    → AreDone (length gs) gs
    → All (IsKept d) gs
    → All (IsDownloaded d) gs
all-IsDownloaded d [] h k = tt
all-IsDownloaded d (g ∷ gs) ((c, e), hs) (k, ks) =
    ((c, e, k c (ap content_of e)), all-IsDownloaded d gs hs ks)

length-sources : (gs : List Download) → length (sources_of gs) ≡ length gs
length-sources [] = refl
length-sources (g ∷ gs) = omega (arith, length-sources gs)

-- Where the names of the inputs differ, and all channels were read without an error, the file of
-- every input holds what its own download has copied, however the downloads interleaved.
pub Runs-IsDownloaded :
    (disk : Disk) (sources : List InputSource) (s : Fetching)
    → AreDistinct (names sources)
    → Runs (started disk sources) s
    → s.position ≡ length sources
    → s.errors ≡ 0
    → (sources_of s.downloads ≡ sources) × All (IsDownloaded s.disk) s.downloads
Runs-IsDownloaded disk sources s h r e clean =
    let k = Runs-IsSound sources h r (started-IsSound disk sources) in
    let all_read : s.position ≡ length s.downloads =
      e ∙ ap length (sym k.same) ∙ length-sources s.downloads in
    (
      k.same,
      all-IsDownloaded s.disk s.downloads
          (subst (λ n. AreDone n s.downloads) all_read (k.clean clean)) k.kept,
    )
