-- ===== src/Worker/Input/Threads/Kept.antt =====
-- worker/input: what a step of a download leaves in the files.
use pzsvc_exec.Prelude.{
  ℕ, String, ◌≡◌, ◌≢◌, refl, ap, sym, ◌∙◌, Option, none, some, List, [], ◌∷◌, map, All, arith,
  eq_iff, eq_refl,
}
use pzsvc_exec.Worker.Config.{InputSource}
use pzsvc_exec.Worker.Input.Threads.{
  Bytes, Disk, set_file, overlay, bytes_at, Progress, fetching, done, Download, Move, finds_file,
  stat_fails, finds_none, opens, open_fails, copies, fetch_fails, OneMoves, here, there, ReadsAt,
  receives_nil, receives_error, further,
}

-- No two of the names are the same.
abbrev pub AreDistinct : List String → Type 0
AreDistinct [] = Unit
AreDistinct (n ∷ ns) = All (λ m. m ≢ n) ns × AreDistinct ns

abbrev pub names : List InputSource → List String
names = map (λ s. s.file_name)

abbrev pub sources_of : List Download → List InputSource
sources_of = map (λ g. g.source)

-- What the download has put into its file by now.
abbrev pub content_of : Progress → Option Bytes
content_of fetching = some []
content_of (done c) = some c
content_of _ = none

-- That is what the file holds.
abbrev pub IsKept : Disk → Download → Type 0
IsKept d g = (c : Bytes) → content_of g.progress ≡ some c → d g.source.file_name ≡ some c

set_file-same : (name : String) (c : Bytes) (d : Disk) → set_file name c d name ≡ some c
set_file-same name c d = rw (eq_refl name) refl

pub set_file-other : (name k : String) (c : Bytes) (d : Disk) → k ≢ name → set_file name c d k ≡ d k
set_file-other name k c d h = ground (arith, eq_iff k name, h)

pub overlay-nil : (c : Bytes) → overlay c [] ≡ c
overlay-nil [] = refl
overlay-nil (b ∷ c) = refl

-- The file of another input is as it was.
Move-other :
    {d d' : Disk} {g g' : Download} (k : String)
    → Move d g d' g'
    → k ≢ g.source.file_name
    → d' k ≡ d k
Move-other k (finds_file e) h = refl
Move-other k (stat_fails e) h = refl
Move-other k (finds_none e) h = refl
Move-other k (opens {d = d} {s = s}) h = set_file-other s.file_name k [] d h
Move-other k (open_fails e) h = refl
Move-other k (copies {d = d} {s = s} c) h = set_file-other s.file_name k _ d h
Move-other k (fetch_fails {d = d} {s = s} c e) h = set_file-other s.file_name k _ d h

Move-IsKept : {d d' : Disk} {g g' : Download} → Move d g d' g' → IsKept d g → IsKept d' g'
Move-IsKept (finds_file e) k c h = absurd (cc)
Move-IsKept (stat_fails e) k c h = absurd (cc)
Move-IsKept (finds_none e) k c h = absurd (cc)
Move-IsKept (opens {d = d} {s = s}) k c h = set_file-same s.file_name [] d ∙ h
Move-IsKept (open_fails e) k c h = absurd (cc)
Move-IsKept (copies {d = d} {s = s} c') k c h =
    set_file-same s.file_name _ d
    ∙ ap (λ old. some (overlay c' (bytes_at old))) (k [] refl)
    ∙ ap some (overlay-nil c')
    ∙ h
Move-IsKept (fetch_fails c' e) k c h = absurd (cc)

Move-source : {d d' : Disk} {g g' : Download} → Move d g d' g' → g'.source ≡ g.source
Move-source (finds_file e) = refl
Move-source (stat_fails e) = refl
Move-source (finds_none e) = refl
Move-source opens = refl
Move-source (open_fails e) = refl
Move-source (copies c) = refl
Move-source (fetch_fails c e) = refl

pub OneMoves-sources :
    {d d' : Disk} {gs gs' : List Download} → OneMoves d gs d' gs' → sources_of gs' ≡ sources_of gs
OneMoves-sources (here {gs = gs} m) = ap (λ s. s ∷ sources_of gs) (Move-source m)
OneMoves-sources (there {g = g} m) = ap (λ l. g.source ∷ l) (OneMoves-sources m)

OneMoves-other :
    {d d' : Disk} {gs gs' : List Download} (k : String)
    → OneMoves d gs d' gs'
    → All (λ m. m ≢ k) (names (sources_of gs))
    → d' k ≡ d k
OneMoves-other k (here m) (h, hs) = Move-other k m (λ e. h (sym e))
OneMoves-other k (there m) (h, hs) = OneMoves-other k m hs

IsKept-beside :
    {d d' : Disk} {g g' : Download} (gs : List Download)
    → Move d g d' g'
    → All (λ m. m ≢ g.source.file_name) (names (sources_of gs))
    → All (IsKept d) gs
    → All (IsKept d') gs
IsKept-beside [] m h k = tt
IsKept-beside (x ∷ gs) m (h, hs) (k, ks) =
    ((λ c e. Move-other x.source.file_name m h ∙ k c e), IsKept-beside gs m hs ks)

pub OneMoves-IsKept :
    {d d' : Disk} {gs gs' : List Download}
    → OneMoves d gs d' gs'
    → AreDistinct (names (sources_of gs))
    → All (IsKept d) gs
    → All (IsKept d') gs'
OneMoves-IsKept (here {gs = gs} m) (h, hs) (k, ks) = (Move-IsKept m k, IsKept-beside gs m h ks)
OneMoves-IsKept (there {g = g} m) (h, hs) (k, ks) =
    ((λ c e. OneMoves-other g.source.file_name m h ∙ k c e), OneMoves-IsKept m hs ks)

pub ReadsAt-sources :
    {gs gs' : List Download} {n k : ℕ} → ReadsAt n gs k gs' → sources_of gs' ≡ sources_of gs
ReadsAt-sources receives_nil = refl
ReadsAt-sources receives_error = refl
ReadsAt-sources (further {g = g} r) = ap (λ l. g.source ∷ l) (ReadsAt-sources r)

pub ReadsAt-IsKept :
    {gs gs' : List Download} {n k : ℕ} (d : Disk)
    → ReadsAt n gs k gs'
    → All (IsKept d) gs
    → All (IsKept d) gs'
ReadsAt-IsKept d receives_nil h = h
ReadsAt-IsKept d receives_error (h, hs) = ((λ c e. absurd (cc)), hs)
ReadsAt-IsKept d (further r) (h, hs) = (h, ReadsAt-IsKept d r hs)
