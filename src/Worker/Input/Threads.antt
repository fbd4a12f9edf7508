-- ===== src/Worker/Input/Threads.antt =====
-- worker/input: the goroutines of DownloadInputAsync on one disk, and the loop of FetchInputs over
-- their channels, interleaved in any order. The stat of a file and its opening are two steps. These
-- are the steps of a program in which no goroutine panics: Panics has the others.
pub mod Panics
pub mod Kept
pub mod Files
pub mod Races
pub mod Left
pub mod Ends
pub mod Sequential
use pzsvc_exec.Prelude.{
  ℕ, suc, ◌+◌, String, ◌<>◌, ◌==◌, Option, none, some, List, [], ◌∷◌, map, ◌≡◌, if◌then◌else◌,
}
use pzsvc_exec.Host.{GoError, plain}
use pzsvc_exec.Worker.Config.{InputSource}

abbrev pub Bytes : Type 0
Bytes = List ℕ

-- The files by their names.
abbrev pub Disk : Type 0
Disk = String → Option Bytes

abbrev pub set_file : String → Bytes → Disk → Disk
set_file name content disk k = if k == name then some content else disk k

-- What is written from the start of a file on, over what is there.
abbrev pub overlay : Bytes → Bytes → Bytes
overlay [] old = old
overlay (b ∷ content) [] = b ∷ content
overlay (b ∷ content) (o ∷ old) = b ∷ overlay content old

abbrev pub bytes_at : Option Bytes → Bytes
bytes_at none = []
bytes_at (some c) = c

-- The file was opened without an offset.
abbrev pub write : String → Bytes → Disk → Disk
write name content disk = set_file name (overlay content (bytes_at (disk name))) disk

-- The goroutine of one input: at the stat, at the opening of the file, at the attempts and the copy,
-- at the send of an error, or through, with the channel closed. What it has copied is kept.
pub data Progress : Type 0 where
  checking : Progress
  opening : Progress
  fetching : Progress
  sending : GoError → Progress
  failed : Progress
  done : (content : Bytes) → Progress

pub record Download : Type 0 where
  pub source : InputSource
  pub progress : Progress

pub data Move : Disk → Download → Disk → Download → Type 0 where
  finds_file :
      {d : Disk} {s : InputSource} {c : Bytes}
      → d s.file_name ≡ some c
      → Move d
          (record { source = s; progress = checking })
          d
          (record {
            source = s;
            progress = sending (plain ("File already exists: " <> s.file_name));
          })
  stat_fails :
      {d : Disk} {s : InputSource} (e : GoError)
      → Move d
          (record { source = s; progress = checking })
          d
          (record { source = s; progress = sending e })
  finds_none :
      {d : Disk} {s : InputSource}
      → d s.file_name ≡ none
      → Move d
          (record { source = s; progress = checking })
          d
          (record { source = s; progress = opening })
  -- The file is created, or emptied if it is there by now.
  opens :
      {d : Disk} {s : InputSource}
      → Move d
          (record { source = s; progress = opening })
          (set_file s.file_name [] d)
          (record { source = s; progress = fetching })
  open_fails :
      {d : Disk} {s : InputSource} (e : GoError)
      → Move d
          (record { source = s; progress = opening })
          d
          (record { source = s; progress = sending e })
  copies :
      {d : Disk} {s : InputSource} (content : Bytes)
      → Move d
          (record { source = s; progress = fetching })
          (write s.file_name content d)
          (record { source = s; progress = done content })
  -- After the attempts, or in the copy, of which a part may be written.
  fetch_fails :
      {d : Disk} {s : InputSource} (content : Bytes) (e : GoError)
      → Move d
          (record { source = s; progress = fetching })
          (write s.file_name content d)
          (record { source = s; progress = sending e })

-- One of the goroutines moves.
pub data OneMoves : Disk → List Download → Disk → List Download → Type 0 where
  here :
      {d d' : Disk} {g g' : Download} {gs : List Download}
      → Move d g d' g'
      → OneMoves d (g ∷ gs) d' (g' ∷ gs)
  there :
      {d d' : Disk} {g : Download} {gs gs' : List Download}
      → OneMoves d gs d' gs'
      → OneMoves d (g ∷ gs) d' (g ∷ gs')

-- The channel at a position is received from: nil once it is closed, or the error that is sent
-- before. With it comes how many errors that adds.
pub data ReadsAt : ℕ → List Download → ℕ → List Download → Type 0 where
  receives_nil :
      {s : InputSource} {c : Bytes} {gs : List Download}
      → ReadsAt 0
          (record { source = s; progress = done c } ∷ gs)
          0
          (record { source = s; progress = done c } ∷ gs)
  receives_error :
      {s : InputSource} {e : GoError} {gs : List Download}
      → ReadsAt 0
          (record { source = s; progress = sending e } ∷ gs)
          1
          (record { source = s; progress = failed } ∷ gs)
  further :
      {n k : ℕ} {g : Download} {gs gs' : List Download}
      → ReadsAt n gs k gs'
      → ReadsAt (suc n) (g ∷ gs) k (g ∷ gs')

-- The loop of FetchInputs with the number of channels read and of errors.
pub record Fetching : Type 0 where
  pub disk : Disk
  pub downloads : List Download
  pub position : ℕ
  pub errors : ℕ

pub data Step : Fetching → Fetching → Type 0 where
  moves :
      {d d' : Disk} {gs gs' : List Download} {n e : ℕ}
      → OneMoves d gs d' gs'
      → Step
          (record { disk = d; downloads = gs; position = n; errors = e })
          (record { disk = d'; downloads = gs'; position = n; errors = e })
  reads :
      {d : Disk} {gs gs' : List Download} {n e k : ℕ}
      → ReadsAt n gs k gs'
      → Step
          (record { disk = d; downloads = gs; position = n; errors = e })
          (record { disk = d; downloads = gs'; position = suc n; errors = e + k })

pub data Runs (s : Fetching) : Fetching → Type 0 where
  none_yet : Runs s s
  and_then : {t u : Fetching} → Runs s t → Step t u → Runs s u

abbrev pub new_download : InputSource → Download
new_download s = record { source = s; progress = checking }

-- All downloads have been started.
abbrev pub started : Disk → List InputSource → Fetching
started disk sources = record {
  disk = disk;
  downloads = map new_download sources;
  position = 0;
  errors = 0;
}
