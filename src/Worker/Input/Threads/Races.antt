-- ===== src/Worker/Input/Threads/Races.antt =====
-- worker/input: two inputs of one file name, between the stat and the opening of the file.
use pzsvc_exec.Prelude.{
  String, ◌≡◌, ◌≢◌, ◌∙◌, refl, ap, sym, none, some, List, [], ◌∷◌, All, eq_refl,
}
use pzsvc_exec.Worker.Config.{InputSource}
use pzsvc_exec.Worker.Input.Threads.{
  Bytes, Disk, set_file, overlay, bytes_at, write, Progress, done, finds_none, opens, copies, here,
  there, receives_nil, further, Fetching, moves, reads, Runs, none_yet, and_then, started,
}
use pzsvc_exec.Worker.Input.Threads.Kept.{overlay-nil}
use pzsvc_exec.Worker.Input.Threads.Files.{IsDone, IsDownloaded}

-- The two inputs.
abbrev pub twins : (name url url' : String) → List InputSource
twins name url url' =
    record { file_name = name; url = url } ∷ record { file_name = name; url = url' } ∷ []

abbrev copied : Progress → Bytes
copied (done c) = c
copied _ = []

-- Both files were opened before either was written.
abbrev overwritten : (name : String) (c c' : Bytes) → Disk → Disk
overwritten name c c' disk = write name c' (write name c (set_file name [] (set_file name [] disk)))

overwritten-content :
    (name : String) (c c' : Bytes) (disk : Disk)
    → overwritten name c c' disk name ≡ some (overlay c' c)
overwritten-content name c c' disk = rw (eq_refl name, overlay-nil c) refl

abbrev both_done : Disk → (name url url' : String) (c c' : Bytes) → Fetching
both_done disk name url url' c c' = record {
  disk = overwritten name c c' disk;
  downloads =
      record { source = record { file_name = name; url = url }; progress = done c }
      ∷ record { source = record { file_name = name; url = url' }; progress = done c' }
      ∷ [];
  position = 2;
  errors = 0;
}

-- Where two inputs have the same new file name, both downloads can end without an error, the file
-- then holds what the second has copied over what the first has, and if the two differ one of the
-- downloads is not what its file holds.
pub twins-IsDone :
    (disk : Disk) (name url url' : String) (c c' : Bytes)
    → disk name ≡ none
    → c ≢ c'
    → (s : Fetching) × Runs (started disk (twins name url url')) s
      × (s.position ≡ 2)
      × (s.errors ≡ 0)
      × All IsDone s.downloads
      × (s.disk name ≡ some (overlay c' c))
      × ¬ All (IsDownloaded s.disk) s.downloads
twins-IsDone disk name url url' c c' fresh differ =
    let there_now = overwritten-content name c c' disk in
    (
      both_done disk name url url' c c',
      and_then
          (and_then
            (and_then
              (and_then
                (and_then
                  (and_then
                    (and_then (and_then none_yet (moves (here (finds_none fresh))))
                      (moves (there (here (finds_none fresh)))))
                    (moves (here opens)))
                  (moves (there (here opens))))
                (moves (here (copies c))))
              (reads receives_nil))
            (moves (there (here (copies c')))))
          (reads (further receives_nil)),
      refl,
      refl,
      ((c, refl), ((c', refl), tt)),
      there_now,
      (λ ((x, e, h), ((x', e', h'), _)).
          differ (ap copied e ∙ sym (ap bytes_at h) ∙ ap bytes_at h' ∙ sym (ap copied e'))),
    )
