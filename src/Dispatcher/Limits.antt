-- ===== src/Dispatcher/Limits.antt =====
-- dispatcher/poll/loop.go: the disk and the memory that a task asks for.
pub mod Laws
use pzsvc_exec.Prelude.{String, Bool, ◌&&◌, Option, none, some, List, [], ◌∷◌, if◌then◌else◌, ◌<>◌}
use pzsvc_exec.Prelude.Int
use pzsvc_exec.Prelude.Int.{ℤ, pos, positive}
use pzsvc_exec.Text.{contains, atoi, itoa}
use pzsvc_exec.Host.{Host, Go, pure, on_nil, ◌>>=◌, ◌>>◌}
use pzsvc_exec.Pzsvc.Model.{Session, InpStruct}
use pzsvc_exec.Pzsvc.Log.{log_info}
use pzsvc_exec.Pzsvc.CustomError.{PzCustomError, log}
use pzsvc_exec.Pzsvc.Http.Sizes.{get_s3_file_size_in_megabytes}

module _ (host : Host) where
  overridden : (variable : String) → ℤ → ℤ
  overridden variable default_mb =
      let (n, fine) = atoi (host.getenv variable) in if positive n && fine then n else default_mb

  -- The package's variables after `init`.
  unfoldable pub default_task_disk_mb : ℤ
  unfolding overridden
  default_task_disk_mb = overridden "TASK_DISK_MB" (pos 6142)

  unfoldable pub default_task_memory_mb : ℤ
  unfolding overridden
  default_task_memory_mb = overridden "TASK_MEMORY_MB" (pos 4096)

  module _ (s : Session) where
    -- One file of the loop: its size in megabytes, or none where the loop gives up.
    unfoldable pub size_of_input : String → Go (Option ℤ)
    size_of_input url =
        if contains url "amazonaws"
        then (do
          (file_size, e) ← get_s3_file_size_in_megabytes host url
          on_nil e
              (do
                log_info host s ("S3 File Size for " <> url <> " found to be " <> itoa file_size)
                pure (some file_size))
              (λ e'. do
                _ ←
                    log host s
                      ("Tried to get File Size from S3 File " <> url
                        <> " but encountered an error; giving up on calculating input sizes")
                      e'
                pure none))
        else (do
          log_info host s
              ("Input file " <> url <> " is not AWS; giving up on calculating input sizes")
          pure none)

    -- The loop over the files, with the total so far.
    unfoldable pub sum_sizes : List String → ℤ → Go ℤ
    sum_sizes [] total = pure total
    sum_sizes (url ∷ rest) total = do
      size ← size_of_input url
      on_nil size (pure (pos 0)) (λ n. sum_sizes rest (Int.add total n))

    unfoldable pub calculate_aws_input_file_size_mb : InpStruct → Go ℤ
    calculate_aws_input_file_size_mb job_input = sum_sizes job_input.in_ext_files (pos 0)

  -- Disk and memory, from the size of the input.
  unfoldable pub limits_for : ℤ → ℤ × ℤ
  limits_for input_size =
      if positive input_size
      then (
        Int.add (pos 4096) (Int.mul input_size (pos 2)),
        Int.add default_task_memory_mb (Int.mul input_size (pos 5)),
      )
      else (default_task_disk_mb, default_task_memory_mb)

  unfoldable pub calculate_disk_and_memory_limits : Session → InpStruct → Go (ℤ × ℤ)
  calculate_disk_and_memory_limits s job_input = do
    input_size ← calculate_aws_input_file_size_mb s job_input
    let (disk_mb, memory_mb) = limits_for input_size
    log_info host s (
        if positive input_size
        then "Obtained S3 File Sizes for input files; will use Dynamic Disk Space of "
          <> itoa disk_mb
          <> " in Task container and Dynamic Memory Size of "
          <> itoa memory_mb
        else "Could not get the S3 File Sizes for input files. Will use the default Disk "
          <> itoa disk_mb
          <> " and Memory "
          <> itoa memory_mb
          <> " when running Task.")
    pure (disk_mb, memory_mb)
