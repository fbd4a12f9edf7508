-- ===== src/Dispatcher/Limits/Laws.antt =====
-- The limits follow from the sizes of the inputs, without overflow for sizes that can occur.
use pzsvc_exec.Prelude.{
  ℕ, suc, ◌+◌, ◌*◌, ◌^◌, ◌<◌, ◌≤◌, String, none, some, List, [], ◌∷◌, ◌++◌, ◌≡◌, arith, All, subst,
  sym, ap, ◌∙◌,
}
use pzsvc_exec.Prelude.Int.{ℤ, pos, add_pos}
use pzsvc_exec.Host.{Host, Trace, Event, ret, logged, sent, Request, pure}
use pzsvc_exec.Host.Adds.{Adds, adds_rules}
use pzsvc_exec.Host.Runs.{Runs, Runs-pure, Runs-bind, Runs-then}
use pzsvc_exec.Pzsvc.Model.{Session, InpStruct}
use pzsvc_exec.Pzsvc.Log.Laws.{log_info-Runs, log_info-Adds}
use pzsvc_exec.Pzsvc.CustomError.Laws.{log-Adds}
use pzsvc_exec.Pzsvc.Http.Laws.{get_s3_file_size_in_megabytes-Adds}
use pzsvc_exec.Dispatcher.Limits.{
  size_of_input, sum_sizes, calculate_aws_input_file_size_mb, limits_for, default_task_memory_mb,
  default_task_disk_mb, calculate_disk_and_memory_limits,
}

-- The sizes of the files, added up.
abbrev pub total_size : (String → ℕ) → List String → ℕ
total_size size [] = 0
total_size size (url ∷ urls) = size url + total_size size urls

module _ (host : Host) (s : Session) where
  -- From every trace the file's size is found to be this many megabytes.
  abbrev pub HasSize : (String → ℕ) → String → Type 0
  HasSize size url = Runs (some (pos (size url))) (size_of_input host s url)

  sum_sizes-Runs :
      (size : String → ℕ) (urls : List String) (total : ℕ)
      → All (HasSize size) urls
      → total + total_size size urls < 2 ^ 63
      → Runs (pos (total + total_size size urls)) (sum_sizes host s urls (pos total))
  unfolding sum_sizes
  sum_sizes-Runs size [] total h lt =
      subst (λ k. Runs (pos k) (pure (pos total))) (omega arith) (Runs-pure (pos total))
  sum_sizes-Runs size (url ∷ urls) total (h, hs) lt = Runs-bind _ _ _ h (
      subst (λ z. Runs (pos (total + (size url + total_size size urls))) (sum_sizes host s urls z))
        (sym (add_pos total (size url) (omega arith)))
        (subst (λ k. Runs (pos k) (sum_sizes host s urls (pos (total + size url)))) (omega arith)
          (sum_sizes-Runs size urls (total + size url) hs (omega arith))))

  sum_sizes_given_up :
      (size : String → ℕ) (before : List String) (url : String) (after : List String) (total : ℤ)
      → All (HasSize size) before
      → Runs none (size_of_input host s url)
      → Runs (pos 0) (sum_sizes host s (before ++ (url ∷ after)) total)
  unfolding sum_sizes
  sum_sizes_given_up size [] url after total h g = Runs-bind none _ _ g (Runs-pure _)
  sum_sizes_given_up size (u ∷ before) url after total (h, hs) g =
      Runs-bind _ _ _ h (sum_sizes_given_up size before url after _ hs g)

  limits-Runs :
      (input : InpStruct) (n : ℤ)
      → Runs n (calculate_aws_input_file_size_mb host s input)
      → Runs (limits_for host n) (calculate_disk_and_memory_limits host s input)
  unfolding calculate_disk_and_memory_limits
  limits-Runs input n h = Runs-bind n _ _ h (Runs-then _ _ (log_info-Runs host s _) (Runs-pure _))

  limits_for_lem :
      (m n : ℕ)
      → default_task_memory_mb host ≡ pos m
      → 4096 ≤ m
      → m + suc n * 5 < 2 ^ 63
      → limits_for host (pos (suc n)) ≡ (pos (4096 + suc n * 2), pos (m + suc n * 5))
  unfolding limits_for
  limits_for_lem m n dm lo hi = rw dm (ground arith)

  -- Where every file's size is known and the sum is positive, the task gets 4096 MB of disk and
  -- twice the sum, and the default memory and five times the sum. The default memory is at least
  -- 4096 MB, and the task's memory fits a 64-bit integer: then nothing overflows.
  pub calculate_limits_of_sizes :
      (size : String → ℕ) (input : InpStruct) (m n : ℕ) (t : Trace)
      → All (HasSize size) input.in_ext_files
      → total_size size input.in_ext_files ≡ suc n
      → default_task_memory_mb host ≡ pos m
      → 4096 ≤ m
      → m + suc n * 5 < 2 ^ 63
      → (calculate_disk_and_memory_limits host s input t).0
        ≡ ret (pos (4096 + suc n * 2), pos (m + suc n * 5))
  unfolding calculate_aws_input_file_size_mb limits_for
  calculate_limits_of_sizes size input m n t hs e dm lo hi =
      (limits-Runs input (pos (suc n)) (
          subst (λ k. Runs (pos k) (sum_sizes host s input.in_ext_files (pos 0))) (omega (arith, e))
            (sum_sizes-Runs size input.in_ext_files 0 hs (omega (arith, e))))).at
        t
      ∙ ap ret (limits_for_lem m n dm lo hi)

  -- A file whose size is not found makes the dispatcher give up: the task gets the defaults,
  -- whatever the files after it are.
  pub calculate_limits_given_up :
      (size : String → ℕ) (input : InpStruct) (before : List String) (url : String)
      (after : List String) (t : Trace)
      → input.in_ext_files ≡ before ++ (url ∷ after)
      → All (HasSize size) before
      → Runs none (size_of_input host s url)
      → (calculate_disk_and_memory_limits host s input t).0
        ≡ ret (default_task_disk_mb host, default_task_memory_mb host)
  unfolding calculate_aws_input_file_size_mb limits_for
  calculate_limits_given_up size input before url after t e hs g =
      (limits-Runs input (pos 0) (rw e (sum_sizes_given_up size before url after (pos 0) hs g))).at
        t

module _ (host : Host) (s : Session) {Q : Event → Type 0} (q : (l : String) → Q (logged l)) where
  size_of_input-Adds :
      (url : String)
      → Q (sent (record { method = "HEAD"; url = url; header = []; body = "" }))
      → Adds Q (size_of_input host s url)
  unfolding size_of_input
  size_of_input-Adds url h =
      search
        (
          adds_rules,
          get_s3_file_size_in_megabytes-Adds host {Q = Q},
          log_info-Adds host {Q = Q} q s,
          log-Adds host {Q = Q} q s,
        )
        depth 9

  sum_sizes-Adds :
      ((r : Request) → Q (sent r)) → (urls : List String) (n : ℤ) → Adds Q (sum_sizes host s urls n)
  unfolding sum_sizes
  sum_sizes-Adds h [] n = search adds_rules
  sum_sizes-Adds h (url ∷ urls) n =
      search (adds_rules, size_of_input-Adds, h, sum_sizes-Adds h urls) depth 9

  pub calculate_limits-Adds :
      ((r : Request) → Q (sent r))
      → (input : InpStruct) → Adds Q (calculate_disk_and_memory_limits host s input)
  unfolding calculate_disk_and_memory_limits calculate_aws_input_file_size_mb
  calculate_limits-Adds h input =
      search (adds_rules, sum_sizes-Adds, log_info-Adds host {Q = Q} q s, h) depth 9
