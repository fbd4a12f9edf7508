-- ===== src/Dispatcher/Poll/Jobs.antt =====
-- dispatcher/poll/loop.go: which of the jobs that were taken are started.
use pzsvc_exec.Prelude.{
  ℕ, String, ◌==◌, Bool, false, true, not, Option, none, some, is_some, ◌≡◌, ◌≢◌, refl, length,
  nat_eq, arith,
}
use pzsvc_exec.Host.{Host, Event, Go, pure, GoError, ok, err, is_log, is_created}
use pzsvc_exec.Host.Exactly.{Exactly, Exactly-pure, Exactly-after, Exactly-after_of}
use pzsvc_exec.Host.Returns.{Returns, Returns-pure, Returns-then, Returns-bind}
use pzsvc_exec.Pzsvc.Model.{InpStruct}
use pzsvc_exec.Pzsvc.Log.{log_simple_err}
use pzsvc_exec.Pzsvc.Log.Laws.{log_info-Exactly, log_simple_err-Exactly}
use pzsvc_exec.Dispatcher.JobData.{DispatcherJson, PzTaskItem}
use pzsvc_exec.Dispatcher.Cf.{WrappedCfSession}
use pzsvc_exec.Dispatcher.Command.{build_worker_command}
use pzsvc_exec.Dispatcher.Command.Laws.{build_worker_command-ok_iff}
use pzsvc_exec.Dispatcher.Poll.{Loop, mask, parse_job_input, start_job}
use pzsvc_exec.Dispatcher.Poll.Launched.{launch-Exactly}

-- The input of the job, as Piazza sent it.
abbrev pub job_text : PzTaskItem → String
job_text item = item.out_data.svc_data.in_data.data_inputs.body.content

-- The input can be decoded, and has as many names as URLs.
abbrev pub IsStartable : DispatcherJson → PzTaskItem → Type 0
IsStartable json item =
    (input : InpStruct) × (json.inp_struct.decode (job_text item) ≡ (input, none))
    × (length input.in_ext_files ≡ length input.in_ext_names)

-- The action returns an error, and does nothing but write to the log.
pub record IsDropped (m : Go (Option GoError)) : Type 0 where
  pub quiet : Exactly (λ e. not (is_log e)) 0 m
  pub fails : Returns (λ e. is_some e ≡ true) m

module _ (host : Host) (json : DispatcherJson) (l : Loop) (s : WrappedCfSession) (item : PzTaskItem)
    (waiting : (job_text item == "") ≡ false) where
  module _ (input : InpStruct)
      (decoded : json.inp_struct.decode (job_text item) ≡ (input, none)) where
    parse-Returns : Returns (λ r. r ≡ ok (mask input)) (parse_job_input host json l (job_text item))
    unfolding parse_job_input
    parse-Returns = rw decoded (Returns-pure _ refl)

    parse-Exactly : {p : Event → Bool} → Exactly p 0 (parse_job_input host json l (job_text item))
    unfolding parse_job_input
    parse-Exactly = rw decoded (Exactly-pure _)

    pub start_job-Exactly :
        (client : ℕ)
        → s.client ≡ some client
        → length input.in_ext_files ≡ length input.in_ext_names
        → Exactly is_created 1 (start_job host json l s item)
    unfolding start_job mask
    start_job-Exactly client connected paired =
        let (command, built) =
          (build_worker_command-ok_iff l.config_path l.svc_id (mask input)
              item.out_data.svc_data.job_id).1
            paired in
        rw waiting (
          Exactly-after _ _ (log_info-Exactly host (λ line. refl) l.pz_session _) (λ _.
            Exactly-after_of (λ r. r ≡ ok (mask input)) _ _ parse-Exactly parse-Returns
              (λ r e.
                rw (e, built)
                  (launch-Exactly host json l client s _ command (mask input) connected))))

    start_job-unpaired :
        length input.in_ext_files ≢ length input.in_ext_names
        → IsDropped (start_job host json l s item)
    unfolding start_job mask build_worker_command
    start_job-unpaired h =
        let differ : nat_eq (length input.in_ext_files) (length input.in_ext_names) ≡ false =
          ground (arith, h) in
        record {
          quiet = rw waiting (
              Exactly-after _ _ (log_info-Exactly host (λ line. refl) l.pz_session _) (λ _.
                Exactly-after_of (λ r. r ≡ ok (mask input)) _ _ parse-Exactly parse-Returns
                  (λ r e. rw (e, differ) (Exactly-pure _))));
          fails = rw waiting (
              Returns-then _ _ (λ _.
                Returns-bind (λ r. r ≡ ok (mask input)) _ _ parse-Returns
                  (λ r e. rw (e, differ) (Returns-pure _ refl))));
        }

  module _ (input : InpStruct) (e : GoError)
      (decoded : json.inp_struct.decode (job_text item) ≡ (input, some e)) where
    failed_parse-Returns : Returns (λ r. r ≡ err e) (parse_job_input host json l (job_text item))
    unfolding parse_job_input
    failed_parse-Returns = rw decoded (
        Returns-then (log_simple_err host l.pz_session "Error decoding job input body" (some e))
          (λ _. pure (err e)) (λ _. Returns-pure (err e) refl))

    failed_parse-Exactly :
        Exactly (λ e. not (is_log e)) 0 (parse_job_input host json l (job_text item))
    unfolding parse_job_input
    failed_parse-Exactly = rw decoded (
        Exactly-after (log_simple_err host l.pz_session "Error decoding job input body" (some e))
          (λ _. pure (err e)) (log_simple_err-Exactly host (λ line. refl) l.pz_session _ _)
          (λ _. Exactly-pure (err e)))

    start_job-undecoded : IsDropped (start_job host json l s item)
    unfolding start_job
    start_job-undecoded = record {
      quiet = rw waiting (
          Exactly-after _ _ (log_info-Exactly host (λ line. refl) l.pz_session _) (λ _.
            Exactly-after_of (λ r. r ≡ err e) _ _ failed_parse-Exactly failed_parse-Returns
              (λ r k. rw k (Exactly-pure _))));
      fails = rw waiting (
          Returns-then _ _ (λ _.
            Returns-bind (λ r. r ≡ err e) _ _ failed_parse-Returns
              (λ r k. rw k (Returns-pure _ refl))));
    }

  -- A job that was taken, with some input, is started with one task if its input can be decoded and
  -- has as many names as URLs, in a session with a client. Otherwise it is dropped: the iteration
  -- returns an error, and nothing is done but to write to the log, so that the job is neither
  -- started nor reported as failed.
  pub start_job-IsDropped :
      (client : ℕ)
      → s.client ≡ some client
      → (IsStartable json item → Exactly is_created 1 (start_job host json l s item))
        × (¬ IsStartable json item → IsDropped (start_job host json l s item))
  start_job-IsDropped client connected = (
    (λ (input, decoded, paired). start_job-Exactly input decoded client connected paired),
    dropped (json.inp_struct.decode (job_text item)) refl,
  )
    where
      dropped :
          (r : InpStruct × Option GoError)
          → json.inp_struct.decode (job_text item) ≡ r
          → ¬ IsStartable json item
          → IsDropped (start_job host json l s item)
      dropped (input, some e) decoded h = start_job-undecoded input e decoded
      dropped (input, none) decoded h =
          start_job-unpaired input decoded (λ paired. h (input, decoded, paired))
