-- ===== src/Host/Events.antt =====
-- What a run does, as a list with the newest event first.
use pzsvc_exec.Prelude.{ℕ, String, Bool, true, false, List}
use pzsvc_exec.Host.World.{Request, TaskRequest, CfConfig}

pub data Event : Type 0 where
  -- LogFunc, and what is printed to the standard error
  logged : String → Event
  -- client.Do, client.Head, client.Get
  sent : Request → Event
  -- time.Sleep, in seconds
  slept : ℕ → Event
  -- exec.Command
  ran : List String → Event
  -- os.Stat, os.OpenFile, io.Copy into a file, ioutil.ReadFile
  stat_file : String → Event
  opened : String → Event
  written : (name content : String) → Event
  read : String → Event
  -- cfclient: NewClient, ListAppsByQuery, TasksByAppByQuery, CreateTask
  connected : CfConfig → Event
  listed_apps : Event
  counted : String → Event
  created : TaskRequest → Event

abbrev pub Trace : Type 0
Trace = List Event

-- The tests by which statements pick events.
abbrev pub is_log : Event → Bool
is_log (logged s) = true
is_log _ = false

abbrev pub is_sent : Event → Bool
is_sent (sent r) = true
is_sent _ = false

abbrev pub is_created : Event → Bool
is_created (created r) = true
is_created _ = false

abbrev pub is_ran : Event → Bool
is_ran (ran c) = true
is_ran _ = false

abbrev pub is_connected : Event → Bool
is_connected (connected c) = true
is_connected _ = false
