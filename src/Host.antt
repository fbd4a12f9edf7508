-- ===== src/Host.antt =====
-- What the program meets outside its own code (the HTTP client, the operating system, the Cloud
-- Foundry client, the clock) and the actions that meet it. Every action adds what it did to a
-- trace, and the host answers as a function of the trace so far: any environment that a run can
-- meet is one host. An action may panic, which ends the program.
mod World
mod Events
mod Run
pub mod Adds
pub mod Counts
pub mod Returns
pub mod Runs
pub mod Panics
pub mod Exactly
pub mod Triple
pub mod Phases
pub use World.*
pub use Events.*
pub use Run.*
use pzsvc_exec.Prelude.{ℕ, String, Bool, Option, List, Map}

-- A call site: runtime.Caller(2) and FuncForPC.
pub record Caller : Type 0 where
  pub file : String
  pub line : ℕ
  pub function : String

-- mime/multipart over a buffer: the errors of its steps and the message.
pub record Multipart : Type 0 where
  pub write_field : String → Option GoError
  pub create_form_file : String → Try Bool
  pub copy : String → Option GoError
  pub close : Option GoError
  pub message : String → String → Option String → String
  pub content_type : String

-- The Cloud Foundry client library.
pub record CloudFoundry : Type 0 where
  pub new_client : Trace → CfConfig → Try ℕ
  pub list_apps : Trace → ℕ → (query : List (String × String)) → Option GoError
  pub tasks_by_app : Trace → ℕ → String → (query : List (String × String)) → Try (List String)
  pub create_task : Trace → ℕ → TaskRequest → Option GoError
  pub is_not_authorized : GoError → Bool
  pub is_not_authenticated : GoError → Bool
  pub is_app_memory_quota_exceeded : GoError → Bool
  pub is_quota_instance_limit_exceeded : GoError → Bool
  pub is_quota_instance_memory_limit_exceeded : GoError → Bool
  pub is_space_quota_instance_memory_limit_exceeded : GoError → Bool

pub record Host : Type 0 where
  -- net/http: the error of NewRequest for a method and a URL, the client, the status texts
  pub request_error : String → String → Option GoError
  pub respond : Trace → Request → Try Response
  pub status_text : ℕ → String
  pub multipart : Multipart
  -- log lines: the time, the machine, the process and the call site
  pub now : Trace → (layout : String) → String
  pub host_name : String
  pub pid : ℕ
  pub caller : Trace → Caller
  -- fmt.Errorf with no arguments
  pub errorf : String → String
  -- `%v` of a map
  pub map_text : Map String → String
  -- `%v` of the function that creates sessions
  pub func_text : String
  -- os, os/exec and io
  pub getenv : String → String
  pub stat : Trace → String → FileState
  pub open_file : Trace → String → Option GoError
  pub write_file : Trace → String → String → Option GoError
  pub read_file : Trace → String → Try String
  pub output : Trace → List String → String × Option GoError
  pub combined_output : Trace → List String → String × Option GoError
  -- whether the timer of an ingest wins over its result
  pub times_out : Trace → String → Bool
  -- encoding/base64 and net/url
  pub base64 : String → String
  pub query_escape : String → String
  pub cloud_foundry : CloudFoundry
