-- ===== src/Pzsvc/Status.antt =====
-- pzsvc/execresult.go: the message that sets a job's status.
use pzsvc_exec.Prelude.{String, Option}

pub record StatusResult : Type 0 where
  pub type_name : String
  pub data_id : String

-- `Result` is a pointer that is left out when it is nil.
pub record StatusUpdate : Type 0 where
  pub status : String
  pub result : Option StatusResult
