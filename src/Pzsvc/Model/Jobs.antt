-- ===== src/Pzsvc/Model/Jobs.antt =====
-- pzsvc/model.go: the replies about jobs and users.
use pzsvc_exec.Prelude.{String, Option, none}
use pzsvc_exec.Prelude.Int.{ℤ, pos}

pub record DeplStrct : Type 0 where
  pub capabilities_url : String
  pub data_id : String
  pub depl_id : String
  pub host : String
  pub layer : String
  pub port : String

pub record DataResult : Type 0 where
  pub data_id : String
  pub deployment : DeplStrct
  pub details : String
  pub message : String
  pub job_id : String
  pub text : String

pub record JobProg : Type 0 where
  pub percent_complete : ℤ
  pub time_remaining : String
  pub time_spent : String

-- `Result` is a pointer, which the reply may leave nil.
pub record JobStatusResp : Type 0 where
  pub created_by : String
  pub job_id : String
  pub job_type : String
  pub progress : JobProg
  pub result : Option DataResult
  pub status : String

abbrev pub zero_job_status : JobStatusResp
zero_job_status = record {
  created_by = "";
  job_id = "";
  job_type = "";
  progress = record { percent_complete = pos 0; time_remaining = ""; time_spent = "" };
  result = none;
  status = "";
}

-- `Data.JobID`
pub record JobInitResp : Type 0 where
  pub job_id : String

-- `Data.UserProfile`
pub record UserProfileResp : Type 0 where
  pub user_name : String
  pub distinguished_name : String
  pub created_on : String
