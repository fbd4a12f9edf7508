-- ===== src/Pzsvc/Json.antt =====
-- encoding/json, as the program uses it: a decoder for each type that is read, an encoder for each
-- that is written. A decoder gives the value it has filled, also where it ends in an error.
use pzsvc_exec.Prelude.{String, Option}
use pzsvc_exec.Host.{GoError, Try}
use pzsvc_exec.Pzsvc.Model.{
  Service, SvcList, IngestReq, JobStatusResp, JobInitResp, UserProfileResp,
}
use pzsvc_exec.Pzsvc.Status.{StatusUpdate}

-- json.Unmarshal into a variable that holds `zero`.
pub record Decoder (A : Type 0) : Type 0 where
  pub zero : A
  pub decode : String → A × Option GoError

pub record PzJson : Type 0 where
  pub job_status : Decoder JobStatusResp
  pub job_init : Decoder JobInitResp
  pub profile : Decoder UserProfileResp
  pub svc_list : Decoder SvcList
  pub encode_service : Service → String
  pub encode_ingest : IngestReq → Try String
  pub encode_status : StatusUpdate → String
