-- ===== src/Dispatcher/JobData.antt =====
-- dispatcher/model/jobdata.go: the task item of Piazza's queue, and the JSON that the dispatcher
-- reads and writes.
use pzsvc_exec.Prelude.{String, Map}
use pzsvc_exec.Pzsvc.Model.{InpStruct}
use pzsvc_exec.Pzsvc.Json.{Decoder, PzJson}
use pzsvc_exec.Pzsvc.Config.{Config}

pub record WorkBody : Type 0 where
  pub content : String

pub record WorkDataInputs : Type 0 where
  pub body : WorkBody

pub record WorkInData : Type 0 where
  pub data_inputs : WorkDataInputs

pub record WorkSvcData : Type 0 where
  pub in_data : WorkInData
  pub job_id : String

pub record WorkOutData : Type 0 where
  pub svc_data : WorkSvcData

pub record PzTaskItem : Type 0 where
  pub out_data : WorkOutData

-- A value of an object that is decoded into a map of interfaces.
pub data JsonValue : Type 0 where
  text : String → JsonValue
  other : JsonValue

pub record DispatcherJson : Type 0 where
  pub pz : PzJson
  pub task_item : Decoder PzTaskItem
  pub inp_struct : Decoder InpStruct
  pub config : Decoder Config
  pub vcap : Decoder (Map JsonValue)
  pub encode_inp_struct : InpStruct → String
