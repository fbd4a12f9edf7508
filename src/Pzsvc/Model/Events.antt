-- ===== src/Pzsvc/Model/Events.antt =====
-- pzsvc/model.go: event types, events and alerts, as Piazza sends them. `T` is time.Time, and `J` a
-- JSON value of any form.
use pzsvc_exec.Prelude.{String, List, Map}
use pzsvc_exec.Pzsvc.Model.Metadata.{Service, DataDesc, PagStruct}

pub record EventType (T J : Type 0) : Type 0 where
  pub event_type_id : String
  pub name : String
  pub mapping : Map J
  pub created_by : String
  pub created_on : T

pub record Alert : Type 0 where
  pub alert_id : String
  pub created_by : String
  pub event_id : String
  pub job_id : String
  pub trigger_id : String

pub record AlertList : Type 0 where
  pub type_name : String
  pub alerts : List Alert
  pub pagination : PagStruct

pub record ServiceResponse : Type 0 where
  pub type_name : String
  pub service : Service

pub record EventTypeResponse (T J : Type 0) : Type 0 where
  pub type_name : String
  pub event_type : EventType T J

pub record EventTypeList (T J : Type 0) : Type 0 where
  pub type_name : String
  pub event_types : List (EventType T J)
  pub pagination : PagStruct

pub record EventTypeMap (T J : Type 0) : Type 0 where
  pub event_type_map : Map (EventType T J)

pub record Event (T J : Type 0) : Type 0 where
  pub event_id : String
  pub event_type_id : String
  pub values : Map J
  pub created_by : String
  pub created_on : T
  pub cron_schedule : String

pub record EventList (T J : Type 0) : Type 0 where
  pub type_name : String
  pub events : List (Event T J)
  pub pagination : PagStruct

pub record EventResponse (T J : Type 0) : Type 0 where
  pub type_name : String
  pub event : Event T J

pub record FileDataList : Type 0 where
  pub type_name : String
  pub files : List DataDesc
  pub pagination : PagStruct
