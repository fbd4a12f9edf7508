-- ===== src/Host/World.antt =====
-- Values that cross the boundary: errors, HTTP messages, file states and task requests.
use pzsvc_exec.Prelude.{ℕ, String, Option, Map}
use pzsvc_exec.Prelude.Int.{ℤ}

-- A non-nil `error`, by the dynamic types that the program tells apart.
pub data GoError : Type 0 where
  plain : String → GoError
  exit_error : (message stderr : String) → GoError
  memory_limit : String → GoError
  cf_error : (code : ℕ) (message : String) → GoError

-- err.Error()
abbrev pub error_text : GoError → String
error_text (plain m) = m
error_text (exit_error m stderr) = m
error_text (memory_limit m) = m
error_text (cf_error code m) = m

-- A value, or an error with no value of use.
pub data Try {ℓ} (A : Type ℓ) : Type ℓ where
  ok : A → Try A
  err : GoError → Try A

-- What is still to be read from a body, and the error that stands at its end.
pub record Body : Type 0 where
  pub content : String
  pub failure : Option GoError

pub record Request : Type 0 where
  pub method : String
  pub url : String
  pub header : Map String
  pub body : String

pub record Response : Type 0 where
  pub status_code : ℕ
  pub status : String
  pub header : Map String
  pub body : Body

pub data FileState : Type 0 where
  present : FileState
  absent : GoError → FileState
  unknown : GoError → FileState

-- cfclient.Config. The HTTP client stands for its timeout in seconds, the token source for itself.
pub record CfConfig : Type 0 where
  pub api_address : String
  pub username : String
  pub password : String
  pub http_client : Option ℕ
  pub token : String
  pub token_source : Option ℕ
  pub user_agent : String

-- The fields of cfclient.TaskRequest that the program sets.
pub record TaskRequest : Type 0 where
  pub command : String
  pub name : String
  pub droplet_guid : String
  pub disk_in_megabyte : ℤ
  pub memory_in_megabyte : ℤ
