-- ===== src/Protocol.antt =====
-- internal/protocol/protocol.go: the messages between the bridge and the service. A type is its
-- text. The JSON of `encoding/json` is a `Codec`: how a message is written, and what is read from a
-- payload; `none` is its error.
use brother_connect.Base.{ℕ, ℤ, Bool, String, Option, none, some, List}
use brother_connect.Job.State.{State, Transition}
use brother_connect.Job.Validation.{Job}
use brother_connect.Printer.Types.{Connection, Status}

-- `Version`
abbrev pub version : ℕ
version = 1

-- `type Type string` with its constants.
abbrev pub type_hello : String
type_hello = "hello"

abbrev pub type_welcome : String
type_welcome = "welcome"

abbrev pub type_heartbeat : String
type_heartbeat = "heartbeat"

abbrev pub type_printer_update : String
type_printer_update = "printer_update"

abbrev pub type_job_deliver : String
type_job_deliver = "job_deliver"

abbrev pub type_job_ack : String
type_job_ack = "job_ack"

abbrev pub type_job_status : String
type_job_status = "job_status"

abbrev pub type_error : String
type_error = "error"

abbrev pub type_token_revoked : String
type_token_revoked = "token_revoked"

-- `type Envelope struct`
pub record Envelope : Type 0 where
  pub type : String
  pub payload : List ℕ

-- `type Hello struct`
pub record Hello : Type 0 where
  pub protocol_version : ℕ
  pub installation_id : String
  pub bridge_version : String

-- `type Welcome struct`
pub record Welcome : Type 0 where
  pub protocol_version : ℕ
  pub session_id : String

-- `type PrinterUpdate struct`; the connection and the status stand for their texts.
pub record PrinterUpdate : Type 0 where
  pub printer_id : String
  pub model : String
  pub serial_number : String
  pub connection : Connection
  pub status : Status
  pub available : Bool
  pub dpi : ℕ
  pub loaded_width_mm : ℤ
  pub loaded_height_mm : ℤ

-- `type JobStatus struct`
pub record JobStatus : Type 0 where
  pub job_id : String
  pub transition : Transition
  pub current_state : State

-- `type Error struct`
pub record ErrorReport : Type 0 where
  pub code : String
  pub message : String
  pub job_id : String

-- What the bridge sends; a heartbeat is its installation, an acknowledgement its job.
pub data Message : Type 0 where
  say_hello : Hello → Message
  say_alive : String → Message
  tell_printer : PrinterUpdate → Message
  acknowledge : String → Message
  tell_status : JobStatus → Message
  tell_error : ErrorReport → Message

pub record Codec : Type 0 where
  pub marshal_json : Message → Option (List ℕ)
  pub read_job : List ℕ → Option Job
  pub read_welcome : List ℕ → Option Welcome

abbrev pub in_envelope : String → Option (List ℕ) → Option Envelope
in_envelope t none = none
in_envelope t (some raw) = some (record { type = t; payload = raw })

-- `Encode`
unfoldable pub encode_message : Codec → String → Message → Option Envelope
encode_message c t m = in_envelope t (c.marshal_json m)

-- `Decode` of a `job_deliver` and of a `welcome`.
unfoldable pub decode_job : Codec → Envelope → Option Job
decode_job c e = c.read_job e.payload

unfoldable pub decode_welcome : Codec → Envelope → Option Welcome
decode_welcome c e = c.read_welcome e.payload
