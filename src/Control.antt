-- ===== src/Control.antt =====
-- src/types.rs and src/control/mod.rs: the messages of the control socket.
pub mod Rendered
pub mod Daemon
pub mod Boot
pub mod Connection
pub mod Client
pub mod Queries
pub mod Answers
pub mod Ordered
pub mod Complete
pub mod Told
pub mod Executed
pub mod Served
pub mod Steps
pub mod Reached
pub mod Serving
use focl.Base.{ℕ, String, Bool, true, false, Option, none, some, str_eq, if◌then◌else◌}
use focl.Base.Int.{ℤ}

-- `serde_json::Value`, an object's fields in the order in which the source writes them.
mutual
  pub data Value : Type 0 where
    null : Value
    boolean : Bool → Value
    number : ℤ → Value
    text : String → Value
    array : Values → Value
    object : Fields → Value

  pub data Values : Type 0 where
    no_values : Values
    value_then : Value → Values → Values

  pub data Fields : Type 0 where
    no_fields : Fields
    field_then : String → Value → Fields → Fields

abbrev pub field : String → Value → Fields
field name v = field_then name v no_fields

pub record ControlRequest : Type 0 where
  pub version : ℕ
  pub id : String
  pub cmd : String
  pub args : Value

pub record ControlError : Type 0 where
  pub code : String
  pub message : String

pub record ControlResponse : Type 0 where
  pub version : ℕ
  pub id : String
  pub is_ok : Bool
  pub result : Option Value
  pub error : Option ControlError

-- `ControlResponse::ok`
unfoldable pub answer : String → Value → ControlResponse
answer id result = record { version = 1; id = id; is_ok = true; result = some result; error = none }

-- `ControlResponse::err`
unfoldable pub refuse : String → String → String → ControlResponse
refuse id code message = record {
  version = 1;
  id = id;
  is_ok = false;
  result = none;
  error = some (record { code = code; message = message });
}

pub data CommandKind : Type 0 where
  ping daemon_status shutdown reload peer_list peer_show peer_reset rib_summary rib_in rib_out
        archive_status archive_rollover archive_snapshot_now archive_destinations
        archive_replicator_retry unsupported :
      CommandKind

-- The `match` of `CommandKind::from_request` on the command's name.
unfoldable pub kind_of : String → CommandKind
kind_of cmd =
    if str_eq cmd "ping"
    then ping
    else if str_eq cmd "daemon_status"
    then daemon_status
    else if str_eq cmd "shutdown"
    then shutdown
    else if str_eq cmd "reload"
    then reload
    else if str_eq cmd "peer_list"
    then peer_list
    else if str_eq cmd "peer_show"
    then peer_show
    else if str_eq cmd "peer_reset"
    then peer_reset
    else if str_eq cmd "rib_summary"
    then rib_summary
    else if str_eq cmd "rib_in"
    then rib_in
    else if str_eq cmd "rib_out"
    then rib_out
    else if str_eq cmd "archive_status"
    then archive_status
    else if str_eq cmd "archive_rollover"
    then archive_rollover
    else if str_eq cmd "archive_snapshot_now"
    then archive_snapshot_now
    else if str_eq cmd "archive_destinations"
    then archive_destinations
    else if str_eq cmd "archive_replicator_retry"
    then archive_replicator_retry
    else unsupported

abbrev pub from_request : ControlRequest → CommandKind
from_request req = kind_of req.cmd

pub record PeerKeyArgs : Type 0 where
  pub peer : String

-- The stream of a message; the archive has a type of its own.
pub data ArchiveStream : Type 0 where
  updates ribs : ArchiveStream

pub record ArchiveRolloverArgs : Type 0 where
  pub stream : ArchiveStream

-- `ArchiveStatusResult`
pub record ArchiveStatusResult : Type 0 where
  pub enabled : Bool
  pub collector_id : String
  pub updates_interval_secs : ℕ
  pub ribs_interval_secs : ℕ
  pub updates_open_path : Option String
  pub updates_record_count : ℕ
  pub ribs_last_path : Option String
  pub ribs_last_record_count : ℕ
  pub queued_replication_jobs : ℕ
  pub replication_failures : ℕ
