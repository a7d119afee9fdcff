-- ===== src/Control/Client.antt =====
-- src/bin/focl.rs: the command line, from a parsed command to what it prints.
use focl.Base.{ℕ, String, Bool, Option, none, some, Result, ok, ◌>>=◌, ◌>>◌, context, if◌then◌else◌}
use Prim.Native.String.{◌++◌}
use focl.Control.{Value, text, object, no_fields, field, ControlRequest, ControlResponse}

pub data PeerCommands : Type 0 where
  list : PeerCommands
  show : String → PeerCommands
  reset : String → PeerCommands

pub data RibCommands : Type 0 where
  summary : RibCommands
  received : String → RibCommands
  out : String → RibCommands

pub data ArchiveCommands : Type 0 where
  status : ArchiveCommands
  rollover : String → ArchiveCommands
  snapshot : ArchiveCommands
  destinations : ArchiveCommands
  retry : ArchiveCommands

pub data Commands : Type 0 where
  start : String → Commands
  stop : Commands
  reload : Commands
  peer : PeerCommands → Commands
  rib : RibCommands → Commands
  archive : ArchiveCommands → Commands

-- `json!({})`
abbrev pub no_args : Value
no_args = object no_fields

abbrev pub peer_request : PeerCommands → String × Value
peer_request list = ("peer_list", no_args)
peer_request (show p) = ("peer_show", object (field "peer" (text p)))
peer_request (reset p) = ("peer_reset", object (field "peer" (text p)))

abbrev pub rib_request : RibCommands → String × Value
rib_request summary = ("rib_summary", no_args)
rib_request (received p) = ("rib_in", object (field "peer" (text p)))
rib_request (out p) = ("rib_out", object (field "peer" (text p)))

abbrev pub archive_request : ArchiveCommands → String × Value
archive_request status = ("archive_status", no_args)
archive_request (rollover stream) = ("archive_rollover", object (field "stream" (text stream)))
archive_request snapshot = ("archive_snapshot_now", no_args)
archive_request destinations = ("archive_destinations", no_args)
archive_request retry = ("archive_replicator_retry", no_args)

-- What a command sends, if it is not the one that starts the daemon.
unfoldable pub request_of : Commands → Option (String × Value)
request_of (start config) = none
request_of stop = some ("shutdown", no_args)
request_of reload = some ("reload", no_args)
request_of (peer c) = some (peer_request c)
request_of (rib c) = some (rib_request c)
request_of (archive c) = some (archive_request c)

-- The system and serde, for one run of the command line: `exchange` is the line that the daemon answers
-- to the text that was written.
pub record Link : Type 0 where
  pub current_exe : Result String
  pub with_file_name : String → String → String
  pub exists : String → Bool
  pub spawn : String → String → Result ℕ
  pub connect : String → Result (Unit {0})
  pub id : String
  pub to_text : ControlRequest → Result String
  pub exchange : String → Result String
  pub trim_end : String → String
  pub parse_response : String → Result ControlResponse

abbrev pub request : Link → String → Value → ControlRequest
request link cmd args = record { version = 1; id = link.id; cmd = cmd; args = args }

unfoldable pub send_control_request : Link → String → String → Value → Result ControlResponse
send_control_request link socket cmd args = do
  context (link.connect socket) ("failed connecting to " ++ socket)
  payload ← link.to_text (request link cmd args)
  line ← link.exchange (payload ++ "\n")
  link.parse_response (link.trim_end line)

unfoldable pub locate_focld_binary : Link → Result String
locate_focld_binary link = do
  current ← context link.current_exe "failed resolving current executable"
  let sibling = link.with_file_name current "focld"
  ok (if link.exists sibling then sibling else "focld")

pub data Printed : Type 0 where
  started : ℕ → Printed
  printed : ControlResponse → Printed

start_daemon : Link → String → Result Printed
start_daemon link config = do
  focld_bin ← locate_focld_binary link
  pid ← context (link.spawn focld_bin config) "failed spawning focld"
  ok (started pid)

unfoldable pub send : Link → String → String × Value → Result Printed
send link socket (cmd, args) = do
  response ← send_control_request link socket cmd args
  ok (printed response)

-- `main`, its arguments parsed.
unfoldable pub main : Link → String → Commands → Result Printed
unfolding start_daemon
main link socket (start config) = start_daemon link config
main link socket stop = send link socket ("shutdown", no_args)
main link socket reload = send link socket ("reload", no_args)
main link socket (peer c) = send link socket (peer_request c)
main link socket (rib c) = send link socket (rib_request c)
main link socket (archive c) = send link socket (archive_request c)
