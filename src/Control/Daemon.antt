-- ===== src/Control/Daemon.antt =====
-- src/bin/focld.rs: the daemon's answer to one request. The archive, the table of peers and the files
-- are one state; the time at which a request is served is an argument.
use focl.Base.{String, Bool, true, Option, none, some, str_eq, if◌then◌else◌, Result, ok, err}
use Prim.Native.String.{◌++◌}
use focl.Base.Int.{ℤ, pos}
use focl.Net.{NetText}
use focl.Bgp.{PeerInfo, RibSummary}
use focl.Bgp.Peers.{BgpService, peer_list, peer_show, peer_reset, rib_summary, rib_out, rib_in}
use focl.Archive.Types
use focl.Archive.World.{World}
use focl.Archive.Service.{ArchiveService, Kit, Act}
use focl.Archive.Service.Rounds.{snapshot_now, rollover, empty_snapshot}
use focl.Archive.Service.Reports.{status, destinations, retry_failed_replications}
use focl.Control.{
  Value, boolean, number, array, object, field, ControlRequest, ControlResponse, answer, refuse,
  CommandKind, ping, daemon_status, shutdown, reload, peer_list as peer_list_cmd,
  peer_show as peer_show_cmd, peer_reset as peer_reset_cmd, rib_summary as rib_summary_cmd,
  rib_in as rib_in_cmd, rib_out as rib_out_cmd, archive_status, archive_rollover,
  archive_snapshot_now, archive_destinations, archive_replicator_retry, unsupported, from_request,
  PeerKeyArgs, ArchiveStream, updates, ribs, ArchiveRolloverArgs, ArchiveStatusResult,
}
use focl.Control.Rendered.{
  status_result, daemon_value, segment_value, destination_values, values_of, prefixes_value,
}

-- What the requests are served with: the archive's libraries, the text of networks, `trim_end`, and the
-- code that serde derives for the types of the messages.
pub record Desk : Type 0 where
  pub kit : Kit
  pub net : NetText
  pub trim_end : String → String
  pub parse_request : String → Result ControlRequest
  pub peer_args : Value → Result PeerKeyArgs
  pub rollover_args : Value → Result ArchiveRolloverArgs
  pub peer_value : PeerInfo → Value
  pub summary_value : RibSummary → Value
  pub status_value : ArchiveStatusResult → Value

pub record Daemon : Type 0 where
  pub archive : ArchiveService
  pub files : World
  pub bgp : BgpService
  pub shutting_down : Bool

-- What a request leads to: a response, events for as long as there are any after a response, or the
-- error with which the call returns.
pub data Reply : Type 0 where
  respond : ControlResponse → Reply
  subscribe : ControlResponse → Reply
  close : String → Reply

-- `archive.….await?`, and the response of what it gives.
abbrev pub concluded :
    {A : Type 0}
    → (A → Value)
    → String
    → Daemon
    → Result A × (ArchiveService × World)
    → Reply × Daemon
concluded to_value id d (ok a, (archive, files)) =
    (respond (answer id (to_value a)), record d { archive = archive; files = files })
concluded to_value id d (err e, (archive, files)) =
    (close e, record d { archive = archive; files = files })

unfoldable pub with_archive : {A : Type 0} → Act A → (A → Value) → String → Daemon → Reply × Daemon
with_archive act to_value id d = concluded to_value id d (act (d.archive, d.files))

-- The arguments of a call on one peer, or the refusal.
unfoldable pub with_peer :
    Desk → String → ControlRequest → (String → ControlResponse) → ControlResponse
with_peer desk label req next = elim (desk.peer_args req.args) [
  | ok args ↦ next args.peer
  | err e ↦ refuse req.id "invalid_args" (label ++ " args error: " ++ e)
]

-- `Ok(value)` or the refusal with that code.
unfoldable pub or_refuse : {A : Type 0} → String → String → (A → Value) → Result A → ControlResponse
or_refuse id code to_value (ok a) = answer id (to_value a)
or_refuse id code to_value (err e) = refuse id code e

reset_response : String → Result (Unit {0}) → ControlResponse
reset_response id = or_refuse id "peer_reset_failed" (λ _. object (field "reset" (boolean true)))

unfoldable pub show_response : Desk → String → Option PeerInfo → ControlResponse
show_response desk id (some peer) = answer id (object (field "peer" (desk.peer_value peer)))
show_response desk id none = refuse id "peer_not_found" "peer not found"

-- The two arms on the prefixes of a peer.
unfoldable pub rib_in_response : Desk → ControlRequest → Daemon → ControlResponse
rib_in_response desk req d =
    with_peer desk "rib_in" req
      (λ peer. or_refuse req.id "rib_in_failed" (prefixes_value peer) (rib_in peer d.bgp))

unfoldable pub rib_out_response : Desk → ControlRequest → Daemon → ControlResponse
rib_out_response desk req d =
    with_peer desk "rib_out" req (λ peer.
      or_refuse req.id "rib_out_failed" (prefixes_value peer) (rib_out desk.net peer d.bgp))

-- The arm of a command with no other: a subscription, or the refusal.
unfoldable pub unsupported_reply : ControlRequest → Reply
unsupported_reply req =
    if str_eq req.cmd "events_subscribe"
    then subscribe (answer req.id (object (field "subscribed" (boolean true))))
    else respond (refuse req.id "unsupported_command" ("unsupported cmd: " ++ req.cmd))

-- The archive's stream of a message's.
abbrev pub stream_of : ArchiveStream → Types.ArchiveStream
stream_of updates = Types.updates
stream_of ribs = Types.ribs

-- The arms of the `match` in `handle_client`.
unfoldable pub handle : Desk → ℤ → CommandKind → ControlRequest → Daemon → Reply × Daemon
unfolding reset_response rib_in_response rib_out_response unsupported_reply values_of prefixes_value
    destination_values
handle desk now ping req d = (respond (answer req.id (object (field "pong" (boolean true)))), d)
handle desk now daemon_status req d =
    with_archive (status desk.kit) (daemon_value (rib_summary d.bgp)) req.id d
handle desk now shutdown req d = (
  respond (answer req.id (object (field "shutting_down" (boolean true)))),
  record d { shutting_down = true },
)
handle desk now reload req d =
    (respond (answer req.id (object (field "reloaded" (boolean true)))), d)
handle desk now peer_list_cmd req d = (
  respond (
      answer req.id (object (field "peers" (array (values_of desk.peer_value (peer_list d.bgp)))))),
  d,
)
handle desk now peer_show_cmd req d = (
  respond
      (with_peer desk "peer_show" req (λ peer. show_response desk req.id (peer_show peer d.bgp))),
  d,
)
handle desk now peer_reset_cmd req d = elim (desk.peer_args req.args) [
  | err e ↦ (respond (refuse req.id "invalid_args" ("peer_reset args error: " ++ e)), d)
  | ok args ↦
      let (r, bgp) = peer_reset args.peer d.bgp in
      (respond (reset_response req.id r), record d { bgp = bgp })
]
handle desk now rib_summary_cmd req d =
    (respond (answer req.id (object (field "summary" (desk.summary_value (rib_summary d.bgp))))), d)
handle desk now rib_in_cmd req d = (respond (rib_in_response desk req d), d)
handle desk now rib_out_cmd req d = (respond (rib_out_response desk req d), d)
handle desk now archive_status req d =
    with_archive (status desk.kit) (λ s. desk.status_value (status_result s)) req.id d
handle desk now archive_rollover req d = elim (desk.rollover_args req.args) [
  | err e ↦ (respond (refuse req.id "invalid_args" ("archive_rollover args error: " ++ e)), d)
  | ok args ↦
      with_archive (rollover desk.kit now (stream_of args.stream))
        (λ _. object (field "ok" (boolean true))) req.id d
]
handle desk now archive_snapshot_now req d =
    with_archive (snapshot_now desk.kit (empty_snapshot now 0)) segment_value req.id d
handle desk now archive_destinations req d = (
  respond (
      answer req.id
        (object (field "destinations" (array (destination_values (destinations d.archive)))))),
  d,
)
handle desk now archive_replicator_retry req d =
    with_archive (retry_failed_replications desk.kit)
      (λ count. object (field "retried_jobs" (number (pos count)))) req.id d
handle desk now unsupported req d = (unsupported_reply req, d)

-- The body of the loop of `handle_client`, after a line is read and up to the write of its response.
unfoldable pub handle_line : Desk → ℤ → String → Daemon → Reply × Daemon
handle_line desk now line d = elim (desk.parse_request (desk.trim_end line)) [
  | err e ↦ (respond (refuse "unknown" "invalid_request" e), d)
  | ok req ↦ handle desk now (from_request req) req d
]
