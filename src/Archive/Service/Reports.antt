-- ===== src/Archive/Service/Reports.antt =====
-- src/archive/mod.rs: the calls that report on the service, and the retry of failed copies.
use focl.Base.{ℕ, String, Option, none, some, List, map, Result, ok, err}
use focl.Config.{
  ArchiveDestinationConfig, DestinationType, to_local, to_s3, DestinationMode, primary,
  async_replica, destination_key,
}
use focl.Archive.Types.{FinalizedSegment, ArchiveStatus}
use focl.Archive.Writer.{SegmentWriter}
use focl.Archive.Queue.{pending_count}
use focl.Archive.Replicator.{Replicator, retry_all}
use focl.Archive.Service.{ArchiveService, Kit, Act, ◌>>=◌, lift, fields}

unfoldable pub retry_by : Kit → Option Replicator → Act ℕ
retry_by kit none (s, w) = (ok 0, (s, w))
retry_by kit (some rep) (s, w) =
    let (result, rep') = retry_all kit.outside rep in
    (result, (record s { replicator = some rep' }, w))

unfoldable pub retry_failed_replications : Kit → Act ℕ
unfolding retry_by
retry_failed_replications kit = do s ← fields; retry_by kit s.replicator

-- `pending_count` and `failures` of the replicator, if there is one.
unfoldable pub queued_of : Kit → Option Replicator → Result ℕ
queued_of kit none = ok 0
queued_of kit (some rep) = elim (kit.outside.database 0) [
  | some e ↦ err e
  | none ↦ ok (pending_count rep.queue)
]

abbrev pub failures_of : Option Replicator → ℕ
failures_of none = 0
failures_of (some rep) = rep.failures

abbrev pub open_path : Option SegmentWriter → Option String
open_path none = none
open_path (some w) = some w.paths.final_path

abbrev pub open_count : Option SegmentWriter → ℕ
open_count none = 0
open_count (some w) = w.record_count

abbrev pub last_path : Option FinalizedSegment → Option String
last_path none = none
last_path (some f) = some f.final_path

abbrev pub last_count : Option FinalizedSegment → ℕ
last_count none = 0
last_count (some f) = f.record_count

unfoldable pub status : Kit → Act ArchiveStatus
unfolding queued_of
status kit = do
  s ← fields
  queued ← lift (queued_of kit s.replicator)
  lift (
      ok (record {
        enabled = s.cfg.enabled;
        collector_id = s.cfg.collector_id;
        updates_interval_secs = s.cfg.updates_interval_secs;
        ribs_interval_secs = s.cfg.ribs_interval_secs;
        updates_open_path = open_path s.updates_writer;
        updates_record_count = open_count s.updates_writer;
        ribs_last_path = last_path s.ribs_last;
        ribs_last_record_count = last_count s.ribs_last;
        queued_replication_jobs = queued;
        replication_failures = failures_of s.replicator;
      }))

abbrev pub type_name : DestinationType → String
type_name to_local = "local"
type_name to_s3 = "s3"

abbrev pub mode_name : DestinationMode → String
mode_name primary = "primary"
mode_name async_replica = "async_replica"

-- `destinations`: the key, the mode and the type of each.
unfoldable pub destinations : ArchiveService → List (String × String × String)
destinations s =
    map
      (λ (d : ArchiveDestinationConfig).
        (destination_key d, mode_name d.mode, type_name d.destination_type))
      s.cfg.destinations
