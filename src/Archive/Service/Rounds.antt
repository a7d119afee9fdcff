-- ===== src/Archive/Service/Rounds.antt =====
-- src/archive/mod.rs: snapshots of the RIBs, `rollover` and the scheduler's `tick`. The clock's reading
-- is an argument of each call.
use focl.Base.{ℕ, Bool, true, not, Option, none, some, List, [], ◌∷◌, ◌==◌, if◌then◌else◌, ok, err}
use focl.Base.Int.{ℤ, eq_ℤ}
use focl.Types.{archive_segment_opened, archive_segment_finalized}
use focl.Archive.Types.{ArchiveStream, updates, ribs, as_str, FinalizedSegment, RibSnapshotInput}
use focl.Archive.Layout.{aligned_epoch, segment_paths}
use focl.Archive.World.{M, pure, touch, call, update}
use focl.Archive.World
use focl.Archive.Snapshot.{build_table_dump_v2}
use focl.Archive.Writer.{SegmentWriter, new, write_record, finalize}
use focl.Archive.Service.{
  ArchiveService, Kit, Act, ◌>>=◌, ◌>>◌, done, act_if, lift, on_files, fields, emit, replicate,
  ensure_updates_writer, rotate_updates,
}

-- The loop over the records of a dump.
unfoldable pub write_records : List (List ℕ) → SegmentWriter → M SegmentWriter
write_records [] w = pure w
write_records (r ∷ rs) w = World.◌>>=◌ (write_record r w) (write_records rs)

abbrev pub set_ribs_last : Option FinalizedSegment → Act (Unit {0})
set_ribs_last segment (s, w) = (ok tt, (record s { ribs_last = segment }, w))

abbrev pub set_last_rib_bucket : Option ℤ → Act (Unit {0})
set_last_rib_bucket bucket (s, w) = (ok tt, (record s { last_rib_bucket = bucket }, w))

-- A collector id of 0.0.0.0 stands for the service's own.
abbrev pub with_collector : ℕ → RibSnapshotInput → RibSnapshotInput
with_collector own input =
    if input.collector_bgp_id == 0 then record input { collector_bgp_id = own } else input

-- `snapshot_now` of an enabled archive.
unfoldable pub take_snapshot : Kit → RibSnapshotInput → ArchiveService → Act FinalizedSegment
take_snapshot kit input s = do
  start_ts ← lift (aligned_epoch input.timestamp s.cfg.ribs_interval_secs)
  paths ← lift (segment_paths kit.timestamp_opt s.cfg ribs input.timestamp)
  emit (archive_segment_opened (as_str ribs) paths.final_path start_ts)
  writer ← on_files (new s.cfg ribs start_ts paths)
  records ← lift (build_table_dump_v2 kit.mrt input)
  written ← on_files (write_records records writer)
  finalized ← on_files (finalize kit.lib input.timestamp written)
  emit (
      archive_segment_finalized (as_str ribs) finalized.final_path finalized.end_ts
        finalized.record_count)
  now ← fields
  replicate kit finalized now.replicator
  set_ribs_last (some finalized)
  lift (ok finalized)

unfoldable pub snapshot_now : Kit → RibSnapshotInput → Act FinalizedSegment
unfolding take_snapshot
snapshot_now kit input = do
  s ← fields
  if not s.cfg.enabled
      then lift (err "archive is disabled")
      else take_snapshot kit (with_collector s.collector_bgp_id input) s

-- The snapshot that `rollover` and `tick` take: no peers and no routes.
abbrev pub empty_snapshot : ℤ → ℕ → RibSnapshotInput
empty_snapshot now collector_bgp_id = record {
  timestamp = now;
  collector_bgp_id = collector_bgp_id;
  view_name = "main";
  peers = [];
  routes = [];
}

-- `self.snapshot_now(snapshot).await?`, the segment dropped.
abbrev pub snap : Kit → ℤ → ArchiveService → Act (Unit {0})
snap kit now s = snapshot_now kit (empty_snapshot now s.collector_bgp_id) >>= λ _. done

unfoldable pub roll : Kit → ℤ → ArchiveStream → ArchiveService → Act (Unit {0})
roll kit now updates s = rotate_updates kit now
roll kit now ribs s = snap kit now s

unfoldable pub rollover : Kit → ℤ → ArchiveStream → Act (Unit {0})
unfolding roll
rollover kit now stream = do s ← fields; act_if s.cfg.enabled (roll kit now stream s)

abbrev pub is_due : ℤ → Option ℤ → Bool
is_due bucket none = true
is_due bucket (some last) = not (eq_ℤ last bucket)

-- The second half of `tick`.
unfoldable pub tick_ribs : Kit → ℤ → Act (Unit {0})
tick_ribs kit now = do
  s ← fields
  rib_bucket ← lift (aligned_epoch now s.cfg.ribs_interval_secs)
  act_if (is_due rib_bucket s.last_rib_bucket)
      (snap kit now s >> set_last_rib_bucket (some rib_bucket))

unfoldable pub tick : Kit → ℤ → Act (Unit {0})
tick kit now = do
  s ← fields
  act_if s.cfg.enabled (ensure_updates_writer kit now >> tick_ribs kit now)
