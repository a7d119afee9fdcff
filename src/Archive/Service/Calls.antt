-- ===== src/Archive/Service/Calls.antt =====
-- src/archive/mod.rs: the invariant of the archive over each of its calls and over its two tasks,
-- whichever calls below them fail.
use focl.Base.{
  ℕ, String, Option, none, some, List, [], ◌≡◌, subst, arith, not, ◌&&◌, Result, ok, err, ok_or,
}
use focl.Base.Int.{ℤ}
use focl.Config.{ArchiveConfig}
use focl.Types.{archive_segment_opened, archive_segment_finalized}
use focl.Archive.Types.{
  ArchiveStream, as_str, FinalizedSegment, updates, ribs, UpdateRecordInput, PeerStateRecordInput,
  RibSnapshotInput,
}
use focl.Archive.Layout.{aligned_epoch, segment_paths}
use focl.Archive.Snapshot.{
  encode_bgp4mp_message_as4, encode_bgp4mp_state_change_as4, build_table_dump_v2,
}
use focl.Archive.Writer.{SegmentWriter, new, write_record, finalize}
use focl.Archive.Replicator.{Replicator, Outside, collect}
use focl.Archive.Replicator.Sound.{IsReplicator, run_once-IsReplicator, retry_all-IsReplicator}
use focl.Archive.Service.{
  ArchiveService, Kit, Act, ◌>>=◌, ◌>>◌, done, lift, on_files, fields, set_writer, emit, replicate,
  ensure_updates_writer, append_record, ingest_update, ingest_peer_state,
}
use focl.Archive.Service.Rounds.{
  write_records, take_snapshot, snapshot_now, with_collector, set_ribs_last, set_last_rib_bucket,
  empty_snapshot, snap, roll, rollover, is_due, tick_ribs, tick,
}
use focl.Archive.Service.Reports.{retry_by, retry_failed_replications}
use focl.Archive.Service.Background.{round_of, replicate_once, Turn, round, ticks, turn}
use focl.Archive.Service.Always.{
  Keeps-bind, Keeps-lift, Keeps-fields, Keeps-act_if, Keeps-if, Keeps-on_files,
}
use focl.Archive.Service.Invariant.{
  IsOpen, Each, IsArchive, Safe, any_result, write_record-IsOpen, emit-Safe, set_writer-Safe,
  replicate-Safe, ensure_updates_writer-Safe, rotate_updates-Safe,
}

module _ (kit : Kit) (c : ArchiveConfig) where
  abbrev I : ArchiveService → Type 0
  I = IsArchive kit c

  ok_or-Each :
      (P : SegmentWriter → Type 0) (o : Option SegmentWriter) (error : String) (w : SegmentWriter)
      → Each P o
      → ok_or o error ≡ ok w
      → P w
  ok_or-Each P none error w h e = absurd (ground arith)
  ok_or-Each P (some v) error w h e = let same : v ≡ w = ground arith in subst P same h

  append_record-Safe : (encoded : Result (List ℕ)) → Safe kit c (append_record encoded)
  unfolding append_record
  append_record-Safe encoded = Keeps-lift I encoded _ (λ bytes _. Keeps-fields I _ (λ s h.
      Keeps-lift I (ok_or s.updates_writer "updates writer not initialized") _ (λ w e.
        Keeps-on_files I (IsOpen kit c) (write_record bytes w)
          (λ written. set_writer (some written))
          (write_record-IsOpen kit c bytes w (
            ok_or-Each (IsOpen kit c) s.updates_writer "updates writer not initialized" w h.writer
              e))
          (λ written k. set_writer-Safe kit c (some written) k))))

  pub ingest_update-Safe : (u : UpdateRecordInput) → Safe kit c (ingest_update kit u)
  unfolding ingest_update
  ingest_update-Safe u = Keeps-fields I _ (λ s h. Keeps-act_if I s.cfg.enabled _ (
      Keeps-bind I (ensure_updates_writer kit u.timestamp) _
        (ensure_updates_writer-Safe kit c u.timestamp)
        (λ _. append_record-Safe (encode_bgp4mp_message_as4 kit.mrt u))))

  pub ingest_peer_state-Safe : (p : PeerStateRecordInput) → Safe kit c (ingest_peer_state kit p)
  unfolding ingest_peer_state
  ingest_peer_state-Safe p = Keeps-fields I _ (λ s h.
      Keeps-act_if I (s.cfg.enabled && s.cfg.include_peer_state_records) _ (
        Keeps-bind I (ensure_updates_writer kit p.timestamp) _
          (ensure_updates_writer-Safe kit c p.timestamp)
          (λ _. append_record-Safe (encode_bgp4mp_state_change_as4 kit.mrt p))))

  refused : {A : Type 0} (r : Result A) → Safe kit c (lift r)
  refused r = record { at = λ s w h. h }

  set_ribs_last-Safe : (segment : Option FinalizedSegment) → Safe kit c (set_ribs_last segment)
  set_ribs_last-Safe segment = record {
    at = λ s w h. record { cfg = h.cfg; writer = h.writer; replicator = h.replicator };
  }

  set_last_rib_bucket-Safe : (bucket : Option ℤ) → Safe kit c (set_last_rib_bucket bucket)
  set_last_rib_bucket-Safe bucket = record {
    at = λ s w h. record { cfg = h.cfg; writer = h.writer; replicator = h.replicator };
  }

  -- The rest of a snapshot behind its segment.
  abbrev after_dump : FinalizedSegment → Act FinalizedSegment
  after_dump segment =
      emit (
        archive_segment_finalized (as_str ribs) segment.final_path segment.end_ts
          segment.record_count)
      >> (fields >>= λ now.
          replicate kit segment now.replicator
          >> (set_ribs_last (some segment) >> lift (ok segment)))

  stored-Safe : (segment : FinalizedSegment) → Safe kit c (after_dump segment)
  stored-Safe segment =
      let event =
        archive_segment_finalized (as_str ribs) segment.final_path segment.end_ts
          segment.record_count in
      Keeps-bind I (emit event) _ (emit-Safe kit c event) (λ _. Keeps-fields I _ (λ s h.
        Keeps-bind I (replicate kit segment s.replicator) _
          (replicate-Safe kit c segment s.replicator h.replicator)
          (λ _.
            Keeps-bind I (set_ribs_last (some segment)) _ (set_ribs_last-Safe (some segment))
              (λ _. refused (ok segment)))))

  -- The steps of a snapshot behind the file of its segment.
  abbrev after_file : RibSnapshotInput → SegmentWriter → Act FinalizedSegment
  after_file input writer = lift (build_table_dump_v2 kit.mrt input) >>= λ records.
      on_files (write_records records writer) >>= λ written.
      on_files (finalize kit.lib input.timestamp written) >>= after_dump

  after_file-Safe :
      (input : RibSnapshotInput) (writer : SegmentWriter) → Safe kit c (after_file input writer)
  after_file-Safe input writer = Keeps-lift I (build_table_dump_v2 kit.mrt input) _ (λ records _.
      Keeps-on_files I (λ _. Unit {0}) (write_records records writer)
        (λ written. on_files (finalize kit.lib input.timestamp written) >>= after_dump)
        (any_result (write_records records writer))
        (λ written _.
          Keeps-on_files I (λ _. Unit {0}) (finalize kit.lib input.timestamp written) after_dump
            (any_result (finalize kit.lib input.timestamp written))
            (λ segment _. stored-Safe segment)))

  take_snapshot-Safe :
      (input : RibSnapshotInput) (s : ArchiveService) → Safe kit c (take_snapshot kit input s)
  unfolding take_snapshot
  take_snapshot-Safe input s =
      Keeps-lift I (aligned_epoch input.timestamp s.cfg.ribs_interval_secs) _ (λ start_ts _.
        Keeps-lift I (segment_paths kit.timestamp_opt s.cfg ribs input.timestamp) _ (λ paths _.
          let event = archive_segment_opened (as_str ribs) paths.final_path start_ts in
          Keeps-bind I (emit event) _ (emit-Safe kit c event) (λ _.
            Keeps-on_files I (λ _. Unit {0}) (new s.cfg ribs start_ts paths) (after_file input)
              (any_result (new s.cfg ribs start_ts paths))
              (λ writer _. after_file-Safe input writer))))

  pub snapshot_now-Safe : (input : RibSnapshotInput) → Safe kit c (snapshot_now kit input)
  unfolding snapshot_now
  snapshot_now-Safe input = Keeps-fields I _ (λ s h.
      let i = with_collector s.collector_bgp_id input in
      Keeps-if I (not s.cfg.enabled) (lift (err "archive is disabled")) (take_snapshot kit i s)
        (refused (err "archive is disabled")) (take_snapshot-Safe i s))

  snap-Safe : (now : ℤ) (s : ArchiveService) → Safe kit c (snap kit now s)
  snap-Safe now s =
      Keeps-bind I (snapshot_now kit (empty_snapshot now s.collector_bgp_id)) (λ _. done)
        (snapshot_now-Safe (empty_snapshot now s.collector_bgp_id)) (λ _. refused (ok tt))

  roll-Safe :
      (now : ℤ) (stream : ArchiveStream) (s : ArchiveService) → Safe kit c (roll kit now stream s)
  unfolding roll
  roll-Safe now updates s = rotate_updates-Safe kit c now
  roll-Safe now ribs s = snap-Safe now s

  pub rollover-Safe : (now : ℤ) (stream : ArchiveStream) → Safe kit c (rollover kit now stream)
  unfolding rollover
  rollover-Safe now stream =
      Keeps-fields I _
        (λ s h. Keeps-act_if I s.cfg.enabled (roll kit now stream s) (roll-Safe now stream s))

  tick_ribs-Safe : (now : ℤ) → Safe kit c (tick_ribs kit now)
  unfolding tick_ribs
  tick_ribs-Safe now = Keeps-fields I _ (λ s h.
      Keeps-lift I (aligned_epoch now s.cfg.ribs_interval_secs) _ (λ bucket _.
        Keeps-act_if I (is_due bucket s.last_rib_bucket)
          (snap kit now s >> set_last_rib_bucket (some bucket))
          (Keeps-bind I (snap kit now s) (λ _. set_last_rib_bucket (some bucket)) (snap-Safe now s)
            (λ _. set_last_rib_bucket-Safe (some bucket)))))

  pub tick-Safe : (now : ℤ) → Safe kit c (tick kit now)
  unfolding tick
  tick-Safe now = Keeps-fields I _ (λ s h.
      Keeps-act_if I s.cfg.enabled (ensure_updates_writer kit now >> tick_ribs kit now) (
        Keeps-bind I (ensure_updates_writer kit now) (λ _. tick_ribs kit now)
          (ensure_updates_writer-Safe kit c now) (λ _. tick_ribs-Safe now)))

  retry_by-Safe :
      (r : Option Replicator)
      → Each (IsReplicator (collect c.destinations [])) r
      → Safe kit c (retry_by kit r)
  unfolding retry_by
  retry_by-Safe none k = record { at = λ s w h. h }
  retry_by-Safe (some rep) k = record {
    at = λ s w h. record {
      cfg = h.cfg;
      writer = h.writer;
      replicator = retry_all-IsReplicator (collect c.destinations []) kit.outside rep k;
    };
  }

  pub retry_failed_replications-Safe : Safe kit c (retry_failed_replications kit)
  unfolding retry_failed_replications
  retry_failed_replications-Safe = Keeps-fields I _ (λ s h. retry_by-Safe s.replicator h.replicator)

  round_of-Safe :
      (o : Outside) (r : Option Replicator)
      → Each (IsReplicator (collect c.destinations [])) r
      → Safe kit c (round_of o r)
  unfolding round_of
  round_of-Safe o none k = record { at = λ s w h. h }
  round_of-Safe o (some rep) k = record {
    at = λ s w h. record {
      cfg = h.cfg;
      writer = h.writer;
      replicator = run_once-IsReplicator (collect c.destinations []) o rep w k;
    };
  }

  replicate_once-Safe : (o : Outside) → Safe kit c (replicate_once o)
  unfolding replicate_once
  replicate_once-Safe o = Keeps-fields I _ (λ s h. round_of-Safe o s.replicator h.replicator)

  pub turn-Safe : (t : Turn) → Safe kit c (turn kit t)
  unfolding turn
  turn-Safe (round o) = replicate_once-Safe o
  turn-Safe (ticks now) = tick-Safe now
