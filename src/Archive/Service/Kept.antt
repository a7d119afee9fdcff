-- ===== src/Archive/Service/Kept.antt =====
-- src/archive/mod.rs: the fields that the writer of updates and a snapshot leave alone.
use focl.Base.{Option, none, some, ◌≡◌, subst, sym, not, Result, ok, err, if◌then◌else◌}
use focl.Base.Int.{ℤ}
use focl.Config.{ArchiveConfig}
use focl.Types.{archive_segment_opened, archive_segment_finalized}
use focl.Archive.Types.{as_str, FinalizedSegment, RibSnapshotInput, updates, ribs}
use focl.Archive.Layout.{aligned_epoch, segment_paths}
use focl.Archive.World.{World}
use focl.Archive.Snapshot.{build_table_dump_v2}
use focl.Archive.Writer.{SegmentWriter, new, finalize}
use focl.Archive.Replicator.{Replicator, enqueue_segment}
use focl.Archive.Service.{
  ArchiveService, Kit, ◌>>=◌, ◌>>◌, done, lift, on_files, fields, emit, set_writer, close,
  replicate, rotate_to, ensure_updates_writer, needs_rotate,
}
use focl.Archive.Service.Bucket.{OnOk}
use focl.Archive.Service.Rounds.{
  empty_snapshot, write_records, with_collector, take_snapshot, snapshot_now, snap, set_ribs_last,
}
use focl.Archive.Service.Steps.{
  From, From-bind, From-act_if, From-lift, From-on_files, From-done, From-fields, From-guard,
  From-weaken,
}

-- The configuration is that one.
abbrev pub With : ArchiveConfig → ArchiveService → Type 0
With c s = s.cfg ≡ c

-- The configuration and the open segment are those of `a`.
abbrev pub Apart : ArchiveService → ArchiveService → Type 0
Apart a s = (s.cfg ≡ a.cfg) × (s.updates_writer ≡ a.updates_writer)

enqueue-OnOk :
    (P : ArchiveService → Type 0) (r : Result (Unit {0})) (s : ArchiveService) (w : World)
    → P s
    → OnOk (λ _. P) (r, (s, w))
enqueue-OnOk P (ok a) s w p = p
enqueue-OnOk P (err e) s w p = tt

From-replicate :
    {P : ArchiveService → Type 0} (kit : Kit) (segment : FinalizedSegment) (rep : Option Replicator)
    → ((s : ArchiveService) (r : Replicator) → P s → P (record s { replicator = some r }))
    → From P (replicate kit segment rep) (λ _. P)
unfolding replicate
From-replicate kit segment none k = From-done
From-replicate {P} kit segment (some rep) k = record {
  at = λ s w p.
      enqueue-OnOk P (enqueue_segment kit.outside segment rep).0
        (record s { replicator = some (enqueue_segment kit.outside segment rep).1 }) w
        (k s (enqueue_segment kit.outside segment rep).1 p);
}

pub cfg-With : (c : ArchiveConfig) (s t : ArchiveService) → s.cfg ≡ c → t ≡ s → t.cfg ≡ c
cfg-With c s t p e = rw (e) p

pub apart : (a s t : ArchiveService) → Apart a s → t ≡ s → Apart a t
apart a s t p e = subst (Apart a) (sym e) p

close-With :
    (c : ArchiveConfig) (kit : Kit) (now : ℤ) (writer : Option SegmentWriter)
    → From (With c) (close kit now writer) (λ _. With c)
unfolding close
close-With c kit now none = From-done
close-With c kit now (some old) =
    From-bind (set_writer none) _ (record { at = λ s w p. p })
      (λ _.
        From-bind (on_files (finalize kit.lib now old)) _ (From-on_files (finalize kit.lib now old))
          (λ finalized.
            From-bind
              (emit (
                archive_segment_finalized (as_str updates) finalized.final_path finalized.end_ts
                  finalized.record_count))
              _ (record { at = λ s w p. p })
              (λ _.
                From-fields (λ s. replicate kit finalized s.replicator)
                  (λ s p.
                    From-weaken (λ t e. cfg-With c s t p e)
                      (From-replicate kit finalized s.replicator (λ t r q. q))))))

pub ensure-With :
    (c : ArchiveConfig) (kit : Kit) (now : ℤ)
    → From (With c) (ensure_updates_writer kit now) (λ _. With c)
unfolding ensure_updates_writer rotate_to
ensure-With c kit now = From-fields _ (λ s p.
    From-weaken (λ t e. cfg-With c s t p e)
      (From-bind (lift (aligned_epoch now s.cfg.updates_interval_secs)) _
        (From-lift (aligned_epoch now s.cfg.updates_interval_secs))
        (λ bucket.
          From-act_if (needs_rotate bucket s.updates_writer) (rotate_to kit now bucket s)
            (λ _.
              From-bind (close kit now s.updates_writer) _ (close-With c kit now s.updates_writer)
                (λ _.
                  From-bind (lift (segment_paths kit.timestamp_opt s.cfg updates now)) _
                    (From-lift (segment_paths kit.timestamp_opt s.cfg updates now))
                    (λ paths.
                      From-bind
                        (emit (archive_segment_opened (as_str updates) paths.final_path bucket)) _
                        (record { at = λ t w q. q })
                        (λ _.
                          From-bind (on_files (new s.cfg updates bucket paths))
                            (λ writer. set_writer (some writer))
                            (From-on_files (new s.cfg updates bucket paths))
                            (λ writer. record { at = λ t w q. q })))))
            (λ _. From-done))))

-- The steps after the snapshot's segment is finalized.
kept-Apart :
    (a : ArchiveService) (kit : Kit) (finalized : FinalizedSegment)
    → From
        (Apart a)
        (fields >>= λ now.
          replicate kit finalized now.replicator
          >> (set_ribs_last (some finalized) >> lift (ok finalized)))
        (λ _. Apart a)
kept-Apart a kit finalized = From-fields _ (λ s p.
    From-weaken (λ t e. apart a s t p e)
      (From-bind (replicate kit finalized s.replicator)
        (λ _. set_ribs_last (some finalized) >> lift (ok finalized))
        (From-replicate kit finalized s.replicator (λ t r q. q)) (λ _. record { at = λ t w q. q })))

taken :
    (kit : Kit) (input : RibSnapshotInput) (a s : ArchiveService)
    → From (Apart a) (take_snapshot kit input s) (λ _. Apart a)
unfolding take_snapshot
taken kit input a s =
    From-bind (lift (aligned_epoch input.timestamp s.cfg.ribs_interval_secs)) _
      (From-lift (aligned_epoch input.timestamp s.cfg.ribs_interval_secs))
      (λ start_ts.
        From-bind (lift (segment_paths kit.timestamp_opt s.cfg ribs input.timestamp)) _
          (From-lift (segment_paths kit.timestamp_opt s.cfg ribs input.timestamp))
          (λ paths.
            From-bind (emit (archive_segment_opened (as_str ribs) paths.final_path start_ts)) _
              (record { at = λ t w q. q })
              (λ _.
                From-bind (on_files (new s.cfg ribs start_ts paths)) _
                  (From-on_files (new s.cfg ribs start_ts paths))
                  (λ writer.
                    From-bind (lift (build_table_dump_v2 kit.mrt input)) _
                      (From-lift (build_table_dump_v2 kit.mrt input))
                      (λ records.
                        From-bind (on_files (write_records records writer)) _
                          (From-on_files (write_records records writer))
                          (λ written.
                            From-bind (on_files (finalize kit.lib input.timestamp written)) _
                              (From-on_files (finalize kit.lib input.timestamp written))
                              (λ finalized.
                                From-bind
                                  (emit (
                                    archive_segment_finalized (as_str ribs) finalized.final_path
                                      finalized.end_ts finalized.record_count))
                                  _ (record { at = λ t w q. q })
                                  (λ _. kept-Apart a kit finalized))))))))

-- A snapshot leaves the configuration and the open segment of updates as they are.
pub snapshot_now-Apart :
    (a : ArchiveService) (kit : Kit) (input : RibSnapshotInput)
    → From (Apart a) (snapshot_now kit input) (λ _. Apart a)
unfolding snapshot_now
snapshot_now-Apart a kit input =
    From-fields
      (λ s.
        if not s.cfg.enabled
        then lift (err "archive is disabled")
        else take_snapshot kit (with_collector s.collector_bgp_id input) s)
      (λ s p.
        From-weaken (λ t e. apart a s t p e)
          (From-guard s.cfg.enabled "archive is disabled"
            (take_snapshot kit (with_collector s.collector_bgp_id input) s)
            (taken kit (with_collector s.collector_bgp_id input) a s)))

pub snap-Apart :
    (a : ArchiveService) (kit : Kit) (now : ℤ) (s : ArchiveService)
    → From (Apart a) (snap kit now s) (λ _. Apart a)
snap-Apart a kit now s =
    From-bind (snapshot_now kit (empty_snapshot now s.collector_bgp_id)) (λ _. done)
      (snapshot_now-Apart a kit (empty_snapshot now s.collector_bgp_id)) (λ _. From-done)
