-- ===== src/Archive/Service/Stored.antt =====
-- src/archive/mod.rs: what a snapshot leaves on the files, when no call fails.
use focl.Base.{
  ℕ, String, ◌+◌, ◌<◌, ◌^◌, true, not, Option, none, some, List, [], length, ◌≡◌, refl, subst, sym,
  ◌∙◌, arith, Result, ok, err, if◌then◌else◌,
}
use focl.Base.Int.{ℤ}
use focl.Config.{ArchiveConfig}
use focl.Types.{archive_segment_opened, archive_segment_finalized}
use focl.Archive.Types.{SegmentPaths, FinalizedSegment, RibSnapshotInput, ribs, as_str}
use focl.Archive.World.{World, update}
use focl.Archive.Layout.{aligned_epoch, segment_paths}
use focl.Archive.Snapshot.{build_table_dump_v2}
use focl.Archive.Writer.{SegmentWriter, started, new, finalize}
use focl.Archive.Writer.Complete.{calm, segment_of, described, moved, finalize_complete}
use focl.Archive.Replicator.{Replicator}
use focl.Archive.Service.{
  ArchiveService, Kit, Act, ◌>>=◌, ◌>>◌, lift, on_files, emit, fields, replicate,
}
use focl.Archive.Service.Rounds.{
  write_records, take_snapshot, snapshot_now, with_collector, set_ribs_last,
}
use focl.Archive.Service.Recorded.{joined}
use focl.Archive.Service.Calm.{
  new-calm, write_records-calm, written_same, lifted, on_files_then, told, queued, kept,
}

-- The rest of `take_snapshot` behind each of its steps.
module _ (kit : Kit) (input : RibSnapshotInput) (s : ArchiveService) where
  abbrev after_finalize : FinalizedSegment → Act FinalizedSegment
  after_finalize f =
      emit (archive_segment_finalized (as_str ribs) f.final_path f.end_ts f.record_count)
      >> (fields >>= λ now.
          replicate kit f now.replicator >> (set_ribs_last (some f) >> lift (ok f)))

  abbrev after_write : SegmentWriter → Act FinalizedSegment
  after_write w = on_files (finalize kit.lib input.timestamp w) >>= after_finalize

  abbrev after_build : SegmentWriter → List (List ℕ) → Act FinalizedSegment
  after_build w records = on_files (write_records records w) >>= after_write

  abbrev after_new : SegmentWriter → Act FinalizedSegment
  after_new w = lift (build_table_dump_v2 kit.mrt input) >>= after_build w

  abbrev after_paths : ℤ → SegmentPaths → Act FinalizedSegment
  after_paths start_ts paths =
      emit (archive_segment_opened (as_str ribs) paths.final_path start_ts)
      >> (on_files (new s.cfg ribs start_ts paths) >>= after_new)

  abbrev after_start : ℤ → Act FinalizedSegment
  after_start start_ts =
      lift (segment_paths kit.timestamp_opt s.cfg ribs input.timestamp) >>= after_paths start_ts

-- The segment of a dump: its writer, its report, and the files after it.
abbrev pub dump_writer : ArchiveConfig → ℤ → SegmentPaths → List (List ℕ) → SegmentWriter
dump_writer cfg start_ts paths records = record (started cfg ribs start_ts paths cfg.compression) {
  written = joined records;
  record_count = length records;
}

abbrev pub files_with :
    Kit → ℤ → SegmentWriter → (String → Option (List ℕ)) → String → Option (List ℕ)
files_with kit now w files =
    described kit.lib now w (moved kit.lib now w (update w.paths.tmp_path (some []) files))

module _ (kit : Kit) (rep : Replicator) (works : (k : ℕ) → kit.outside.database k ≡ none)
    (s : ArchiveService) (input : RibSnapshotInput) (start_ts : ℤ) (paths : SegmentPaths)
    (records : List (List ℕ)) where
  abbrev w_dump : SegmentWriter
  w_dump = dump_writer s.cfg start_ts paths records

  abbrev fin : FinalizedSegment
  fin = segment_of kit.lib input.timestamp w_dump

  abbrev s_opened : ArchiveService
  s_opened = told (archive_segment_opened (as_str ribs) paths.final_path start_ts) s

  abbrev s_done : ArchiveService
  s_done =
      record (queued kit rep works fin (
        told (archive_segment_finalized (as_str ribs) fin.final_path fin.end_ts fin.record_count)
          s_opened)) { ribs_last = some fin }

  taken :
      (files : String → Option (List ℕ)) (n : ℕ)
      → s.replicator ≡ some rep
      → aligned_epoch input.timestamp s.cfg.ribs_interval_secs ≡ ok start_ts
      → segment_paths kit.timestamp_opt s.cfg ribs input.timestamp ≡ ok paths
      → build_table_dump_v2 kit.mrt input ≡ ok records
      → length records < 2 ^ 64
      → (m : ℕ) × (take_snapshot kit input s (s, calm files n)
          ≡ (ok fin, (s_done, calm (files_with kit input.timestamp w_dump files) m)))
  unfolding take_snapshot
  taken files n hr ha hp hb small =
      let created : String → Option (List ℕ) = update paths.tmp_path (some []) files in
      let (m1, e1) = new-calm s.cfg ribs start_ts paths files n in
      let w_new : SegmentWriter = started s.cfg ribs start_ts paths s.cfg.compression in
      let e2 : write_records records w_new (calm created m1)
          ≡ (ok w_dump, calm created (m1 + length records)) =
        write_records-calm created records w_new m1 (omega (arith, small))
        ∙ written_same created w_new (joined records) (joined records) (0 + length records)
            (length records) (m1 + length records) (m1 + length records) refl (omega arith) refl in
      let (m3, e3) =
        finalize_complete kit.lib input.timestamp w_dump created (m1 + length records) in
      let end : Result FinalizedSegment × (ArchiveService × World) =
        (ok fin, (s_done, calm (files_with kit input.timestamp w_dump files) m3)) in
      (
        m3,
        lifted (aligned_epoch input.timestamp s.cfg.ribs_interval_secs) start_ts
            (after_start kit input s) (s, calm files n) end ha
            (lifted (segment_paths kit.timestamp_opt s.cfg ribs input.timestamp) paths
              (after_paths kit input s start_ts) (s, calm files n) end hp
              (on_files_then (new s.cfg ribs start_ts paths) w_new (after_new kit input s) s_opened
                (calm files n) (calm created m1) end e1
                (lifted (build_table_dump_v2 kit.mrt input) records (after_build kit input s w_new)
                  (s_opened, calm created m1) end hb
                  (on_files_then (write_records records w_new) w_dump (after_write kit input s)
                    s_opened (calm created m1) (calm created (m1 + length records)) end e2
                    (on_files_then (finalize kit.lib input.timestamp w_dump) fin
                      (after_finalize kit input s) s_opened (calm created (m1 + length records))
                      (calm (files_with kit input.timestamp w_dump files) m3) end e3
                      (kept kit rep works fin
                        (told
                          (archive_segment_finalized (as_str ribs) fin.final_path fin.end_ts
                            fin.record_count)
                          s_opened)
                        (calm (files_with kit input.timestamp w_dump files) m3) hr)))))),
      )

-- A snapshot of an enabled archive that has a replicator, when no call fails, neither of the files
-- nor of the queue, and the dump (below 2 ^ 64 records), its bucket and its paths exist: the call
-- succeeds; on the files the temporary path is written and removed, the final path gets the
-- compressed records of the dump, one after the other, and behind it the sidecar gets their
-- manifest; the report, which the call gives back, is that of this segment and is kept as the last
-- one, and the configuration, the open segment of updates and the last bucket stay as they are.
pub snapshot_now-stored :
    (kit : Kit) (rep : Replicator) (s : ArchiveService) (input : RibSnapshotInput) (start_ts : ℤ)
    (paths : SegmentPaths) (records : List (List ℕ)) (files : String → Option (List ℕ)) (n : ℕ)
    → ((k : ℕ) → kit.outside.database k ≡ none)
    → s.cfg.enabled ≡ true
    → s.replicator ≡ some rep
    → let i = with_collector s.collector_bgp_id input in
      aligned_epoch i.timestamp s.cfg.ribs_interval_secs ≡ ok start_ts
      → segment_paths kit.timestamp_opt s.cfg ribs i.timestamp ≡ ok paths
      → build_table_dump_v2 kit.mrt i ≡ ok records
      → length records < 2 ^ 64
      → let w = dump_writer s.cfg start_ts paths records in
        let segment = segment_of kit.lib i.timestamp w in
        (m : ℕ) × (s' : ArchiveService) × (snapshot_now kit input (s, calm files n)
          ≡ (ok segment, (s', calm (files_with kit i.timestamp w files) m)))
        × (s'.ribs_last ≡ some segment)
        × (s'.cfg ≡ s.cfg)
        × (s'.updates_writer ≡ s.updates_writer)
        × (s'.last_rib_bucket ≡ s.last_rib_bucket)
unfolding snapshot_now
snapshot_now-stored kit rep s input start_ts paths records files n works on hr ha hp hb small =
    let i = with_collector s.collector_bgp_id input in
    let (m, e) = taken kit rep works s i start_ts paths records files n hr ha hp hb small in
    (
      m,
      s_done kit rep works s i start_ts paths records,
      subst
          (λ b.
            (if not b then lift (err "archive is disabled") else take_snapshot kit i s)
              (s, calm files n)
            ≡ (
              ok (fin kit rep works s i start_ts paths records),
              (
                s_done kit rep works s i start_ts paths records,
                calm
                    (files_with kit i.timestamp (w_dump kit rep works s i start_ts paths records)
                      files)
                    m,
              ),
            ))
          (sym on) e,
      refl,
      refl,
      refl,
      refl,
    )
