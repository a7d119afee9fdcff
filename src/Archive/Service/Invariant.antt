-- ===== src/Archive/Service/Invariant.antt =====
-- src/archive/mod.rs: what every call of the archive keeps, whichever calls below it fail.
use focl.Base.{
  ℕ, ◌+◌, ◌%◌, ◌^◌, Option, none, some, List, [], ◌++◌, ◌≡◌, ap, sym, ◌∙◌, Result, ok, err,
}
use focl.Base.Int.{ℤ}
use focl.Config.{ArchiveConfig}
use focl.Types.{Event, archive_segment_opened, archive_segment_finalized}
use focl.Archive.Types.{as_str, FinalizedSegment, updates}
use focl.Archive.Layout.{aligned_epoch, segment_paths}
use focl.Archive.World.{World, M, touch, pure}
use focl.Archive.Triple.{Post, Triple, Triple-bind, Triple-touch}
use focl.Archive.Writer.{SegmentWriter, new, write_record, finalize}
use focl.Archive.Replicator.{Replicator, collect}
use focl.Archive.Replicator.Sound.{IsReplicator, enqueue_segment-IsReplicator}
use focl.Archive.Service.{
  ArchiveService, Kit, Act, ◌>>=◌, ◌>>◌, fields, set_writer, emit, replicate, close, needs_rotate,
  rotate_to, ensure_updates_writer, rotate_updates,
}
use focl.Archive.Service.Always.{
  Keeps, Keeps-bind, Keeps-lift, Keeps-fields, Keeps-act_if, Keeps-on_files,
}
use focl.Archive.Writer.Opened.{IsNew, new-IsNew}

-- An open segment: it is of the archive's configuration, and its start and its paths are those of
-- one bucket.
pub record IsOpen (kit : Kit) (c : ArchiveConfig) (w : SegmentWriter) : Type 0 where
  pub cfg : w.cfg ≡ c
  pub stream : w.stream ≡ updates
  pub of_bucket :
      (t : ℤ) × (aligned_epoch t c.updates_interval_secs ≡ ok w.start_ts)
      × (segment_paths kit.timestamp_opt c updates t ≡ ok w.paths)

-- If there is one, it is so.
abbrev pub Each : {A : Type 0} → (A → Type 0) → Option A → Type 0
Each P none = Unit {0}
Each P (some a) = P a

pub record IsArchive (kit : Kit) (c : ArchiveConfig) (s : ArchiveService) : Type 0 where
  pub cfg : s.cfg ≡ c
  pub writer : Each (IsOpen kit c) s.updates_writer
  pub replicator : Each (IsReplicator (collect c.destinations [])) s.replicator

-- What a record is written to stays the segment of its bucket.
pub write_record-IsOpen :
    (kit : Kit) (c : ArchiveConfig) (bytes : List ℕ) (w : SegmentWriter)
    → IsOpen kit c w
    → Triple (λ _. Unit {0}) (write_record bytes w) (λ w' _. IsOpen kit c w') (λ _. Unit {0})
unfolding write_record
write_record-IsOpen kit c bytes w h =
    let w' : SegmentWriter = record w {
      written = w.written ++ bytes;
      record_count = (w.record_count + 1) % 2 ^ 64;
    } in
    let open_still : IsOpen kit c w' = record {
      cfg = h.cfg;
      stream = h.stream;
      of_bucket = h.of_bucket;
    } in
    Triple-bind (touch "failed to write record") (λ _. pure w')
      (Triple-touch (λ _ _. tt) "failed to write record") (λ _. record { at = λ _ _. open_still })

-- Any action on the files, with nothing said of its result.
pub any_result : {A : Type 0} (m : M A) → Triple (λ _. Unit {0}) m (λ _ _. Unit {0}) (λ _. Unit {0})
any_result m = record { at = λ w _. go (m w) }
  where
    go : {A : Type 0} (r : Result A × World) → Post (λ (_ : A) _. Unit {0}) (λ _. Unit {0}) r
    go (ok a, w) = tt
    go (err e, w) = tt

module _ (kit : Kit) (c : ArchiveConfig) where
  abbrev pub Safe : {A : Type 0} → Act A → Type 0
  Safe act = Keeps (IsArchive kit c) act

  abbrev I : ArchiveService → Type 0
  I = IsArchive kit c

  pub emit-Safe : (event : Event) → Safe (emit event)
  emit-Safe event = record {
    at = λ s w h. record { cfg = h.cfg; writer = h.writer; replicator = h.replicator };
  }

  pub set_writer-Safe :
      (writer : Option SegmentWriter) → Each (IsOpen kit c) writer → Safe (set_writer writer)
  set_writer-Safe writer k = record {
    at = λ s w h. record { cfg = h.cfg; writer = k; replicator = h.replicator };
  }

  pub replicate-Safe :
      (segment : FinalizedSegment) (r : Option Replicator)
      → Each (IsReplicator (collect c.destinations [])) r
      → Safe (replicate kit segment r)
  unfolding replicate
  replicate-Safe segment none k = record { at = λ s w h. h }
  replicate-Safe segment (some rep) k = record {
    at = λ s w h. record {
      cfg = h.cfg;
      writer = h.writer;
      replicator =
          enqueue_segment-IsReplicator (collect c.destinations []) kit.outside segment rep k;
    };
  }

  close-Safe : (now : ℤ) (writer : Option SegmentWriter) → Safe (close kit now writer)
  unfolding close
  close-Safe now none = record { at = λ s w h. h }
  close-Safe now (some old) = Keeps-bind I (set_writer none) _ (set_writer-Safe none tt) (λ _.
      Keeps-on_files I (λ _. Unit {0}) (finalize kit.lib now old)
        (λ segment.
          emit (
            archive_segment_finalized (as_str updates) segment.final_path segment.end_ts
              segment.record_count)
          >> (fields >>= λ s. replicate kit segment s.replicator))
        (any_result (finalize kit.lib now old))
        (λ segment _.
          let event =
            archive_segment_finalized (as_str updates) segment.final_path segment.end_ts
              segment.record_count in
          Keeps-bind I (emit event) _ (emit-Safe event) (λ _.
            Keeps-fields I (λ s. replicate kit segment s.replicator)
              (λ s h. replicate-Safe segment s.replicator h.replicator))))

  rotate_to-Safe :
      (now bucket : ℤ) (s : ArchiveService)
      → I s
      → aligned_epoch now c.updates_interval_secs ≡ ok bucket
      → Safe (rotate_to kit now bucket s)
  unfolding rotate_to
  rotate_to-Safe now bucket s h at =
      Keeps-bind I (close kit now s.updates_writer) _ (close-Safe now s.updates_writer) (λ _.
        Keeps-lift I (segment_paths kit.timestamp_opt s.cfg updates now) _ (λ paths e.
          let event = archive_segment_opened (as_str updates) paths.final_path bucket in
          Keeps-bind I (emit event) _ (emit-Safe event) (λ _.
            Keeps-on_files I (IsNew s.cfg updates bucket paths) (new s.cfg updates bucket paths)
              (λ writer. set_writer (some writer)) (new-IsNew s.cfg updates bucket paths)
              (λ w (k : IsNew s.cfg updates bucket paths w). set_writer-Safe (some w) (record {
                cfg = k.0 ∙ h.cfg;
                stream = k.1;
                of_bucket = (
                  now,
                  at ∙ ap ok (sym k.2),
                  ap (λ x. segment_paths kit.timestamp_opt x updates now) (sym h.cfg)
                      ∙ (e ∙ ap ok (sym k.3)),
                );
              })))))

  pub ensure_updates_writer-Safe : (now : ℤ) → Safe (ensure_updates_writer kit now)
  unfolding ensure_updates_writer
  ensure_updates_writer-Safe now = Keeps-fields I _ (λ s h.
      Keeps-lift I (aligned_epoch now s.cfg.updates_interval_secs) _ (λ bucket e.
        Keeps-act_if I (needs_rotate bucket s.updates_writer) (rotate_to kit now bucket s) (
          rotate_to-Safe now bucket s h
            (ap (λ x. aligned_epoch now x.updates_interval_secs) (sym h.cfg) ∙ e))))

  pub rotate_updates-Safe : (now : ℤ) → Safe (rotate_updates kit now)
  unfolding rotate_updates
  rotate_updates-Safe now = Keeps-fields I _ (λ s h.
      Keeps-bind I (close kit now s.updates_writer) _ (close-Safe now s.updates_writer)
        (λ _. ensure_updates_writer-Safe now))
