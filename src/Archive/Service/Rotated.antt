-- ===== src/Archive/Service/Rotated.antt =====
-- src/archive/mod.rs: the rotation to a new bucket when no call fails.
use focl.Base.{
  ℕ, String, false, not, Option, none, some, List, [], ◌≡◌, refl, subst, sym, ap, ◌∙◌, Result, ok,
}
use focl.Base.Int.{ℤ, eq_ℤ}
use focl.Config.{ArchiveConfig}
use focl.Types.{archive_segment_opened, archive_segment_finalized}
use focl.Archive.Types.{SegmentPaths, FinalizedSegment, updates, as_str}
use focl.Archive.World.{World, M, update}
use focl.Archive.Layout.{aligned_epoch, segment_paths}
use focl.Archive.Writer.{SegmentWriter, started, new, finalize}
use focl.Archive.Writer.Complete.{calm, segment_of, described, moved, finalize_complete}
use focl.Archive.Replicator.{Replicator, enqueue_segment}
use focl.Archive.Replicator.Keys.{enqueue_segment-added}
use focl.Archive.Service.{
  ArchiveService, Kit, Act, ◌>>=◌, ◌>>◌, act_if, lift, on_files, emit, fields, replicate, close,
  set_writer, needs_rotate, rotate_to, ensure_updates_writer,
}
use focl.Archive.Service.Calm.{new-calm, told}

-- The configuration stays, and this is the open segment.
pub record Holds (c : ArchiveConfig) (w : Option SegmentWriter) (s : ArchiveService) : Type 0 where
  pub cfg : s.cfg ≡ c
  pub writer : s.updates_writer ≡ w

-- The action succeeds, with these files, and the service holds this.
abbrev pub Leaves :
    ArchiveConfig
    → Option SegmentWriter
    → (String → Option (List ℕ))
    → Result (Unit {0}) × (ArchiveService × World)
    → Type 0
Leaves c w files out =
    (s' : ArchiveService) × (m : ℕ) × (out ≡ (ok tt, (s', calm files m))) × Holds c w s'

module _ (kit : Kit) (works : (k : ℕ) → kit.outside.database k ≡ none) (c : ArchiveConfig) where
  replicate-Leaves :
      (fin : FinalizedSegment) (r : Option Replicator) (w : Option SegmentWriter)
      (s : ArchiveService) (files : String → Option (List ℕ)) (n : ℕ)
      → Holds c w s
      → Leaves c w files (replicate kit fin r (s, calm files n))
  unfolding replicate
  replicate-Leaves fin none w s files n h = (s, n, refl, h)
  replicate-Leaves fin (some rep) w s files n h = (
    record s { replicator = some (enqueue_segment kit.outside fin rep).1 },
    n,
    ap
        (λ x. (
          x,
          (record s { replicator = some (enqueue_segment kit.outside fin rep).1 }, calm files n),
        ))
        (enqueue_segment-added kit.outside fin rep works).0,
    record { cfg = h.cfg; writer = h.writer },
  )

  -- The files behind the segment that is closed.
  abbrev pub closed : ℤ → SegmentWriter → (String → Option (List ℕ)) → String → Option (List ℕ)
  closed now old files = described kit.lib now old (moved kit.lib now old files)

  Leaves-on_files :
      {A : Type 0} (m : M A) (a : A) (next : A → Act (Unit {0})) (w : Option SegmentWriter)
      (s : ArchiveService) (before after : World) (files : String → Option (List ℕ))
      → m before ≡ (ok a, after)
      → Leaves c w files (next a (s, after))
      → Leaves c w files ((on_files m >>= next) (s, before))
  Leaves-on_files {A} m a next w s before after files e h =
      subst
        (λ (o : Result A × World). Leaves c w files (◌>>=◌ (λ _. (o.0, (s, o.1))) next (s, before)))
        (sym e) h

  Leaves-lift :
      {A : Type 0} (r : Result A) (a : A) (next : A → Act (Unit {0})) (w : Option SegmentWriter)
      (st : ArchiveService × World) (files : String → Option (List ℕ))
      → r ≡ ok a
      → Leaves c w files (next a st)
      → Leaves c w files ((lift r >>= next) st)
  Leaves-lift r a next w st files e h =
      subst (λ o. Leaves c w files ((lift o >>= next) st)) (sym e) h

  Leaves-then :
      (act next : Act (Unit {0})) (w w' : Option SegmentWriter) (st : ArchiveService × World)
      (files files' : String → Option (List ℕ))
      → Leaves c w files (act st)
      → ((s' : ArchiveService) (m : ℕ)
          → Holds c w s'
          → Leaves c w' files' (next (s', calm files m)))
      → Leaves c w' files' ((act >> next) st)
  Leaves-then act next w w' st files files' (s', m, e, h) k =
      subst (λ o. Leaves c w' files' (◌>>=◌ (λ _. o) (λ _. next) st)) (sym e) (k s' m h)

  close-Leaves :
      (now : ℤ) (old : SegmentWriter) (s : ArchiveService) (files : String → Option (List ℕ))
      (n : ℕ)
      → s.cfg ≡ c
      → Leaves c none (closed now old files) (close kit now (some old) (s, calm files n))
  unfolding close
  close-Leaves now old s files n h =
      let (m, e) = finalize_complete kit.lib now old files n in
      let fin = segment_of kit.lib now old in
      let emptied : ArchiveService = record s { updates_writer = none } in
      let s' : ArchiveService =
        told (archive_segment_finalized (as_str updates) fin.final_path fin.end_ts fin.record_count)
          emptied in
      Leaves-on_files (finalize kit.lib now old) fin
        (λ f.
          emit (archive_segment_finalized (as_str updates) f.final_path f.end_ts f.record_count)
          >> (fields >>= λ now. replicate kit f now.replicator))
        none emptied (calm files n) (calm (closed now old files) m) (closed now old files) e
        (replicate-Leaves fin s.replicator none s' (closed now old files) m
          (record { cfg = h; writer = refl }))

  -- The steps of `rotate_to` behind the first.
  abbrev open_new : ℤ → ArchiveConfig → SegmentPaths → Act (Unit {0})
  open_new bucket cfg paths =
      emit (archive_segment_opened (as_str updates) paths.final_path bucket)
      >> (on_files (new cfg updates bucket paths) >>= λ writer. set_writer (some writer))

  abbrev then_open : ℤ → ℤ → ArchiveConfig → Act (Unit {0})
  then_open now bucket cfg =
      lift (segment_paths kit.timestamp_opt cfg updates now) >>= open_new bucket cfg

  open_new-Leaves :
      (bucket : ℤ) (paths : SegmentPaths) (s : ArchiveService) (files : String → Option (List ℕ))
      (n : ℕ)
      → s.cfg ≡ c
      → Leaves c
          (some (started c updates bucket paths c.compression))
          (update paths.tmp_path (some []) files)
          (open_new bucket c paths (s, calm files n))
  open_new-Leaves bucket paths s files n h =
      let (m, e) = new-calm c updates bucket paths files n in
      let s' : ArchiveService =
        told (archive_segment_opened (as_str updates) paths.final_path bucket) s in
      let w = started c updates bucket paths c.compression in
      Leaves-on_files (new c updates bucket paths) w (λ writer. set_writer (some writer)) (some w)
        s' (calm files n) (calm (update paths.tmp_path (some []) files) m)
        (update paths.tmp_path (some []) files) e
        (record s' { updates_writer = some w }, m, refl, record { cfg = h; writer = refl })

  rotate_to-Leaves :
      (now bucket : ℤ) (paths : SegmentPaths) (old : SegmentWriter) (s : ArchiveService)
      (files : String → Option (List ℕ)) (n : ℕ)
      → Holds c (some old) s
      → segment_paths kit.timestamp_opt c updates now ≡ ok paths
      → Leaves c
          (some (started c updates bucket paths c.compression))
          (update paths.tmp_path (some []) (closed now old files))
          (rotate_to kit now bucket s (s, calm files n))
  unfolding rotate_to
  rotate_to-Leaves now bucket paths old s files n h p =
      let w' = some (started c updates bucket paths c.compression) in
      let files' : String → Option (List ℕ) =
        update paths.tmp_path (some []) (closed now old files) in
      let st : ArchiveService × World = (s, calm files n) in
      subst (λ x. Leaves c w' files' ((close kit now x >> then_open now bucket s.cfg) st))
        (sym h.writer)
        (subst (λ x. Leaves c w' files' ((close kit now (some old) >> then_open now bucket x) st))
          (sym h.cfg)
          (Leaves-then (close kit now (some old)) (then_open now bucket c) none w' st
            (closed now old files) files' (close-Leaves now old s files n h.cfg)
            (λ s' m k.
              Leaves-lift (segment_paths kit.timestamp_opt c updates now) paths (open_new bucket c)
                w' (s', calm (closed now old files) m) files' p
                (open_new-Leaves bucket paths s' (closed now old files) m k.cfg))))

  -- `ensure_updates_writer` in another bucket than that of the open segment.
  pub ensure-Leaves :
      (now bucket : ℤ) (paths : SegmentPaths) (old : SegmentWriter) (s : ArchiveService)
      (files : String → Option (List ℕ)) (n : ℕ)
      → Holds c (some old) s
      → aligned_epoch now c.updates_interval_secs ≡ ok bucket
      → eq_ℤ old.start_ts bucket ≡ false
      → segment_paths kit.timestamp_opt c updates now ≡ ok paths
      → Leaves c
          (some (started c updates bucket paths c.compression))
          (update paths.tmp_path (some []) (closed now old files))
          (ensure_updates_writer kit now (s, calm files n))
  unfolding ensure_updates_writer
  ensure-Leaves now bucket paths old s files n h at ne p =
      let w' = some (started c updates bucket paths c.compression) in
      let files' : String → Option (List ℕ) =
        update paths.tmp_path (some []) (closed now old files) in
      let st : ArchiveService × World = (s, calm files n) in
      Leaves-lift (aligned_epoch now s.cfg.updates_interval_secs) bucket
        (λ b. act_if (needs_rotate b s.updates_writer) (rotate_to kit now b s)) w' st files'
        (ap (λ x. aligned_epoch now x.updates_interval_secs) h.cfg ∙ at)
        (subst (λ b. Leaves c w' files' (act_if b (rotate_to kit now bucket s) st))
          (sym (ap (needs_rotate bucket) h.writer ∙ ap not ne))
          (rotate_to-Leaves now bucket paths old s files n h p))
