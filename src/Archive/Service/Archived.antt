-- ===== src/Archive/Service/Archived.antt =====
-- src/archive/mod.rs: the updates of many buckets, one bucket after the other.
use focl.Base.{ℕ, String, true, Option, none, some, List, [], ◌∷◌, ◌≡◌, ◌≢◌, refl, sym, ◌∙◌, ok}
use focl.Base.Int.{ℤ}
use focl.Config.{ArchiveConfig}
use focl.Archive.Types.{SegmentPaths}
use focl.Archive.World.{update}
use focl.Archive.Manifest.{sidecar_path}
use focl.Archive.Writer.{SegmentWriter}
use focl.Archive.Writer.Atomic.{update-here, update-away, sidecar_path≢}
use focl.Archive.Writer.Complete.{calm, whole, manifest_of, moved}
use focl.Archive.Service.{ArchiveService, Kit}
use focl.Archive.Service.Recorded.{ingest_all}
use focl.Archive.Service.Rotated.{closed}
use focl.Archive.Service.Groups.{
  Group, all_updates, writer_of, AreGroups, last_writer, files_behind, opened, all-Leaves,
}

-- A path that the segment with these paths does not write.
abbrev pub Away : String → SegmentPaths → Type 0
Away p q = (p ≢ q.final_path) × (p ≢ sidecar_path q.final_path) × (p ≢ q.tmp_path)

abbrev pub AllAway : String → List Group → Type 0
AllAway p [] = Unit {0}
AllAway p (g ∷ gs) = Away p g.paths × AllAway p gs

-- The paths of the segments do not meet.
abbrev pub AreApart : SegmentPaths → List Group → Type 0
AreApart p [] = Unit {0}
AreApart p (g ∷ gs) =
    AllAway p.final_path (g ∷ gs)
    × AllAway (sidecar_path p.final_path) (g ∷ gs)
    × AreApart g.paths gs

module _ (kit : Kit) (works : (k : ℕ) → kit.outside.database k ≡ none) (c : ArchiveConfig) where
  -- Each segment but the last is on the files, with its records and its manifest.
  abbrev pub AreStored : (String → Option (List ℕ)) → SegmentWriter → List Group → Type 0
  AreStored files w [] = Unit {0}
  AreStored files w (g ∷ gs) =
      let end_ts = g.first.timestamp in
      (files w.paths.final_path ≡ some (kit.lib.compress w.encoder w.written))
      × (files (sidecar_path w.paths.final_path)
          ≡ some (kit.lib.to_json (manifest_of kit.lib end_ts w)))
      × AreStored files (writer_of c g) gs

  closed-Away :
      (p : String) (end_ts : ℤ) (w : SegmentWriter) (files : String → Option (List ℕ))
      → Away p w.paths
      → closed kit works c end_ts w files p ≡ files p
  closed-Away p end_ts w files (f, d, t) =
      let whole_files = some (whole kit.lib end_ts w) in
      let written = update w.paths.tmp_path whole_files files in
      let gone = update w.paths.tmp_path none written in
      let moved_files = update w.paths.final_path whole_files gone in
      update-away (sidecar_path w.paths.final_path) p
        (some (kit.lib.to_json (manifest_of kit.lib end_ts w))) moved_files (λ e. d (sym e))
      ∙ (update-away w.paths.final_path p whole_files gone (λ e. f (sym e))
          ∙ (update-away w.paths.tmp_path p none written (λ e. t (sym e))
              ∙ update-away w.paths.tmp_path p whole_files files (λ e. t (sym e))))

  -- What no later segment writes stays.
  behind-Away :
      (p : String) (content : Option (List ℕ)) (w : SegmentWriter) (gs : List Group)
      (files : String → Option (List ℕ))
      → Away p w.paths
      → AllAway p gs
      → files p ≡ content
      → files_behind kit works c w gs files p ≡ content
  behind-Away p content w [] files own away h = h
  behind-Away p content w (g ∷ gs) files own away h =
      behind-Away p content (writer_of c g) gs (opened kit works c w g files) away.0 away.1 (
        update-away g.paths.tmp_path p (some []) (closed kit works c g.first.timestamp w files)
          (λ e. away.0.2 (sym e))
        ∙ closed-Away p g.first.timestamp w files own
        ∙ h)

  all-AreStored :
      (w : SegmentWriter) (gs : List Group) (files : String → Option (List ℕ))
      → AreApart w.paths gs
      → AreStored (files_behind kit works c w gs files) w gs
  all-AreStored w [] files h = tt
  all-AreStored w (g ∷ gs) files (finals, sidecars, more) =
      let end_ts = g.first.timestamp in
      let final = w.paths.final_path in
      let moved_files = moved kit.lib end_ts w files in
      let closed_files = closed kit works c end_ts w files in
      (
        behind-Away final (some (whole kit.lib end_ts w)) (writer_of c g) gs
            (opened kit works c w g files) finals.0 finals.1
            (update-away g.paths.tmp_path final (some []) closed_files (λ e. finals.0.2 (sym e))
              ∙ (update-away (sidecar_path final) final
                    (some (kit.lib.to_json (manifest_of kit.lib end_ts w))) moved_files
                    (sidecar_path≢ final)
                  ∙ update-here final (some (whole kit.lib end_ts w)) (
                      update w.paths.tmp_path none
                        (update w.paths.tmp_path (some (whole kit.lib end_ts w)) files)))),
        behind-Away (sidecar_path final) (some (kit.lib.to_json (manifest_of kit.lib end_ts w)))
            (writer_of c g) gs (opened kit works c w g files) sidecars.0 sidecars.1
            (update-away g.paths.tmp_path (sidecar_path final) (some []) closed_files
                (λ e. sidecars.0.2 (sym e))
              ∙ update-here (sidecar_path final)
                  (some (kit.lib.to_json (manifest_of kit.lib end_ts w))) moved_files),
        all-AreStored (writer_of c g) gs (opened kit works c w g files) more,
      )

-- Updates that come bucket by bucket, with the segment `w` open at the start, in an enabled archive
-- where the updates parse, the buckets have paths that do not meet, and no call of the files or of
-- the queue fails: all of them are taken; at the end the open segment is the last bucket's, with the
-- MRT records of its updates in their order, and each segment before it, `w` first, stands under its
-- final path as the compressed records of its bucket, all of them, in their order and each once,
-- with its manifest in the sidecar; the configuration stays.
pub ingest_all-archived :
    (kit : Kit) (s : ArchiveService) (w : SegmentWriter) (gs : List Group)
    (files : String → Option (List ℕ)) (n : ℕ)
    → (works : (k : ℕ) → kit.outside.database k ≡ none) → s.cfg.enabled ≡ true
    → s.updates_writer ≡ some w
    → AreGroups kit s.cfg w gs
    → AreApart w.paths gs
    → (s' : ArchiveService) × (files' : String → Option (List ℕ)) × (m : ℕ) × (ingest_all kit
          (all_updates gs)
          (s, calm files n)
        ≡ (ok tt, (s', calm files' m)))
      × (s'.updates_writer ≡ some (last_writer s.cfg w gs))
      × (s'.cfg ≡ s.cfg)
      × AreStored kit works s.cfg files' w gs
ingest_all-archived kit s w gs files n works on o groups apart =
    let (s', m, e, h) =
      all-Leaves kit works s.cfg w gs s files n on groups (record { cfg = refl; writer = o }) in
    (
      s',
      files_behind kit works s.cfg w gs files,
      m,
      e,
      h.writer,
      h.cfg,
      all-AreStored kit works s.cfg w gs files apart,
    )
