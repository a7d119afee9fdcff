-- ===== src/Archive/Service/Groups.antt =====
-- src/archive/mod.rs: updates that come in groups, each of one bucket, and the segments that the
-- groups go to.
use focl.Base.{
  ℕ, String, Bool, ◌+◌, ◌<◌, ◌^◌, true, false, Option, none, some, List, [], ◌∷◌, ◌++◌, length, ◌≡◌,
  refl, subst, sym, ap, ◌∙◌, arith, Result, ok, err,
}
use focl.Base.Int.{ℤ, eq_ℤ}
use focl.Config.{ArchiveConfig}
use focl.Archive.Types.{SegmentPaths, UpdateRecordInput, updates}
use focl.Archive.World.{World, update}
use focl.Archive.Layout.{aligned_epoch, segment_paths}
use focl.Archive.Snapshot.{Mrt, encode_bgp4mp_message_as4}
use focl.Archive.Writer.{SegmentWriter, started}
use focl.Archive.Writer.Complete.{calm}
use focl.Archive.Service.{
  ArchiveService, Kit, Act, ◌>>=◌, ◌>>◌, act_if, append_record, ensure_updates_writer,
  ingest_update,
}
use focl.Archive.Service.Ticks.{ensure_idle}
use focl.Archive.Service.Recorded.{Records, joined, holding, ingest_all, ingest_all-recorded}
use focl.Archive.Service.Rotated.{Holds, Leaves, closed, ensure-Leaves}

-- The updates of one bucket, their records, and the paths of the bucket's segment.
pub record Group : Type 0 where
  pub bucket : ℤ
  pub first : UpdateRecordInput
  pub others : List UpdateRecordInput
  pub records : List (List ℕ)
  pub paths : SegmentPaths

abbrev pub group_updates : Group → List UpdateRecordInput
group_updates g = g.first ∷ g.others

abbrev pub all_updates : List Group → List UpdateRecordInput
all_updates [] = []
all_updates (g ∷ gs) = group_updates g ++ all_updates gs

-- The segment of a group, when all of its updates are in.
abbrev pub writer_of : ArchiveConfig → Group → SegmentWriter
writer_of cfg g = record (started cfg updates g.bucket g.paths cfg.compression) {
  written = joined g.records;
  record_count = length (group_updates g);
}

-- The updates are of the bucket, and parse to these records.
abbrev pub IsGroup : Kit → ArchiveConfig → Group → Type 0
IsGroup kit cfg g =
    Records kit.mrt cfg g.bucket (group_updates g) g.records
    × (segment_paths kit.timestamp_opt cfg updates g.first.timestamp ≡ ok g.paths)
    × (length (group_updates g) < 2 ^ 64)

first-bucket :
    (lib : Mrt) (cfg : ArchiveConfig) (bucket : ℤ) (u : UpdateRecordInput)
    (us : List UpdateRecordInput) (rs : List (List ℕ))
    → Records lib cfg bucket (u ∷ us) rs
    → aligned_epoch u.timestamp cfg.updates_interval_secs ≡ ok bucket
first-bucket lib cfg bucket u us [] h = absurd h
first-bucket lib cfg bucket u us (r ∷ rs) h = h.0

-- Each group is of another bucket than the segment before it.
abbrev pub AreGroups : Kit → ArchiveConfig → SegmentWriter → List Group → Type 0
AreGroups kit cfg w [] = Unit {0}
AreGroups kit cfg w (g ∷ gs) =
    IsGroup kit cfg g × (eq_ℤ w.start_ts g.bucket ≡ false) × AreGroups kit cfg (writer_of cfg g) gs

abbrev pub last_writer : ArchiveConfig → SegmentWriter → List Group → SegmentWriter
last_writer cfg w [] = w
last_writer cfg w (g ∷ gs) = last_writer cfg (writer_of cfg g) gs

-- The files behind all groups.
abbrev pub files_behind :
    (kit : Kit)
    → ((k : ℕ) → kit.outside.database k ≡ none)
    → ArchiveConfig
    → SegmentWriter
    → List Group
    → (String → Option (List ℕ))
    → String
    → Option (List ℕ)
files_behind kit works cfg w [] files = files
files_behind kit works cfg w (g ∷ gs) files =
    files_behind kit works cfg (writer_of cfg g) gs
      (update g.paths.tmp_path (some []) (closed kit works cfg g.first.timestamp w files))

-- Calls that succeed, and behind them further ones.
module _ (kit : Kit) where
  ingest_then :
      (us vs : List UpdateRecordInput) (out : Result (Unit {0}) × (ArchiveService × World))
      (st : ArchiveService × World)
      → ((st : ArchiveService × World)
          → ingest_all kit us out.1 ≡ (ok tt, st)
          → ingest_all kit (us ++ vs) out.1 ≡ ingest_all kit vs st)
      → ◌>>=◌ (λ _. out) (λ _. ingest_all kit us) out.1 ≡ (ok tt, st)
      → ◌>>=◌ (λ _. out) (λ _. ingest_all kit (us ++ vs)) out.1 ≡ ingest_all kit vs st
  ingest_then us vs (ok a, at) st more h = more st h
  ingest_then us vs (err e, at) st more h = absurd (ground arith)

  pub ingest_all-append :
      (us vs : List UpdateRecordInput) (before st : ArchiveService × World)
      → ingest_all kit us before ≡ (ok tt, st)
      → ingest_all kit (us ++ vs) before ≡ ingest_all kit vs st
  unfolding ingest_all
  ingest_all-append [] vs before st h = ap (λ o. ingest_all kit vs o.1) h
  ingest_all-append (u ∷ us) vs before st h =
      ingest_then us vs (ingest_update kit u before) st
        (λ st'. ingest_all-append us vs (ingest_update kit u before).1 st') h

  entered :
      (b : Bool) (act rest : Act (Unit {0})) (st st' : ArchiveService × World)
      → b ≡ true
      → act st ≡ (ok tt, st')
      → act_if b (act >> rest) st ≡ rest st'
  entered true act rest st st' on e = ap (λ o. ◌>>=◌ (λ _. o) (λ _. rest) st) e
  entered false act rest st st' on e = absurd (ground arith)

  -- The first update of another bucket: as if the segment had been there.
  ingest_first :
      (u : UpdateRecordInput) (us : List UpdateRecordInput) (s s' : ArchiveService)
      (w : SegmentWriter) (x x' : World)
      → s.cfg.enabled ≡ true
      → s'.cfg ≡ s.cfg
      → s'.updates_writer ≡ some w
      → aligned_epoch u.timestamp s.cfg.updates_interval_secs ≡ ok w.start_ts
      → ensure_updates_writer kit u.timestamp (s, x) ≡ (ok tt, (s', x'))
      → ingest_all kit (u ∷ us) (s, x) ≡ ingest_all kit (u ∷ us) (s', x')
  unfolding ingest_all ingest_update
  ingest_first u us s s' w x x' on c o at e =
      let rest : Act (Unit {0}) = append_record (encode_bgp4mp_message_as4 kit.mrt u) in
      let act : Act (Unit {0}) = ensure_updates_writer kit u.timestamp in
      let at' : aligned_epoch u.timestamp s'.cfg.updates_interval_secs ≡ ok w.start_ts =
        ap (λ k. aligned_epoch u.timestamp k.updates_interval_secs) c ∙ at in
      let same : ingest_update kit u (s, x) ≡ ingest_update kit u (s', x') =
        entered s.cfg.enabled act rest (s, x) (s', x') on e
        ∙ sym (
            entered s'.cfg.enabled act rest (s', x') (s', x') (ap (λ k. k.enabled) c ∙ on)
              (ensure_idle kit u.timestamp w.start_ts s' x' at' (w, o, refl))) in
      ap (λ out. ◌>>=◌ (λ _. out) (λ _. ingest_all kit us) (s, x)) same

module _ (kit : Kit) (works : (k : ℕ) → kit.outside.database k ≡ none) (c : ArchiveConfig) where
  abbrev pub opened : SegmentWriter → Group → (String → Option (List ℕ)) → String → Option (List ℕ)
  opened w g files =
      update g.paths.tmp_path (some []) (closed kit works c g.first.timestamp w files)

  pub group-Leaves :
      (w : SegmentWriter) (g : Group) (s : ArchiveService) (files : String → Option (List ℕ))
      (n : ℕ)
      → c.enabled ≡ true
      → IsGroup kit c g
      → eq_ℤ w.start_ts g.bucket ≡ false
      → Holds c (some w) s
      → Leaves c
          (some (writer_of c g))
          (opened w g files)
          (ingest_all kit (group_updates g) (s, calm files n))
  group-Leaves w g s files n on (recs, paths, small) ne h =
      let u = g.first in
      let in_bucket = first-bucket kit.mrt c g.bucket u g.others g.records recs in
      let w0 : SegmentWriter = started c updates g.bucket g.paths c.compression in
      let (s', m, e, h') =
        ensure-Leaves kit works c u.timestamp g.bucket g.paths w s files n h in_bucket ne paths in
      let us : List UpdateRecordInput = group_updates g in
      let recs' : Records kit.mrt s'.cfg g.bucket us g.records =
        subst (λ k. Records kit.mrt k g.bucket us g.records) (sym h'.cfg) recs in
      let bytes : List ℕ = joined g.records in
      let s2 : ArchiveService =
        holding s' (record w0 { written = bytes; record_count = 0 + length us }) in
      let count : 0 + length us ≡ length us = omega arith in
      (
        s2,
        m + length us,
        ingest_first kit u g.others s s' w0 (calm files n) (calm (opened w g files) m)
              (ap (λ k. k.enabled) h.cfg ∙ on) (h'.cfg ∙ sym h.cfg) h'.writer
              (ap (λ k. aligned_epoch u.timestamp k.updates_interval_secs) h.cfg ∙ in_bucket) e
            ∙ ingest_all-recorded kit s' w0 (opened w g files) us g.records m
                (ap (λ k. k.enabled) h'.cfg ∙ on) h'.writer recs' (omega (arith, small)),
        record {
          cfg = h'.cfg;
          writer = ap (λ k. some (record w0 { written = bytes; record_count = k })) count;
        },
      )

  pub all-Leaves :
      (w : SegmentWriter) (gs : List Group) (s : ArchiveService) (files : String → Option (List ℕ))
      (n : ℕ)
      → c.enabled ≡ true
      → AreGroups kit c w gs
      → Holds c (some w) s
      → Leaves c
          (some (last_writer c w gs))
          (files_behind kit works c w gs files)
          (ingest_all kit (all_updates gs) (s, calm files n))
  unfolding ingest_all
  all-Leaves w [] s files n on gs h = (s, n, refl, h)
  all-Leaves w (g ∷ gs) s files n on (group, ne, more) h =
      let (s', m, e, h') = group-Leaves w g s files n on group ne h in
      subst (Leaves c (some (last_writer c w (g ∷ gs))) (files_behind kit works c w (g ∷ gs) files))
        (sym (
          ingest_all-append kit (group_updates g) (all_updates gs) (s, calm files n)
            (s', calm (opened w g files) m) e))
        (all-Leaves (writer_of c g) gs s' (opened w g files) m on more h')
