-- ===== src/Archive/Service/Overtaken.antt =====
-- src/archive/mod.rs: `ingest_update` among other tasks. It takes the lock of the writer twice, in
-- `ensure_updates_writer` and for the record, and other calls may take it between.
use focl.Base.{
  ℕ, String, suc, List, ◌<◌, ◌^◌, false, Option, none, some, true, ◌≡◌, refl, subst, sym, arith,
  length, Result, ok,
}
use focl.Base.Int.{eq_ℤ}
use focl.Archive.Types.{UpdateRecordInput}
use focl.Archive.World.{World}
use focl.Archive.Layout.{aligned_epoch}
use focl.Archive.Snapshot.{encode_bgp4mp_message_as4}
use focl.Archive.Writer.{SegmentWriter}
use focl.Archive.Writer.Complete.{calm}
use focl.Archive.Service.{
  ArchiveService, Kit, Act, ◌>>=◌, ◌>>◌, act_if, fields, ensure_updates_writer, append_record,
  ingest_update,
}
use focl.Archive.Service.Ticks.{ensure_idle}
use focl.Archive.Service.Recorded.{ingest_all, grown, holding, appended}
use focl.Archive.Service.Groups.{Group, group_updates, writer_of, IsGroup, opened, group-Leaves}

-- What other tasks do meanwhile; their results are theirs.
abbrev pub meanwhile : (ArchiveService × World → ArchiveService × World) → Act (Unit {0})
meanwhile others st = (ok tt, others st)

-- `ingest_update` with what happens between its two locks.
unfoldable pub ingest_update_with :
    Kit → (ArchiveService × World → ArchiveService × World) → UpdateRecordInput → Act (Unit {0})
ingest_update_with kit others u = do
  s ← fields
  act_if s.cfg.enabled (
      ensure_updates_writer kit u.timestamp
      >> (meanwhile others >> append_record (encode_bgp4mp_message_as4 kit.mrt u)))

-- With nothing between, it is the call by itself.
pub ingest_update_with-nothing :
    (kit : Kit) (u : UpdateRecordInput) (st : ArchiveService × World)
    → ingest_update_with kit (λ st. st) u st ≡ ingest_update kit u st
unfolding ingest_update_with ingest_update
ingest_update_with-nothing kit u st = refl

-- An update of the open segment's bucket, in an enabled archive, and between the two locks of its call
-- the calls for a group of updates of another bucket, where all parse and no call of the files or of
-- the queue fails: all calls succeed; the segment of the update's own bucket is closed without it,
-- and its record is in the segment of the other bucket, behind those of the group.
pub ingest_update_overtaken :
    (kit : Kit) (s : ArchiveService) (w : SegmentWriter) (g : Group) (u : UpdateRecordInput)
    (record_of_u : List ℕ) (files : String → Option (List ℕ)) (n : ℕ)
    → (works : (k : ℕ) → kit.outside.database k ≡ none) → s.cfg.enabled ≡ true
    → s.updates_writer ≡ some w
    → aligned_epoch u.timestamp s.cfg.updates_interval_secs ≡ ok w.start_ts
    → encode_bgp4mp_message_as4 kit.mrt u ≡ ok record_of_u
    → IsGroup kit s.cfg g
    → eq_ℤ w.start_ts g.bucket ≡ false
    → suc (length (group_updates g)) < 2 ^ 64
    → (s' : ArchiveService) × (m : ℕ) × (ingest_update_with kit
          (λ st. (ingest_all kit (group_updates g) st).1)
          u
          (s, calm files n)
        ≡ (ok tt, (s', calm (opened kit works s.cfg w g files) m)))
      × (s'.updates_writer ≡ some (grown (writer_of s.cfg g) record_of_u 1))
unfolding ingest_update_with
ingest_update_overtaken kit s w g u r files n works on o at e group ne small =
    let (s1, m, all, h) =
      group-Leaves kit works s.cfg w g s files n on group ne (record { cfg = refl; writer = o }) in
    let st : ArchiveService × World = (s, calm files n) in
    let files1 : String → Option (List ℕ) = opened kit works s.cfg w g files in
    let append : Act (Unit {0}) = append_record (encode_bgp4mp_message_as4 kit.mrt u) in
    let others : ArchiveService × World → ArchiveService × World =
      λ st. (ingest_all kit (group_updates g) st).1 in
    let rest : Act (Unit {0}) = meanwhile others >> append in
    let end : Result (Unit {0}) × (ArchiveService × World) =
      (ok tt, (holding s1 (grown (writer_of s.cfg g) r 1), calm files1 (suc m))) in
    (
      holding s1 (grown (writer_of s.cfg g) r 1),
      suc m,
      subst (λ b. act_if b (ensure_updates_writer kit u.timestamp >> rest) st ≡ end) (sym on)
          (subst (λ x. ◌>>=◌ (λ _. x) (λ _. rest) st ≡ end)
            (sym (ensure_idle kit u.timestamp w.start_ts s (calm files n) at (w, o, refl)))
            (subst (λ x. append x.1 ≡ end) (sym all)
              (subst (λ x. append_record x (s1, calm files1 m) ≡ end) (sym e)
                (subst
                  (λ x.
                    append_record (ok r) (record s1 { updates_writer = x }, calm files1 m) ≡ end)
                  (sym h.writer)
                  (appended kit s1 files1 (writer_of s.cfg g) r m (omega (arith, small))))))),
      refl,
    )
