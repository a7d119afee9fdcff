-- ===== src/Archive/Service/Recorded.antt =====
-- src/archive/mod.rs: the updates of one bucket, from `ingest_update` to the open segment.
use focl.Base.{
  ℕ, String, suc, ◌+◌, ◌<◌, ◌%◌, ◌^◌, true, Option, some, List, [], ◌∷◌, ◌++◌, length, ◌≡◌, refl,
  ap, subst, sym, ◌∙◌, arith, Result, ok,
}
use mathlib.Core.List.{append_assoc, append-nil}
use focl.Base.Int.{ℤ}
use focl.Config.{ArchiveConfig}
use focl.Archive.Types.{UpdateRecordInput}
use focl.Archive.World.{World, call}
use focl.Archive.Layout.{aligned_epoch}
use focl.Archive.Snapshot.{Mrt, encode_bgp4mp_message_as4}
use focl.Archive.Writer.{SegmentWriter, write_record}
use focl.Archive.Writer.Complete.{calm}
use focl.Archive.Service.{
  ArchiveService, Kit, Act, ◌>>=◌, ◌>>◌, act_if, done, ensure_updates_writer, append_record,
  ingest_update,
}
use focl.Archive.Service.Ticks.{ensure_idle}

-- One call after the other.
unfoldable pub ingest_all : Kit → List UpdateRecordInput → Act (Unit {0})
ingest_all kit [] = done
ingest_all kit (u ∷ us) = ingest_update kit u >> ingest_all kit us

-- The records of the updates, which are of one bucket.
abbrev pub Records : Mrt → ArchiveConfig → ℤ → List UpdateRecordInput → List (List ℕ) → Type 0
Records lib cfg bucket [] [] = Unit {0}
Records lib cfg bucket [] (r ∷ rs) = ⊥
Records lib cfg bucket (u ∷ us) [] = ⊥
Records lib cfg bucket (u ∷ us) (r ∷ rs) =
    (aligned_epoch u.timestamp cfg.updates_interval_secs ≡ ok bucket)
    × (encode_bgp4mp_message_as4 lib u ≡ ok r)
    × Records lib cfg bucket us rs

abbrev pub joined : List (List ℕ) → List ℕ
joined [] = []
joined (r ∷ rs) = r ++ joined rs

-- The writer with more records, and the service with it.
abbrev pub grown : SegmentWriter → List ℕ → ℕ → SegmentWriter
grown w bytes n = record w { written = w.written ++ bytes; record_count = w.record_count + n }

abbrev pub holding : ArchiveService → SegmentWriter → ArchiveService
holding s w = record s { updates_writer = some w }

module _ (kit : Kit) (s : ArchiveService) (files : String → Option (List ℕ)) where
  -- The end of calls that wrote so much.
  abbrev wrote : SegmentWriter → List ℕ → ℕ → ℕ → Result (Unit {0}) × (ArchiveService × World)
  wrote w bytes count calls =
      (ok tt, (holding s (record w { written = bytes; record_count = count }), calm files calls))

  pub appended :
      (w : SegmentWriter) (r : List ℕ) (n : ℕ)
      → w.record_count + 1 < 2 ^ 64
      → append_record (ok r) (holding s w, calm files n)
        ≡ (ok tt, (holding s (grown w r 1), calm files (suc n)))
  unfolding append_record write_record call
  appended w r n h =
      let small : (w.record_count + 1) % 2 ^ 64 ≡ w.record_count + 1 = omega arith in
      ap (λ c. wrote w (w.written ++ r) c (suc n)) small

  ingested :
      (w : SegmentWriter) (u : UpdateRecordInput) (r : List ℕ) (n : ℕ)
      → s.cfg.enabled ≡ true
      → aligned_epoch u.timestamp s.cfg.updates_interval_secs ≡ ok w.start_ts
      → encode_bgp4mp_message_as4 kit.mrt u ≡ ok r
      → w.record_count + 1 < 2 ^ 64
      → ingest_update kit u (holding s w, calm files n)
        ≡ (ok tt, (holding s (grown w r 1), calm files (suc n)))
  unfolding ingest_update
  ingested w u r n on at e h =
      let st : ArchiveService × World = (holding s w, calm files n) in
      let end : Result (Unit {0}) × (ArchiveService × World) =
        (ok tt, (holding s (grown w r 1), calm files (suc n))) in
      subst
        (λ b.
          act_if b
            (ensure_updates_writer kit u.timestamp
              >> append_record (encode_bgp4mp_message_as4 kit.mrt u))
            st
          ≡ end)
        (sym on)
        (subst
          (λ o. ◌>>=◌ (λ _. o) (λ _. append_record (encode_bgp4mp_message_as4 kit.mrt u)) st ≡ end)
          (sym (
            ensure_idle kit u.timestamp w.start_ts (holding s w) (calm files n) at (w, refl, refl)))
          (subst (λ x. append_record x st ≡ end) (sym e) (appended w r n h)))

  wrote_same :
      (w : SegmentWriter) (b b' : List ℕ) (c c' n n' : ℕ)
      → b ≡ b'
      → c ≡ c'
      → n ≡ n'
      → wrote w b c n ≡ wrote w b' c' n'
  wrote_same w b b' c c' n n' p q r =
      ap (λ x. wrote w x c n) p ∙ (ap (λ x. wrote w b' x n) q ∙ ap (λ x. wrote w b' c' x) r)

  all_ingested :
      (w : SegmentWriter) (us : List UpdateRecordInput) (rs : List (List ℕ)) (n : ℕ)
      → s.cfg.enabled ≡ true
      → Records kit.mrt s.cfg w.start_ts us rs
      → w.record_count + length us < 2 ^ 64
      → ingest_all kit us (holding s w, calm files n)
        ≡ wrote w (w.written ++ joined rs) (w.record_count + length us) (n + length us)
  unfolding ingest_all
  all_ingested w [] [] n on k h =
      wrote_same w w.written (w.written ++ []) w.record_count (w.record_count + 0) n (n + 0)
        (sym (append-nil w.written)) (omega arith) (omega arith)
  all_ingested w [] (r ∷ rs) n on k h = absurd k
  all_ingested w (u ∷ us) [] n on k h = absurd k
  all_ingested w (u ∷ us) (r ∷ rs) n on (at, e, k) h =
      subst
        (λ o.
          ◌>>=◌ (λ _. o) (λ _. ingest_all kit us) (holding s w, calm files n)
          ≡ wrote w (w.written ++ (r ++ joined rs)) (w.record_count + suc (length us))
              (n + suc (length us)))
        (sym (ingested w u r n on at e (omega (arith, h))))
        (all_ingested (grown w r 1) us rs (suc n) on k (omega (arith, h))
          ∙ wrote_same w _ _ _ _ _ _ (append_assoc w.written r (joined rs)) (omega arith)
              (omega arith))

-- Updates of the bucket of the open segment, one after the other, when the archive is enabled, the updates
-- parse and no call fails: each is taken, the segment stays open, and what it holds is what it held
-- and then the MRT records of the updates, in their order, each once; its count of records grows by
-- theirs, below 2 ^ 64, and nothing else of the service changes.
pub ingest_all-recorded :
    (kit : Kit) (s : ArchiveService) (w : SegmentWriter) (files : String → Option (List ℕ))
    (us : List UpdateRecordInput) (rs : List (List ℕ)) (n : ℕ)
    → s.cfg.enabled ≡ true
    → s.updates_writer ≡ some w
    → Records kit.mrt s.cfg w.start_ts us rs
    → w.record_count + length us < 2 ^ 64
    → ingest_all kit us (s, calm files n) ≡ (
      ok tt,
      (
        holding s (record w {
          written = w.written ++ joined rs;
          record_count = w.record_count + length us;
        }),
        calm files (n + length us),
      ),
    )
ingest_all-recorded kit s w files us rs n on o k h =
    subst
      (λ x.
        ingest_all kit us (record s { updates_writer = x }, calm files n)
        ≡ wrote kit s files w (w.written ++ joined rs) (w.record_count + length us) (n + length us))
      (sym o) (all_ingested kit s files w us rs n on k h)
