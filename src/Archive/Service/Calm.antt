-- ===== src/Archive/Service/Calm.antt =====
-- src/archive/mod.rs: the steps of a snapshot when no call fails.
use focl.Base.{
  ℕ, suc, String, ◌+◌, ◌<◌, ◌%◌, ◌^◌, Option, none, some, List, [], ◌∷◌, ◌++◌, length, ◌≡◌, refl,
  Option-cases, inl, inr, ap, subst, sym, ◌∙◌, arith, Result, ok,
}
use mathlib.Core.List.{append_assoc, append-nil}
use focl.Base.Int.{ℤ}
use focl.Config.{ArchiveConfig, CompressionKind, gzip, bzip2, zstd}
use focl.Types.{Event, envelope}
use focl.Archive.Types.{ArchiveStream, SegmentPaths, FinalizedSegment}
use focl.Archive.FilePath.{parent}
use Prim.Native.String.{◌++◌ as append_text}
use focl.Archive.World.{create_parent, World, M, call, update}
use focl.Archive.World
use focl.Archive.Writer.{SegmentWriter, started, new, new_encoder, write_record}
use focl.Archive.Writer.Complete.{calm}
use focl.Archive.Replicator.{Replicator, enqueue_segment}
use focl.Archive.Replicator.Keys.{enqueue_segment-added}
use focl.Archive.Service.{ArchiveService, Kit, Act, ◌>>=◌, ◌>>◌, lift, on_files, fields, replicate}
use focl.Archive.Service.Rounds.{write_records, set_ribs_last}
use focl.Archive.Service.Recorded.{joined, grown}

-- An action, and behind it another, when the first gives a value.
module _ {A B : Type 0} (act : M A) (next : A → M B) (a : A) (w w' : World)
    (end : Result B × World) where
  files_then : act w ≡ (ok a, w') → next a w' ≡ end → World.◌>>=◌ act next w ≡ end
  files_then e h = subst (λ o. World.◌>>=◌ (λ _. o) next w ≡ end) (sym e) h

module _ {A B : Type 0} (act : Act A) (next : A → Act B) (a : A) (st st' : ArchiveService × World)
    (end : Result B × (ArchiveService × World)) where
  act_then : act st ≡ (ok a, st') → next a st' ≡ end → (act >>= next) st ≡ end
  act_then e h = subst (λ o. ◌>>=◌ (λ _. o) next st ≡ end) (sym e) h

encoder-calm :
    (kind : CompressionKind) (files : String → Option (List ℕ)) (n : ℕ)
    → (m : ℕ) × (new_encoder kind (calm files n) ≡ (ok kind, calm files m))
unfolding new_encoder call
encoder-calm gzip files n = (n, refl)
encoder-calm bzip2 files n = (n, refl)
encoder-calm zstd files n = (suc n, refl)

create_parent-calm :
    (error path : String) (files : String → Option (List ℕ)) (n : ℕ)
    → (m : ℕ) × (create_parent error path (calm files n) ≡ (ok tt, calm files m))
unfolding create_parent call
create_parent-calm error path files n = elim (Option-cases (parent path)) [
  | inl e ↦ (n, rw (e, create_parent) refl)
  | inr (dir, e) ↦ (suc n, rw (e, create_parent) refl)
]

-- A new writer has created its empty temporary file.
pub new-calm :
    (cfg : ArchiveConfig) (stream : ArchiveStream) (start_ts : ℤ) (paths : SegmentPaths)
    (files : String → Option (List ℕ)) (n : ℕ)
    → (m : ℕ) × (new cfg stream start_ts paths (calm files n) ≡ (
      ok (started cfg stream start_ts paths cfg.compression),
      calm (update paths.tmp_path (some []) files) m,
    ))
unfolding new call
new-calm cfg stream start_ts paths files n =
    let created : String → Option (List ℕ) = update paths.tmp_path (some []) files in
    let end : CompressionKind → M SegmentWriter =
      λ encoder. World.pure (started cfg stream start_ts paths encoder) in
    let writing : M SegmentWriter =
      World.◌>>◌
        (World.write_file (append_text "failed to create tmp segment " paths.tmp_path)
          paths.tmp_path [])
        (World.◌>>=◌ (new_encoder cfg.compression) end) in
    let tmp_dir : M (Unit {0}) = create_parent "failed to create tmp directory " paths.tmp_path in
    let final_dir : M (Unit {0}) =
      create_parent "failed to create final directory " paths.final_path in
    let (m1, e1) = create_parent-calm "failed to create tmp directory " paths.tmp_path files n in
    let (m2, e2) =
      create_parent-calm "failed to create final directory " paths.final_path files m1 in
    let (m3, e3) = encoder-calm cfg.compression created (suc m2) in
    let done : Result SegmentWriter × World =
      (ok (started cfg stream start_ts paths cfg.compression), calm created m3) in
    (
      m3,
      files_then tmp_dir (λ _. World.◌>>◌ final_dir writing) tt (calm files n) (calm files m1) done
          e1
          (files_then final_dir (λ _. writing) tt (calm files m1) (calm files m2) done e2
            (files_then (new_encoder cfg.compression) end cfg.compression (calm created (suc m2))
              (calm created m3) done e3 refl)),
    )

module _ (files : String → Option (List ℕ)) where
  abbrev pub wrote_to : SegmentWriter → List ℕ → ℕ → ℕ → Result SegmentWriter × World
  wrote_to w bytes count calls =
      (ok (record w { written = bytes; record_count = count }), calm files calls)

  pub written_same :
      (w : SegmentWriter) (b b' : List ℕ) (c c' n n' : ℕ)
      → b ≡ b'
      → c ≡ c'
      → n ≡ n'
      → wrote_to w b c n ≡ wrote_to w b' c' n'
  written_same w b b' c c' n n' p q r =
      ap (λ x. wrote_to w x c n) p
      ∙ (ap (λ x. wrote_to w b' x n) q ∙ ap (λ x. wrote_to w b' c' x) r)

  pub write_records-calm :
      (rs : List (List ℕ)) (w : SegmentWriter) (n : ℕ)
      → w.record_count + length rs < 2 ^ 64
      → write_records rs w (calm files n)
        ≡ wrote_to w (w.written ++ joined rs) (w.record_count + length rs) (n + length rs)
  unfolding write_records write_record call
  write_records-calm [] w n h =
      written_same w w.written (w.written ++ []) w.record_count (w.record_count + 0) n (n + 0)
        (sym (append-nil w.written)) (omega arith) (omega arith)
  write_records-calm (r ∷ rs) w n h =
      let small : (w.record_count + 1) % 2 ^ 64 ≡ w.record_count + 1 = omega (arith, h) in
      ap
        (λ c.
          write_records rs (record w { written = w.written ++ r; record_count = c })
            (calm files (suc n)))
        small
      ∙ (write_records-calm rs (grown w r 1) (suc n) (omega (arith, h))
          ∙ written_same w _ _ _ _ _ _ (append_assoc w.written r (joined rs)) (omega arith)
              (omega arith))

pub lifted :
    {A B : Type 0} (r : Result A) (a : A) (next : A → Act B) (st : ArchiveService × World)
    (end : Result B × (ArchiveService × World))
    → r ≡ ok a
    → next a st ≡ end
    → (lift r >>= next) st ≡ end
lifted r a next st end e h = subst (λ o. (lift o >>= next) st ≡ end) (sym e) h

pub on_files_then :
    {A B : Type 0} (m : M A) (a : A) (next : A → Act B) (s : ArchiveService) (w w' : World)
    (end : Result B × (ArchiveService × World))
    → m w ≡ (ok a, w')
    → next a (s, w') ≡ end
    → (on_files m >>= next) (s, w) ≡ end
on_files_then {A} m a next s w w' end e h =
    act_then (on_files m) next a (s, w) (s, w') end
      (ap (λ (o : Result A × World). (o.0, (s, o.1))) e) h

-- What the service tells, and what it keeps of a snapshot.
abbrev pub told : Event → ArchiveService → ArchiveService
told event s = record s { events = s.events ++ envelope event ∷ [] }

module _ (kit : Kit) (rep : Replicator) (works : (k : ℕ) → kit.outside.database k ≡ none)
    (fin : FinalizedSegment) where
  abbrev pub queued : ArchiveService → ArchiveService
  queued s = record s { replicator = some (enqueue_segment kit.outside fin rep).1 }

  replicated :
      (s : ArchiveService) (w : World) (r : Option Replicator)
      → r ≡ some rep
      → replicate kit fin r (s, w) ≡ (ok tt, (queued s, w))
  unfolding replicate
  replicated s w r e =
      subst (λ o. replicate kit fin o (s, w) ≡ (ok tt, (queued s, w))) (sym e)
        (ap (λ x. (x, (queued s, w))) (enqueue_segment-added kit.outside fin rep works).0)

  pub kept :
      (s : ArchiveService) (w : World)
      → s.replicator ≡ some rep
      → (fields >>= λ now.
            replicate kit fin now.replicator >> (set_ribs_last (some fin) >> lift (ok fin)))
          (s, w)
        ≡ (ok fin, (record (queued s) { ribs_last = some fin }, w))
  kept s w e =
      act_then (replicate kit fin s.replicator) (λ _. set_ribs_last (some fin) >> lift (ok fin)) tt
        (s, w) (queued s, w) (ok fin, (record (queued s) { ribs_last = some fin }, w))
        (replicated s w s.replicator e) refl
