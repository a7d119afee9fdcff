-- ===== src/Archive/Writer/Atomic.antt =====
-- src/archive/writer.rs: what `finalize` does to the final path, whichever calls fail.
use Prim.Native.String.{String}
use text.Mathlib.TextLemmas.{append-nil, append_cancel_left}
use focl.Base.{
  ℕ, zero, suc, ◌≡◌, ◌⊎◌, inl, inr, refl, subst, sym, ◌∙◌, Bool, true, false, Option, none, some,
  List, [], ◌++◌, ◌+◌, take, drop, length, ◌==◌, arith, eq_iff,
}
use focl.Base.Int.{ℤ}
use focl.Archive.World.{World, read_file, pure, touch, update, rename, rename_to}
use focl.Archive.Types.{ArchiveStream}
use focl.Config.{CompressionKind, LayoutProfile}
use focl.Archive.Manifest.{
  Library, SegmentManifest, feed, compute_sha256, build, sidecar_path, write_sidecar,
}
use focl.Archive.Triple.{
  Files, Post, Triple, Triple-bind, Triple-call, Triple-touch, Triple-pure, Triple-read_file,
  Triple-if, Triple-weaken,
}
use focl.Archive.Writer.{SegmentWriter, finish, sync_if, publish, describe, finalize}

pub update-here : (p : String) (c : Option (List ℕ)) (f : Files) → update p c f p ≡ c
update-here p c f = ground (arith, eq_iff p p)

pub update-away :
    (p q : String) (c : Option (List ℕ)) (f : Files) → ¬ (p ≡ q) → update p c f q ≡ f q
update-away p q c f n = ground (arith, eq_iff q p)

pub sidecar_path≢ : (p : String) → ¬ (sidecar_path p ≡ p)
sidecar_path≢ p h =
    let same : ".json" ≡ "" = append_cancel_left p ".json" "" (h ∙ sym (append-nil p)) in
    ground (arith, same, eq_iff ".json" "")

module _ (lib : Library) (w : SegmentWriter) (before : Option (List ℕ)) where
  -- The content of a complete segment.
  abbrev whole : Option (List ℕ)
  whole = some (lib.compress w.encoder w.written)

  abbrev Before : Files → Type 0
  Before f = f w.paths.final_path ≡ before

  abbrev Staged : Files → Type 0
  Staged f = (Before f) × (f w.paths.tmp_path ≡ whole)

  abbrev Published : Files → Type 0
  Published f = f w.paths.final_path ≡ whole

  abbrev Either : Files → Type 0
  Either f = Before f ⊎ Published f

  module _ (apart : ¬ (w.paths.tmp_path ≡ w.paths.final_path)) where
    Triple-finish : Triple Before (finish lib w) (λ _. Staged) Either
    unfolding finish
    Triple-finish =
        Triple-bind (touch _) (λ _. _) (Triple-touch (λ _ p. inl p) _)
          (λ _.
            Triple-call _ (update w.paths.tmp_path whole)
              (λ f p. (
                update-away w.paths.tmp_path w.paths.final_path whole f apart ∙ p,
                update-here w.paths.tmp_path whole f,
              ))
              (λ _ p. inl p))

    Triple-sync_if : (b : Bool) → Triple Staged (sync_if b) (λ _. Staged) Either
    Triple-sync_if true = Triple-touch (λ _ p. inl p.0) _
    Triple-sync_if false = Triple-pure (λ _ p. inl p.0) tt

    Triple-rename :
        (error : String)
        → Triple Staged (rename error w.paths.tmp_path w.paths.final_path) (λ _. Published) Either
    unfolding rename rename_to
    Triple-rename error = record {
      at = λ u p.
          subst
            (λ o.
              Post (λ _. Published) Either
                (rename_to error w.paths.tmp_path w.paths.final_path o u))
            (sym p.1) (moved.at u p.0);
    }
      where
        moved :
            Triple Before
              (rename_to error w.paths.tmp_path w.paths.final_path whole)
              (λ _. Published)
              Either
        moved =
            Triple-call error _
              (λ f _. update-here w.paths.final_path whole (update w.paths.tmp_path none f))
              (λ _ p. inl p)

    Triple-publish : Triple Before (publish lib w) (λ _. Published) Either
    unfolding publish
    Triple-publish = Triple-bind (finish lib w) _ Triple-finish (λ _.
        Triple-bind (sync_if w.cfg.fsync_on_rotate) _ (Triple-sync_if w.cfg.fsync_on_rotate)
          (λ _. Triple-rename _))

  -- Nothing behind the move touches the segment, whatever fails.
  Triple-feed :
      (path : String) (fuel : ℕ) (left fed : List ℕ)
      → Triple Published (feed path fuel left fed) (λ _. Published) Published
  unfolding feed
  Triple-feed path zero left fed = Triple-pure (λ _ p. p) fed
  Triple-feed path (suc fuel) left fed = Triple-bind (touch _) _ (Triple-touch (λ _ p. p) _) (λ _.
      Triple-if (length left == 0) (pure fed) _ (Triple-pure (λ _ p. p) fed)
        (Triple-feed path fuel (drop 8192 left) (fed ++ take 8192 left)))

  Triple-compute_sha256 :
      (path : String) → Triple Published (compute_sha256 lib path) (λ _. Published) Published
  unfolding compute_sha256
  Triple-compute_sha256 path =
      Triple-bind (read_file _ path) _ (Triple-read_file (λ _ p. p) _ path) (λ content.
        Triple-bind (feed path (length content + 1) content []) _
          (Triple-feed path (length content + 1) content [])
          (λ fed. Triple-pure (λ _ p. p) (lib.sha256_hex fed)))

  Triple-build :
      (id : String) (stream : ArchiveStream) (start_ts end_ts : ℤ) (n : ℕ) (kind : CompressionKind)
      (profile : LayoutProfile) (path relative : String)
      → Triple Published
          (build lib id stream start_ts end_ts n kind profile path relative)
          (λ _. Published)
          Published
  unfolding build
  Triple-build id stream start_ts end_ts n kind profile path relative =
      Triple-bind (read_file _ path) _ (Triple-read_file (λ _ p. p) _ path) (λ _.
        Triple-bind (compute_sha256 lib path) _ (Triple-compute_sha256 path)
          (λ _. Triple-pure (λ _ p. p) _))

  Triple-write_sidecar :
      (m : SegmentManifest)
      → Triple Published (write_sidecar lib m w.paths.final_path) (λ _. Published) Published
  unfolding write_sidecar
  Triple-write_sidecar m =
      Triple-bind _ _
        (Triple-call _ (update (sidecar_path w.paths.final_path) (some (lib.to_json m)))
          (λ f p.
            update-away (sidecar_path w.paths.final_path) w.paths.final_path (some (lib.to_json m))
              f (sidecar_path≢ w.paths.final_path)
            ∙ p)
          (λ _ p. p))
        (λ _. Triple-pure (λ _ p. p) (sidecar_path w.paths.final_path))

  Triple-describe :
      (end_ts : ℤ) → Triple Published (describe lib end_ts w) (λ _. Published) Published
  unfolding describe
  Triple-describe end_ts =
      Triple-bind (build lib _ _ _ _ _ _ _ _ _) _ (Triple-build _ _ _ _ _ _ _ _ _) (λ m.
        Triple-bind (write_sidecar lib m w.paths.final_path) _ (Triple-write_sidecar m)
          (λ _. Triple-pure (λ _ p. p) _))

-- Whichever calls fail, `finalize` leaves at the final path what was there or the whole compressed
-- segment, never a part of it, and the whole segment when it succeeds. The temporary path must
-- not be the final one.
pub finalize_atomic :
    (lib : Library) (end_ts : ℤ) (w : SegmentWriter) (world : World)
    → ¬ (w.paths.tmp_path ≡ w.paths.final_path)
    → Post
        (λ _ files. files w.paths.final_path ≡ some (lib.compress w.encoder w.written))
        (λ files.
          (files w.paths.final_path ≡ world.files w.paths.final_path)
          ⊎ (files w.paths.final_path ≡ some (lib.compress w.encoder w.written)))
        (finalize lib end_ts w world)
unfolding finalize
finalize_atomic lib end_ts w world apart =
    let before : Option (List ℕ) = world.files w.paths.final_path in
    (Triple-bind (publish lib w) _ (Triple-publish lib w before apart)
        (λ _. Triple-weaken (λ _ p. inr p) (Triple-describe lib w before end_ts))).at
      world refl
