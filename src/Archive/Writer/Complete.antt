-- ===== src/Archive/Writer/Complete.antt =====
-- src/archive/writer.rs and src/archive/manifest.rs: what `finalize` leaves when no call fails.
use Prim.Native.String.{◌++◌ as append_text}
use focl.Base.{
  length-drop, take-append-drop, ℕ, zero, suc, ◌+◌, ◌<◌, ◌≡◌, refl, sym, ap, ◌∙◌, String,
  Bool-cases, inl, inr, false, Option, none, some, List, [], ◌∷◌, ◌++◌, take, drop, length, ◌==◌,
  arith, Result, ok,
}
use mathlib.Core.List.{append-nil, append_assoc}
use focl.Base.Int.{ℤ}
use focl.Archive.World.{
  World, M, pure, update, rename, rename_to, read_file, call, or_missing, ◌>>=◌,
}
use focl.Archive.Types.{FinalizedSegment, as_str}
use focl.Archive.Manifest.{
  Library, SegmentManifest, feed, compute_sha256, build, sidecar_path, write_sidecar,
}
use focl.Archive.Writer.Atomic.{update-here}
use focl.Archive.Writer.{SegmentWriter, finish, publish, describe, finalize}

-- A world where no call fails.
abbrev pub calm : (String → Option (List ℕ)) → ℕ → World
calm files calls = record { files = files; faults = λ _. false; calls = calls }

module _ (path : String) (files : String → Option (List ℕ)) where
  feed-end :
      (fuel : ℕ) (fed : List ℕ) (n : ℕ)
      → feed path (suc fuel) [] fed (calm files n) ≡ (ok fed, calm files (suc n))
  unfolding feed call
  feed-end fuel fed n = refl

  feed-turn :
      (fuel b : ℕ) (left fed : List ℕ) (n : ℕ)
      → feed path (suc fuel) (b ∷ left) fed (calm files n)
        ≡ feed path fuel (drop 8192 (b ∷ left)) (fed ++ take 8192 (b ∷ left)) (calm files (suc n))
  unfolding feed call
  feed-turn fuel b left fed n = rw (more (length left))
    where
      more : (k : ℕ) → (suc k == 0) ≡ false
      more k = ground arith

  -- The loop of `compute_sha256` feeds the hasher the whole file, in pieces.
  feed-calm :
      (fuel : ℕ) (left fed : List ℕ) (n : ℕ)
      → length left < fuel
      → (m : ℕ) × (feed path fuel left fed (calm files n) ≡ (ok (fed ++ left), calm files m))
  feed-calm zero left fed n h = (n, ground arith)
  feed-calm (suc fuel) [] fed n h = (
    suc n,
    feed-end fuel fed n ∙ ap (λ bytes. (ok bytes, calm files (suc n))) (sym (append-nil fed)),
  )
  feed-calm (suc fuel) (b ∷ left) fed n h =
      let piece : List ℕ = take 8192 (b ∷ left) in
      let (m, rest) =
        feed-calm fuel (drop 8192 (b ∷ left)) (fed ++ piece) (suc n)
          (omega (arith, h, length-drop 8192 (b ∷ left))) in
      (
        m,
        feed-turn fuel b left fed n
            ∙ rest
            ∙ ap (λ bytes. (ok bytes, calm files m))
                (append_assoc fed piece (drop 8192 (b ∷ left))
                  ∙ ap (λ bytes. fed ++ bytes) (take-append-drop 8192 (b ∷ left))),
      )

-- One action after another, each with its result.
andthen :
    {A B : Type 0} (m : M A) (f : A → M B) {w w' : World} {a : A} {r : Result B × World}
    → m w ≡ (ok a, w')
    → f a w' ≡ r
    → (m >>= f) w ≡ r
andthen m f {w} h k = ap (λ p. ◌>>=◌ (λ _. p) f w) h ∙ k

module _ (lib : Library) (files : String → Option (List ℕ)) (path : String) (content : List ℕ)
    (there : files path ≡ some content) where
  read_file-calm :
      (error : String) (n : ℕ)
      → read_file error path (calm files n) ≡ (ok content, calm files (suc n))
  unfolding read_file call or_missing
  read_file-calm error n = ap (λ o. or_missing error o (calm files (suc n))) there

  compute_sha256-calm :
      (n : ℕ)
      → (m : ℕ) × (compute_sha256 lib path (calm files n)
          ≡ (ok (lib.sha256_hex content), calm files m))
  unfolding compute_sha256
  compute_sha256-calm n =
      let (m, fed) = feed-calm path files (length content + 1) content [] (suc n) (omega arith) in
      (
        m,
        andthen (read_file (append_text "failed to open segment for hashing " path) path)
            (λ c. feed path (length c + 1) c [] >>= λ fed. pure (lib.sha256_hex fed))
            (read_file-calm _ n)
            (andthen (feed path (length content + 1) content []) (λ fed. pure (lib.sha256_hex fed))
              fed refl),
      )

module _ (lib : Library) (end_ts : ℤ) (w : SegmentWriter) where
  -- The compressed records.
  abbrev pub whole : List ℕ
  whole = lib.compress w.encoder w.written

  abbrev pub manifest_from : ℕ → String → SegmentManifest
  manifest_from bytes sha256 = record {
    collector_id = w.cfg.collector_id;
    stream = as_str w.stream;
    start_ts = w.start_ts;
    end_ts = end_ts;
    record_count = w.record_count;
    bytes = bytes;
    sha256 = sha256;
    compression = w.cfg.compression;
    layout_profile = w.cfg.layout_profile;
    relative_path = w.paths.relative_path;
  }

  abbrev pub manifest_of : SegmentManifest
  manifest_of = manifest_from (length whole) (lib.sha256_hex whole)

  abbrev pub moved : (String → Option (List ℕ)) → String → Option (List ℕ)
  moved files =
      update w.paths.final_path (some whole)
        (update w.paths.tmp_path none (update w.paths.tmp_path (some whole) files))

  publish-calm :
      (files : String → Option (List ℕ)) (n : ℕ)
      → (m : ℕ) × (publish lib w (calm files n) ≡ (ok tt, calm (moved files) m))
  unfolding publish finish call rename rename_to
  publish-calm files n = elim (Bool-cases w.cfg.fsync_on_rotate) [
    | inl on ↦ (suc (suc (suc (suc n))), rw (on, update-here w.paths.tmp_path (some whole) files))
    | inr off ↦ (suc (suc (suc n)), rw (off, update-here w.paths.tmp_path (some whole) files))
  ]

  abbrev pub segment_from : SegmentManifest → String → FinalizedSegment
  segment_from manifest manifest_path = record {
    stream = w.stream;
    start_ts = w.start_ts;
    end_ts = end_ts;
    record_count = w.record_count;
    bytes = manifest.bytes;
    compression = w.cfg.compression;
    final_path = w.paths.final_path;
    relative_path = w.paths.relative_path;
    manifest_path = manifest_path;
  }

  abbrev pub segment_of : FinalizedSegment
  segment_of = segment_from manifest_of (sidecar_path w.paths.final_path)

  abbrev pub described : (String → Option (List ℕ)) → String → Option (List ℕ)
  described files = update (sidecar_path w.paths.final_path) (some (lib.to_json manifest_of)) files

  build-calm :
      (files : String → Option (List ℕ)) (n : ℕ)
      → files w.paths.final_path ≡ some whole
      → (m : ℕ) × (build lib w.cfg.collector_id w.stream w.start_ts end_ts w.record_count
            w.cfg.compression w.cfg.layout_profile w.paths.final_path w.paths.relative_path
            (calm files n)
          ≡ (ok manifest_of, calm files m))
  unfolding build
  build-calm files n there =
      let (m, hashed) = compute_sha256-calm lib files w.paths.final_path whole there (suc n) in
      (
        m,
        andthen (read_file _ w.paths.final_path)
            (λ content. compute_sha256 lib w.paths.final_path >>= λ sha256.
              pure (manifest_from (length content) sha256))
            (read_file-calm lib files w.paths.final_path whole there _ n)
            (andthen (compute_sha256 lib w.paths.final_path)
              (λ sha256. pure (manifest_from (length whole) sha256)) hashed refl),
      )

  describe-calm :
      (files : String → Option (List ℕ)) (n : ℕ)
      → files w.paths.final_path ≡ some whole
      → (m : ℕ) × (describe lib end_ts w (calm files n) ≡ (ok segment_of, calm (described files) m))
  unfolding describe write_sidecar call
  describe-calm files n there =
      let (m, built) = build-calm files n there in
      (
        suc m,
        andthen
            (build lib w.cfg.collector_id w.stream w.start_ts end_ts w.record_count
              w.cfg.compression w.cfg.layout_profile w.paths.final_path w.paths.relative_path)
            (λ manifest. write_sidecar lib manifest w.paths.final_path >>= λ path.
              pure (segment_from manifest path))
            built refl,
      )

-- When no call fails, `finalize` succeeds, and its changes to the files are: the temporary path is
-- written and then removed, the final path gets the compressed records, and behind it the sidecar
-- gets the manifest of exactly these bytes (their length, the digest of all of them and the count
-- of the records). The report agrees with the manifest.
pub finalize_complete :
    (lib : Library) (end_ts : ℤ) (w : SegmentWriter) (files : String → Option (List ℕ)) (n : ℕ)
    → (m : ℕ) × (finalize lib end_ts w (calm files n) ≡ (
      ok (segment_of lib end_ts w),
      calm (described lib end_ts w (moved lib end_ts w files)) m,
    ))
unfolding finalize
finalize_complete lib end_ts w files n =
    let (m, published) = publish-calm lib end_ts w files n in
    let (k, rest) = describe-calm lib end_ts w (moved lib end_ts w files) m (
      update-here w.paths.final_path (some (whole lib end_ts w)) (
        update w.paths.tmp_path none
          (update w.paths.tmp_path (some (whole lib end_ts w)) files))) in
    (k, andthen (publish lib w) (λ _. describe lib end_ts w) published rest)
