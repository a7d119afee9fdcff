-- ===== src/Archive/Manifest.antt =====
-- src/archive/manifest.rs: the manifest beside a segment. SHA-256 in hexadecimal and the JSON
-- printer are library code and are arguments.
use Prim.Native.String.{◌++◌ as append_text}
use focl.Base.{ℕ, zero, suc, ◌+◌, String, List, [], ◌++◌, length, take, drop, if◌then◌else◌, ◌==◌}
use focl.Base.Int.{ℤ}
use focl.Config.{CompressionKind, LayoutProfile}
use focl.Archive.Types.{ArchiveStream, as_str}
use focl.Archive.World.{M, ◌>>=◌, ◌>>◌, pure, touch, read_file, write_file}

pub record SegmentManifest : Type 0 where
  pub collector_id : String
  pub stream : String
  pub start_ts : ℤ
  pub end_ts : ℤ
  pub record_count : ℕ
  pub bytes : ℕ
  pub sha256 : String
  pub compression : CompressionKind
  pub layout_profile : LayoutProfile
  pub relative_path : String

pub record Library : Type 0 where
  pub compress : CompressionKind → List ℕ → List ℕ
  pub sha256_hex : List ℕ → String
  pub to_json : SegmentManifest → List ℕ

-- The loop of `compute_sha256`: the bytes that the hasher has been fed. Each turn reads up to 8192
-- bytes, so the length of the file and one is fuel enough.
unfoldable pub feed : String → ℕ → List ℕ → List ℕ → M (List ℕ)
feed path zero left fed = pure fed
feed path (suc fuel) left fed = do
  touch (append_text "failed reading " (append_text path " for hashing"))
  if length left == 0 then pure fed else feed path fuel (drop 8192 left) (fed ++ take 8192 left)

unfoldable pub compute_sha256 : Library → String → M String
compute_sha256 lib path = do
  content ← read_file (append_text "failed to open segment for hashing " path) path
  fed ← feed path (length content + 1) content []
  pure (lib.sha256_hex fed)

-- `SegmentManifest::build`
unfoldable pub build :
    Library
    → String
    → ArchiveStream
    → ℤ
    → ℤ
    → ℕ
    → CompressionKind
    → LayoutProfile
    → String
    → String
    → M SegmentManifest
build lib collector_id stream start_ts end_ts record_count compression layout_profile segment_path
      relative_path =
    do
      content ← read_file (append_text "failed to stat segment " segment_path) segment_path
      sha256 ← compute_sha256 lib segment_path
      pure (record {
        collector_id = collector_id;
        stream = as_str stream;
        start_ts = start_ts;
        end_ts = end_ts;
        record_count = record_count;
        bytes = length content;
        sha256 = sha256;
        compression = compression;
        layout_profile = layout_profile;
        relative_path = relative_path;
      })

abbrev pub sidecar_path : String → String
sidecar_path segment_path = append_text segment_path ".json"

unfoldable pub write_sidecar : Library → SegmentManifest → String → M String
write_sidecar lib manifest segment_path = do
  write_file (append_text "failed to write manifest " (sidecar_path segment_path))
      (sidecar_path segment_path) (lib.to_json manifest)
  pure (sidecar_path segment_path)
