-- ===== src/Archive/Writer.antt =====
-- src/archive/writer.rs: the writer of a segment. The encoder is the record bytes that it has taken;
-- what it has put into the temporary file before `finish` is not modelled, and `finish` puts all.
pub mod Atomic
pub mod Complete
pub mod Opened
use Prim.Native.String.{◌++◌ as append_text}
use focl.Base.{
  ℕ, ◌+◌, ◌%◌, ◌^◌, String, Bool, true, false, Option, List, [], ◌∷◌, ◌++◌, if◌then◌else◌, Result,
  ok, err,
}
use focl.Base.Int.{ℤ}
use focl.Config.{ArchiveConfig, CompressionKind, gzip, bzip2, zstd}
use focl.Archive.Types.{ArchiveStream, SegmentPaths, FinalizedSegment}
use focl.Archive.World.{create_parent, World, M, ◌>>=◌, ◌>>◌, pure, touch, write_file, rename}
use focl.Archive.Manifest.{Library, build, write_sidecar}

pub record SegmentWriter : Type 0 where
  pub cfg : ArchiveConfig
  pub stream : ArchiveStream
  pub start_ts : ℤ
  pub paths : SegmentPaths
  pub encoder : CompressionKind
  pub written : List ℕ
  pub record_count : ℕ

-- The encoder of each kind; that of zstd may fail.
unfoldable pub new_encoder : CompressionKind → M CompressionKind
new_encoder gzip = pure gzip
new_encoder bzip2 = pure bzip2
new_encoder zstd = do touch "failed to create zstd encoder"; pure zstd

abbrev pub started :
    ArchiveConfig → ArchiveStream → ℤ → SegmentPaths → CompressionKind → SegmentWriter
started cfg stream start_ts paths encoder = record {
  cfg = cfg;
  stream = stream;
  start_ts = start_ts;
  paths = paths;
  encoder = encoder;
  written = [];
  record_count = 0;
}

-- `SegmentWriter::new`. A segment's paths have parents.
unfoldable pub new : ArchiveConfig → ArchiveStream → ℤ → SegmentPaths → M SegmentWriter
unfolding new_encoder
new cfg stream start_ts paths = do
  create_parent "failed to create tmp directory " paths.tmp_path
  create_parent "failed to create final directory " paths.final_path
  write_file (append_text "failed to create tmp segment " paths.tmp_path) paths.tmp_path []
  encoder ← new_encoder cfg.compression
  pure (started cfg stream start_ts paths encoder)

unfoldable pub write_record : List ℕ → SegmentWriter → M SegmentWriter
write_record bytes w = do
  touch "failed to write record"
  pure (record w { written = w.written ++ bytes; record_count = (w.record_count + 1) % 2 ^ 64 })

abbrev pub finish_error : CompressionKind → String
finish_error gzip = "failed to finish gzip stream"
finish_error bzip2 = "failed to finish bzip2 stream"
finish_error zstd = "failed to finish zstd stream"

-- `SegmentEncoder::finish`
unfoldable pub finish : Library → SegmentWriter → M (Unit {0})
finish lib w = do
  touch "failed to flush"
  write_file (finish_error w.encoder) w.paths.tmp_path (lib.compress w.encoder w.written)

abbrev pub sync_if : Bool → M (Unit {0})
sync_if true = touch "failed to fsync archive segment"
sync_if false = pure tt

-- The steps of `finalize` up to the move.
unfoldable pub publish : Library → SegmentWriter → M (Unit {0})
publish lib w = do
  finish lib w
  sync_if w.cfg.fsync_on_rotate
  rename
      (append_text "failed to atomically move "
        (append_text w.paths.tmp_path (append_text " to " w.paths.final_path)))
      w.paths.tmp_path w.paths.final_path

-- The steps of `finalize` behind it.
unfoldable pub describe : Library → ℤ → SegmentWriter → M FinalizedSegment
describe lib end_ts w = do
  manifest ←
      build lib w.cfg.collector_id w.stream w.start_ts end_ts w.record_count w.cfg.compression
        w.cfg.layout_profile w.paths.final_path w.paths.relative_path
  manifest_path ← write_sidecar lib manifest w.paths.final_path
  pure (record {
    stream = w.stream;
    start_ts = w.start_ts;
    end_ts = end_ts;
    record_count = w.record_count;
    bytes = manifest.bytes;
    compression = w.cfg.compression;
    final_path = w.paths.final_path;
    relative_path = w.paths.relative_path;
    manifest_path = manifest_path;
  })

unfoldable pub finalize : Library → ℤ → SegmentWriter → M FinalizedSegment
finalize lib end_ts w = publish lib w >> describe lib end_ts w
