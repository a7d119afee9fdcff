-- ===== src/Archive/Layout/Shared.antt =====
-- src/archive/layout.rs: the timestamps that share their paths.
use focl.Base.{◌<◌, ◌≡◌, sym, ◌∙◌, Option}
use focl.Base.Int.{ℤ}
use focl.Config.{ArchiveConfig}
use focl.Archive.Types.{ArchiveStream}
use focl.Archive.Layout.{DateTime, aligned_epoch, interval_of, segment_paths}
use focl.Archive.Layout.Buckets.{InRange, IsBucket, aligned_epoch_iff}

-- All timestamps of one bucket of a stream have the same paths, under every layout: the temporary and
-- the final one, and the relative one.
pub segment_paths-IsBucket :
    (timestamp_opt : ℤ → Option DateTime) (cfg : ArchiveConfig) (stream : ArchiveStream)
    (first later bucket : ℤ)
    → 0 < interval_of cfg stream
    → InRange first (interval_of cfg stream)
    → InRange later (interval_of cfg stream)
    → IsBucket first (interval_of cfg stream) bucket
    → IsBucket later (interval_of cfg stream) bucket
    → segment_paths timestamp_opt cfg stream first ≡ segment_paths timestamp_opt cfg stream later
unfolding segment_paths
segment_paths-IsBucket timestamp_opt cfg stream first later bucket h r s b c =
    let k = interval_of cfg stream in
    let same : aligned_epoch first k ≡ aligned_epoch later k =
      (aligned_epoch_iff first k bucket h r).1 b
      ∙ sym ((aligned_epoch_iff later k bucket h s).1 c) in
    rw same
