-- ===== src/Tests/Segments.antt =====
-- Buckets of timestamps, the paths of a segment, and a segment that is written and finalized.
use focl.Base.Text.{text_ne}
use focl.Base.{
  ◌≤◌, ◌<◌, ℕ, String, Option, none, some, List, [], ◌∷◌, ◌≡◌, ◌⊎◌, refl, arith, ok, if◌then◌else◌,
  length, ◌==◌,
}
use focl.Base.Int.{ℤ, int_laws, pos, negsuc, rem_euclid, wrap_i64, ◌-ℤ◌}
use focl.Config.{gzip, extension}
use focl.Base.Text.{padded, replace, trim_start_matches}
use focl.Archive.FilePath.{split_name, join}
use focl.Archive.Types.{updates}
use focl.Archive.Layout.Shared.{segment_paths-IsBucket}
use focl.Archive.Layout.{DateTime, aligned_epoch, segment_paths, interval_of, paths_at}
use focl.Archive.Layout.Buckets.{IsBucket, aligned_epoch_iff}
use focl.Archive.World.{World}
use focl.Archive.Manifest.{Library}
use focl.Archive.Triple.{Post}
use focl.Archive.Writer.{SegmentWriter, finalize}
use focl.Archive.Writer.Atomic.{finalize_atomic}
use focl.Archive.Writer.Complete.{finalize_complete, calm, segment_of, described, moved}
use focl.Tests.Config.{archive}

aligned_epoch_iff_example : IsBucket (pos 1000) 900 (pos 900)
unfolding aligned_epoch rem_euclid wrap_i64 ◌-ℤ◌
aligned_epoch_iff_example =
    (aligned_epoch_iff (pos 1000) 900 (pos 900) (omega arith) (omega arith, omega arith)).0 refl

-- One second before the epoch.
before_the_epoch : aligned_epoch (negsuc 0) 900 ≡ ok (negsuc 899)
unfolding aligned_epoch rem_euclid wrap_i64 ◌-ℤ◌
before_the_epoch = refl

-- Bytes are their own compression, and the digest tells the number of bytes apart.
abbrev pub lib : Library
lib = record {
  compress = λ kind bytes. bytes;
  sha256_hex = λ bytes. if length bytes == 2 then "two" else "other";
  to_json = λ m. m.bytes ∷ m.record_count ∷ [];
}

abbrev pub writer : SegmentWriter
writer = record {
  cfg = archive;
  stream = updates;
  start_ts = pos 900;
  paths = record { tmp_path = "/t/a.tmp"; final_path = "/f/a.gz"; relative_path = "a.gz" };
  encoder = gzip;
  written = 1 ∷ 2 ∷ [];
  record_count = 1;
}

abbrev pub no_files : String → Option (List ℕ)
no_files path = none

-- The third call, which syncs, fails.
abbrev world : World
world = record { files = no_files; faults = λ n. n == 2; calls = 0 }

paths_apart : ¬ (writer.paths.tmp_path ≡ writer.paths.final_path)
paths_apart = text_ne "/t/a.tmp" "/f/a.gz" refl

finalize_atomic_example :
    Post
      (λ _ files. files "/f/a.gz" ≡ some (1 ∷ 2 ∷ []))
      (λ files. (files "/f/a.gz" ≡ none) ⊎ (files "/f/a.gz" ≡ some (1 ∷ 2 ∷ [])))
      (finalize lib (pos 1800) writer world)
finalize_atomic_example = finalize_atomic lib (pos 1800) writer world paths_apart

finalize_complete_example :
    (m : ℕ) × (finalize lib (pos 1800) writer (calm no_files 0) ≡ (
      ok (segment_of lib (pos 1800) writer),
      calm (described lib (pos 1800) writer (moved lib (pos 1800) writer no_files)) m,
    ))
finalize_complete_example = finalize_complete lib (pos 1800) writer no_files 0

-- The calendar at the one point that is asked for.
abbrev pub calendar : ℤ → Option DateTime
calendar t = some (record { year = pos 1970; month = 1; day = 1; hour = 0; minute = 15 })

IsBucket-900 : (n : ℕ) → 900 ≤ n → n < 1800 → IsBucket (pos n) 900 (pos 900)
unfolding rem_euclid
IsBucket-900 n a b = record { starts = omega arith; ends = omega (int_laws, a, b); multiple = refl }

segment_paths-IsBucket_example :
    segment_paths calendar archive updates (pos 901)
    ≡ segment_paths calendar archive updates (pos 1799)
unfolding interval_of
segment_paths-IsBucket_example =
    segment_paths-IsBucket calendar archive updates (pos 901) (pos 1799) (pos 900) (omega arith)
      (omega arith, omega arith) (omega arith, omega arith)
      (IsBucket-900 901 (omega arith) (omega arith)) (IsBucket-900 1799 (omega arith) (omega arith))

-- The path of that segment.
path_at_0015 :
    segment_paths calendar archive updates (pos 901)
    ≡ ok (record {
      tmp_path = "/var/lib/focld/archive/.tmp/focl01/1970.01/UPDATES/.updates.19700101.0015.gz.tmp";
      final_path = "/var/lib/focld/archive/focl01/1970.01/UPDATES/updates.19700101.0015.gz";
      relative_path = "focl01/1970.01/UPDATES/updates.19700101.0015.gz";
    })
unfolding segment_paths interval_of aligned_epoch rem_euclid wrap_i64 ◌-ℤ◌ paths_at split_name
    padded extension join replace trim_start_matches
path_at_0015 = refl
