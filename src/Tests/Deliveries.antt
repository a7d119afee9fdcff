-- ===== src/Tests/Deliveries.antt =====
-- A job for a local destination, the rounds that end it, and a segment on its way to a replica.
use focl.Base.Text.{text_ne}
use focl.Base.{true, String, ◌+◌, ◌≤◌, ◌≡◌, refl, false, none, some, [], ◌∷◌, arith, ok, err}
use focl.Base.Int.{pos}
use focl.Base.Assoc.{get, insert}
use focl.Config.{
  key_of, ArchiveDestinationConfig, default_destination, async_replica, gzip, route_views,
  destination_key,
}
use focl.Archive.FilePath.{join, parent}
use focl.Archive.Manifest.{SegmentManifest}
use focl.Archive.Queue.{
  empty_table, Table, ReplicationJob, new_row, pending_count, claim_ready, select_ready, claim_all,
  update_where, mark_success, mark_failed, after_failure,
}
use focl.Archive.Triple.{Files, Post}
use focl.Archive.World.{create_parent, World, update, read_file, or_missing, call}
use focl.Archive.Replicator.{
  fill, enqueue_segment, Replicator, Outside, new, process_job, run_once, run_jobs, copy_to_local,
  settle, emit, collect,
}
use focl.Archive.Replicator.Tries.{tries_left}
use focl.Archive.Replicator.Rounds.{IsIdle}
use focl.Archive.Replicator.Ends.{spawn, jobs_tried, spawn-tries_left, spawn-settles}
use focl.Archive.Replicator.Delivered.{
  IsDelivered, Elsewhere, SourcesApart, process_job-IsDelivered, process_job_onto_itself,
}
use focl.Archive.Types.{FinalizedSegment}
use focl.Archive.Writer.Complete.{segment_of}
use focl.Archive.Replicator.Replicated.{Replicated, run_once-Replicated}
use focl.Tests.Segments.{no_files, lib, writer}

abbrev local_at : String → ArchiveDestinationConfig
local_at path = record default_destination { mode = async_replica; path = some path }

abbrev manifest : SegmentManifest
manifest = record {
  collector_id = "focl01";
  stream = "updates";
  start_ts = pos 900;
  end_ts = pos 1800;
  record_count = 1;
  bytes = 2;
  sha256 = "two";
  compression = gzip;
  layout_profile = route_views;
  relative_path = "u.gz";
}

-- Manifests parse, uploads fail, and the clock stands.
abbrev outside : Outside
outside = record {
  from_json = λ bytes. ok manifest;
  put = λ endpoint name key body w. (err "down", w);
  clock = λ n. pos 100;
  database = λ n. none;
}

abbrev job : ReplicationJob
job = record {
  id = 1;
  segment_path = "/a/u.gz";
  manifest_path = "/a/u.gz.json";
  destination_key = "local:/b";
  attempts = 0;
  max_retries = 1;
}

abbrev stored : Files
stored = update "/a/u.gz" (some (1 ∷ 2 ∷ [])) (update "/a/u.gz.json" (some (7 ∷ [])) no_files)

-- No call fails.
abbrev world : World
world = record { files = stored; faults = λ n. false; calls = 0 }

sources_apart : SourcesApart job "/b/u.gz"
sources_apart = (
  text_ne "/a/u.gz" "/b/u.gz" refl,
  text_ne "/a/u.gz" "/b/u.gz.json" refl,
  text_ne "/a/u.gz.json" "/b/u.gz" refl,
  text_ne "/a/u.gz.json" "/b/u.gz.json" refl,
)

process_job-IsDelivered_example :
    Post
      (λ _ files. IsDelivered "/b/u.gz" (1 ∷ 2 ∷ []) (7 ∷ []) stored files)
      (Elsewhere "/b/u.gz" stored)
      (process_job outside (("local:/b", local_at "/b") ∷ []) job world)
unfolding join get
process_job-IsDelivered_example =
    process_job-IsDelivered outside (("local:/b", local_at "/b") ∷ []) job (local_at "/b") "/b"
      manifest (1 ∷ 2 ∷ []) (7 ∷ []) world refl refl refl refl refl refl sources_apart

-- The destination is the archive's own root.
process_job_onto_itself_example :
    Post
      (λ _ files. (files "/a/u.gz" ≡ some []) × (files "/a/u.gz.json" ≡ some []))
      (λ _. Unit {0})
      (process_job outside (("local:/b", local_at "/a") ∷ []) job world)
unfolding join get
process_job_onto_itself_example =
    process_job_onto_itself outside (("local:/b", local_at "/a") ∷ []) job (local_at "/a") "/a"
      manifest (7 ∷ []) world refl refl refl refl refl refl refl

-- Two jobs, each of which is tried at most once.
abbrev two_jobs : Table
two_jobs = record {
  rows =
      new_row (pos 100) "/a/u.gz" "/a/u.gz.json" "local:/b" 1 1
      ∷ new_row (pos 100) "/a/u.gz" "/a/u.gz.json" "local:/x" 1 2
      ∷ [];
  last_id = 2;
}

abbrev replicator : Replicator
replicator = new (local_at "/b" ∷ []) two_jobs false

two_jobs-IsIdle : IsIdle two_jobs
two_jobs-IsIdle = record {
  queue = record {
    rising = (omega arith, (omega arith, tt));
    bounded = (omega arith, (omega arith, tt));
  };
  idle = ((λ e. ground (arith, e)), ((λ e. ground (arith, e)), tt));
  limited = ((omega arith, omega arith), ((omega arith, omega arith), tt));
}

spawn-tries_left_example :
    let t' = (spawn (outside ∷ outside ∷ []) replicator world).0.queue in
    IsIdle t'
    × (jobs_tried (outside ∷ outside ∷ []) replicator world + tries_left t'.rows
        ≤ tries_left two_jobs.rows)
unfolding new
spawn-tries_left_example =
    spawn-tries_left (outside ∷ outside ∷ []) replicator world ((λ n. refl), ((λ n. refl), tt))
      two_jobs-IsIdle

spawn-settles_example : pending_count (spawn (outside ∷ outside ∷ []) replicator world).0.queue ≡ 0
unfolding fill create_parent parent run_once run_jobs process_job copy_to_local join get insert
    settle emit claim_ready select_ready claim_all update_where mark_success mark_failed
    after_failure read_file or_missing call collect new destination_key
spawn-settles_example =
    spawn-settles (outside ∷ outside ∷ []) replicator world ((λ n. refl), ((λ n. refl), tt))
      two_jobs-IsIdle
      (((λ _. omega arith), ((λ _. omega arith), tt)), (((λ e. ground (arith, e)), tt), tt))
      (omega arith)

-- A segment that is queued for one replica, besides the primary destination.
abbrev to_replicate : FinalizedSegment
to_replicate = record (segment_of lib (pos 1800) writer) {
  final_path = "/a/u.gz";
  manifest_path = "/a/u.gz.json";
}

abbrev idle : Replicator
idle = new (default_destination ∷ local_at "/b" ∷ []) empty_table true

run_once-Replicated_example :
    Replicated "/b/u.gz"
      (1 ∷ 2 ∷ [])
      (7 ∷ [])
      "/a/u.gz"
      stored
      (run_once outside (enqueue_segment outside to_replicate idle).1 world)
unfolding join get insert collect new destination_key key_of
run_once-Replicated_example =
    run_once-Replicated outside outside to_replicate idle "local:/b" "/b" (local_at "/b") manifest
      (1 ∷ 2 ∷ []) (7 ∷ []) world (λ n. refl) (λ n. refl) (λ n. refl) refl refl refl refl refl refl
      refl refl sources_apart
