-- ===== src/Tests/Replicas.antt =====
-- A replicator with a primary destination and two buckets, and a job for one of them.
use focl.Base.{String, true, false, none, some, List, [], ◌∷◌, ◌++◌, ◌≡◌, refl, map, All, ok, err}
use focl.Base.Int.{rem_euclid, wrap_i64, ◌-ℤ◌, pos}
use focl.Config.{
  ArchiveDestinationConfig, default_destination, async_replica, to_s3, destination_key,
}
use focl.Net.{v4}
use focl.Bgp.{origin_igp, update_message}
use focl.Archive.Snapshot.{Mrt}
use focl.Archive.Types.{FinalizedSegment}
use focl.Archive.World.{pure}
use focl.Archive.Queue.{Row, ReplicationJob, empty_table, claim_ready}
use focl.Archive.Writer.Complete.{calm, segment_of}
use focl.Archive.Replicator.{Replicator, Outside, new, run_once, enqueue_segment}
use focl.Archive.Replicator.Settled.{Settled, run_once-Settled}
use focl.Archive.Replicator.Keys.{new-same_bucket, IsJobOf, replica_keys, enqueue_segment-added}
use focl.Tests.Queue.{two}
use focl.Archive.Layout.{aligned_epoch}
use focl.Archive.Service.{ArchiveService, Kit, ensure_updates_writer}
use focl.Archive.Service.Bucket.{OnOk, OpenAt, ensure_updates_writer-OpenAt}
use focl.Tests.Config.{archive}
use focl.Tests.Segments.{calendar, lib, writer, no_files}

abbrev bucket : String → ArchiveDestinationConfig
bucket prefix = record default_destination {
  destination_type = to_s3;
  mode = async_replica;
  endpoint = some "https://s3.example.net";
  bucket = some "mrt";
  prefix = some prefix;
}

-- A store that takes everything; manifests do not parse; the database works.
abbrev outside : Outside
outside = record {
  from_json = λ bytes. err "not a manifest";
  put = λ endpoint name key body. pure tt;
  clock = λ n. pos 100;
  database = λ n. none;
}

abbrev pub replicator : Replicator
replicator = new (default_destination ∷ bucket "a" ∷ []) two true

run_once-Settled_example :
    let (result, rep', w') = run_once outside replicator (calm no_files 0) in
    (result ≡ ok tt)
    × All
        (λ (j : ReplicationJob). Settled j.id rep'.queue)
        (claim_ready (pos 100) 32 replicator.queue).0
run_once-Settled_example = run_once-Settled outside replicator (calm no_files 0) (λ n. refl)

new-same_bucket_example :
    (new (bucket "a" ∷ bucket "b" ∷ []) empty_table false).destinations
    ≡ (destination_key (bucket "b"), bucket "b") ∷ []
new-same_bucket_example =
    new-same_bucket (bucket "a") (bucket "b") empty_table false refl refl refl refl

abbrev segment : FinalizedSegment
segment = segment_of lib (pos 1800) writer

enqueue_segment-added_example :
    let (result, rep') = enqueue_segment outside segment replicator in
    (result ≡ ok tt)
    × ((added : List Row) × (rep'.queue.rows ≡ replicator.queue.rows ++ added)
        × (map (λ (r : Row). r.destination_key) added ≡ replica_keys replicator.destinations)
        × All (IsJobOf segment) added)
enqueue_segment-added_example = enqueue_segment-added outside segment replicator (λ n. refl)

-- An encoder that writes little, and parsers that accept.
abbrev pub mrt : Mrt
mrt = record {
  codec = record {
    encode = λ m. 0 ∷ [];
    parse_32 = λ bytes. ok (
        update_message
          (record { withdrawn_prefixes = []; attributes = []; announced_prefixes = [] }));
    parse_16 = λ bytes. err "short";
  };
  try_state = λ n. some n;
  parse_attributes = λ bytes. ok (origin_igp ∷ []);
  ipv4_net = λ ip len. some (record { addr = v4 ip; prefix_len = len });
  encode_message = λ m subtype. 1 ∷ 2 ∷ [];
  encode_header = λ h. 9 ∷ [];
  msg_type_text = λ m. "UPDATE";
  ipv4_text = λ ip. "192.0.2.1";
  net_text = λ n. "203.0.113.0/24";
}

-- The service before its first segment.
abbrev pub service : ArchiveService
service = record {
  cfg = archive;
  collector_bgp_id = 3221225985;
  updates_writer = none;
  ribs_last = none;
  last_rib_bucket = none;
  replicator = some replicator;
  events = [];
}

abbrev pub kit : Kit
kit = record { lib = lib; outside = outside; timestamp_opt = calendar; mrt = mrt }

ensure_updates_writer-OpenAt_example :
    OnOk (OpenAt (pos 900)) (ensure_updates_writer kit (pos 1000) (service, calm no_files 0))
unfolding aligned_epoch rem_euclid wrap_i64 ◌-ℤ◌
ensure_updates_writer-OpenAt_example =
    ensure_updates_writer-OpenAt kit (pos 1000) service (calm no_files 0) (pos 900) refl
