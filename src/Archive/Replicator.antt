-- ===== src/Archive/Replicator.antt =====
-- src/archive/replicator.rs: the jobs of the queue, carried out. The JSON parser, the upload to a
-- bucket and the clock are arguments, as is which call of the database fails, and how.
pub mod Settled
pub mod Keys
pub mod Tries
pub mod Claimed
pub mod Rounds
pub mod Ends
pub mod Copies
pub mod Delivered
pub mod Replicated
pub mod Sound
use Prim.Native.String.{◌++◌}
use focl.Base.{
  ℕ, suc, ◌+◌, ◌%◌, ◌^◌, String, Bool, true, false, Option, none, some, List, [], ◌∷◌, unwrap_or,
  str_eq, if◌then◌else◌, Result, ok, err, ok_or, context,
}
use mathlib.Core.List.{◌++◌ as append}
use focl.Base.Text.{decimal, trim_start_matches, trim_end_matches}
use focl.Base.Assoc.{get, insert}
use focl.Base.Int.{ℤ}
use focl.Config.{
  ArchiveDestinationConfig, DestinationType, to_local, to_s3, is_primary, destination_key,
  retry_backoff_of, max_retries_of,
}
use focl.Types.{
  Event, archive_replication_failed, archive_replication_succeeded, EventEnvelope, envelope,
}
use focl.Archive.Types.{FinalizedSegment}
use focl.Archive.FilePath.{join}
use focl.Archive.Manifest.{SegmentManifest, sidecar_path}
use focl.Archive.World.{create_parent, World, M, ◌>>=◌, ◌>>◌, pure, touch, write_file, read_file}
use focl.Archive.Queue.{
  Table, ReplicationJob, enqueue, claim_ready, mark_success, mark_failed, retry_failed,
}

pub record Replicator : Type 0 where
  pub queue : Table
  pub destinations : List (String × ArchiveDestinationConfig)
  pub failures : ℕ
  pub sends : Bool
  pub events : List EventEnvelope

-- What the replicator uses of the outside: `put` takes the endpoint, the bucket, the key and the
-- body; `clock` and `database` are indexed by the number of the call.
pub record Outside : Type 0 where
  pub from_json : List ℕ → Result SegmentManifest
  pub put : String → String → String → List ℕ → M (Unit {0})
  pub clock : ℕ → ℤ
  pub database : ℕ → Option String

-- `collect` into a `HashMap` keeps the last destination of each key.
unfoldable pub collect :
    List ArchiveDestinationConfig
    → List (String × ArchiveDestinationConfig)
    → List (String × ArchiveDestinationConfig)
collect [] m = m
collect (d ∷ ds) m = collect ds (insert (destination_key d) d m)

-- `Replicator::new`
unfoldable pub new : List ArchiveDestinationConfig → Table → Bool → Replicator
new destinations queue sends = record {
  queue = queue;
  destinations = collect destinations [];
  failures = 0;
  sends = sends;
  events = [];
}

-- The loop of `enqueue_segment`; `n` calls of the database came before.
unfoldable pub enqueue_each :
    Outside
    → ℕ
    → FinalizedSegment
    → List (String × ArchiveDestinationConfig)
    → Table
    → Result (Unit {0}) × Table
enqueue_each o n segment [] t = (ok tt, t)
enqueue_each o n segment ((key, d) ∷ ds) t = elim (is_primary d.mode) [
  | true ↦ enqueue_each o n segment ds t
  | false ↦ elim (o.database n) [
    | some e ↦ (err e, t)
    | none ↦ enqueue_each o (suc n) segment ds (
        enqueue (o.clock n) segment.final_path segment.manifest_path (destination_key d)
          (max_retries_of d) t)
  ]
]

unfoldable pub enqueue_segment :
    Outside → FinalizedSegment → Replicator → Result (Unit {0}) × Replicator
enqueue_segment o segment rep =
    let (result, t) = enqueue_each o 0 segment rep.destinations rep.queue in
    (result, record rep { queue = t })

lift : {A : Type 0} → Result A → M A
lift r w = (r, w)

-- Bytes written behind those that a file has, one at a time: a write that fails leaves those before it.
unfoldable pub fill : String → String → List ℕ → List ℕ → M (Unit {0})
fill error to done [] = pure tt
fill error to done (b ∷ more) =
    write_file error to (append done (b ∷ [])) >> fill error to (append done (b ∷ [])) more

-- `fs::copy`: the source is opened, then the target is emptied and filled with what the source holds
-- by then; a call between may fail, and so may each write, behind any part of the content.
pub copy : String → String → String → M (Unit {0})
copy error from to = do
  opened ← read_file error from
  write_file error to []
  content ← read_file error from
  fill error to [] content

unfoldable pub copy_to_local :
    ArchiveDestinationConfig → ReplicationJob → SegmentManifest → M (Unit {0})
unfolding copy lift
copy_to_local destination job manifest = do
  base ← lift (ok_or destination.path "local destination path missing")
  let target_segment = join base manifest.relative_path
  let target_manifest = sidecar_path target_segment
  create_parent "failed creating destination dir " target_segment
  copy ("failed copying segment " ++ (job.segment_path ++ (" -> " ++ target_segment)))
      job.segment_path target_segment
  copy ("failed copying manifest " ++ (job.manifest_path ++ (" -> " ++ target_manifest)))
      job.manifest_path target_manifest

unfoldable pub object_key : String → String → String
object_key prefix relative =
    if str_eq prefix ""
    then trim_start_matches b'/' relative
    else trim_end_matches b'/' (trim_start_matches b'/' prefix)
      ++ ("/" ++ trim_start_matches b'/' relative)

unfoldable pub copy_to_s3 :
    Outside → ArchiveDestinationConfig → ReplicationJob → SegmentManifest → M (Unit {0})
unfolding lift
copy_to_s3 o destination job manifest = do
  endpoint ← lift (ok_or destination.endpoint "s3 endpoint missing")
  bucket ← lift (ok_or destination.bucket "s3 bucket missing")
  let key = object_key (unwrap_or destination.prefix "") manifest.relative_path
  body ← read_file ("failed reading " ++ job.segment_path) job.segment_path
  o.put endpoint bucket key body
  manifest_body ← read_file ("failed reading " ++ job.manifest_path) job.manifest_path
  o.put endpoint bucket (key ++ ".json") manifest_body

pub deliver :
    Outside
    → DestinationType
    → ArchiveDestinationConfig
    → ReplicationJob
    → SegmentManifest
    → M (Unit {0})
deliver o to_local destination job manifest = copy_to_local destination job manifest
deliver o to_s3 destination job manifest = copy_to_s3 o destination job manifest

unfoldable pub process_job :
    Outside → List (String × ArchiveDestinationConfig) → ReplicationJob → M (Unit {0})
unfolding deliver lift
process_job o destinations job = do
  destination ← lift (
      ok_or (get job.destination_key destinations)
        ("destination " ++ (job.destination_key ++ " not found")))
  manifest_json ← read_file ("failed reading manifest " ++ job.manifest_path) job.manifest_path
  manifest ←
      lift (context (o.from_json manifest_json) ("failed parsing manifest " ++ job.manifest_path))
  deliver o destination.destination_type destination job manifest

unfoldable pub emit : Event → Replicator → Replicator
emit event rep =
    if rep.sends then record rep { events = append rep.events (envelope event ∷ []) } else rep

abbrev pub retry_secs : Replicator → ReplicationJob → ℕ
retry_secs rep job = elim (get job.destination_key rep.destinations) [
  | none ↦ 5
  | some d ↦ retry_backoff_of d
]

-- What a turn of the loop of `run_once` does with the result of `process_job`.
unfoldable pub settle :
    Outside → ℕ → ReplicationJob → Result (Unit {0}) → Replicator → Result (Unit {0}) × Replicator
settle o n job (ok _) rep = elim (o.database n) [
  | some _ ↦ (err ("failed marking replication job " ++ (decimal job.id ++ " as successful")), rep)
  | none ↦ (
    ok tt,
    emit (archive_replication_succeeded job.destination_key job.segment_path)
        (record rep { queue = mark_success job.id rep.queue }),
  )
]
settle o n job (err error) rep =
    let counted : Replicator = record rep { failures = (rep.failures + 1) % 2 ^ 64 } in
    elim (o.database n) [
      | some _ ↦
          (err ("failed marking replication job " ++ (decimal job.id ++ " as failed")), counted)
      | none ↦ (
        ok tt,
        emit (archive_replication_failed job.destination_key job.segment_path error)
            (record counted {
              queue = mark_failed (o.clock n) job error (retry_secs rep job) rep.queue;
            }),
      )
    ]

-- The loop of `run_once`, as far as it gets; `n` calls of the database came before.
unfoldable pub run_jobs :
    Outside → ℕ → List ReplicationJob → Replicator → World → Result (Unit {0}) × Replicator × World
run_jobs o n [] rep w = (ok tt, rep, w)
run_jobs o n (job ∷ jobs) rep w =
    let (outcome, w') = process_job o rep.destinations job w in
    let (result, rep') = settle o n job outcome rep in
    elim result [ ok _ ↦ run_jobs o (suc n) jobs rep' w' | err e ↦ (err e, rep', w') ]

claim : Outside → Option String → Replicator → World → Result (Unit {0}) × Replicator × World
claim o (some e) rep w = (err e, rep, w)
claim o none rep w =
    let (jobs, queue) = claim_ready (o.clock 0) 32 rep.queue in
    run_jobs o 1 jobs (record rep { queue = queue }) w

unfoldable pub run_once : Outside → Replicator → World → Result (Unit {0}) × Replicator × World
unfolding claim
run_once o rep w = claim o (o.database 0) rep w

-- `Replicator::retry_failed`
unfoldable pub retry_all : Outside → Replicator → Result ℕ × Replicator
retry_all o rep = elim (o.database 0) [
  | some e ↦ (err e, rep)
  | none ↦
      let (count, queue) = retry_failed (o.clock 0) rep.queue in
      (ok count, record rep { queue = queue })
]
