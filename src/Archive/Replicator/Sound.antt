-- ===== src/Archive/Replicator/Sound.antt =====
-- src/archive/replicator.rs: what every call of the replicator keeps, also when the database fails.
use focl.Base.{
  ℕ, suc, String, List, [], ◌∷◌, ◌++◌, if_either, ◌≡◌, Result, ok, err, Option-cases, inl, inr,
  Bool-cases,
}
use focl.Config.{ArchiveDestinationConfig, is_primary, destination_key, max_retries_of}
use focl.Types.{Event, envelope}
use focl.Archive.Types.{FinalizedSegment}
use focl.Archive.World.{World}
use focl.Archive.Queue.{Table, ReplicationJob, claim_ready}
use focl.Archive.Queue.Rows.{
  IsQueue, apply, apply-IsQueue, enqueues, succeeds, fails, claims, retries,
}
use focl.Archive.Replicator.{
  Replicator, Outside, enqueue_each, enqueue_segment, emit, settle, run_jobs, run_once, process_job,
  retry_secs, retry_all,
}

-- The queue is as it should be, and the destinations are these.
pub record IsReplicator (ds : List (String × ArchiveDestinationConfig)) (rep : Replicator)
    : Type 0 where
  pub queue : IsQueue rep.queue
  pub destinations : rep.destinations ≡ ds

enqueue_each-IsQueue :
    (o : Outside) (n : ℕ) (segment : FinalizedSegment)
    (ds : List (String × ArchiveDestinationConfig)) (t : Table)
    → IsQueue t
    → IsQueue (enqueue_each o n segment ds t).1
unfolding enqueue_each
enqueue_each-IsQueue o n segment [] t q = q
enqueue_each-IsQueue o n segment ((key, d) ∷ ds) t q = elim (Bool-cases (is_primary d.mode)) [
  | inl e ↦ rw (e, enqueue_each) (enqueue_each-IsQueue o n segment ds t q)
  | inr e ↦ elim (Option-cases (o.database n)) [
    | inr (m, f) ↦ rw (e, f, enqueue_each) q
    | inl f ↦
        rw (e, f, enqueue_each)
          (enqueue_each-IsQueue o (suc n) segment ds _ (
            unfold apply in
            (apply-IsQueue t
              (enqueues (o.clock n) segment.final_path segment.manifest_path (destination_key d)
                (max_retries_of d))
              q)))
  ]
]

module _ (ds : List (String × ArchiveDestinationConfig)) (o : Outside) where
  pub enqueue_segment-IsReplicator :
      (segment : FinalizedSegment) (rep : Replicator)
      → IsReplicator ds rep
      → IsReplicator ds (enqueue_segment o segment rep).1
  unfolding enqueue_segment
  enqueue_segment-IsReplicator segment rep v = record {
    queue = enqueue_each-IsQueue o 0 segment rep.destinations rep.queue v.queue;
    destinations = v.destinations;
  }

  emit-IsReplicator :
      (event : Event) (rep : Replicator) → IsReplicator ds rep → IsReplicator ds (emit event rep)
  unfolding emit
  emit-IsReplicator event rep v =
      if_either (IsReplicator ds) rep.sends
        (record rep { events = rep.events ++ envelope event ∷ [] }) rep
        (record { queue = v.queue; destinations = v.destinations }) v

  settle-IsReplicator :
      (n : ℕ) (job : ReplicationJob) (outcome : Result (Unit {0})) (rep : Replicator)
      → IsReplicator ds rep
      → IsReplicator ds (settle o n job outcome rep).1
  unfolding settle
  settle-IsReplicator n job (ok _) rep v = elim (Option-cases (o.database n)) [
    | inl e ↦
        rw (e, settle)
          (emit-IsReplicator _ _ (record {
            queue = unfold apply in (apply-IsQueue rep.queue (succeeds job.id) v.queue);
            destinations = v.destinations;
          }))
    | inr (m, e) ↦ rw (e, settle) v
  ]
  settle-IsReplicator n job (err m) rep v = elim (Option-cases (o.database n)) [
    | inl e ↦
        rw (e, settle)
          (emit-IsReplicator _ _ (record {
            queue =
                unfold apply in
                (apply-IsQueue rep.queue (fails (o.clock n) job m (retry_secs rep job)) v.queue);
            destinations = v.destinations;
          }))
    | inr (k, e) ↦ rw (e, settle) (record { queue = v.queue; destinations = v.destinations })
  ]

  run_jobs-IsReplicator :
      (n : ℕ) (jobs : List ReplicationJob) (rep : Replicator) (w : World)
      → IsReplicator ds rep
      → IsReplicator ds (run_jobs o n jobs rep w).1
  unfolding run_jobs
  run_jobs-IsReplicator n [] rep w v = v
  run_jobs-IsReplicator n (job ∷ jobs) rep w v =
      let (outcome, w') = process_job o rep.destinations job w in
      let rep' : Replicator = (settle o n job outcome rep).1 in
      let v' = settle-IsReplicator n job outcome rep v in
      rest (settle o n job outcome rep).0 rep' w' v' (run_jobs-IsReplicator (suc n) jobs rep' w' v')
    where
      rest :
          (result : Result (Unit {0})) (rep' : Replicator) (w' : World)
          → IsReplicator ds rep'
          → IsReplicator ds (run_jobs o (suc n) jobs rep' w').1
          → IsReplicator ds
              (elim result as (λ _. Result (Unit {0}) × Replicator × World) [
                | ok _ ↦ run_jobs o (suc n) jobs rep' w'
                | err e ↦ (err e, rep', w')
              ]).1
      rest (ok _) rep' w' v' h = h
      rest (err e) rep' w' v' h = v'

  pub run_once-IsReplicator :
      (rep : Replicator) (w : World) → IsReplicator ds rep → IsReplicator ds (run_once o rep w).1
  unfolding run_once
  run_once-IsReplicator rep w v = elim (Option-cases (o.database 0)) [
    | inl e ↦
        let (jobs, queue) = claim_ready (o.clock 0) 32 rep.queue in
        rw (e, run_once)
          (run_jobs-IsReplicator 1 jobs (record rep { queue = queue }) w
            (record {
              queue = unfold apply in (apply-IsQueue rep.queue (claims (o.clock 0) 32) v.queue);
              destinations = v.destinations;
            }))
    | inr (m, e) ↦ rw (e, run_once) v
  ]

  pub retry_all-IsReplicator :
      (rep : Replicator) → IsReplicator ds rep → IsReplicator ds (retry_all o rep).1
  unfolding retry_all
  retry_all-IsReplicator rep v = elim (Option-cases (o.database 0)) [
    | inl e ↦
        rw (e, retry_all)
          (record {
            queue = unfold apply in (apply-IsQueue rep.queue (retries (o.clock 0)) v.queue);
            destinations = v.destinations;
          })
    | inr (m, e) ↦ rw (e, retry_all) v
  ]
