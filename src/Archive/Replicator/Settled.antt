-- ===== src/Archive/Replicator/Settled.antt =====
-- src/archive/replicator.rs: what `run_once` leaves of the jobs that it claims.
use focl.Base.{
  ℕ, suc, not, String, none, List, [], ◌∷◌, ◌≡◌, ◌≢◌, refl, sym, subst, arith, filter, ◌==◌, All,
  Result, ok, err,
}
use focl.Base.Int.{ℤ}
use focl.Types.{Event}
use focl.Archive.World.{World}
use focl.Archive.Queue.{
  in_progress, Row, Table, ReplicationJob, claim_ready, mark_success, mark_failed, after_failure,
  update_where,
}
use focl.Archive.Replicator.{
  Replicator, Outside, emit, settle, run_jobs, run_once, process_job, retry_secs,
}

-- No row of this job is in progress.
abbrev pub Settled : ℕ → Table → Type 0
Settled n t = All (λ (r : Row). r.id ≡ n → r.status ≢ in_progress) t.rows

pub after_failure-status :
    (now : ℤ) (job : ReplicationJob) (error : String) (backoff : ℕ) (r : Row)
    → (after_failure now job error backoff r).status ≢ in_progress
unfolding after_failure
after_failure-status now job error backoff r = ground arith

module _ (n : ℕ) where
  abbrev Free : List Row → Type 0
  Free = All (λ (r : Row). r.id ≡ n → r.status ≢ in_progress)

  removed-Free : (m : ℕ) (rs : List Row) → Free rs → Free (filter (λ (r : Row). not (r.id == m)) rs)
  removed-Free m [] h = tt
  removed-Free m (r ∷ rs) h = ground (arith, removed-Free m rs h.1)

  removed-own : (rs : List Row) → Free (filter (λ (r : Row). not (r.id == n)) rs)
  removed-own [] = tt
  removed-own (r ∷ rs) = ground (arith, removed-own rs)

  module _ (now : ℤ) (job : ReplicationJob) (error : String) (backoff : ℕ) where
    failed-Free :
        (rs : List Row)
        → Free rs
        → Free (update_where job.id (after_failure now job error backoff) rs)
    unfolding update_where
    failed-Free [] h = tt
    failed-Free (r ∷ rs) h =
        ground (arith, after_failure-status now job error backoff r, failed-Free rs h.1)

    failed-own :
        job.id ≡ n
        → (rs : List Row) → Free (update_where job.id (after_failure now job error backoff) rs)
    unfolding update_where
    failed-own e [] = tt
    failed-own e (r ∷ rs) =
        ground (arith, after_failure-status now job error backoff r, failed-own e rs)

pub emit-queue : (event : Event) (rep : Replicator) → (emit event rep).queue ≡ rep.queue
unfolding emit
emit-queue event rep = ground arith

-- The database works throughout.
abbrev pub Works : Outside → Type 0
Works o = (n : ℕ) → o.database n ≡ none

module _ (o : Outside) (works : Works o) where
  pub settle-ok :
      (n : ℕ) (job : ReplicationJob) (outcome : Result (Unit {0})) (rep : Replicator)
      → (settle o n job outcome rep).0 ≡ ok tt
  unfolding settle
  settle-ok n job (ok _) rep = rw (works n, settle) refl
  settle-ok n job (err e) rep = rw (works n, settle) refl

  settle-keeps :
      (n m : ℕ) (job : ReplicationJob) (outcome : Result (Unit {0})) (rep : Replicator)
      → Settled m rep.queue
      → Settled m (settle o n job outcome rep).1.queue
  unfolding settle mark_success mark_failed
  settle-keeps n m job (ok _) rep h =
      rw (works n, settle, emit-queue) (removed-Free m job.id rep.queue.rows h)
  settle-keeps n m job (err e) rep h =
      rw (works n, settle, emit-queue)
        (failed-Free m (o.clock n) job e (retry_secs rep job) rep.queue.rows h)

  settle-own :
      (n : ℕ) (job : ReplicationJob) (outcome : Result (Unit {0})) (rep : Replicator)
      → Settled job.id (settle o n job outcome rep).1.queue
  unfolding settle mark_success mark_failed
  settle-own n job (ok _) rep = rw (works n, settle, emit-queue) (removed-own job.id rep.queue.rows)
  settle-own n job (err e) rep =
      rw (works n, settle, emit-queue)
        (failed-own job.id (o.clock n) job e (retry_secs rep job) refl rep.queue.rows)

  run_jobs-keeps :
      (n m : ℕ) (jobs : List ReplicationJob) (rep : Replicator) (w : World)
      → Settled m rep.queue
      → Settled m (run_jobs o n jobs rep w).1.queue
  unfolding run_jobs
  run_jobs-keeps n m [] rep w h = h
  run_jobs-keeps n m (job ∷ jobs) rep w h =
      let (outcome, w') = process_job o rep.destinations job w in
      rw (settle-ok n job outcome rep, run_jobs)
        (run_jobs-keeps (suc n) m jobs (settle o n job outcome rep).1 w'
          (settle-keeps n m job outcome rep h))

  pub run_jobs-step :
      (n : ℕ) (job : ReplicationJob) (jobs : List ReplicationJob) (rep : Replicator) (w : World)
      → let (outcome, w') = process_job o rep.destinations job w in
        run_jobs o n (job ∷ jobs) rep w ≡ run_jobs o (suc n) jobs (settle o n job outcome rep).1 w'
  unfolding run_jobs
  run_jobs-step n job jobs rep w =
      rw (settle-ok n job (process_job o rep.destinations job w).0 rep, run_jobs) refl

  run_jobs-Settled :
      (n : ℕ) (jobs : List ReplicationJob) (rep : Replicator) (w : World)
      → ((run_jobs o n jobs rep w).0 ≡ ok tt)
        × All (λ (j : ReplicationJob). Settled j.id (run_jobs o n jobs rep w).1.queue) jobs
  unfolding run_jobs
  run_jobs-Settled n [] rep w = (refl, tt)
  run_jobs-Settled n (job ∷ jobs) rep w =
      let (outcome, w') = process_job o rep.destinations job w in
      let rep' : Replicator = (settle o n job outcome rep).1 in
      let (done, rest) = run_jobs-Settled (suc n) jobs rep' w' in
      subst (λ r. (r.0 ≡ ok tt) × All (λ (j : ReplicationJob). Settled j.id r.1.queue) (job ∷ jobs))
        (sym (run_jobs-step n job jobs rep w))
        (done, (run_jobs-keeps (suc n) job.id jobs rep' w' (settle-own n job outcome rep), rest))

-- While the database works, `run_once` succeeds whatever the files, the uploads and the
-- destinations do, and leaves no job that it has claimed in progress.
pub run_once-Settled :
    (o : Outside) (rep : Replicator) (w : World)
    → Works o
    → let (result, rep', w') = run_once o rep w in
      (result ≡ ok tt)
      × All
          (λ (j : ReplicationJob). Settled j.id rep'.queue)
          (claim_ready (o.clock 0) 32 rep.queue).0
unfolding run_once
run_once-Settled o rep w works =
    let (jobs, queue) = claim_ready (o.clock 0) 32 rep.queue in
    rw (works 0, run_once) (run_jobs-Settled o works 1 jobs (record rep { queue = queue }) w)
