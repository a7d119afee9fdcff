-- ===== src/Archive/Replicator/Rounds.antt =====
-- src/archive/replicator.rs: what one round, `run_once`, leaves of the tries of a queue.
use focl.Base.{
  ℕ, suc, ◌+◌, ◌≤◌, ◌<◌, String, ◌≡◌, refl, subst, sym, List, [], ◌∷◌, arith, All, length, Result,
  ok, err,
}
use focl.Base.Int.{ℤ}
use focl.Archive.World.{World}
use focl.Archive.Queue.{Row, Table, ReplicationJob, mark_success, mark_failed, claim_ready}
use focl.Archive.Queue.Claims.{jobs_from, claim_ready-front}
use focl.Archive.Queue.Rows.{IsQueue, apply, apply-IsQueue, succeeds, fails, claims}
use focl.Archive.Replicator.{
  Replicator, Outside, settle, run_jobs, run_once, process_job, retry_secs,
}
use focl.Archive.Replicator.Settled.{Works, emit-queue, run_jobs-step}
use focl.Archive.Replicator.Tries.{
  tries_left, Limited, HasRow, Working, without-tries, without-HasRow, without-Limited,
  without-Working, after-tries, after-HasRow, after-Limited, after-Working,
}
use focl.Archive.Replicator.Claimed.{
  JobsRise, NoneInWork, jobs_from-JobsRise, claim_front-tries, claim_front-Limited,
  claim_front-HasRow, claim_front-Working,
}

-- Between the jobs of a round: those to come have their rows, and no other row is in progress.
pub record IsRound (js : List ReplicationJob) (t : Table) : Type 0 where
  pub queue : IsQueue t
  pub limited : All Limited t.rows
  pub rise : (n : ℕ) × JobsRise n js
  pub held : All (HasRow t.rows) js
  pub working : Working js t.rows

JobsRise-HasRow :
    (n : ℕ) (rs rs' : List Row) (js : List ReplicationJob)
    → ((k : ReplicationJob) → n < k.id → HasRow rs k → HasRow rs' k)
    → JobsRise n js
    → All (HasRow rs) js
    → All (HasRow rs') js
JobsRise-HasRow n rs rs' [] keep r h = tt
JobsRise-HasRow n rs rs' (j ∷ js) keep r h =
    (keep j r.0 h.0, JobsRise-HasRow j.id rs rs' js (λ k l. keep k (omega arith)) r.1 h.1)

module _ (j : ReplicationJob) (js : List ReplicationJob) (t : Table) (v : IsRound (j ∷ js) t) where
  -- What a job's end does to the round.
  abbrev Fewer : Table → Type 0
  Fewer t' = IsRound js t' × (suc (tries_left t'.rows) ≤ tries_left t.rows)

  mark_success-Fewer : Fewer (mark_success j.id t)
  unfolding mark_success
  mark_success-Fewer = (
    record {
      queue = unfold apply in (apply-IsQueue t (succeeds j.id) v.queue);
      limited = without-Limited j.id t.rows v.limited;
      rise = (j.id, v.rise.1.1);
      held =
          JobsRise-HasRow j.id t.rows _ js (λ k l. without-HasRow j.id k l t.rows) v.rise.1.1
            v.held.1;
      working = without-Working j.id j js refl t.rows v.working;
    },
    omega (arith, without-tries j.id j refl t.rows v.held.0.0, v.held.0.1),
  )

  mark_failed-Fewer :
      (now : ℤ) (error : String) (backoff : ℕ) → Fewer (mark_failed now j error backoff t)
  unfolding mark_failed
  mark_failed-Fewer now error backoff = (
    record {
      queue = unfold apply in (apply-IsQueue t (fails now j error backoff) v.queue);
      limited = after-Limited now j error backoff t.rows v.limited;
      rise = (j.id, v.rise.1.1);
      held =
          JobsRise-HasRow j.id t.rows _ js (λ k l. after-HasRow now j error backoff k l t.rows)
            v.rise.1.1 v.held.1;
      working = after-Working now j error backoff js t.rows v.working;
    },
    omega (arith, after-tries now j error backoff t.rows v.held.0.0 v.limited, v.held.0.1),
  )

module _ (o : Outside) (works : Works o) where
  settle-Fewer :
      (n : ℕ) (j : ReplicationJob) (js : List ReplicationJob) (outcome : Result (Unit {0}))
      (rep : Replicator)
      → (v : IsRound (j ∷ js) rep.queue) → Fewer j js rep.queue v (settle o n j outcome rep).1.queue
  unfolding settle
  settle-Fewer n j js (ok _) rep v =
      rw (works n, settle, emit-queue) (mark_success-Fewer j js rep.queue v)
  settle-Fewer n j js (err e) rep v =
      rw (works n, settle, emit-queue)
        (mark_failed-Fewer j js rep.queue v (o.clock n) e (retry_secs rep j))

  run_jobs-tries :
      (n : ℕ) (js : List ReplicationJob) (rep : Replicator) (w : World)
      → IsRound js rep.queue
      → let t' = (run_jobs o n js rep w).1.queue in
        IsRound [] t' × (length js + tries_left t'.rows ≤ tries_left rep.queue.rows)
  unfolding run_jobs
  run_jobs-tries n [] rep w v = (v, omega arith)
  run_jobs-tries n (j ∷ js) rep w v =
      let (outcome, w') = process_job o rep.destinations j w in
      let rep' : Replicator = (settle o n j outcome rep).1 in
      let (v', less) = settle-Fewer n j js outcome rep v in
      let (end, rest) = run_jobs-tries (suc n) js rep' w' v' in
      subst
        (λ r.
          IsRound [] r.1.queue
          × (length (j ∷ js) + tries_left r.1.queue.rows ≤ tries_left rep.queue.rows))
        (sym (run_jobs-step o works n j js rep w)) (end, omega (arith, less, rest))

-- The queue between two rounds: no job is in progress, and each has a limit of retries.
pub record IsIdle (t : Table) : Type 0 where
  pub queue : IsQueue t
  pub idle : NoneInWork t.rows
  pub limited : All Limited t.rows

none_working : (rs : List Row) → Working [] rs → NoneInWork rs
none_working [] h = tt
none_working (r ∷ rs) h = ((λ e. cc (h.0 e)), none_working rs h.1)

pub claim_ready-IsRound :
    (now : ℤ) (limit : ℕ) (t : Table)
    → IsIdle t
    → let (js, t') = claim_ready now limit t in
      IsRound js t' × (tries_left t'.rows ≡ tries_left t.rows) × (js ≡ jobs_from now limit t.rows)
claim_ready-IsRound now limit t v =
    let (jobs, rows, _) = claim_ready-front now limit t v.queue in
    rw (jobs, rows)
      (
        record {
          queue = unfold apply in (apply-IsQueue t (claims now limit) v.queue);
          limited = rw rows (claim_front-Limited now limit t.rows v.limited);
          rise = (0, jobs_from-JobsRise now limit 0 t.rows v.queue.rising);
          held = rw rows (claim_front-HasRow now limit 0 t.rows v.queue.rising);
          working = rw rows (claim_front-Working now limit t.rows v.idle);
        },
        claim_front-tries now limit t.rows,
        refl,
      )

pub run_once-tries :
    (o : Outside) (rep : Replicator) (w : World)
    → Works o
    → IsIdle rep.queue
    → let t' = (run_once o rep w).1.queue in
      IsIdle t'
      × (length (claim_ready (o.clock 0) 32 rep.queue).0 + tries_left t'.rows
          ≤ tries_left rep.queue.rows)
unfolding run_once
run_once-tries o rep w works v =
    let (jobs, queue) = claim_ready (o.clock 0) 32 rep.queue in
    let (start, same, _) = claim_ready-IsRound (o.clock 0) 32 rep.queue v in
    let (end, less) = run_jobs-tries o works 1 jobs (record rep { queue = queue }) w start in
    rw (works 0, run_once)
      (
        record { queue = end.queue; idle = none_working _ end.working; limited = end.limited },
        omega (arith, same, less),
      )
