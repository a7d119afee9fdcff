-- ===== src/Archive/Replicator/Ends.antt =====
-- src/archive/replicator.rs: the loop of `spawn`, which runs a round every two seconds, and what its
-- rounds leave of the queue. Each round has its own clock, database and uploads.
use focl.Base.{ℕ, ◌+◌, not, filter, ◌≤◌, ◌≡◌, refl, List, [], ◌∷◌, arith, All, length}
use focl.Archive.World.{World}
use focl.Archive.Queue.{is_failed, Row, claim_ready, pending_count}
use focl.Archive.Replicator.{Replicator, Outside, run_once}
use focl.Archive.Replicator.Settled.{Works}
use focl.Archive.Replicator.Tries.{tries_left}
use focl.Archive.Replicator.Claimed.{AllDue, jobs_from-none}
use focl.Archive.Replicator.Rounds.{IsIdle, claim_ready-IsRound, run_once-tries}

-- `Replicator::spawn`: an error of a round is logged, and the next round comes.
unfoldable pub spawn : List Outside → Replicator → World → Replicator × World
spawn [] rep w = (rep, w)
spawn (o ∷ os) rep w = let (_, rep', w') = run_once o rep w in spawn os rep' w'

-- The number of jobs that the rounds claim, each of which is tried once.
pub jobs_tried : List Outside → Replicator → World → ℕ
jobs_tried [] rep w = 0
jobs_tried (o ∷ os) rep w =
    let (_, rep', w') = run_once o rep w in
    length (claim_ready (o.clock 0) 32 rep.queue).0 + jobs_tried os rep' w'

-- Whatever waits is due when its round comes.
abbrev pub InTime : List Outside → Replicator → World → Type 0
InTime [] rep w = Unit {0}
InTime (o ∷ os) rep w =
    let (_, rep', w') = run_once o rep w in AllDue (o.clock 0) rep.queue.rows × InTime os rep' w'

-- Where every job has a limit of retries, none is in progress at the start and the database works,
-- the rounds try jobs only so often, however many rounds there are and whatever the uploads, the
-- files and the clocks do: each job tried takes one from the tries that are left, and no job is left
-- in progress.
pub spawn-tries_left :
    (os : List Outside) (rep : Replicator) (w : World)
    → All Works os
    → IsIdle rep.queue
    → let t' = (spawn os rep w).0.queue in
      IsIdle t' × (jobs_tried os rep w + tries_left t'.rows ≤ tries_left rep.queue.rows)
unfolding spawn jobs_tried
spawn-tries_left [] rep w works v = (v, omega arith)
spawn-tries_left (o ∷ os) rep w works v =
    let (_, rep', w') = run_once o rep w in
    let (v', less) = run_once-tries o rep w works.0 v in
    let (end, rest) = spawn-tries_left os rep' w' works.1 v' in (end, omega (arith, less, rest))

-- A round at a time when all that waits is due tries a job, if any is left.
run_once-due :
    (o : Outside) (rep : Replicator)
    → IsIdle rep.queue
    → AllDue (o.clock 0) rep.queue.rows
    → length (claim_ready (o.clock 0) 32 rep.queue).0 ≡ 0
    → tries_left rep.queue.rows ≡ 0
run_once-due o rep v due e =
    jobs_from-none (o.clock 0) 31 rep.queue.rows v.idle due
      (rw (claim_ready-IsRound (o.clock 0) 32 rep.queue v).2 at e)

spawn-none_left :
    (os : List Outside) (rep : Replicator) (w : World)
    → All Works os
    → IsIdle rep.queue
    → InTime os rep w
    → tries_left rep.queue.rows ≤ length os
    → tries_left (spawn os rep w).0.queue.rows ≡ 0
unfolding spawn
spawn-none_left [] rep w works v due h = omega arith
spawn-none_left (o ∷ os) rep w works v due h =
    let (_, rep', w') = run_once o rep w in
    let (v', less) = run_once-tries o rep w works.0 v in
    spawn-none_left os rep' w' works.1 v' due.1 (ground (arith, less, run_once-due o rep v due.0))

none_pending :
    (rs : List Row)
    → tries_left rs ≡ 0
    → length (filter (λ (r : Row). not (is_failed r.status)) rs) ≡ 0
none_pending [] h = refl
none_pending (r ∷ rs) h = ground (arith, none_pending rs)

-- Where every job has a limit of retries, none is in progress at the start and the database works, and
-- each round comes when all the jobs that wait are due: after as many rounds as there are tries left,
-- no job waits or is in progress any more.
pub spawn-settles :
    (os : List Outside) (rep : Replicator) (w : World)
    → All Works os
    → IsIdle rep.queue
    → InTime os rep w
    → tries_left rep.queue.rows ≤ length os
    → pending_count (spawn os rep w).0.queue ≡ 0
unfolding pending_count
spawn-settles os rep w works v due h =
    none_pending (spawn os rep w).0.queue.rows (spawn-none_left os rep w works v due h)
