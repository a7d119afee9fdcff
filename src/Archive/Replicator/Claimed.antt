-- ===== src/Archive/Replicator/Claimed.antt =====
-- src/archive/queue.rs: the rows of the jobs that a claim has handed out.
use focl.Base.{
  ℕ, zero, suc, ◌≤◌, ◌<◌, ◌≡◌, ◌≢◌, refl, List, [], ◌∷◌, arith, All, Bool-cases, inl, inr, length,
}
use focl.Base.Int.{ℤ, ◌≤ℤ◌}
use focl.Archive.Queue.{in_progress, is_ready, pending, job_of, claimed, Row, ReplicationJob}
use focl.Archive.Queue.Claims.{jobs_from, claim_front}
use focl.Archive.Queue.Rows.{Rising, ids}
use focl.Archive.Replicator.Tries.{tries_left, Limited, Fits, HasRow, Working}

-- The ids of the jobs rise, from above the bound.
abbrev pub JobsRise : ℕ → List ReplicationJob → Type 0
JobsRise n [] = Unit {0}
JobsRise n (j ∷ js) = (n < j.id) × JobsRise j.id js

-- No row is in progress.
abbrev pub NoneInWork : List Row → Type 0
NoneInWork = All (λ (r : Row). r.status ≢ in_progress)

-- Every row that waits is due.
abbrev pub AllDue : ℤ → List Row → Type 0
AllDue now = All (λ (r : Row). r.status ≡ pending → r.next_retry_ts ≤ℤ now)

JobsRise-weaken : (m n : ℕ) (js : List ReplicationJob) → m ≤ n → JobsRise n js → JobsRise m js
JobsRise-weaken m n [] h r = tt
JobsRise-weaken m n (j ∷ js) h r = (omega arith, r.1)

module _ (now : ℤ) where
  pub jobs_from-JobsRise :
      (limit m : ℕ) (rs : List Row) → Rising m (ids rs) → JobsRise m (jobs_from now limit rs)
  jobs_from-JobsRise zero m rs h = tt
  jobs_from-JobsRise (suc limit) m [] h = tt
  jobs_from-JobsRise (suc limit) m (r ∷ rs) h = elim (Bool-cases (is_ready now r)) [
    | inl e ↦ rw e (h.0, jobs_from-JobsRise limit r.id rs h.1)
    | inr e ↦
        rw e (JobsRise-weaken m r.id _ (omega arith) (jobs_from-JobsRise (suc limit) r.id rs h.1))
  ]

  pub claim_front-tries :
      (limit : ℕ) (rs : List Row) → tries_left (claim_front now limit rs) ≡ tries_left rs
  claim_front-tries zero rs = refl
  claim_front-tries (suc limit) [] = refl
  claim_front-tries (suc limit) (r ∷ rs) =
      ground (arith, claim_front-tries limit rs, claim_front-tries (suc limit) rs)

  pub claim_front-Limited :
      (limit : ℕ) (rs : List Row) → All Limited rs → All Limited (claim_front now limit rs)
  claim_front-Limited zero rs h = h
  claim_front-Limited (suc limit) [] h = tt
  claim_front-Limited (suc limit) (r ∷ rs) h =
      ground (arith, claim_front-Limited limit rs h.1, claim_front-Limited (suc limit) rs h.1)

  -- A job whose id is below all of the rows has none of them.
  below-Fits :
      (limit m : ℕ) (j : ReplicationJob) (rs : List Row)
      → j.id ≤ m
      → Rising m (ids rs)
      → All (Fits j) (claim_front now limit rs)
  below-Fits zero m j [] l h = tt
  below-Fits zero m j (r ∷ rs) l h =
      ((λ e. absurd (omega arith)), below-Fits zero r.id j rs (omega arith) h.1)
  below-Fits (suc limit) m j [] l h = tt
  below-Fits (suc limit) m j (r ∷ rs) l h = elim (Bool-cases (is_ready now r)) [
    | inl e ↦ rw e ((λ e. absurd (omega arith)), below-Fits limit r.id j rs (omega arith) h.1)
    | inr e ↦ rw e ((λ e. absurd (omega arith)), below-Fits (suc limit) r.id j rs (omega arith) h.1)
  ]

  -- Rows of the jobs stay when a row that is none of theirs is put before them.
  HasRow-cons :
      (r : Row) (rs : List Row) (n : ℕ) (js : List ReplicationJob)
      → r.id ≤ n
      → JobsRise n js
      → All (HasRow rs) js
      → All (HasRow (r ∷ rs)) js
  HasRow-cons r rs n [] l k h = tt
  HasRow-cons r rs n (j ∷ js) l k h = (
    (((λ e. absurd (omega arith)), h.0.0), ground arith),
    HasRow-cons r rs j.id js (omega arith) k.1 h.1,
  )

  pub claim_front-HasRow :
      (limit m : ℕ) (rs : List Row)
      → Rising m (ids rs)
      → All (HasRow (claim_front now limit rs)) (jobs_from now limit rs)
  claim_front-HasRow zero m rs h = tt
  claim_front-HasRow (suc limit) m [] h = tt
  claim_front-HasRow (suc limit) m (r ∷ rs) h = elim (Bool-cases (is_ready now r)) [
    | inl e ↦ rw e (
      (
        ((λ _. (refl, refl, refl)), below-Fits limit r.id (job_of r) rs (omega arith) h.1),
        ground arith,
      ),
      HasRow-cons (claimed now r) _ r.id _ (omega arith) (jobs_from-JobsRise limit r.id rs h.1)
          (claim_front-HasRow limit r.id rs h.1),
    )
    | inr e ↦ rw e (
        HasRow-cons r _ r.id _ (omega arith) (jobs_from-JobsRise (suc limit) r.id rs h.1)
          (claim_front-HasRow (suc limit) r.id rs h.1))
  ]

  -- More jobs account for more rows.
  Working-cons :
      (j : ReplicationJob) (js : List ReplicationJob) (rs : List Row)
      → Working js rs
      → Working (j ∷ js) rs
  Working-cons j js [] h = tt
  Working-cons j js (r ∷ rs) h = ((λ e. ground (arith, h.0 e)), Working-cons j js rs h.1)

  idle-Working : (js : List ReplicationJob) (rs : List Row) → NoneInWork rs → Working js rs
  idle-Working js [] h = tt
  idle-Working js (r ∷ rs) h = ((λ e. absurd (h.0 e)), idle-Working js rs h.1)

  pub claim_front-Working :
      (limit : ℕ) (rs : List Row)
      → NoneInWork rs
      → Working (jobs_from now limit rs) (claim_front now limit rs)
  claim_front-Working zero rs h = idle-Working [] rs h
  claim_front-Working (suc limit) [] h = tt
  claim_front-Working (suc limit) (r ∷ rs) h = elim (Bool-cases (is_ready now r)) [
    | inl e ↦
        rw e ((λ _. ground arith), Working-cons (job_of r) _ _ (claim_front-Working limit rs h.1))
    | inr e ↦ rw e ((λ p. absurd (h.0 p)), claim_front-Working (suc limit) rs h.1)
  ]

  -- A claim at a time when all that waits is due comes back with a job, if any is left.
  pub jobs_from-none :
      (limit : ℕ) (rs : List Row)
      → NoneInWork rs
      → AllDue now rs
      → length (jobs_from now (suc limit) rs) ≡ 0
      → tries_left rs ≡ 0
  jobs_from-none limit [] h d e = refl
  jobs_from-none limit (r ∷ rs) h d e = ground (arith, h.0, d.0, jobs_from-none limit rs h.1 d.1)
