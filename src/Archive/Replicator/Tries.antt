-- ===== src/Archive/Replicator/Tries.antt =====
-- src/archive/queue.rs, src/archive/replicator.rs: how many tries are left to the rows of the queue,
-- and what a claim and a settled job take from them.
use focl.Base.{
  ℕ, suc, ◌+◌, ◌-◌, ◌^◌, ◌≤◌, ◌<◌, String, not, ◌≡◌, refl, List, [], ◌∷◌, arith, ◌==◌,
  if◌then◌else◌, filter, All, Bool-cases, inl, inr, true,
}
use focl.Base.Int.{ℤ}
use focl.Archive.Queue.{is_failed, in_progress, Row, ReplicationJob, after_failure, update_where}
use focl.Archive.Queue.Claims.{has_id}
use focl.Archive.Queue.Rows.{after_failure-id}

-- A row that has not failed is tried at least once more, and until `max_retries` is reached.
abbrev pub tries : Row → ℕ
tries r = if is_failed r.status then 0 else suc (r.max_retries - suc r.attempts)

abbrev pub tries_left : List Row → ℕ
tries_left [] = 0
tries_left (r ∷ rs) = tries r + tries_left rs

-- The row has a limit of retries, which is a u32.
abbrev pub Limited : Row → Type 0
Limited r = (0 < r.max_retries) × (r.max_retries < 2 ^ 32)

-- The number of rows with this id.
abbrev pub found : ℕ → List Row → ℕ
found n [] = 0
found n (r ∷ rs) = if r.id == n then suc (found n rs) else found n rs

-- A row of the job is as it was when the job was claimed.
abbrev pub Fits : ReplicationJob → Row → Type 0
Fits j r =
    r.id ≡ j.id
    → (r.attempts ≡ j.attempts) × (r.max_retries ≡ j.max_retries) × (r.status ≡ in_progress)

abbrev pub HasRow : List Row → ReplicationJob → Type 0
HasRow rs j = All (Fits j) rs × (0 < found j.id rs)

-- A row in progress is one of these jobs'.
abbrev pub Working : List ReplicationJob → List Row → Type 0
Working js = All (λ (r : Row). r.status ≡ in_progress → has_id r.id js ≡ true)

after_failure-tries :
    (now : ℤ) (j : ReplicationJob) (error : String) (backoff : ℕ) (r : Row)
    → r.id ≡ j.id
    → Fits j r
    → Limited r
    → tries (after_failure now j error backoff r) < tries r
unfolding after_failure
after_failure-tries now j error backoff r e f l = let same = f e in ground arith

-- What a success does to the rows.
module _ (n : ℕ) where
  abbrev pub without : List Row → List Row
  without = filter (λ (r : Row). not (r.id == n))

  pub without-tries :
      (j : ReplicationJob)
      → j.id ≡ n
      → (rs : List Row) → All (Fits j) rs
      → tries_left (without rs) + found n rs ≤ tries_left rs
  without-tries j e [] f = omega arith
  without-tries j e (r ∷ rs) f = ground (arith, f.0, without-tries j e rs f.1)

  pub without-HasRow :
      (j : ReplicationJob) → n < j.id → (rs : List Row) → HasRow rs j → HasRow (without rs) j
  without-HasRow j e rs h = (fits rs h.0, rows rs h.1)
    where
      fits : (rs : List Row) → All (Fits j) rs → All (Fits j) (without rs)
      fits [] f = tt
      fits (r ∷ rs) f = ground (arith, fits rs f.1)

      rows : (rs : List Row) → 0 < found j.id rs → 0 < found j.id (without rs)
      rows [] f = f
      rows (r ∷ rs) f = ground (arith, rows rs)

  pub without-Limited : (rs : List Row) → All Limited rs → All Limited (without rs)
  without-Limited [] h = tt
  without-Limited (r ∷ rs) h = ground (arith, without-Limited rs h.1)

  pub without-Working :
      (j : ReplicationJob) (js : List ReplicationJob)
      → j.id ≡ n
      → (rs : List Row) → Working (j ∷ js) rs
      → Working js (without rs)
  without-Working j js e [] h = tt
  without-Working j js e (r ∷ rs) h = ground (arith, h.0, without-Working j js e rs h.1)

-- What a failure does to the rows.
module _ (now : ℤ) (j : ReplicationJob) (error : String) (backoff : ℕ) where
  abbrev pub after : List Row → List Row
  after = update_where j.id (after_failure now j error backoff)

  pub after-tries :
      (rs : List Row)
      → All (Fits j) rs
      → All Limited rs
      → tries_left (after rs) + found j.id rs ≤ tries_left rs
  unfolding update_where
  after-tries [] f l = omega arith
  after-tries (r ∷ rs) f l = elim (Bool-cases (r.id == j.id)) [
    | inl h ↦ ground (arith, after_failure-tries now j error backoff r, after-tries rs f.1 l.1)
    | inr h ↦ ground (arith, after-tries rs f.1 l.1)
  ]

  pub after-Limited : (rs : List Row) → All Limited rs → All Limited (after rs)
  unfolding update_where after_failure
  after-Limited [] h = tt
  after-Limited (r ∷ rs) h = ground (arith, after-Limited rs h.1)

  module _ (k : ReplicationJob) (ne : j.id < k.id) where
    after-Fits : (rs : List Row) → All (Fits k) rs → All (Fits k) (after rs)
    unfolding update_where
    after-Fits [] f = tt
    after-Fits (r ∷ rs) f =
        ground (arith, after_failure-id now j error backoff r, after-Fits rs f.1)

    after-found : (rs : List Row) → found k.id (after rs) ≡ found k.id rs
    unfolding update_where
    after-found [] = refl
    after-found (r ∷ rs) = ground (arith, after_failure-id now j error backoff r, after-found rs)

    pub after-HasRow : (rs : List Row) → HasRow rs k → HasRow (after rs) k
    after-HasRow rs h = (after-Fits rs h.0, rw (after-found rs) h.1)

  pub after-Working :
      (js : List ReplicationJob) (rs : List Row) → Working (j ∷ js) rs → Working js (after rs)
  unfolding update_where after_failure
  after-Working js [] h = tt
  after-Working js (r ∷ rs) h = ground (arith, h.0, after-Working js rs h.1)
