-- ===== src/Archive/Queue/Retries.antt =====
-- src/archive/queue.rs: how often a job is tried, and what the counts count.
use focl.Base.{
  ℕ, zero, suc, ◌+◌, ◌-◌, ◌^◌, ◌≤◌, ◌<◌, String, not, ◌&&◌, ◌≡◌, refl, List, [], ◌∷◌, map, arith,
  ltb, leb, if◌then◌else◌, filter, length,
}
use focl.Base.Int.{ℤ}
use focl.Archive.Queue.{
  pending, failed, is_failed, job_of, Row, Table, claim_ready, after_failure, retry_failed, retried,
  pending_count, failed_count,
}
use focl.Archive.Queue.Claims.{claim_front, claim_ready-front}
use focl.Archive.Queue.Rows.{IsQueue}

-- A row after its job was claimed and has failed, once for each entry: the time and the message.
pub fail_each : ℕ → List (ℤ × String) → Row → Row
fail_each backoff [] r = r
fail_each backoff ((now, error) ∷ es) r =
    fail_each backoff es (after_failure now (job_of r) error backoff r)

fail_each-max_retries :
    (backoff : ℕ) (es : List (ℤ × String)) (r : Row)
    → (fail_each backoff es r).max_retries ≡ r.max_retries
unfolding fail_each after_failure
fail_each-max_retries backoff [] r = refl
fail_each-max_retries backoff ((now, error) ∷ es) r =
    ground (arith, fail_each-max_retries backoff es (after_failure now (job_of r) error backoff r))

-- A job fails for good at its last try: after a number of failures that leaves its attempts below
-- 2^32 - 1, `attempts` has grown by that number, and the row is `failed` if `max_retries` is not 0
-- and is reached, and `pending` if not, as it always is with a `max_retries` of 0.
pub fail_each_lem :
    (backoff : ℕ) (now : ℤ) (error : String) (es : List (ℤ × String)) (r : Row)
    → r.attempts + length es + 1 < 2 ^ 32 - 1
    → let last = fail_each backoff ((now, error) ∷ es) r in
      (last.attempts ≡ r.attempts + length es + 1)
      × (last.status ≡ (
          if ltb 0 r.max_retries && leb r.max_retries (r.attempts + length es + 1)
          then failed
          else pending))
unfolding fail_each after_failure
fail_each_lem backoff now error [] r h = ground arith
fail_each_lem backoff now error ((later, other) ∷ es) r h =
    let next = after_failure now (job_of r) error backoff r in
    ground (arith, fail_each_lem backoff later other es next)

counts_partition_rows :
    (rs : List Row)
    → length (filter (λ (r : Row). not (is_failed r.status)) rs)
        + length (filter (λ (r : Row). is_failed r.status) rs)
      ≡ length rs
counts_partition_rows [] = refl
counts_partition_rows (r ∷ rs) = ground (arith, counts_partition_rows rs)

claim_front-failed :
    (now : ℤ) (limit : ℕ) (rs : List Row)
    → length (filter (λ (r : Row). is_failed r.status) (claim_front now limit rs))
      ≡ length (filter (λ (r : Row). is_failed r.status) rs)
claim_front-failed now zero rs = refl
claim_front-failed now (suc limit) [] = refl
claim_front-failed now (suc limit) (r ∷ rs) =
    ground (arith, claim_front-failed now limit rs, claim_front-failed now (suc limit) rs)

claim_front-length :
    (now : ℤ) (limit : ℕ) (rs : List Row) → length (claim_front now limit rs) ≡ length rs
claim_front-length now zero rs = refl
claim_front-length now (suc limit) [] = refl
claim_front-length now (suc limit) (r ∷ rs) =
    ground (arith, claim_front-length now limit rs, claim_front-length now (suc limit) rs)

-- `pending_count` and `failed_count` together count every row, and a claim changes neither.
pub counts-claim_ready :
    (now : ℤ) (limit : ℕ) (t : Table)
    → IsQueue t
    → let t' = (claim_ready now limit t).1 in
      (pending_count t + failed_count t ≡ length t.rows)
      × (pending_count t' ≡ pending_count t)
      × (failed_count t' ≡ failed_count t)
unfolding pending_count failed_count
counts-claim_ready now limit t q = rw ((claim_ready-front now limit t q).1) (
  counts_partition_rows t.rows,
  omega (
    arith,
    counts_partition_rows t.rows,
    counts_partition_rows (claim_front now limit t.rows),
    claim_front-failed now limit t.rows,
    claim_front-length now limit t.rows,
  ),
  claim_front-failed now limit t.rows,
)

retried-failed :
    (now : ℤ) (rs : List Row)
    → length (filter (λ (r : Row). is_failed r.status) (map (retried now) rs)) ≡ 0
retried-failed now [] = refl
retried-failed now (r ∷ rs) = ground (arith, retried-failed now rs)

retried-pending :
    (now : ℤ) (rs : List Row)
    → length (filter (λ (r : Row). not (is_failed r.status)) (map (retried now) rs)) ≡ length rs
retried-pending now [] = refl
retried-pending now (r ∷ rs) = ground (arith, retried-pending now rs)

-- `retry_failed` returns the number of failed jobs, leaves none failed, and makes all of them
-- pending.
pub counts-retry_failed :
    (now : ℤ) (t : Table)
    → let (count, t') = retry_failed now t in
      (count ≡ failed_count t)
      × (failed_count t' ≡ 0)
      × (pending_count t' ≡ pending_count t + failed_count t)
unfolding retry_failed pending_count failed_count
counts-retry_failed now t = (
  refl,
  retried-failed now t.rows,
  omega (arith, retried-pending now t.rows, counts_partition_rows t.rows),
)

-- A retry does not give the attempts back: a row that had used up its `max_retries` fails for good
-- again at the first failure after `retry_failed`.
pub retried_fails_at_once :
    (now later : ℤ) (backoff : ℕ) (error : String) (r : Row)
    → r.status ≡ failed
    → 0 < r.max_retries
    → r.max_retries ≤ r.attempts
    → r.attempts < 2 ^ 32
    → let again = retried now r in
      (again.status ≡ pending) × ((fail_each backoff ((later, error) ∷ []) again).status ≡ failed)
unfolding fail_each after_failure
retried_fails_at_once now later backoff error r f p m u = ground arith
