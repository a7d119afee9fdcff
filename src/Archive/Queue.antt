-- ===== src/Archive/Queue.antt =====
-- src/archive/queue.rs: the replication queue, with the SQL statements as functions on the table.
-- Rows stand in the order of their ids, which AUTOINCREMENT makes the order of insertion; so
-- `ORDER BY id ASC` is the order of the list. The clock's reading is an argument of each call. That
-- a call of SQLite may fail is modelled where the queue is used.
pub mod Rows
pub mod Claims
pub mod Held
pub mod Retries
use focl.Base.{
  ℕ, suc, ◌+◌, ◌-◌, ◌^◌, min, String, Bool, true, false, not, ◌&&◌, ◌||◌, Option, none, some, List,
  [], ◌∷◌, ◌++◌, map, ltb, leb, ◌==◌, if◌then◌else◌, length, take, filter,
}
use focl.Base.Int.{ℤ, pos, ◌+ℤ◌, leb_ℤ, wrap_i64}

pub data Status : Type 0 where
  pending in_progress failed : Status

abbrev pub is_pending : Status → Bool
is_pending pending = true
is_pending in_progress = false
is_pending failed = false

abbrev pub is_failed : Status → Bool
is_failed pending = false
is_failed in_progress = false
is_failed failed = true

-- A row of the table `replication_queue`.
pub record Row : Type 0 where
  pub id : ℕ
  pub segment_path : String
  pub manifest_path : String
  pub destination_key : String
  pub attempts : ℕ
  pub max_retries : ℕ
  pub next_retry_ts : ℤ
  pub status : Status
  pub last_error : Option String
  pub created_ts : ℤ
  pub updated_ts : ℤ

-- The table, with the largest id that was ever given out.
pub record Table : Type 0 where
  pub rows : List Row
  pub last_id : ℕ

pub record ReplicationJob : Type 0 where
  pub id : ℕ
  pub segment_path : String
  pub manifest_path : String
  pub destination_key : String
  pub attempts : ℕ
  pub max_retries : ℕ

-- `CREATE TABLE IF NOT EXISTS` on a new file.
abbrev pub empty_table : Table
empty_table = record { rows = []; last_id = 0 }

-- The row that `enqueue` inserts.
abbrev pub new_row : ℤ → String → String → String → ℕ → ℕ → Row
new_row now segment_path manifest_path destination_key max_retries id = record {
  id = id;
  segment_path = segment_path;
  manifest_path = manifest_path;
  destination_key = destination_key;
  attempts = 0;
  max_retries = max_retries;
  next_retry_ts = now;
  status = pending;
  last_error = none;
  created_ts = now;
  updated_ts = now;
}

unfoldable pub enqueue : ℤ → String → String → String → ℕ → Table → Table
enqueue now segment_path manifest_path destination_key max_retries t = record {
  rows =
      t.rows
      ++ new_row now segment_path manifest_path destination_key max_retries (suc t.last_id) ∷ [];
  last_id = suc t.last_id;
}

-- `status = 'pending' AND next_retry_ts <= now`
abbrev pub is_ready : ℤ → Row → Bool
is_ready now r = is_pending r.status && leb_ℤ r.next_retry_ts now

abbrev pub job_of : Row → ReplicationJob
job_of r = record {
  id = r.id;
  segment_path = r.segment_path;
  manifest_path = r.manifest_path;
  destination_key = r.destination_key;
  attempts = r.attempts;
  max_retries = r.max_retries;
}

-- The SELECT of `claim_ready`.
unfoldable pub select_ready : ℤ → ℕ → Table → List ReplicationJob
select_ready now limit t = map job_of (take limit (filter (is_ready now) t.rows))

-- `UPDATE replication_queue SET … WHERE id = ?`
unfoldable pub update_where : ℕ → (Row → Row) → List Row → List Row
update_where id change [] = []
update_where id change (r ∷ rs) = (if r.id == id then change r else r) ∷ update_where id change rs

abbrev pub claimed : ℤ → Row → Row
claimed now r = record r { status = in_progress; updated_ts = now }

-- The loop of `claim_ready` over the selected jobs.
unfoldable pub claim_all : ℤ → List ReplicationJob → List Row → List Row
claim_all now [] rs = rs
claim_all now (j ∷ js) rs = claim_all now js (update_where j.id (claimed now) rs)

unfoldable pub claim_ready : ℤ → ℕ → Table → List ReplicationJob × Table
claim_ready now limit t =
    let jobs = select_ready now limit t in (jobs, record t { rows = claim_all now jobs t.rows })

unfoldable pub mark_success : ℕ → Table → Table
mark_success job_id t = record t { rows = filter (λ (r : Row). not (r.id == job_id)) t.rows }

-- `attempts.saturating_add(1)` of a u32
abbrev pub next_attempt : ReplicationJob → ℕ
next_attempt job = min (job.attempts + 1) (2 ^ 32 - 1)

abbrev pub exhausted : ReplicationJob → Bool
exhausted job = ltb 0 job.max_retries && leb job.max_retries (next_attempt job)

-- `now + retry_backoff_secs as i64`
abbrev pub next_retry : ℤ → ℕ → ℤ
next_retry now retry_backoff_secs = wrap_i64 (now +ℤ wrap_i64 (pos retry_backoff_secs))

-- The two UPDATEs of `mark_failed`, on the row that they meet.
unfoldable pub after_failure : ℤ → ReplicationJob → String → ℕ → Row → Row
after_failure now job error retry_backoff_secs r =
    if exhausted job
    then record r {
      attempts = next_attempt job;
      status = failed;
      last_error = some error;
      updated_ts = now;
    }
    else record r {
      attempts = next_attempt job;
      status = pending;
      next_retry_ts = next_retry now retry_backoff_secs;
      last_error = some error;
      updated_ts = now;
    }

unfoldable pub mark_failed : ℤ → ReplicationJob → String → ℕ → Table → Table
mark_failed now job error retry_backoff_secs t = record t {
  rows = update_where job.id (after_failure now job error retry_backoff_secs) t.rows;
}

unfoldable pub pending_count : Table → ℕ
pending_count t = length (filter (λ (r : Row). not (is_failed r.status)) t.rows)

unfoldable pub failed_count : Table → ℕ
failed_count t = length (filter (λ (r : Row). is_failed r.status) t.rows)

abbrev pub retried : ℤ → Row → Row
retried now r =
    if is_failed r.status
    then record r { status = pending; next_retry_ts = now; updated_ts = now }
    else r

-- The number is that of the rows that the UPDATE changed.
unfoldable pub retry_failed : ℤ → Table → ℕ × Table
unfolding failed_count
retry_failed now t = (failed_count t, record t { rows = map (retried now) t.rows })
