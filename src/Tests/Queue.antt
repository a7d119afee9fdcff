-- ===== src/Tests/Queue.antt =====
-- A queue of two jobs: one is claimed and fails until it has failed for good.
use focl.Base.{ℕ, ◌≡◌, ◌≢◌, refl, [], ◌∷◌, arith, All, inl}
use focl.Base.Int.{pos}
use focl.Archive.Queue.{
  pending, failed, Row, Table, ReplicationJob, new_row, claim_ready, retried, claimed, select_ready,
  claim_all, update_where,
}
use focl.Archive.Queue.Rows.{retries, run, IsQueue}
use focl.Archive.Queue.Claims.{claim_ready-front, claim_front, jobs_from}
use focl.Archive.Queue.Held.{IsHeld, IsHeld-job_stays}
use focl.Archive.Queue.Retries.{fail_each, fail_each_lem, retried_fails_at_once}

abbrev row : ℕ → Row
row id = new_row (pos 100) "a/updates.gz" "a/updates.gz.json" "local:/b" 2 id

abbrev pub two : Table
two = record { rows = row 1 ∷ row 2 ∷ []; last_id = 2 }

abbrev one_held : Table
one_held = record { rows = claimed (pos 100) (row 1) ∷ row 2 ∷ []; last_id = 2 }

two-IsQueue : IsQueue two
two-IsQueue = record {
  rising = (omega arith, (omega arith, tt));
  bounded = (omega arith, (omega arith, tt));
}

claim_ready-front_example :
    ((claim_ready (pos 100) 1 two).0 ≡ jobs_from (pos 100) 1 two.rows)
    × ((claim_ready (pos 100) 1 two).1.rows ≡ claim_front (pos 100) 1 two.rows)
    × ((claim_ready (pos 100) 1 two).1.last_id ≡ two.last_id)
claim_ready-front_example = claim_ready-front (pos 100) 1 two two-IsQueue

one_held-IsHeld : IsHeld 1 one_held
one_held-IsHeld = record {
  given = omega arith;
  in_work = ((λ _. refl), ((λ e. ground (arith, e)), tt));
  present = inl refl;
}

-- A day later, behind a crash and a restart, the job is still not handed out.
IsHeld-job_stays_example :
    IsHeld 1 (run one_held (retries (pos 86500) ∷ []))
    × All
        (λ (j : ReplicationJob). j.id ≢ 1)
        (claim_ready (pos 86500) 10 (run one_held (retries (pos 86500) ∷ []))).0
IsHeld-job_stays_example =
    IsHeld-job_stays 1 one_held (retries (pos 86500) ∷ []) (pos 86500) 10 ((λ h. h), tt)
      one_held-IsHeld

fail_each_lem_example :
    let last = fail_each 5 ((pos 100, "down") ∷ (pos 105, "down") ∷ []) (row 1) in
    (last.attempts ≡ 2) × (last.status ≡ failed)
fail_each_lem_example =
    fail_each_lem 5 (pos 100) "down" ((pos 105, "down") ∷ []) (row 1) (omega arith)

abbrev failed_row : Row
failed_row = record (row 1) { attempts = 2; status = failed }

retried_fails_at_once_example :
    let again = retried (pos 300) failed_row in
    (again.status ≡ pending) × ((fail_each 5 ((pos 301, "down") ∷ []) again).status ≡ failed)
retried_fails_at_once_example =
    retried_fails_at_once (pos 300) (pos 301) 5 "down" failed_row refl (omega arith) (omega arith)
      (omega arith)

-- A claim hands out the first job and marks it.
first_claim : (claim_ready (pos 100) 1 two).1 ≡ one_held
unfolding claim_ready select_ready claim_all update_where
first_claim = refl
