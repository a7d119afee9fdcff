-- ===== src/Archive/Queue/Held.antt =====
-- src/archive/queue.rs: a job in progress stays with its worker.
use focl.Base.{
  ℕ, zero, suc, ◌≤◌, not, ◌≡◌, ◌≢◌, sym, ◌∙◌, List, [], ◌∷◌, ◌++◌, map, arith, ◌==◌, filter, All,
  Any, Bool-cases, inl, inr,
}
use focl.Base.Int.{ℤ}
use focl.Archive.Queue.{
  in_progress, is_ready, Row, Table, ReplicationJob, enqueue, claim_ready, update_where,
  mark_success, mark_failed, retry_failed, retried, select_ready,
}
use focl.Archive.Queue.Rows.{
  Call, enqueues, claims, succeeds, fails, retries, apply, run, after_failure-id,
}
use focl.Archive.Queue.Claims.{claim_row, claim_all-map, jobs_from}

-- A job that some worker holds: its row is in progress, and is there.
pub record IsHeld (n : ℕ) (t : Table) : Type 0 where
  pub given : n ≤ t.last_id
  pub in_work : All (λ (r : Row). r.id ≡ n → r.status ≡ in_progress) t.rows
  pub present : Any (λ (r : Row). r.id ≡ n) t.rows

-- The calls that report on job `n` itself.
abbrev pub Reports : ℕ → Call → Type 0
Reports n (succeeds id) = id ≡ n
Reports n (fails now job error backoff) = job.id ≡ n
Reports n (enqueues _ _ _ _ _) = ⊥
Reports n (claims _ _) = ⊥
Reports n (retries _) = ⊥

module _ (n : ℕ) where
  abbrev InWork : Row → Type 0
  InWork r = r.id ≡ n → r.status ≡ in_progress

  InWork-append : (rs : List Row) (r : Row) → r.id ≢ n → All InWork rs → All InWork (rs ++ r ∷ [])
  InWork-append [] r e h = (λ p. absurd (e p), tt)
  InWork-append (x ∷ rs) r e h = (h.0, InWork-append rs r e h.1)

  present-append :
      (rs : List Row) (r : Row)
      → Any (λ (r : Row). r.id ≡ n) rs
      → Any (λ (r : Row). r.id ≡ n) (rs ++ r ∷ [])
  present-append [] r h = absurd h
  present-append (x ∷ rs) r (inl h) = inl h
  present-append (x ∷ rs) r (inr h) = inr (present-append rs r h)

  -- A change of rows that keeps ids, and keeps what is in progress.
  InWork-map :
      (change : Row → Row)
      → ((r : Row) → (change r).id ≡ r.id)
      → ((r : Row) → r.status ≡ in_progress → (change r).status ≡ in_progress)
      → (rs : List Row) → All InWork rs
      → All InWork (map change rs)
  InWork-map change same keep [] h = tt
  InWork-map change same keep (r ∷ rs) h =
      (λ p. keep r (h.0 (sym (same r) ∙ p)), InWork-map change same keep rs h.1)

  present-map :
      (change : Row → Row)
      → ((r : Row) → (change r).id ≡ r.id)
      → (rs : List Row) → Any (λ (r : Row). r.id ≡ n) rs
      → Any (λ (r : Row). r.id ≡ n) (map change rs)
  present-map change same [] h = absurd h
  present-map change same (r ∷ rs) (inl h) = inl (same r ∙ h)
  present-map change same (r ∷ rs) (inr h) = inr (present-map change same rs h)

  InWork-update_where :
      (m : ℕ) (change : Row → Row)
      → m ≢ n
      → ((r : Row) → (change r).id ≡ r.id)
      → (rs : List Row) → All InWork rs
      → All InWork (update_where m change rs)
  unfolding update_where
  InWork-update_where m change e same [] h = tt
  InWork-update_where m change e same (r ∷ rs) h =
      ground (arith, same r, InWork-update_where m change e same rs h.1)

  present-update_where :
      (m : ℕ) (change : Row → Row)
      → ((r : Row) → (change r).id ≡ r.id)
      → (rs : List Row) → Any (λ (r : Row). r.id ≡ n) rs
      → Any (λ (r : Row). r.id ≡ n) (update_where m change rs)
  unfolding update_where
  present-update_where m change same [] h = absurd h
  present-update_where m change same (r ∷ rs) h =
      ground (arith, same r, present-update_where m change same rs)

  InWork-remove :
      (m : ℕ) (rs : List Row)
      → All InWork rs
      → All InWork (filter (λ (r : Row). not (r.id == m)) rs)
  InWork-remove m [] h = tt
  InWork-remove m (r ∷ rs) h = elim (Bool-cases (r.id == m)) [
    | inl e ↦ rw e (InWork-remove m rs h.1)
    | inr e ↦ rw e (h.0, InWork-remove m rs h.1)
  ]

  present-remove :
      (m : ℕ)
      → m ≢ n
      → (rs : List Row) → Any (λ (r : Row). r.id ≡ n) rs
      → Any (λ (r : Row). r.id ≡ n) (filter (λ (r : Row). not (r.id == m)) rs)
  present-remove m e [] h = absurd h
  present-remove m e (r ∷ rs) h = ground (arith, present-remove m e rs)

module _ (n : ℕ) where
  apply-InWork :
      (t : Table) (c : Call)
      → n ≤ t.last_id
      → ¬ (Reports n c)
      → All (InWork n) t.rows
      → All (InWork n) (apply t c).rows
  unfolding apply enqueue claim_ready mark_success mark_failed retry_failed
  apply-InWork t (enqueues now segment manifest key max_retries) g o h =
      InWork-append n t.rows _ (omega arith) h
  apply-InWork t (claims now limit) g o h =
      rw (claim_all-map now (select_ready now limit t) t.rows) (
        InWork-map n (claim_row now (select_ready now limit t)) (λ r. ground arith)
          (λ r e. ground arith) t.rows h)
  apply-InWork t (succeeds id) g o h = InWork-remove n id t.rows h
  apply-InWork t (fails now job error backoff) g o h =
      InWork-update_where n job.id _ o (after_failure-id now job error backoff) t.rows h
  apply-InWork t (retries now) g o h =
      InWork-map n (retried now) (λ r. ground arith) (λ r e. ground arith) t.rows h

  apply-present :
      (t : Table) (c : Call)
      → ¬ (Reports n c)
      → Any (λ (r : Row). r.id ≡ n) t.rows
      → Any (λ (r : Row). r.id ≡ n) (apply t c).rows
  unfolding apply enqueue claim_ready mark_success mark_failed retry_failed
  apply-present t (enqueues now segment manifest key max_retries) o h = present-append n t.rows _ h
  apply-present t (claims now limit) o h =
      rw (claim_all-map now (select_ready now limit t) t.rows)
        (present-map n (claim_row now (select_ready now limit t)) (λ r. ground arith) t.rows h)
  apply-present t (succeeds id) o h = present-remove n id o t.rows h
  apply-present t (fails now job error backoff) o h =
      present-update_where n job.id _ (after_failure-id now job error backoff) t.rows h
  apply-present t (retries now) o h = present-map n (retried now) (λ r. ground arith) t.rows h

apply-given : (n : ℕ) (t : Table) (c : Call) → n ≤ t.last_id → n ≤ (apply t c).last_id
unfolding apply enqueue claim_ready mark_success mark_failed retry_failed
apply-given n t (enqueues now segment manifest key max_retries) h = omega arith
apply-given n t (claims now limit) h = h
apply-given n t (succeeds id) h = h
apply-given n t (fails now job error backoff) h = h
apply-given n t (retries now) h = h

run-IsHeld :
    (n : ℕ) (t : Table) (cs : List Call)
    → All (λ c. ¬ (Reports n c)) cs
    → IsHeld n t
    → IsHeld n (run t cs)
unfolding run
run-IsHeld n t [] o h = h
run-IsHeld n t (c ∷ cs) o h = run-IsHeld n (apply t c) cs o.1 (record {
  given = apply-given n t c h.given;
  in_work = apply-InWork n t c h.given o.0 h.in_work;
  present = apply-present n t c o.0 h.present;
})

-- A row in progress is not due.
claim_passes :
    (n : ℕ) (now : ℤ) (limit : ℕ) (rs : List Row)
    → All (InWork n) rs
    → All (λ (j : ReplicationJob). j.id ≢ n) (jobs_from now limit rs)
claim_passes n now zero rs h = tt
claim_passes n now (suc limit) [] h = tt
claim_passes n now (suc limit) (r ∷ rs) h = elim (Bool-cases (is_ready now r)) [
  | inl e ↦ rw e ((λ p. ground (arith, h.0 p)), claim_passes n now limit rs h.1)
  | inr e ↦ rw e (claim_passes n now (suc limit) rs h.1)
]

-- While nobody reports on a held job, no sequence of calls takes it from its holder: its row stays
-- in the table and in progress, and no claim, at any time, returns it.
pub IsHeld-job_stays :
    (n : ℕ) (t : Table) (cs : List Call) (now : ℤ) (limit : ℕ)
    → All (λ c. ¬ (Reports n c)) cs
    → IsHeld n t
    → IsHeld n (run t cs)
      × All (λ (j : ReplicationJob). j.id ≢ n) (claim_ready now limit (run t cs)).0
unfolding claim_ready select_ready
IsHeld-job_stays n t cs now limit o h =
    let held = run-IsHeld n t cs o h in
    (held, claim_passes n now limit (run t cs).rows held.in_work)
