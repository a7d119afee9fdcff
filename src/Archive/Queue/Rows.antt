-- ===== src/Archive/Queue/Rows.antt =====
-- src/archive/queue.rs: the table's invariant, over every sequence of calls.
use focl.Base.{
  ℕ, suc, ◌≤◌, ◌<◌, String, Bool, ◌≡◌, refl, List, [], ◌∷◌, ◌++◌, map, arith, ◌==◌, filter, All,
  Bool-cases, inl, inr,
}
use focl.Base.Int.{ℤ}
use focl.Archive.Queue.{
  Row, Table, ReplicationJob, enqueue, claim_all, claim_ready, claimed, update_where, mark_success,
  mark_failed, after_failure, retry_failed, retried, select_ready, new_row,
}

-- A call of the queue, with the clock's reading.
pub data Call : Type 0 where
  enqueues : ℤ → String → String → String → ℕ → Call
  claims : ℤ → ℕ → Call
  succeeds : ℕ → Call
  fails : ℤ → ReplicationJob → String → ℕ → Call
  retries : ℤ → Call

unfoldable pub apply : Table → Call → Table
apply t (enqueues now segment manifest key max_retries) =
    enqueue now segment manifest key max_retries t
apply t (claims now limit) = (claim_ready now limit t).1
apply t (succeeds id) = mark_success id t
apply t (fails now job error backoff) = mark_failed now job error backoff t
apply t (retries now) = (retry_failed now t).1

unfoldable pub run : Table → List Call → Table
run t [] = t
run t (c ∷ cs) = run (apply t c) cs

abbrev pub ids : List Row → List ℕ
ids = map (λ (r : Row). r.id)

-- Ids rise along the list, from above the bound.
abbrev pub Rising : ℕ → List ℕ → Type 0
Rising n [] = Unit {0}
Rising n (i ∷ is) = (n < i) × Rising i is

abbrev pub Bounded : ℕ → List ℕ → Type 0
Bounded n = All (λ i. i ≤ n)

pub record IsQueue (t : Table) : Type 0 where
  pub rising : Rising 0 (ids t.rows)
  pub bounded : Bounded t.last_id (ids t.rows)

Rising-weaken : (m n : ℕ) (is : List ℕ) → m ≤ n → Rising n is → Rising m is
Rising-weaken m n [] h r = tt
Rising-weaken m n (i ∷ is) h r = (omega arith, r.1)

Rising-filter :
    (p : Row → Bool) (n : ℕ) (rs : List Row) → Rising n (ids rs) → Rising n (ids (filter p rs))
Rising-filter p n [] h = tt
Rising-filter p n (r ∷ rs) h =
    let rest = Rising-filter p r.id rs h.1 in
    elim (Bool-cases (p r)) [
      | inl e ↦ rw e (h.0, rest)
      | inr e ↦ rw e (Rising-weaken n r.id (ids (filter p rs)) (omega arith) rest)
    ]

Bounded-filter :
    (p : Row → Bool) (n : ℕ) (rs : List Row) → Bounded n (ids rs) → Bounded n (ids (filter p rs))
Bounded-filter p n [] h = tt
Bounded-filter p n (r ∷ rs) h = ground (arith, Bounded-filter p n rs h.1)

Rising-append :
    (n m i : ℕ) (rs : List Row) (r : Row)
    → r.id ≡ i
    → n < i
    → Rising n (ids rs)
    → Bounded m (ids rs)
    → m < i
    → Rising n (ids (rs ++ r ∷ []))
Rising-append n m i [] r e l h b k = (omega arith, tt)
Rising-append n m i (x ∷ rs) r e l h b k =
    (h.0, Rising-append x.id m i rs r e (omega arith) h.1 b.1 k)

Bounded-append :
    (m n : ℕ) (rs : List Row) (r : Row)
    → m ≤ n
    → r.id ≤ n
    → Bounded m (ids rs)
    → Bounded n (ids (rs ++ r ∷ []))
Bounded-append m n [] r h l b = (l, tt)
Bounded-append m n (x ∷ rs) r h l b = (omega arith, Bounded-append m n rs r h l b.1)

pub ids-update_where :
    (id : ℕ) (change : Row → Row)
    → ((r : Row) → (change r).id ≡ r.id)
    → (rs : List Row) → ids (update_where id change rs) ≡ ids rs
unfolding update_where
ids-update_where id change keep [] = refl
ids-update_where id change keep (r ∷ rs) = elim (Bool-cases (r.id == id)) [
  | inl e ↦ rw e (cc (keep r, ids-update_where id change keep rs))
  | inr e ↦ rw e (cc (ids-update_where id change keep rs))
]

pub ids-claim_all :
    (now : ℤ) (js : List ReplicationJob) (rs : List Row) → ids (claim_all now js rs) ≡ ids rs
unfolding claim_all
ids-claim_all now [] rs = refl
ids-claim_all now (j ∷ js) rs =
    rw (ids-claim_all now js (update_where j.id (claimed now) rs))
      (ids-update_where j.id (claimed now) (λ r. refl) rs)

pub after_failure-id :
    (now : ℤ) (job : ReplicationJob) (error : String) (backoff : ℕ) (r : Row)
    → (after_failure now job error backoff r).id ≡ r.id
unfolding after_failure
after_failure-id now job error backoff r = ground arith

ids-retried : (now : ℤ) (rs : List Row) → ids (map (retried now) rs) ≡ ids rs
ids-retried now [] = refl
ids-retried now (r ∷ rs) = ground (arith, ids-retried now rs)

-- A call that keeps the ids keeps the invariant.
IsQueue-same :
    (t u : Table) → u.last_id ≡ t.last_id → ids u.rows ≡ ids t.rows → IsQueue t → IsQueue u
IsQueue-same t u l e q = record { rising = rw e q.rising; bounded = rw (l, e) q.bounded }

pub apply-IsQueue : (t : Table) (c : Call) → IsQueue t → IsQueue (apply t c)
unfolding apply enqueue claim_ready mark_success mark_failed retry_failed
apply-IsQueue t (enqueues now segment manifest key max_retries) q =
    let r = new_row now segment manifest key max_retries (suc t.last_id) in
    record {
      rising =
          Rising-append 0 t.last_id (suc t.last_id) t.rows r refl (omega arith) q.rising q.bounded
            (omega arith);
      bounded =
          Bounded-append t.last_id (suc t.last_id) t.rows r (omega arith) (omega arith) q.bounded;
    }
apply-IsQueue t (claims now limit) q =
    IsQueue-same t _ refl (ids-claim_all now (select_ready now limit t) t.rows) q
apply-IsQueue t (succeeds id) q = record {
  rising = Rising-filter _ 0 t.rows q.rising;
  bounded = Bounded-filter _ t.last_id t.rows q.bounded;
}
apply-IsQueue t (fails now job error backoff) q =
    IsQueue-same t _ refl
      (ids-update_where job.id _ (after_failure-id now job error backoff) t.rows) q
apply-IsQueue t (retries now) q = IsQueue-same t _ refl (ids-retried now t.rows) q

-- Every sequence of calls keeps the invariant of the table: the ids of its rows rise, so no two rows
-- share one, and none is above the last id given out.
pub run-IsQueue : (t : Table) (cs : List Call) → IsQueue t → IsQueue (run t cs)
unfolding run
run-IsQueue t [] q = q
run-IsQueue t (c ∷ cs) q = run-IsQueue (apply t c) cs (apply-IsQueue t c q)
