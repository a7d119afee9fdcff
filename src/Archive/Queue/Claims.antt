-- ===== src/Archive/Queue/Claims.antt =====
-- src/archive/queue.rs: what `claim_ready` hands out and what it changes, and who may claim a job.
use focl.Base.{
  ℕ, zero, suc, ◌≤◌, Bool, false, ◌||◌, ◌≡◌, refl, ap, ◌∙◌, List, [], ◌∷◌, map, arith, ◌==◌,
  if◌then◌else◌, filter, take, All, Bool-cases, inl, inr,
}
use focl.Base.Int.{ℤ}
use focl.Archive.Queue.{
  is_ready, job_of, Row, Table, ReplicationJob, claim_all, claim_ready, claimed, update_where,
  select_ready,
}
use focl.Archive.Queue.Rows.{IsQueue, Rising, ids}

-- Whether a job with this id is among the jobs.
abbrev pub has_id : ℕ → List ReplicationJob → Bool
has_id n [] = false
has_id n (j ∷ js) = n == j.id || has_id n js

-- What a claim of these jobs does to a row.
abbrev pub claim_row : ℤ → List ReplicationJob → Row → Row
claim_row now js r = if has_id r.id js then claimed now r else r

map-update_where :
    (now : ℤ) (j : ReplicationJob) (js : List ReplicationJob) (rs : List Row)
    → map (claim_row now js) (update_where j.id (claimed now) rs) ≡ map (claim_row now (j ∷ js)) rs
unfolding update_where
map-update_where now j js [] = refl
map-update_where now j js (r ∷ rs) = ground (arith, map-update_where now j js rs)

map_id : (now : ℤ) (rs : List Row) → rs ≡ map (claim_row now []) rs
map_id now [] = refl
map_id now (r ∷ rs) = ap (◌∷◌ r) (map_id now rs)

-- The loop of UPDATEs is one pass over the rows.
pub claim_all-map :
    (now : ℤ) (js : List ReplicationJob) (rs : List Row)
    → claim_all now js rs ≡ map (claim_row now js) rs
unfolding claim_all
claim_all-map now [] rs = map_id now rs
claim_all-map now (j ∷ js) rs =
    claim_all-map now js (update_where j.id (claimed now) rs) ∙ map-update_where now j js rs

-- The jobs of one claim.
abbrev pub jobs_from : ℤ → ℕ → List Row → List ReplicationJob
jobs_from now limit rs = map job_of (take limit (filter (is_ready now) rs))

has_id-above :
    (now : ℤ) (limit n m : ℕ) (rs : List Row)
    → Rising m (ids rs)
    → n ≤ m
    → has_id n (jobs_from now limit rs) ≡ false
has_id-above now zero n m rs h l = refl
has_id-above now (suc limit) n m [] h l = refl
has_id-above now (suc limit) n m (r ∷ rs) h l = ground (
  arith,
  has_id-above now limit n r.id rs h.1 (omega arith),
  has_id-above now (suc limit) n r.id rs h.1 (omega arith),
)

update_where-above :
    (n m : ℕ) (change : Row → Row) (rs : List Row)
    → Rising m (ids rs)
    → n ≤ m
    → update_where n change rs ≡ rs
unfolding update_where
update_where-above n m change [] h l = refl
update_where-above n m change (r ∷ rs) h l =
    ground (arith, update_where-above n r.id change rs h.1 (omega arith))

claim_all-skip :
    (now : ℤ) (js : List ReplicationJob) (r : Row) (rs : List Row)
    → has_id r.id js ≡ false
    → claim_all now js (r ∷ rs) ≡ r ∷ claim_all now js rs
unfolding claim_all update_where
claim_all-skip now [] r rs h = refl
claim_all-skip now (j ∷ js) r rs h =
    ground (arith, claim_all-skip now js r (update_where j.id (claimed now) rs))

-- The first `limit` due rows are marked; every other row stays as it is.
abbrev pub claim_front : ℤ → ℕ → List Row → List Row
claim_front now zero rs = rs
claim_front now (suc limit) [] = []
claim_front now (suc limit) (r ∷ rs) =
    if is_ready now r
    then claimed now r ∷ claim_front now limit rs
    else r ∷ claim_front now (suc limit) rs

update_where-head :
    (change : Row → Row) (r : Row) (rs : List Row)
    → Rising r.id (ids rs)
    → update_where r.id change (r ∷ rs) ≡ change r ∷ rs
unfolding update_where
update_where-head change r rs h =
    ground (arith, update_where-above r.id r.id change rs h (omega arith))

claim_all-front :
    (now : ℤ) (limit m : ℕ) (rs : List Row)
    → Rising m (ids rs)
    → claim_all now (jobs_from now limit rs) rs ≡ claim_front now limit rs
unfolding claim_all
claim_all-front now zero m rs h = refl
claim_all-front now (suc limit) m [] h = refl
claim_all-front now (suc limit) m (r ∷ rs) h = elim (Bool-cases (is_ready now r)) [
  | inl e ↦
      rw (e, update_where-head (claimed now) r rs h.1)
        (claim_all-skip now (jobs_from now limit rs) (claimed now r) rs
            (has_id-above now limit r.id r.id rs h.1 (omega arith))
          ∙ ap (◌∷◌ (claimed now r)) (claim_all-front now limit r.id rs h.1))
  | inr e ↦ rw e (
      claim_all-skip now (jobs_from now (suc limit) rs) r rs
        (has_id-above now (suc limit) r.id r.id rs h.1 (omega arith))
      ∙ ap (◌∷◌ r) (claim_all-front now (suc limit) r.id rs h.1))
]

-- On a table whose ids rise, `claim_ready` returns the first `limit` rows, in the order of their
-- ids, that are pending and due, marks those rows in progress, and changes no other row.
pub claim_ready-front :
    (now : ℤ) (limit : ℕ) (t : Table)
    → IsQueue t
    → ((claim_ready now limit t).0 ≡ jobs_from now limit t.rows)
      × ((claim_ready now limit t).1.rows ≡ claim_front now limit t.rows)
      × ((claim_ready now limit t).1.last_id ≡ t.last_id)
unfolding claim_ready select_ready
claim_ready-front now limit t q = (refl, claim_all-front now limit 0 t.rows q.rising, refl)

-- A row that is due after a claim was not among those claimed.
second_claim :
    (now later : ℤ) (js : List ReplicationJob) (limit : ℕ) (rs : List Row)
    → All
        (λ (j : ReplicationJob). has_id j.id js ≡ false)
        (jobs_from later limit (map (claim_row now js) rs))
second_claim now later js zero rs = tt
second_claim now later js (suc limit) [] = tt
second_claim now later js (suc limit) (r ∷ rs) =
    ground (arith, second_claim now later js limit rs, second_claim now later js (suc limit) rs)

-- Two claims in a row, at any two times, have no job in common.
pub claims_disjoint :
    (now later : ℤ) (limit more : ℕ) (t : Table)
    → let (first, t') = claim_ready now limit t in
      All (λ (j : ReplicationJob). has_id j.id first ≡ false) (claim_ready later more t').0
unfolding claim_ready select_ready
claims_disjoint now later limit more t =
    rw (claim_all-map now (jobs_from now limit t.rows) t.rows)
      (second_claim now later (jobs_from now limit t.rows) more t.rows)
