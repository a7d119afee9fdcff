-- ===== src/Archive/Replicator/Keys.antt =====
-- src/archive/replicator.rs: the destinations that a replicator keeps, and the jobs that it queues.
use focl.Base.{
  ℕ, suc, String, Bool, Option, none, some, List, [], ◌∷◌, ◌++◌, ◌≡◌, refl, ap, ◌∙◌, sym, arith,
  map, Bool-cases, inl, inr, All, eq_iff, str_eq, if◌then◌else◌, ok,
}
use mathlib.Core.List.{append-nil, append_assoc}
use focl.Base.Assoc.{get, insert, get-insert}
use focl.Config.{
  ArchiveDestinationConfig, to_s3, destination_key, key_of, is_primary, max_retries_of,
}
use focl.Archive.Types.{FinalizedSegment}
use focl.Archive.Queue.{pending, Row, Table, enqueue, new_row}
use focl.Archive.Replicator.{Replicator, Outside, collect, new, enqueue_each, enqueue_segment}

-- The last destination of a list with this key, if there is one.
abbrev pub last_with :
    String
    → List ArchiveDestinationConfig
    → Option ArchiveDestinationConfig
    → Option ArchiveDestinationConfig
last_with key [] found = found
last_with key (d ∷ ds) found =
    last_with key ds (if str_eq (destination_key d) key then some d else found)

get-collect :
    (key : String) (ds : List ArchiveDestinationConfig)
    (m : List (String × ArchiveDestinationConfig))
    → get key (collect ds m) ≡ last_with key ds (get key m)
unfolding collect
get-collect key [] m = refl
get-collect key (d ∷ ds) m =
    get-collect key ds (insert (destination_key d) d m)
    ∙ ap (last_with key ds) (get-insert (destination_key d) key d m)

-- For each key a new replicator knows the last destination with that key, and no other one.
pub get-new :
    (key : String) (ds : List ArchiveDestinationConfig) (queue : Table) (sends : Bool)
    → get key (new ds queue sends).destinations ≡ last_with key ds none
unfolding new get
get-new key ds queue sends = get-collect key ds []

same_bucket-key :
    (d e : ArchiveDestinationConfig)
    → d.destination_type ≡ to_s3
    → e.destination_type ≡ to_s3
    → d.endpoint ≡ e.endpoint
    → d.bucket ≡ e.bucket
    → destination_key d ≡ destination_key e
unfolding destination_key key_of
same_bucket-key d e f g h k = rw (f, g, h, k) refl

-- Two buckets at one endpoint under one name have one key, whatever their prefixes: of two such
-- destinations a new replicator keeps the second alone.
pub new-same_bucket :
    (d e : ArchiveDestinationConfig) (queue : Table) (sends : Bool)
    → d.destination_type ≡ to_s3
    → e.destination_type ≡ to_s3
    → d.endpoint ≡ e.endpoint
    → d.bucket ≡ e.bucket
    → (new (d ∷ e ∷ []) queue sends).destinations ≡ (destination_key e, e) ∷ []
unfolding new collect insert
new-same_bucket d e queue sends f g h k =
    let same = same_bucket-key d e f g h k in
    ground (arith, same, eq_iff (destination_key d) (destination_key e))

-- What each row that `enqueue_segment` adds is: a pending job, not tried yet, for this segment.
abbrev pub IsJobOf : FinalizedSegment → Row → Type 0
IsJobOf segment r =
    (r.segment_path ≡ segment.final_path)
    × (r.manifest_path ≡ segment.manifest_path)
    × (r.status ≡ pending)
    × (r.attempts ≡ 0)

abbrev pub replica_keys : List (String × ArchiveDestinationConfig) → List String
replica_keys [] = []
replica_keys ((key, d) ∷ ds) =
    if is_primary d.mode then replica_keys ds else destination_key d ∷ replica_keys ds

module _ (o : Outside) (segment : FinalizedSegment) (works : (n : ℕ) → o.database n ≡ none) where
  enqueue_each-added :
      (n : ℕ) (ds : List (String × ArchiveDestinationConfig)) (t : Table)
      → ((enqueue_each o n segment ds t).0 ≡ ok tt)
        × ((added : List Row) × ((enqueue_each o n segment ds t).1.rows ≡ t.rows ++ added)
            × (map (λ (r : Row). r.destination_key) added ≡ replica_keys ds)
            × All (IsJobOf segment) added)
  unfolding enqueue_each enqueue
  enqueue_each-added n [] t = (refl, ([], sym (append-nil t.rows), refl, tt))
  enqueue_each-added n ((key, d) ∷ ds) t = elim (Bool-cases (is_primary d.mode)) [
    | inl e ↦ rw (e, enqueue_each) (enqueue_each-added n ds t)
    | inr e ↦
        let r : Row =
          new_row (o.clock n) segment.final_path segment.manifest_path (destination_key d)
            (max_retries_of d) (suc t.last_id) in
        let (fine, (added, rows, keys, jobs)) =
          enqueue_each-added (suc n) ds
            (record { rows = t.rows ++ r ∷ []; last_id = suc t.last_id }) in
        rw (e, works n, enqueue_each)
          (
            fine,
            (
              r ∷ added,
              rows ∙ append_assoc t.rows (r ∷ []) added,
              ap (◌∷◌ (destination_key d)) keys,
              ((refl, refl, refl, refl), jobs),
            ),
          )
  ]

-- While the database works, `enqueue_segment` succeeds and puts behind the rows that are there one
-- row for each destination of the replicator that is not primary, in their order and under their
-- keys: a pending job for this segment that was not tried yet.
pub enqueue_segment-added :
    (o : Outside) (segment : FinalizedSegment) (rep : Replicator)
    → ((n : ℕ) → o.database n ≡ none)
    → let (result, rep') = enqueue_segment o segment rep in
      (result ≡ ok tt)
      × ((added : List Row) × (rep'.queue.rows ≡ rep.queue.rows ++ added)
          × (map (λ (r : Row). r.destination_key) added ≡ replica_keys rep.destinations)
          × All (IsJobOf segment) added)
unfolding enqueue_segment
enqueue_segment-added o segment rep works =
    enqueue_each-added o segment works 0 rep.destinations rep.queue
