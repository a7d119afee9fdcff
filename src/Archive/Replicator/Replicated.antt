-- ===== src/Archive/Replicator/Replicated.antt =====
-- src/archive/replicator.rs, src/archive/queue.rs: a segment from `enqueue_segment` over the queue and
-- a round to its replica.
use focl.Base.{
  ℕ, suc, String, some, true, List, [], ◌∷◌, ◌++◌, ◌≡◌, ◌≢◌, ◌⊎◌, inl, inr, refl, sym, subst, ap,
  ◌∙◌, arith, map, All, Bool-cases, Result, ok, err,
}
use focl.Base.Int.{ℤ, leb_ℤ}
use focl.Base.Assoc.{get}
use focl.Config.{ArchiveDestinationConfig, to_local, is_primary}
use focl.Archive.Types.{FinalizedSegment}
use focl.Archive.FilePath.{join}
use focl.Archive.Manifest.{SegmentManifest, sidecar_path}
use focl.Archive.World.{World}
use focl.Archive.Queue.{
  pending, in_progress, Row, Table, ReplicationJob, job_of, claimed, claim_ready, select_ready,
  claim_all, update_where, mark_success, mark_failed, after_failure, enqueue,
}
use focl.Archive.Triple.{Files, Post}
use focl.Archive.Replicator.{
  Replicator, Outside, enqueue_each, enqueue_segment, settle, run_jobs, run_once, process_job,
  retry_secs,
}
use focl.Archive.Replicator.Keys.{IsJobOf, replica_keys, enqueue_segment-added}
use focl.Archive.Replicator.Settled.{Works, emit-queue, after_failure-status, run_jobs-step}
use focl.Archive.Replicator.Delivered.{IsDelivered, Elsewhere, process_job-IsDelivered}

-- Every row may be tried at this time.
abbrev Due : ℤ → List Row → Type 0
Due now = All (λ (r : Row). leb_ℤ r.next_retry_ts now ≡ true)

Due-append : (now : ℤ) (rs ss : List Row) → Due now rs → Due now ss → Due now (rs ++ ss)
Due-append now [] ss h k = k
Due-append now (r ∷ rs) ss h k = (h.0, Due-append now rs ss h.1 k)

enqueue_each-Due :
    (o : Outside) (segment : FinalizedSegment) (now : ℤ)
    → Works o
    → ((n : ℕ) → leb_ℤ (o.clock n) now ≡ true)
    → (n : ℕ) (ds : List (String × ArchiveDestinationConfig)) (t : Table) → Due now t.rows
    → Due now (enqueue_each o n segment ds t).1.rows
unfolding enqueue_each enqueue
enqueue_each-Due o segment now works early n [] t h = h
enqueue_each-Due o segment now works early n ((key, d) ∷ ds) t h =
    elim (Bool-cases (is_primary d.mode)) [
      | inl e ↦ rw (e, enqueue_each) (enqueue_each-Due o segment now works early n ds t h)
      | inr e ↦
          rw (e, works n, enqueue_each)
            (enqueue_each-Due o segment now works early (suc n) ds _
              (Due-append now t.rows _ h (early n, tt)))
    ]

-- The one row that is added for one key.
only_row :
    (segment : FinalizedSegment) (key : String) (added : List Row)
    → map (λ (r : Row). r.destination_key) added ≡ key ∷ []
    → All (IsJobOf segment) added
    → (r : Row) × (added ≡ r ∷ []) × (r.destination_key ≡ key) × IsJobOf segment r
only_row segment key [] e h = absurd (ground arith)
only_row segment key (r ∷ []) e h = (r, refl, ground arith, h.0)
only_row segment key (r ∷ q ∷ more) e h = absurd (ground arith)

claim_only :
    (now : ℤ) (r : Row) (t : Table)
    → t.rows ≡ r ∷ []
    → r.status ≡ pending
    → leb_ℤ r.next_retry_ts now ≡ true
    → claim_ready now 32 t ≡ (job_of r ∷ [], record t { rows = claimed now r ∷ [] })
unfolding claim_ready select_ready claim_all update_where
claim_only now r t e p d = rw (e, p, d) (ground arith)

-- The segment and its manifest are none of the replica's files.
abbrev pub SegmentApart : FinalizedSegment → String → Type 0
SegmentApart segment target =
    (segment.final_path ≢ target)
    × (segment.final_path ≢ sidecar_path target)
    × (segment.manifest_path ≢ target)
    × (segment.manifest_path ≢ sidecar_path target)

-- What the round leaves: either the job is gone and the replica is whole, or the job is still in the
-- queue, for another try or as a failure, and the files beside the replica's are as they were.
abbrev pub Replicated :
    String → List ℕ → List ℕ → String → Files → Result (Unit {0}) × Replicator × World → Type 0
Replicated target segment manifest path before (result, rep, w) =
    (result ≡ ok tt)
    × (((rep.queue.rows ≡ []) × IsDelivered target segment manifest before w.files)
        ⊎ ((r : Row) × (rep.queue.rows ≡ r ∷ [])
            × (r.segment_path ≡ path)
            × (r.status ≢ in_progress)
            × Elsewhere target before w.files))

after_failure-path :
    (now : ℤ) (job : ReplicationJob) (error : String) (backoff : ℕ) (r : Row)
    → (after_failure now job error backoff r).segment_path ≡ r.segment_path
unfolding after_failure
after_failure-path now job error backoff r = ground arith

updated_one : (r : Row) (change : Row → Row) → update_where r.id change (r ∷ []) ≡ change r ∷ []
unfolding update_where
updated_one r change = ground arith

module _ (o : Outside) (works : Works o) (target : String) (segment manifest : List ℕ)
    (before : Files) where
  settled_one :
      (now : ℤ) (r : Row) (rep : Replicator) (outcome : Result (Unit {0})) (w : World)
      → rep.queue.rows ≡ claimed now r ∷ []
      → Post
          (λ _ files. IsDelivered target segment manifest before files)
          (Elsewhere target before)
          (outcome, w)
      → Replicated target segment manifest r.segment_path before
          (ok tt, (settle o 1 (job_of r) outcome rep).1, w)
  unfolding settle mark_success mark_failed update_where
  settled_one now r rep (ok _) w e h =
      (refl, inl (rw (works 1, settle, emit-queue, e) (ground arith), h))
  settled_one now r rep (err m) w e h =
      let backoff = retry_secs rep (job_of r) in
      let change : Row → Row = after_failure (o.clock 1) (job_of r) m backoff in
      (
        refl,
        inr (
          change (claimed now r),
          rw (works 1, settle, emit-queue)
              (ap (update_where r.id change) e ∙ updated_one (claimed now r) change),
          after_failure-path (o.clock 1) (job_of r) m backoff (claimed now r),
          after_failure-status (o.clock 1) (job_of r) m backoff (claimed now r),
          h,
        ),
      )

  run_once_one :
      (rep : Replicator) (r : Row) (w : World)
      → rep.queue.rows ≡ r ∷ []
      → r.status ≡ pending
      → leb_ℤ r.next_retry_ts (o.clock 0) ≡ true
      → Post
          (λ _ files. IsDelivered target segment manifest before files)
          (Elsewhere target before)
          (process_job o rep.destinations (job_of r) w)
      → Replicated target segment manifest r.segment_path before (run_once o rep w)
  unfolding run_once run_jobs
  run_once_one rep r w e p d h =
      let t' : Table = record rep.queue { rows = claimed (o.clock 0) r ∷ [] } in
      let rep' : Replicator = record rep { queue = t' } in
      let (outcome, w') = process_job o rep.destinations (job_of r) w in
      rw (works 0, run_once)
        (subst
          (λ (c : List ReplicationJob × Table).
            Replicated target segment manifest r.segment_path before
              (run_jobs o 1 c.0 (record rep { queue = c.1 }) w))
          (sym (claim_only (o.clock 0) r rep.queue e p d))
          (subst (Replicated target segment manifest r.segment_path before)
            (sym (run_jobs-step o works 1 (job_of r) [] rep' w))
            (settled_one (o.clock 0) r rep' outcome w' refl h)))

-- A segment is queued in a replicator whose queue is empty and which has one replica, a local one; then,
-- not before the time of any call by which it was queued, a round comes, while the database works,
-- the segment and its manifest are on the files, the manifest parses and they are none of the
-- replica's files. Whichever calls of the files fail, the round succeeds, and either the queue is empty
-- and the replica has whole copies of both, or the one job is still in the queue, for another try
-- or as a failure; no file but the replica's two has changed.
pub run_once-Replicated :
    (o o' : Outside) (segment : FinalizedSegment) (rep : Replicator) (key base : String)
    (d : ArchiveDestinationConfig) (m : SegmentManifest) (content manifest : List ℕ) (w : World)
    → Works o
    → Works o'
    → ((n : ℕ) → leb_ℤ (o.clock n) (o'.clock 0) ≡ true)
    → rep.queue.rows ≡ []
    → replica_keys rep.destinations ≡ key ∷ []
    → get key rep.destinations ≡ some d
    → d.destination_type ≡ to_local
    → d.path ≡ some base
    → w.files segment.final_path ≡ some content
    → w.files segment.manifest_path ≡ some manifest
    → o'.from_json manifest ≡ ok m
    → let target = join base m.relative_path in
      SegmentApart segment target
      → Replicated target content manifest segment.final_path w.files
          (run_once o' (enqueue_segment o segment rep).1 w)
unfolding enqueue_segment
run_once-Replicated o o' segment rep key base d m content manifest w works works' early empty one
      known local path has_content has_manifest parses apart =
    let rep' : Replicator = (enqueue_segment o segment rep).1 in
    let target = join base m.relative_path in
    let (_, (added, rows, keys, jobs)) = enqueue_segment-added o segment rep works in
    let (r, only, at_key, (at_path, at_manifest, waits, _)) =
      only_row segment key added (keys ∙ one) jobs in
    let whole : rep'.queue.rows ≡ r ∷ [] = rows ∙ (ap (λ rs. rs ++ added) empty ∙ only) in
    let due : Due (o'.clock 0) rep'.queue.rows =
      unfold enqueue_segment in
      (enqueue_each-Due o segment (o'.clock 0) works early 0 rep.destinations rep.queue
        (subst (Due (o'.clock 0)) (sym empty) tt)) in
    subst (λ p. Replicated target content manifest p w.files (run_once o' rep' w)) at_path
      (run_once_one o' works' target content manifest w.files rep' r w whole waits
        (subst (Due (o'.clock 0)) whole due).0
        (process_job-IsDelivered o' rep.destinations (job_of r) d base m content manifest w
          (ap (λ k. get k rep.destinations) at_key ∙ known) local path
          (ap w.files at_path ∙ has_content) (ap w.files at_manifest ∙ has_manifest) parses
          (
            (λ e. apart.0 (sym at_path ∙ e)),
            (λ e. apart.1 (sym at_path ∙ e)),
            (λ e. apart.2 (sym at_manifest ∙ e)),
            (λ e. apart.3 (sym at_manifest ∙ e)),
          )))
