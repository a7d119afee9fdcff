-- ===== src/Archive/Replicator/Delivered.antt =====
-- src/archive/replicator.rs: what a delivery to a local destination leaves of the files, whichever
-- calls fail.
use focl.Base.{String, some, List, [], ℕ, ◌≡◌, ◌≢◌, refl, sym, ap, ◌∙◌, ok}
use focl.Base.Assoc.{get}
use focl.Config.{ArchiveDestinationConfig, to_local}
use focl.Archive.FilePath.{join}
use focl.Archive.Manifest.{SegmentManifest, sidecar_path}
use focl.Archive.Queue.{ReplicationJob}
use focl.Archive.World.{World, ◌>>◌}
use focl.Archive.Triple.{Files, Post, Triple, Triple-bind, Triple-weaken_done}
use focl.Archive.Writer.Atomic.{update-away, sidecar_path≢}
use focl.Archive.Replicator.{Outside, copy, process_job}
use focl.Archive.Replicator.Copies.{Triple-copy, Triple-copy_same, process_job-Done}

-- Nothing but the two targets has changed.
abbrev pub Elsewhere : String → Files → Files → Type 0
Elsewhere target before f = (p : String) → p ≢ target → p ≢ sidecar_path target → f p ≡ before p

-- Both targets are whole, and nothing else has changed.
abbrev pub IsDelivered : String → List ℕ → List ℕ → Files → Files → Type 0
IsDelivered target segment manifest before f =
    (f target ≡ some segment)
    × (f (sidecar_path target) ≡ some manifest)
    × Elsewhere target before f

-- A delivery's paths and contents; `before` are the files at its start.
module _ (job : ReplicationJob) (target : String) (segment manifest : List ℕ) (before : Files)
    (has_segment : before job.segment_path ≡ some segment)
    (has_manifest : before job.manifest_path ≡ some manifest)
    (away : (job.segment_path ≢ target)
      × (job.segment_path ≢ sidecar_path target)
      × (job.manifest_path ≢ target)
      × (job.manifest_path ≢ sidecar_path target)) where
  abbrev Half : Files → Type 0
  Half f = Elsewhere target before f × (f target ≡ some segment)

  Triple-copies :
      (error error' : String)
      → Triple
          (Elsewhere target before)
          (copy error job.segment_path target
            >> copy error' job.manifest_path (sidecar_path target))
          (λ _. IsDelivered target segment manifest before)
          (Elsewhere target before)
  Triple-copies error error' =
      Triple-bind (copy error job.segment_path target)
        (λ _. copy error' job.manifest_path (sidecar_path target))
        (Triple-copy (Elsewhere target before) Half (Elsewhere target before) job.segment_path
          target segment away.0 (λ f h. h job.segment_path away.0 away.1 ∙ has_segment) (λ f h. h)
          (λ g f h b p t d. b p t ∙ h p t d) (λ g f h b e. ((λ p t d. b p t ∙ h p t d), e)) error)
        (λ _.
          Triple-copy Half (IsDelivered target segment manifest before) (Elsewhere target before)
            job.manifest_path (sidecar_path target) manifest away.3
            (λ f h. h.0 job.manifest_path away.2 away.3 ∙ has_manifest) (λ f h. h.0)
            (λ g f h b p t d. b p d ∙ h.0 p t d)
            (λ g f h b e.
              (b target (λ k. sidecar_path≢ target (sym k)) ∙ h.1, e, λ p t d. b p d ∙ h.0 p t d))
            error')

-- The sources are none of the targets.
abbrev pub SourcesApart : ReplicationJob → String → Type 0
SourcesApart job target =
    (job.segment_path ≢ target)
    × (job.segment_path ≢ sidecar_path target)
    × (job.manifest_path ≢ target)
    × (job.manifest_path ≢ sidecar_path target)

-- A job for a local destination, whose segment and manifest are on the files, with a manifest that
-- parses and sources that are none of the targets: whichever calls of the files fail, if the job
-- succeeds, the destination's segment and sidecar are whole copies of the two sources; and whether
-- it succeeds or not, no other file changes, so both sources stay as they were.
pub process_job-IsDelivered :
    (o : Outside) (destinations : List (String × ArchiveDestinationConfig)) (job : ReplicationJob)
    (d : ArchiveDestinationConfig) (base : String) (m : SegmentManifest) (segment manifest : List ℕ)
    (w : World)
    → get job.destination_key destinations ≡ some d
    → d.destination_type ≡ to_local
    → d.path ≡ some base
    → w.files job.segment_path ≡ some segment
    → w.files job.manifest_path ≡ some manifest
    → o.from_json manifest ≡ ok m
    → let target = join base m.relative_path in
      SourcesApart job target
      → Post
          (λ _ files. IsDelivered target segment manifest w.files files)
          (Elsewhere target w.files)
          (process_job o destinations job w)
process_job-IsDelivered o destinations job d base m segment manifest w known local path has_segment
      has_manifest parses apart =
    let target = join base m.relative_path in
    (process_job-Done job d base m manifest (Elsewhere target w.files)
        (IsDelivered target segment manifest w.files) (Elsewhere target w.files) (λ f h. h) path
        (λ f h. h job.manifest_path apart.2 apart.3 ∙ has_manifest)
        (Triple-copies job target segment manifest w.files has_segment has_manifest apart) o
        destinations known local parses).at
      w (λ p _ _. refl)

-- Two copies, each of a file onto itself.
module _ (job : ReplicationJob) (target : String) (same : job.segment_path ≡ target)
    (same' : job.manifest_path ≡ sidecar_path target) where
  abbrev BothEmpty : Files → Type 0
  BothEmpty f = (f job.segment_path ≡ some []) × (f job.manifest_path ≡ some [])

  abbrev TargetEmpty : Files → Type 0
  TargetEmpty f = Unit {0} × (f target ≡ some [])

  Triple-second :
      (error : String)
      → Triple TargetEmpty
          (copy error job.manifest_path (sidecar_path target))
          (λ _. BothEmpty)
          (λ _. Unit {0})
  Triple-second error =
      Triple-weaken_done (λ f h. (ap f same ∙ h.0.1, ap f same' ∙ h.1))
        (Triple-copy_same TargetEmpty job.manifest_path (sidecar_path target) same' error (λ f c h.
          (tt, update-away (sidecar_path target) target c f (sidecar_path≢ target) ∙ h.1)))

  Triple-emptied :
      (manifest : List ℕ) (error error' : String)
      → Triple
          (λ f. f job.manifest_path ≡ some manifest)
          (copy error job.segment_path target
            >> copy error' job.manifest_path (sidecar_path target))
          (λ _. BothEmpty)
          (λ _. Unit {0})
  Triple-emptied manifest error error' =
      Triple-bind (copy error job.segment_path target)
        (λ _. copy error' job.manifest_path (sidecar_path target))
        (record {
          at = λ w _.
              (Triple-copy_same (λ _. Unit {0}) job.segment_path target same error (λ _ _ _. tt)).at
                w tt;
        })
        (λ _. Triple-second error')

-- A job whose destination is where the segment is already, with the manifest beside it: whichever
-- calls of the files fail, if the job succeeds, both the segment and the manifest are empty.
pub process_job_onto_itself :
    (o : Outside) (destinations : List (String × ArchiveDestinationConfig)) (job : ReplicationJob)
    (d : ArchiveDestinationConfig) (base : String) (m : SegmentManifest) (manifest : List ℕ)
    (w : World)
    → get job.destination_key destinations ≡ some d
    → d.destination_type ≡ to_local
    → d.path ≡ some base
    → w.files job.manifest_path ≡ some manifest
    → o.from_json manifest ≡ ok m
    → job.segment_path ≡ join base m.relative_path
    → job.manifest_path ≡ sidecar_path (join base m.relative_path)
    → Post
        (λ _ files. (files job.segment_path ≡ some []) × (files job.manifest_path ≡ some []))
        (λ _. Unit {0})
        (process_job o destinations job w)
process_job_onto_itself o destinations job d base m manifest w known local path has_manifest parses
      same same' =
    let target = join base m.relative_path in
    (process_job-Done job d base m manifest (λ f. f job.manifest_path ≡ some manifest)
        (λ f. (f job.segment_path ≡ some []) × (f job.manifest_path ≡ some [])) (λ _. Unit {0})
        (λ _ _. tt) path (λ f h. h) (Triple-emptied job target same same' manifest) o destinations
        known local parses).at
      w has_manifest
