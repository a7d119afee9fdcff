-- ===== src/Archive/Replicator/Copies.antt =====
-- src/archive/replicator.rs: rules for `copy` and for the way of a job to a local destination.
use Prim.Native.String.{◌++◌}
use focl.Base.{
  ◌∷◌, context, String, Option, some, List, [], ℕ, ◌≡◌, ◌≢◌, subst, sym, ap, ◌∙◌, arith, ok, ok_or,
}
use mathlib.Core.List.{◌++◌ as append, append_assoc, append-nil}
use focl.Base.Assoc.{get}
use focl.Config.{ArchiveDestinationConfig, to_local, DestinationType}
use focl.Archive.FilePath.{join}
use focl.Archive.Manifest.{SegmentManifest, sidecar_path}
use focl.Archive.Queue.{ReplicationJob}
use focl.Archive.World.{create_parent, ◌>>=◌, ◌>>◌, update, read_file, write_file, pure}
use focl.Archive.Triple.{
  Files, Post, Triple, Triple-bind, Triple-call, Triple-create_parent, Triple-read_file,
  Triple-content, Triple-given, Triple-pure, Triple-weaken_done,
}
use focl.Archive.Writer.Atomic.{update-here, update-away}
use focl.Archive.Replicator.{Outside, copy, fill, copy_to_local, deliver, process_job}

same_content :
    (c content : List ℕ) (o : Option (List ℕ)) → o ≡ some c → o ≡ some content → c ≡ content
same_content c content o h k = ground arith

-- Nothing has changed but this file.
abbrev pub Beyond : String → Files → Files → Type 0
Beyond to before f = (q : String) → q ≢ to → f q ≡ before q

-- `copy` to a path that is not the source. With `P` at the start, `E` is to hold whatever the target has
-- by then, and `Q` when it has the content.
module _ (P : Files → Type 0) (Q E : Files → Type 0) (from to : String) (content : List ℕ)
    (ne : from ≢ to) (reads : (f : Files) → P f → f from ≡ some content)
    (kept : (f : Files) → P f → E f) (torn : (g f : Files) → P g → Beyond to g f → E f)
    (whole : (g f : Files) → P g → Beyond to g f → f to ≡ some content → Q f) where
  -- The target has these bytes.
  abbrev Torn : List ℕ → Files → Type 0
  Torn done f = (g : Files) × P g × Beyond to g f × (f to ≡ some done)

  abbrev spoilt : (done : List ℕ) (f : Files) → Torn done f → E f
  spoilt done f (g, p, b, e) = torn g f p b

  Triple-write :
      (error : String) (done more : List ℕ)
      → Triple (Torn done) (write_file error to more) (λ _. Torn more) E
  Triple-write error done more =
      Triple-call error (update to (some more))
        (λ f t. (
          t.0,
          t.1,
          λ q n. update-away to q (some more) f (λ e. n (sym e)) ∙ t.2 q n,
          update-here to (some more) f,
        ))
        (spoilt done)

  Triple-fill :
      (error : String) (done more : List ℕ)
      → Triple (Torn done) (fill error to done more) (λ _. Torn (append done more)) E
  unfolding fill
  Triple-fill error done [] =
      subst (λ l. Triple (Torn done) (pure tt) (λ _. Torn l) E) (sym (append-nil done))
        (Triple-pure (spoilt done) tt)
  Triple-fill error done (b ∷ more) =
      Triple-bind (write_file error to (append done (b ∷ []))) _
        (Triple-write error done (append done (b ∷ [])))
        (λ _.
          subst
            (λ l.
              Triple (Torn (append done (b ∷ []))) (fill error to (append done (b ∷ [])) more)
                (λ _. Torn l) E)
            (append_assoc done (b ∷ []) more) (Triple-fill error (append done (b ∷ [])) more))

  still : (f : Files) → Torn [] f → f from ≡ some content
  still f (g, p, b, e) = b from ne ∙ reads g p

  pub Triple-copy : (error : String) → Triple P (copy error from to) (λ _. Q) E
  unfolding copy
  Triple-copy error =
      let emptied : Triple P (write_file error to []) (λ _. Torn []) E =
        Triple-call error (update to (some []))
          (λ f p. (
            f,
            p,
            λ q n. update-away to q (some []) f (λ e. n (sym e)),
            update-here to (some []) f,
          ))
          kept in
      let filled : Triple (Torn []) (fill error to [] content) (λ _. Q) E =
        Triple-weaken_done (λ f t. whole t.0 f t.1 t.2 t.3) (Triple-fill error [] content) in
      Triple-bind (read_file error from) _ (Triple-read_file kept error from) (λ _.
        Triple-bind (write_file error to []) _ emptied (λ _.
          Triple-bind (read_file error from) _ (Triple-content (spoilt []) error from) (λ c.
            record {
              at = λ w p.
                  subst (λ x. Post (λ _. Q) E (fill error to [] x w))
                    (sym (same_content c content (w.files from) p.1 (still w.files p.0)))
                    (filled.at w p.0);
            })))

-- `copy` of a file onto itself empties it.
module _ (P : Files → Type 0) (from to : String) (same : from ≡ to) where
  abbrev Emptied : Files → Type 0
  Emptied f = P f × (f to ≡ some [])

  pub Triple-copy_same :
      (error : String)
      → ((f : Files) (c : Option (List ℕ)) → P f → P (update to c f))
      → Triple P (copy error from to) (λ _. Emptied) (λ _. Unit {0})
  unfolding copy fill
  Triple-copy_same error stable =
      let emptied : Triple P (write_file error to []) (λ _. Emptied) (λ _. Unit {0}) =
        Triple-call error (update to (some []))
          (λ f p. (stable f (some []) p, update-here to (some []) f)) (λ _ _. tt) in
      Triple-bind (read_file error from) _ (Triple-read_file (λ _ _. tt) error from) (λ _.
        Triple-bind (write_file error to []) _ emptied (λ _.
          Triple-bind (read_file error from) _ (Triple-content (λ _ _. tt) error from) (λ c.
            record {
              at = λ w p.
                  subst (λ x. Post (λ _. Emptied) (λ _. Unit {0}) (fill error to [] x w))
                    (sym (same_content c [] (w.files from) p.1 (ap w.files same ∙ p.0.1))) p.0;
            })))

-- A job for a local destination, from its copies.
module _ (job : ReplicationJob) (d : ArchiveDestinationConfig) (base : String) (m : SegmentManifest)
    (manifest : List ℕ) (Before Done Err : Files → Type 0) (kept : (f : Files) → Before f → Err f)
    (local_path : d.path ≡ some base)
    (has_manifest : (f : Files) → Before f → f job.manifest_path ≡ some manifest)
    (copies : (error error' : String)
      → Triple Before
          (copy error job.segment_path (join base m.relative_path)
            >> copy error' job.manifest_path (sidecar_path (join base m.relative_path)))
          (λ _. Done)
          Err) where
  copy_to_local-Done : Triple Before (copy_to_local d job m) (λ _. Done) Err
  unfolding copy_to_local
  copy_to_local-Done =
      let target = join base m.relative_path in
      Triple-given (ok_or d.path "local destination path missing") base
        (λ b.
          let target_segment = join b m.relative_path in
          create_parent "failed creating destination dir " target_segment
          >> (copy ("failed copying segment " ++ (job.segment_path ++ (" -> " ++ target_segment)))
                job.segment_path target_segment
              >> copy
                  ("failed copying manifest "
                    ++ (job.manifest_path ++ (" -> " ++ sidecar_path target_segment)))
                  job.manifest_path (sidecar_path target_segment)))
        (ap (λ x. ok_or x "local destination path missing") local_path)
        (Triple-bind (create_parent "failed creating destination dir " target) _
          (Triple-create_parent kept "failed creating destination dir " target)
          (λ _.
            copies ("failed copying segment " ++ (job.segment_path ++ (" -> " ++ target))) (
              "failed copying manifest "
              ++ (job.manifest_path ++ (" -> " ++ sidecar_path target)))))

  deliver-Done :
      (o : Outside) (kind : DestinationType)
      → kind ≡ to_local
      → Triple Before (deliver o kind d job m) (λ _. Done) Err
  unfolding deliver
  deliver-Done o kind e =
      subst (λ k. Triple Before (deliver o k d job m) (λ _. Done) Err) (sym e) copy_to_local-Done

  module _ (o : Outside) (destinations : List (String × ArchiveDestinationConfig))
      (known : get job.destination_key destinations ≡ some d)
      (local : d.destination_type ≡ to_local) (parses : o.from_json manifest ≡ ok m) where
    parsed :
        (content : List ℕ)
        → Triple
            (λ f. Before f × (f job.manifest_path ≡ some content))
            ((λ w. (
              context (o.from_json content) ("failed parsing manifest " ++ job.manifest_path),
              w,
            ))
              >>= λ read. deliver o d.destination_type d job read)
            (λ _. Done)
            Err
    parsed content = record {
      at = λ w p.
          let same : content ≡ manifest =
            same_content content manifest (w.files job.manifest_path) p.1
              (has_manifest w.files p.0) in
          (Triple-given
              (context (o.from_json content) ("failed parsing manifest " ++ job.manifest_path)) m
              (λ read. deliver o d.destination_type d job read)
              (ap (λ x. context x ("failed parsing manifest " ++ job.manifest_path))
                (ap (λ x. o.from_json x) same ∙ parses))
              (deliver-Done o d.destination_type local)).at
            w p.0;
    }

    pub process_job-Done : Triple Before (process_job o destinations job) (λ _. Done) Err
    unfolding process_job
    process_job-Done =
        Triple-given
          (ok_or (get job.destination_key destinations)
            ("destination " ++ (job.destination_key ++ " not found")))
          d _ (ap (λ x. ok_or x ("destination " ++ (job.destination_key ++ " not found"))) known)
          (Triple-bind
            (read_file ("failed reading manifest " ++ job.manifest_path) job.manifest_path) _
            (Triple-content kept ("failed reading manifest " ++ job.manifest_path)
              job.manifest_path)
            parsed)
