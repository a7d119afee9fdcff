-- ===== src/Archive/Service.antt =====
-- src/archive/mod.rs: the archive's service and its writer of updates, from bucket to bucket. The
-- calendar and the libraries are arguments.
pub mod Bucket
pub mod Rounds
pub mod Reports
pub mod Start
pub mod Steps
pub mod Kept
pub mod Ticks
pub mod Disabled
pub mod Recorded
pub mod Calm
pub mod Stored
pub mod Rotated
pub mod Groups
pub mod Archived
pub mod Overtaken
pub mod Always
pub mod Invariant
pub mod Background
pub mod Calls
pub mod Started
use focl.Base.{
  ℕ, String, Bool, true, false, not, ◌&&◌, Option, none, some, List, [], ◌∷◌, ◌++◌, if◌then◌else◌,
  Result, ok, err, ok_or,
}
use focl.Base.Int.{ℤ, eq_ℤ}
use focl.Config.{ArchiveConfig}
use focl.Types.{Event, archive_segment_opened, archive_segment_finalized, EventEnvelope, envelope}
use focl.Archive.Types.{
  ArchiveStream, updates, as_str, SegmentPaths, FinalizedSegment, UpdateRecordInput,
  PeerStateRecordInput,
}
use focl.Archive.Layout.{DateTime, aligned_epoch, segment_paths}
use focl.Archive.Snapshot.{Mrt, encode_bgp4mp_message_as4, encode_bgp4mp_state_change_as4}
use focl.Archive.World.{World, M}
use focl.Archive.Manifest.{Library}
use focl.Archive.Writer.{SegmentWriter, new, write_record, finalize}
use focl.Archive.Replicator.{Replicator, Outside, enqueue_segment}

pub record ArchiveService : Type 0 where
  pub cfg : ArchiveConfig
  pub collector_bgp_id : ℕ
  pub updates_writer : Option SegmentWriter
  pub ribs_last : Option FinalizedSegment
  pub last_rib_bucket : Option ℤ
  pub replicator : Option Replicator
  pub events : List EventEnvelope

pub record Kit : Type 0 where
  pub lib : Library
  pub outside : Outside
  pub timestamp_opt : ℤ → Option DateTime
  pub mrt : Mrt

-- An action of the service: on its fields and on the files.
abbrev pub Act : Type 0 → Type 0
Act A = ArchiveService × World → Result A × (ArchiveService × World)

infixl 5 ◌>>=◌
abbrev pub ◌>>=◌ : {A B : Type 0} (act : Act A) (next : A → Act B) → Act B
◌>>=◌ act next state =
    let (r, after) = act state in elim r [ ok a ↦ next a after | err e ↦ (err e, after) ]

infixl 5 ◌>>◌
abbrev pub ◌>>◌ : {B : Type 0} (act : Act (Unit {0})) (next : Act B) → Act B
act >> next = act >>= λ _. next

abbrev pub done : Act (Unit {0})
done state = (ok tt, state)

-- An early `return Ok(())` unless the test holds.
abbrev pub act_if : Bool → Act (Unit {0}) → Act (Unit {0})
act_if true act = act
act_if false act = done

abbrev pub lift : {A : Type 0} → Result A → Act A
lift r state = (r, state)

abbrev pub on_files : {A : Type 0} → M A → Act A
on_files m (s, w) = let (r, w') = m w in (r, (s, w'))

abbrev pub fields : Act ArchiveService
fields (s, w) = (ok s, (s, w))

abbrev pub set_writer : Option SegmentWriter → Act (Unit {0})
set_writer writer (s, w) = (ok tt, (record s { updates_writer = writer }, w))

-- `ArchiveService::emit`
abbrev pub emit : Event → Act (Unit {0})
emit event (s, w) = (ok tt, (record s { events = s.events ++ envelope event ∷ [] }, w))

unfoldable pub replicate : Kit → FinalizedSegment → Option Replicator → Act (Unit {0})
replicate kit segment none (s, w) = (ok tt, (s, w))
replicate kit segment (some rep) (s, w) =
    let (result, rep') = enqueue_segment kit.outside segment rep in
    (result, (record s { replicator = some rep' }, w))

-- `if let Some(old_writer) = writer_guard.take()`: the old writer is gone, also after an error.
unfoldable pub close : Kit → ℤ → Option SegmentWriter → Act (Unit {0})
unfolding replicate
close kit now none = done
close kit now (some old) = do
  set_writer none
  finalized ← on_files (finalize kit.lib now old)
  emit (
      archive_segment_finalized (as_str updates) finalized.final_path finalized.end_ts
        finalized.record_count)
  s ← fields
  replicate kit finalized s.replicator

abbrev pub needs_rotate : ℤ → Option SegmentWriter → Bool
needs_rotate bucket none = true
needs_rotate bucket (some w) = not (eq_ℤ w.start_ts bucket)

-- The branch of `ensure_updates_writer` that rotates.
unfoldable pub rotate_to : Kit → ℤ → ℤ → ArchiveService → Act (Unit {0})
unfolding close
rotate_to kit now bucket s = do
  close kit now s.updates_writer
  paths ← lift (segment_paths kit.timestamp_opt s.cfg updates now)
  emit (archive_segment_opened (as_str updates) paths.final_path bucket)
  writer ← on_files (new s.cfg updates bucket paths)
  set_writer (some writer)

unfoldable pub ensure_updates_writer : Kit → ℤ → Act (Unit {0})
ensure_updates_writer kit now = do
  s ← fields
  bucket ← lift (aligned_epoch now s.cfg.updates_interval_secs)
  act_if (needs_rotate bucket s.updates_writer) (rotate_to kit now bucket s)

unfoldable pub rotate_updates : Kit → ℤ → Act (Unit {0})
unfolding close
rotate_updates kit now = do
  s ← fields
  close kit now s.updates_writer
  ensure_updates_writer kit now

-- The end of both `ingest` calls.
unfoldable pub append_record : Result (List ℕ) → Act (Unit {0})
append_record encoded = do
  record_bytes ← lift encoded
  s ← fields
  writer ← lift (ok_or s.updates_writer "updates writer not initialized")
  written ← on_files (write_record record_bytes writer)
  set_writer (some written)

unfoldable pub ingest_update : Kit → UpdateRecordInput → Act (Unit {0})
unfolding append_record
ingest_update kit update = do
  s ← fields
  act_if s.cfg.enabled (
      ensure_updates_writer kit update.timestamp
      >> append_record (encode_bgp4mp_message_as4 kit.mrt update))

unfoldable pub ingest_peer_state : Kit → PeerStateRecordInput → Act (Unit {0})
unfolding append_record
ingest_peer_state kit state = do
  s ← fields
  act_if (s.cfg.enabled && s.cfg.include_peer_state_records) (
      ensure_updates_writer kit state.timestamp
      >> append_record (encode_bgp4mp_state_change_as4 kit.mrt state))
