-- ===== src/Archive/Service/Disabled.antt =====
-- src/archive/mod.rs: the calls on an archive that is disabled.
use focl.Base.{◌≡◌, refl, subst, sym, false, not, ok, err, if◌then◌else◌, ◌&&◌}
use focl.Base.Int.{ℤ}
use focl.Archive.Types.{ArchiveStream, UpdateRecordInput, PeerStateRecordInput, RibSnapshotInput}
use focl.Archive.Snapshot.{encode_bgp4mp_state_change_as4}
use focl.Archive.World.{World}
use focl.Archive.Service.{
  ArchiveService, Kit, Act, ◌>>◌, act_if, lift, ensure_updates_writer, ingest_update,
  ingest_peer_state, append_record,
}
use focl.Archive.Service.Rounds.{
  snapshot_now, rollover, roll, tick, tick_ribs, take_snapshot, with_collector,
}

module _ (kit : Kit) (s : ArchiveService) (w : World) (off : s.cfg.enabled ≡ false) where
  -- An action under the test of the flag.
  not_run : (act : Act (Unit {0})) → act_if s.cfg.enabled act (s, w) ≡ (ok tt, (s, w))
  not_run act = subst (λ b. act_if b act (s, w) ≡ (ok tt, (s, w))) (sym off) refl

  update_ignored : (u : UpdateRecordInput) → ingest_update kit u (s, w) ≡ (ok tt, (s, w))
  unfolding ingest_update
  update_ignored u = not_run _

  state_ignored : (u : PeerStateRecordInput) → ingest_peer_state kit u (s, w) ≡ (ok tt, (s, w))
  unfolding ingest_peer_state
  state_ignored u =
      subst
        (λ b.
          act_if (b && s.cfg.include_peer_state_records)
            (ensure_updates_writer kit u.timestamp
              >> append_record (encode_bgp4mp_state_change_as4 kit.mrt u))
            (s, w)
          ≡ (ok tt, (s, w)))
        (sym off) refl

  rollover_ignored :
      (now : ℤ) (stream : ArchiveStream) → rollover kit now stream (s, w) ≡ (ok tt, (s, w))
  unfolding rollover
  rollover_ignored now stream = not_run (roll kit now stream s)

  tick_ignored : (now : ℤ) → tick kit now (s, w) ≡ (ok tt, (s, w))
  unfolding tick
  tick_ignored now = not_run (ensure_updates_writer kit now >> tick_ribs kit now)

  pub snapshot_now_refused :
      (input : RibSnapshotInput)
      → snapshot_now kit input (s, w) ≡ (err "archive is disabled", (s, w))
  unfolding snapshot_now
  snapshot_now_refused input =
      subst
        (λ b.
          (if not b
              then lift (err "archive is disabled")
              else take_snapshot kit (with_collector s.collector_bgp_id input) s)
            (s, w)
          ≡ (err "archive is disabled", (s, w)))
        (sym off) refl

-- A disabled archive takes updates, peer states, rollovers and ticks with success and does nothing for
-- them, and it refuses a snapshot with the error "archive is disabled": the service, its files and its
-- events stay as they are in all five calls.
pub disabled_lem :
    (kit : Kit) (s : ArchiveService) (w : World) (update : UpdateRecordInput)
    (state : PeerStateRecordInput) (now : ℤ) (stream : ArchiveStream) (input : RibSnapshotInput)
    → s.cfg.enabled ≡ false
    → (ingest_update kit update (s, w) ≡ (ok tt, (s, w)))
      × (ingest_peer_state kit state (s, w) ≡ (ok tt, (s, w)))
      × (rollover kit now stream (s, w) ≡ (ok tt, (s, w)))
      × (tick kit now (s, w) ≡ (ok tt, (s, w)))
      × (snapshot_now kit input (s, w) ≡ (err "archive is disabled", (s, w)))
disabled_lem kit s w update state now stream input off = (
  update_ignored kit s w off update,
  state_ignored kit s w off state,
  rollover_ignored kit s w off now stream,
  tick_ignored kit s w off now,
  snapshot_now_refused kit s w off input,
)
