-- ===== src/Control/Queries.antt =====
-- src/bin/focld.rs: the requests that only report.
use focl.Base.{String, Result-cases, ◌≡◌, refl, ap, inl, inr}
use focl.Base.Int.{ℤ}
use focl.Bgp.Peers.{rib_summary as rib_summary_of}
use focl.Archive.World.{World}
use focl.Archive.Service.{ArchiveService, Kit, Act}
use focl.Archive.Service.Reports.{status, queued_of}
use focl.Control.{
  Value, ControlRequest, CommandKind, ping, daemon_status, shutdown, reload, peer_list, peer_show,
  peer_reset, rib_summary, rib_in, rib_out, archive_status, archive_rollover, archive_snapshot_now,
  archive_destinations, archive_replicator_retry, unsupported,
}
use focl.Control.Daemon.{Desk, Daemon, with_archive, handle}
use focl.Control.Rendered.{daemon_value, status_result}

-- The commands that report, `reload` among them.
abbrev pub IsQuery : CommandKind → Type 0
IsQuery ping = Unit {0}
IsQuery daemon_status = Unit {0}
IsQuery reload = Unit {0}
IsQuery peer_list = Unit {0}
IsQuery peer_show = Unit {0}
IsQuery rib_summary = Unit {0}
IsQuery rib_in = Unit {0}
IsQuery rib_out = Unit {0}
IsQuery archive_status = Unit {0}
IsQuery archive_destinations = Unit {0}
IsQuery unsupported = Unit {0}
IsQuery shutdown = ⊥
IsQuery peer_reset = ⊥
IsQuery archive_rollover = ⊥
IsQuery archive_snapshot_now = ⊥
IsQuery archive_replicator_retry = ⊥

-- An action that leaves the archive and the files leaves the daemon.
same_after :
    {A : Type 0} (act : Act A) (to_value : A → Value) (id : String) (d : Daemon)
    → (act (d.archive, d.files)).1 ≡ (d.archive, d.files)
    → (with_archive act to_value id d).1 ≡ d
unfolding with_archive
same_after act to_value id d e =
    let kept : (record d {
      archive = (act (d.archive, d.files)).1.0;
      files = (act (d.archive, d.files)).1.1;
    })
        ≡ d =
      ap (λ (st : ArchiveService × World). record d { archive = st.0; files = st.1 }) e in
    elim (Result-cases (act (d.archive, d.files)).0) [
      | inl (a, h) ↦ rw (h, with_archive) kept
      | inr (m, h) ↦ rw (h, with_archive) kept
    ]

status_same : (kit : Kit) (s : ArchiveService) (w : World) → (status kit (s, w)).1 ≡ (s, w)
unfolding status
status_same kit s w = elim (Result-cases (queued_of kit s.replicator)) [
  | inl (n, e) ↦ rw (e, status) refl
  | inr (m, e) ↦ rw (e, status) refl
]

-- A request that reports, `reload` included, leaves the archive, its files, the table of peers and the
-- daemon's other state as they are, with whatever arguments it comes and also when it is refused.
pub handle-Unchanged :
    (desk : Desk) (now : ℤ) (kind : CommandKind) (req : ControlRequest) (d : Daemon)
    → IsQuery kind
    → (handle desk now kind req d).1 ≡ d
unfolding handle
handle-Unchanged desk now ping req d h = refl
handle-Unchanged desk now reload req d h = refl
handle-Unchanged desk now peer_list req d h = refl
handle-Unchanged desk now peer_show req d h = refl
handle-Unchanged desk now rib_summary req d h = refl
handle-Unchanged desk now rib_in req d h = refl
handle-Unchanged desk now rib_out req d h = refl
handle-Unchanged desk now archive_destinations req d h = refl
handle-Unchanged desk now daemon_status req d h =
    same_after (status desk.kit) (daemon_value (rib_summary_of d.bgp)) req.id d
      (status_same desk.kit d.archive d.files)
handle-Unchanged desk now archive_status req d h =
    same_after (status desk.kit) (λ s. desk.status_value (status_result s)) req.id d
      (status_same desk.kit d.archive d.files)
handle-Unchanged desk now unsupported req d h = refl
handle-Unchanged desk now shutdown req d h = absurd h
handle-Unchanged desk now peer_reset req d h = absurd h
handle-Unchanged desk now archive_rollover req d h = absurd h
handle-Unchanged desk now archive_snapshot_now req d h = absurd h
handle-Unchanged desk now archive_replicator_retry req d h = absurd h
