-- ===== src/Control/Steps.antt =====
-- src/bin/focld.rs, src/archive/mod.rs, src/bgp/mod.rs: what a running daemon may do next, in any order:
-- serve a line of a client, take a record in, turn one of the archive's tasks, or change a peer.
use focl.Base.{String, sym, subst, inl, inr, Result-cases}
use focl.Base.Int.{ℤ}
use focl.Config.{ArchiveConfig}
use focl.Bgp.Peers.Invariant.{IsService}
use focl.Bgp.Peers.Owned.{Change, change, resets, change-IsService}
use focl.Archive.Types.{UpdateRecordInput, PeerStateRecordInput}
use focl.Archive.Service.{Kit, Act, ingest_update, ingest_peer_state}
use focl.Archive.Service.Rounds.{snapshot_now, rollover, empty_snapshot}
use focl.Archive.Service.Reports.{retry_failed_replications}
use focl.Archive.Service.Background.{Turn, turn}
use focl.Archive.Service.Always.{Keeps}
use focl.Archive.Service.Invariant.{IsArchive}
use focl.Archive.Service.Calls.{
  ingest_update-Safe, ingest_peer_state-Safe, snapshot_now-Safe, rollover-Safe,
  retry_failed_replications-Safe, turn-Safe,
}
use focl.Control.{
  Value, ControlRequest, CommandKind, ping, daemon_status, shutdown, reload, peer_list, peer_show,
  peer_reset, rib_summary, rib_in, rib_out, archive_status, archive_rollover, archive_snapshot_now,
  archive_destinations, archive_replicator_retry, unsupported, from_request,
}
use focl.Control.Daemon.{Desk, Daemon, with_archive, stream_of, handle, handle_line}
use focl.Control.Queries.{IsQuery, handle-Unchanged}

-- An action of the archive in the daemon, its result dropped.
abbrev pub after_act : {A : Type 0} → Act A → Daemon → Daemon
after_act act d =
    let (_, (archive, files)) = act (d.archive, d.files) in
    record d { archive = archive; files = files }

pub data Step (desk : Desk) : Daemon → Daemon → Type 0 where
  serves : (d : Daemon) (now : ℤ) (line : String) → Step desk d (handle_line desk now line d).1
  takes_update :
      (d : Daemon) (u : UpdateRecordInput) → Step desk d (after_act (ingest_update desk.kit u) d)
  takes_state :
      (d : Daemon) (p : PeerStateRecordInput)
      → Step desk d (after_act (ingest_peer_state desk.kit p) d)
  turns : (d : Daemon) (t : Turn) → Step desk d (after_act (turn desk.kit t) d)
  peer_changes : (d : Daemon) (c : Change) → Step desk d (record d { bgp = change d.bgp c })

-- Any number of steps.
pub data Reach (desk : Desk) (d : Daemon) : Daemon → Type 0 where
  here : Reach desk d d
  next : {e f : Daemon} → Reach desk d e → Step desk e f → Reach desk d f

-- The archive and the table of peers are as they should be.
pub record IsDaemon (kit : Kit) (c : ArchiveConfig) (d : Daemon) : Type 0 where
  pub archive : IsArchive kit c d.archive
  pub bgp : IsService d.bgp

module _ (desk : Desk) (c : ArchiveConfig) where
  act-IsDaemon :
      {A : Type 0} (act : Act A)
      → Keeps (IsArchive desk.kit c) act
      → (d : Daemon) → IsDaemon desk.kit c d
      → IsDaemon desk.kit c (after_act act d)
  act-IsDaemon act k d v = record { archive = k.at d.archive d.files v.archive; bgp = v.bgp }

  with_archive-IsDaemon :
      {A : Type 0} (act : Act A) (to_value : A → Value) (id : String)
      → Keeps (IsArchive desk.kit c) act
      → (d : Daemon) → IsDaemon desk.kit c d
      → IsDaemon desk.kit c (with_archive act to_value id d).1
  unfolding with_archive
  with_archive-IsDaemon act to_value id k d v = elim (Result-cases (act (d.archive, d.files)).0) [
    | inl (a, e) ↦ rw (e, with_archive) (act-IsDaemon act k d v)
    | inr (m, e) ↦ rw (e, with_archive) (act-IsDaemon act k d v)
  ]

  query-IsDaemon :
      (now : ℤ) (kind : CommandKind) (req : ControlRequest) (d : Daemon)
      → IsQuery kind
      → IsDaemon desk.kit c d
      → IsDaemon desk.kit c (handle desk now kind req d).1
  query-IsDaemon now kind req d q v =
      subst (IsDaemon desk.kit c) (sym (handle-Unchanged desk now kind req d q)) v

  pub handle-IsDaemon :
      (now : ℤ) (kind : CommandKind) (req : ControlRequest) (d : Daemon)
      → IsDaemon desk.kit c d
      → IsDaemon desk.kit c (handle desk now kind req d).1
  handle-IsDaemon now ping req d v = query-IsDaemon now ping req d tt v
  handle-IsDaemon now daemon_status req d v = query-IsDaemon now daemon_status req d tt v
  handle-IsDaemon now reload req d v = query-IsDaemon now reload req d tt v
  handle-IsDaemon now peer_list req d v = query-IsDaemon now peer_list req d tt v
  handle-IsDaemon now peer_show req d v = query-IsDaemon now peer_show req d tt v
  handle-IsDaemon now rib_summary req d v = query-IsDaemon now rib_summary req d tt v
  handle-IsDaemon now rib_in req d v = query-IsDaemon now rib_in req d tt v
  handle-IsDaemon now rib_out req d v = query-IsDaemon now rib_out req d tt v
  handle-IsDaemon now archive_status req d v = query-IsDaemon now archive_status req d tt v
  handle-IsDaemon now archive_destinations req d v =
      query-IsDaemon now archive_destinations req d tt v
  handle-IsDaemon now unsupported req d v = query-IsDaemon now unsupported req d tt v
  handle-IsDaemon now shutdown req d v =
      unfold handle in (record { archive = v.archive; bgp = v.bgp })
  handle-IsDaemon now peer_reset req d v = elim (Result-cases (desk.peer_args req.args)) [
    | inl (args, e) ↦
        unfold handle in
        (rw (e, handle)
          (record {
            archive = v.archive;
            bgp = unfold change in (change-IsService d.bgp (resets args.peer) v.bgp);
          }))
    | inr (m, e) ↦ unfold handle in (rw (e, handle) v)
  ]
  handle-IsDaemon now archive_rollover req d v = elim (Result-cases (desk.rollover_args req.args)) [
    | inl (args, e) ↦
        unfold handle in
        (rw (e, handle)
          (with_archive-IsDaemon (rollover desk.kit now (stream_of args.stream)) _ req.id
            (rollover-Safe desk.kit c now (stream_of args.stream)) d v))
    | inr (m, e) ↦ unfold handle in (rw (e, handle) v)
  ]
  handle-IsDaemon now archive_snapshot_now req d v =
      unfold handle in
      (with_archive-IsDaemon (snapshot_now desk.kit (empty_snapshot now 0)) _ req.id
        (snapshot_now-Safe desk.kit c (empty_snapshot now 0)) d v)
  handle-IsDaemon now archive_replicator_retry req d v =
      unfold handle in
      (with_archive-IsDaemon (retry_failed_replications desk.kit) _ req.id
        (retry_failed_replications-Safe desk.kit c) d v)

  line-IsDaemon :
      (now : ℤ) (line : String) (d : Daemon)
      → IsDaemon desk.kit c d
      → IsDaemon desk.kit c (handle_line desk now line d).1
  unfolding handle_line
  line-IsDaemon now line d v = elim (Result-cases (desk.parse_request (desk.trim_end line))) [
    | inl (req, e) ↦ rw (e, handle_line) (handle-IsDaemon now (from_request req) req d v)
    | inr (m, e) ↦ rw (e, handle_line) v
  ]

  Step-IsDaemon : {d e : Daemon} → Step desk d e → IsDaemon desk.kit c d → IsDaemon desk.kit c e
  Step-IsDaemon (serves d now line) v = line-IsDaemon now line d v
  Step-IsDaemon (takes_update d u) v =
      act-IsDaemon (ingest_update desk.kit u) (ingest_update-Safe desk.kit c u) d v
  Step-IsDaemon (takes_state d p) v =
      act-IsDaemon (ingest_peer_state desk.kit p) (ingest_peer_state-Safe desk.kit c p) d v
  Step-IsDaemon (turns d t) v = act-IsDaemon (turn desk.kit t) (turn-Safe desk.kit c t) d v
  Step-IsDaemon (peer_changes d ch) v = record {
    archive = v.archive;
    bgp = change-IsService d.bgp ch v.bgp;
  }

  pub Reach-IsDaemon :
      {d e : Daemon} → IsDaemon desk.kit c d → Reach desk d e → IsDaemon desk.kit c e
  Reach-IsDaemon v here = v
  Reach-IsDaemon v (next r st) = Step-IsDaemon st (Reach-IsDaemon v r)
