-- ===== src/Control/Answers.antt =====
-- src/bin/focld.rs: which response belongs to which line.
use focl.Base.{
  String, Bool-cases, Result-cases, Option, none, some, ◌≡◌, refl, inl, inr, Result, ok, err,
  str_eq,
}
use Prim.Native.String.{◌++◌}
use focl.Base.Int.{ℤ}
use focl.Bgp.{PeerInfo}
use focl.Archive.Service.{Act}
use focl.Control.{
  Value, object, field, ControlRequest, ControlResponse, answer, refuse, CommandKind, ping,
  daemon_status, shutdown, reload, peer_list, peer_show, peer_reset, rib_summary, rib_in, rib_out,
  archive_status, archive_rollover, archive_snapshot_now, archive_destinations,
  archive_replicator_retry, unsupported, from_request,
}
use focl.Control.Daemon.{
  Desk, Daemon, Reply, respond, subscribe, close, with_archive, with_peer, or_refuse, show_response,
  handle, handle_line,
}

-- The response of the reply, if there is one, is so.
abbrev pub Fits : (ControlResponse → Type 0) → Reply → Type 0
Fits P (respond r) = P r
Fits P (subscribe r) = P r
Fits P (close e) = Unit {0}

module _ (P : ControlResponse → Type 0) where
  pub with_archive-Fits :
      {A : Type 0} (act : Act A) (to_value : A → Value) (id : String) (d : Daemon)
      → ((v : Value) → P (answer id v))
      → Fits P (with_archive act to_value id d).0
  unfolding with_archive
  with_archive-Fits act to_value id d k = elim (Result-cases (act (d.archive, d.files)).0) [
    | inl (a, h) ↦ rw (h, with_archive) (k (to_value a))
    | inr (m, h) ↦ rw (h, with_archive) tt
  ]

  pub or_refuse_fits :
      {A : Type 0} (id code : String) (to_value : A → Value) (r : Result A)
      → ((v : Value) → P (answer id v))
      → ((e : String) → P (refuse id code e))
      → P (or_refuse id code to_value r)
  unfolding or_refuse
  or_refuse_fits id code to_value (ok a) k l = k (to_value a)
  or_refuse_fits id code to_value (err e) k l = l e

  pub with_peer_fits :
      (desk : Desk) (label : String) (req : ControlRequest) (next : String → ControlResponse)
      → ((peer : String) → P (next peer))
      → ((e : String)
          → (desk.peer_args req.args ≡ err e)
          → P (refuse req.id "invalid_args" (label ++ " args error: " ++ e)))
      → P (with_peer desk label req next)
  unfolding with_peer
  with_peer_fits desk label req next k l = elim (Result-cases (desk.peer_args req.args)) [
    | inl (p, h) ↦ rw (h, with_peer) (k p.peer)
    | inr (m, h) ↦ rw (h, with_peer) (l m h)
  ]

  pub show_response_fits :
      (desk : Desk) (id : String) (found : Option PeerInfo)
      → ((v : Value) → P (answer id v))
      → P (refuse id "peer_not_found" "peer not found")
      → P (show_response desk id found)
  unfolding show_response
  show_response_fits desk id (some peer) k l = k (object (field "peer" (desk.peer_value peer)))
  show_response_fits desk id none k l = l

-- The response, if there is one, has the id.
abbrev pub HasId : String → Reply → Type 0
HasId id reply = Fits (λ r. r.id ≡ id) reply

handle-HasId :
    (desk : Desk) (now : ℤ) (kind : CommandKind) (req : ControlRequest) (d : Daemon)
    → HasId req.id (handle desk now kind req d).0
unfolding handle answer refuse
handle-HasId desk now ping req d = refl
handle-HasId desk now reload req d = refl
handle-HasId desk now shutdown req d = refl
handle-HasId desk now peer_list req d = refl
handle-HasId desk now rib_summary req d = refl
handle-HasId desk now archive_destinations req d = refl
handle-HasId desk now daemon_status req d =
    with_archive-Fits (λ r. r.id ≡ req.id) _ _ req.id d (λ v. refl)
handle-HasId desk now archive_status req d =
    with_archive-Fits (λ r. r.id ≡ req.id) _ _ req.id d (λ v. refl)
handle-HasId desk now archive_snapshot_now req d =
    with_archive-Fits (λ r. r.id ≡ req.id) _ _ req.id d (λ v. refl)
handle-HasId desk now archive_replicator_retry req d =
    with_archive-Fits (λ r. r.id ≡ req.id) _ _ req.id d (λ v. refl)
handle-HasId desk now rib_in req d =
    with_peer_fits (λ r. r.id ≡ req.id) desk "rib_in" req _
      (λ peer.
        or_refuse_fits (λ r. r.id ≡ req.id) req.id "rib_in_failed" _ _ (λ v. refl) (λ e. refl))
      (λ e h. refl)
handle-HasId desk now rib_out req d =
    with_peer_fits (λ r. r.id ≡ req.id) desk "rib_out" req _
      (λ peer.
        or_refuse_fits (λ r. r.id ≡ req.id) req.id "rib_out_failed" _ _ (λ v. refl) (λ e. refl))
      (λ e h. refl)
handle-HasId desk now peer_show req d =
    with_peer_fits (λ r. r.id ≡ req.id) desk "peer_show" req _
      (λ peer. show_response_fits (λ r. r.id ≡ req.id) desk req.id _ (λ v. refl) refl) (λ e h. refl)
handle-HasId desk now peer_reset req d = elim (Result-cases (desk.peer_args req.args)) [
  | inl (p, h) ↦
      rw (h, handle)
        (or_refuse_fits (λ r. r.id ≡ req.id) req.id "peer_reset_failed" _ _ (λ v. refl) (λ e. refl))
  | inr (m, h) ↦ rw (h, handle) refl
]
handle-HasId desk now archive_rollover req d = elim (Result-cases (desk.rollover_args req.args)) [
  | inl (stream, h) ↦
      rw (h, handle) (with_archive-Fits (λ r. r.id ≡ req.id) _ _ req.id d (λ v. refl))
  | inr (m, h) ↦ rw (h, handle) refl
]
handle-HasId desk now unsupported req d = elim (Bool-cases (str_eq req.cmd "events_subscribe")) [
  | inl e ↦ rw (e) refl
  | inr e ↦ rw (e) refl
]

-- The id with which a line is answered.
abbrev pub id_of : Desk → String → String
id_of desk line = elim (desk.parse_request (desk.trim_end line)) [
  | err e ↦ "unknown"
  | ok req ↦ req.id
]

pub handle_line-HasId :
    (desk : Desk) (now : ℤ) (line : String) (d : Daemon)
    → HasId (id_of desk line) (handle_line desk now line d).0
unfolding handle_line refuse
handle_line-HasId desk now line d = elim (Result-cases (desk.parse_request (desk.trim_end line))) [
  | inl (req, h) ↦ rw (h, handle_line, id_of) (handle-HasId desk now (from_request req) req d)
  | inr (m, h) ↦ rw (h, handle_line, id_of) refl
]
