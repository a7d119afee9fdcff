-- ===== src/Control/Complete.antt =====
-- src/bin/focld.rs: the connections that are answered to their end, and a request that ends one.
use mathlib.Core.List.{append-nil}
use focl.Base.{
  ℕ, suc, String, Result-cases, none, List, [], ◌∷◌, ◌++◌, ◌≡◌, refl, ap, sym, subst, ◌∙◌, inl, inr,
  Result, ok, err, str_eq, false,
}
use focl.Base.Int.{ℤ}
use focl.Archive.Types.{FinalizedSegment}
use focl.Archive.World.{World}
use focl.Archive.Service.{ArchiveService}
use focl.Archive.Service.Disabled.{snapshot_now_refused}
use focl.Archive.Service.Rounds.{snapshot_now, empty_snapshot}
use focl.Control.{
  ControlRequest, ControlResponse, refuse, CommandKind, ping, daemon_status, shutdown, reload,
  peer_list, peer_show, peer_reset, rib_summary, rib_in, rib_out, archive_status, archive_rollover,
  archive_snapshot_now, archive_destinations, archive_replicator_retry, unsupported, from_request,
}
use focl.Control.Rendered.{segment_value}
use focl.Control.Daemon.{
  Desk, Daemon, Reply, respond, close, with_archive, concluded, handle, handle_line,
}
use focl.Control.Queries.{IsQuery, handle-Unchanged}
use focl.Control.Connection.{
  Moment, reading, writing, ending, Wire, Sent, sent_response, unended, Outcome, at_eof, failed,
  is_dropped, unless_dropped, unless_failed, after_message, write_then, conclude, handle_client,
}
use focl.Control.Ordered.{asked, answered, InOrder, handle_client-InOrder}

-- The requests that await no call of the archive, ask for no events and do not stop the daemon.
abbrev pub IsPlain : CommandKind → ControlRequest → Type 0
IsPlain daemon_status req = ⊥
IsPlain archive_status req = ⊥
IsPlain archive_rollover req = ⊥
IsPlain archive_snapshot_now req = ⊥
IsPlain archive_replicator_retry req = ⊥
IsPlain unsupported req = str_eq req.cmd "events_subscribe" ≡ false
IsPlain ping req = Unit {0}
IsPlain shutdown req = ⊥
IsPlain reload req = Unit {0}
IsPlain peer_list req = Unit {0}
IsPlain peer_show req = Unit {0}
IsPlain peer_reset req = Unit {0}
IsPlain rib_summary req = Unit {0}
IsPlain rib_in req = Unit {0}
IsPlain rib_out req = Unit {0}
IsPlain archive_destinations req = Unit {0}

abbrev pub Responds : Reply → Type 0
Responds reply = (r : ControlResponse) × (reply ≡ respond r)

handle-Responds :
    (desk : Desk) (now : ℤ) (kind : CommandKind) (req : ControlRequest) (d : Daemon)
    → IsPlain kind req
    → Responds (handle desk now kind req d).0
unfolding handle
handle-Responds desk now ping req d h = (_, refl)
handle-Responds desk now shutdown req d h = absurd h
handle-Responds desk now reload req d h = (_, refl)
handle-Responds desk now peer_list req d h = (_, refl)
handle-Responds desk now peer_show req d h = (_, refl)
handle-Responds desk now rib_summary req d h = (_, refl)
handle-Responds desk now rib_in req d h = (_, refl)
handle-Responds desk now rib_out req d h = (_, refl)
handle-Responds desk now archive_destinations req d h = (_, refl)
handle-Responds desk now peer_reset req d h = elim (Result-cases (desk.peer_args req.args)) [
  | inl (p, e) ↦ rw (e, handle) (_, refl)
  | inr (m, e) ↦ rw (e, handle) (_, refl)
]
handle-Responds desk now unsupported req d h = rw (h) (_, refl)
handle-Responds desk now daemon_status req d h = absurd h
handle-Responds desk now archive_status req d h = absurd h
handle-Responds desk now archive_rollover req d h = absurd h
handle-Responds desk now archive_snapshot_now req d h = absurd h
handle-Responds desk now archive_replicator_retry req d h = absurd h

-- Every line is read, and is plain if it parses.
abbrev pub AllPlain : Desk → List (Result String) → Type 0
AllPlain desk [] = Unit {0}
AllPlain desk (err e ∷ lines) = ⊥
AllPlain desk (ok line ∷ lines) =
    ((req : ControlRequest)
      → (desk.parse_request (desk.trim_end line) ≡ ok req)
      → IsPlain (from_request req) req)
    × AllPlain desk lines

handle_line-Responds :
    (desk : Desk) (now : ℤ) (line : String) (d : Daemon)
    → ((req : ControlRequest)
        → (desk.parse_request (desk.trim_end line) ≡ ok req)
        → IsPlain (from_request req) req)
    → Responds (handle_line desk now line d).0
unfolding handle_line
handle_line-Responds desk now line d h =
    elim (Result-cases (desk.parse_request (desk.trim_end line))) [
      | inl (req, e) ↦
          rw (e, handle_line) (handle-Responds desk now (from_request req) req d (h req e))
      | inr (m, e) ↦ rw (e, handle_line) (refuse "unknown" "invalid_request" m, refl)
    ]

query_up :
    (desk : Desk) (now : ℤ) (kind : CommandKind) (req : ControlRequest) (d : Daemon)
    → IsQuery kind
    → (handle desk now kind req d).1.shutting_down ≡ d.shutting_down
query_up desk now kind req d q = ap (λ x. x.shutting_down) (handle-Unchanged desk now kind req d q)

-- A plain request does not tell `main` to stop.
handle_up :
    (desk : Desk) (now : ℤ) (kind : CommandKind) (req : ControlRequest) (d : Daemon)
    → IsPlain kind req
    → (handle desk now kind req d).1.shutting_down ≡ d.shutting_down
handle_up desk now peer_reset req d h = elim (Result-cases (desk.peer_args req.args)) [
  | inl (p, e) ↦ unfold handle in (rw (e, handle) refl)
  | inr (m, e) ↦ unfold handle in (rw (e, handle) refl)
]
handle_up desk now ping req d h = query_up desk now ping req d tt
handle_up desk now reload req d h = query_up desk now reload req d tt
handle_up desk now peer_list req d h = query_up desk now peer_list req d tt
handle_up desk now peer_show req d h = query_up desk now peer_show req d tt
handle_up desk now rib_summary req d h = query_up desk now rib_summary req d tt
handle_up desk now rib_in req d h = query_up desk now rib_in req d tt
handle_up desk now rib_out req d h = query_up desk now rib_out req d tt
handle_up desk now archive_destinations req d h = query_up desk now archive_destinations req d tt
handle_up desk now unsupported req d h = query_up desk now unsupported req d tt
handle_up desk now shutdown req d h = absurd h
handle_up desk now daemon_status req d h = absurd h
handle_up desk now archive_status req d h = absurd h
handle_up desk now archive_rollover req d h = absurd h
handle_up desk now archive_snapshot_now req d h = absurd h
handle_up desk now archive_replicator_retry req d h = absurd h

handle_line_up :
    (desk : Desk) (now : ℤ) (line : String) (d : Daemon)
    → ((req : ControlRequest)
        → (desk.parse_request (desk.trim_end line) ≡ ok req)
        → IsPlain (from_request req) req)
    → (handle_line desk now line d).1.shutting_down ≡ d.shutting_down
unfolding handle_line
handle_line_up desk now line d h = elim (Result-cases (desk.parse_request (desk.trim_end line))) [
  | inl (req, e) ↦ rw (e, handle_line) (handle_up desk now (from_request req) req d (h req e))
  | inr (m, e) ↦ rw (e, handle_line) refl
]

-- Each message is written, and nobody else tells `main` to stop.
pub record IsUndisturbed (wire : Wire) : Type 0 where
  pub payload : (n : ℕ) → wire.payload_error n ≡ none
  pub newline : (n : ℕ) → wire.newline_error n ≡ none
  pub untold : (m : Moment) → wire.told m ≡ false
  pub others : (n : ℕ) (d : Daemon) → (wire.meanwhile n d).shutting_down ≡ d.shutting_down

module _ (wire : Wire) (u : IsUndisturbed wire) where
  stays :
      (m : Moment) (messages : List Sent) (d : Daemon) (next : (Outcome × List Sent) × Daemon)
      → d.shutting_down ≡ false
      → unless_dropped (is_dropped wire m d) messages d next ≡ next
  stays m messages d next up = rw (u.untold m, up) refl

  written :
      (n : ℕ) (message : Sent) (d : Daemon) (rest : (Outcome × List Sent) × Daemon)
      → d.shutting_down ≡ false
      → write_then wire n message d rest ≡ after_message message rest
  unfolding write_then
  written n message d rest up =
      let ended =
        unless_failed (wire.newline_error n) (unended ∷ []) d (after_message message rest) in
      let end = unless_dropped (is_dropped wire (ending n) d) (unended ∷ []) d ended in
      stays (writing n) [] d (unless_failed (wire.payload_error n) [] d end) up
      ∙ (ap (λ o. unless_failed o [] d end) (u.payload n)
          ∙ (stays (ending n) (unended ∷ []) d ended up
              ∙ ap (λ o. unless_failed o (unended ∷ []) d (after_message message rest))
                  (u.newline n)))

  conclude_eof :
      (n : ℕ) (reply : Reply) (d : Daemon) (rest : (Outcome × List Sent) × Daemon)
      → d.shutting_down ≡ false
      → Responds reply
      → rest.0.0 ≡ at_eof
      → (conclude wire n reply d rest).0.0 ≡ at_eof
  conclude_eof n reply d rest up (r, e) k =
      subst (λ x. (conclude wire n x d rest).0.0 ≡ at_eof) (sym e)
        (ap (λ x. x.0.0) (written n (sent_response r) d rest up) ∙ k)

  ends_at_eof :
      (desk : Desk) (n : ℕ) (lines : List (Result String)) (d : Daemon)
      → d.shutting_down ≡ false
      → AllPlain desk lines
      → (handle_client desk wire n lines d).0.0 ≡ at_eof
  unfolding handle_client
  ends_at_eof desk n [] d up h =
      ap (λ x. x.0.0) (stays (reading n) [] (wire.meanwhile n d) _ (u.others n d ∙ up))
  ends_at_eof desk n (err e ∷ lines) d up h = absurd h
  ends_at_eof desk n (ok line ∷ lines) d up h =
      let before = wire.meanwhile n d in
      let still : before.shutting_down ≡ false = u.others n d ∙ up in
      let (reply, d') = handle_line desk (wire.clock n) line before in
      let still' : d'.shutting_down ≡ false =
        handle_line_up desk (wire.clock n) line before h.0 ∙ still in
      ap (λ x. x.0.0) (stays (reading n) [] before _ still)
      ∙ conclude_eof n reply d' (handle_client desk wire (suc n) lines d') still'
          (handle_line-Responds desk (wire.clock n) line before h.0)
          (ends_at_eof desk (suc n) lines d' still' h.1)

no_rest :
    (ids : List String) (run : Outcome × List Sent)
    → InOrder ids run
    → run.0 ≡ at_eof
    → answered run.1 ≡ ids
no_rest ids run (rest, e, eof) h =
    sym (e ∙ ap (λ l. answered run.1 ++ l) (eof h) ∙ append-nil (answered run.1))

-- When no write and no read fails, nobody tells the daemon to stop, and every request is plain (it
-- awaits no call of the archive, is no subscription and is not `shutdown`), the connection is served
-- up to the end of its stream, and each line has its response, in order, also a line that does not
-- parse or is refused.
pub handle_client_complete :
    (desk : Desk) (wire : Wire) (n : ℕ) (lines : List (Result String)) (d : Daemon)
    → IsUndisturbed wire
    → d.shutting_down ≡ false
    → AllPlain desk lines
    → ((handle_client desk wire n lines d).0.0 ≡ at_eof)
      × (answered (handle_client desk wire n lines d).0.1 ≡ asked desk lines)
handle_client_complete desk wire n lines d u up h =
    let eof = ends_at_eof wire u desk n lines d up h in
    (
      eof,
      no_rest (asked desk lines) (handle_client desk wire n lines d).0
          (handle_client-InOrder desk wire n lines d) eof,
    )

disabled_snapshot :
    (desk : Desk) (now : ℤ) (req : ControlRequest) (d : Daemon)
    → d.archive.cfg.enabled ≡ false
    → handle desk now archive_snapshot_now req d ≡ (close "archive is disabled", d)
unfolding handle with_archive snapshot_now
disabled_snapshot desk now req d off =
    ap
      (λ (out : Result FinalizedSegment × (ArchiveService × World)).
        concluded segment_value req.id d out)
      (snapshot_now_refused desk.kit d.archive d.files off (empty_snapshot now 0))

disabled_line :
    (desk : Desk) (now : ℤ) (line : String) (req : ControlRequest) (d : Daemon)
    → desk.parse_request (desk.trim_end line) ≡ ok req
    → from_request req ≡ archive_snapshot_now
    → d.archive.cfg.enabled ≡ false
    → handle_line desk now line d ≡ (close "archive is disabled", d)
unfolding handle_line
disabled_line desk now line req d p k off =
    rw (p, handle_line, k) (disabled_snapshot desk now req d off)

-- A request for a snapshot ends the connection of a daemon whose archive is disabled, if `main` has not
-- ended it before: nothing is written for it or for the lines after it, and the daemon stays as it is.
pub snapshot-unanswered :
    (desk : Desk) (wire : Wire) (n : ℕ) (line : String) (lines : List (Result String)) (d : Daemon)
    (req : ControlRequest)
    → desk.parse_request (desk.trim_end line) ≡ ok req
    → from_request req ≡ archive_snapshot_now
    → (wire.meanwhile n d).archive.cfg.enabled ≡ false
    → handle_client desk wire n (ok line ∷ lines) d
      ≡ unless_dropped
          (is_dropped wire (reading n) (wire.meanwhile n d))
          []
          (wire.meanwhile n d)
          ((failed "archive is disabled", []), wire.meanwhile n d)
unfolding handle_client
snapshot-unanswered desk wire n line lines d req p k off =
    let before = wire.meanwhile n d in
    ap
      (λ (out : Reply × Daemon).
        unless_dropped (is_dropped wire (reading n) before) [] before
          (conclude wire n out.0 out.1 (handle_client desk wire (suc n) lines out.1)))
      (disabled_line desk (wire.clock n) line req before p k off)
