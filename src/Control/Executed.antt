-- ===== src/Control/Executed.antt =====
-- src/bin/focl.rs and src/bin/focld.rs: what each command of the command line is for, without the names
-- and the forms of the requests, and that the daemon carries out that one.
use focl.Base.{
  String, true, Option, none, some, ◌≡◌, refl, sym, inl, inr, ◌⊎◌, Result, ok, err, Result-cases,
  subst,
}
use Prim.Native.String.{◌++◌}
use focl.Base.Int.{ℤ, pos}
use focl.Bgp.{PeerInfo}
use focl.Bgp.Peers.{peer_list, peer_show, peer_reset, rib_summary, rib_out, rib_in}
use focl.Archive.Types
use focl.Archive.Service.{Act}
use focl.Archive.Service.Rounds
use focl.Archive.Service.Reports
use focl.Control.{
  Value, boolean, number, text, array, object, field, ControlResponse, answer, refuse, kind_of,
}
use focl.Control.Rendered.{
  status_result, segment_value, destination_values, values_of, prefixes_value,
}
use focl.Control.Daemon.{
  Desk, Daemon, Reply, respond, close, with_archive, with_peer, or_refuse, show_response, handle,
  handle_line,
}
use focl.Control.Client.{
  PeerCommands, list, show, reset, RibCommands, summary, received, out, ArchiveCommands, status,
  rollover, snapshot, destinations, retry, Commands, start, stop, reload, peer, rib, archive, Link,
  request, request_of, peer_request, rib_request, archive_request,
}
use focl.Control.Told.{ReadsArgs, IsStream}

-- A reply with this value, which leaves the daemon so.
abbrev Answers : String → Value → Daemon → Reply × Daemon → Type 0
Answers id value after (reply, d') = (reply ≡ respond (answer id value)) × (d' ≡ after)

-- A call of the archive: its value is answered, its error closes the connection; the archive and the files
-- are as it leaves them.
abbrev Calls : {A : Type 0} → Act A → (A → Value) → String → Daemon → Reply × Daemon → Type 0
Calls {A} act to_value id d (reply, d') =
    let (result, (kept, files)) = act (d.archive, d.files) in
    (((a : A) × (result ≡ ok a) × (reply ≡ respond (answer id (to_value a))))
      ⊎ ((e : String) × (result ≡ err e) × (reply ≡ close e)))
    × (d' ≡ record d { archive = kept; files = files })

-- A call on the peers: its value is answered, its error refused with this code.
abbrev Tells :
    {A : Type 0} → Result A → String → (A → Value) → String → Daemon → Reply × Daemon → Type 0
Tells {A} result code to_value id after (reply, d') =
    (((a : A) × (result ≡ ok a) × (reply ≡ respond (answer id (to_value a))))
      ⊎ ((e : String) × (result ≡ err e) × (reply ≡ respond (refuse id code e))))
    × (d' ≡ after)

-- A look for a peer.
abbrev Shows : Desk → Option PeerInfo → String → Daemon → Reply × Daemon → Type 0
Shows desk found id after (reply, d') =
    (((i : PeerInfo) × (found ≡ some i)
        × (reply ≡ respond (answer id (object (field "peer" (desk.peer_value i))))))
      ⊎ ((found ≡ none) × (reply ≡ respond (refuse id "peer_not_found" "peer not found"))))
    × (d' ≡ after)

-- What a command is for.
abbrev pub Executed : Desk → ℤ → String → Commands → Daemon → Reply × Daemon → Type 0
Executed desk now id (start config) d r = ⊥
Executed desk now id stop d r =
    Answers id (object (field "shutting_down" (boolean true))) (record d { shutting_down = true }) r
Executed desk now id reload d r = Answers id (object (field "reloaded" (boolean true))) d r
Executed desk now id (peer list) d r =
    Answers id (object (field "peers" (array (values_of desk.peer_value (peer_list d.bgp))))) d r
Executed desk now id (peer (show p)) d r = Shows desk (peer_show p d.bgp) id d r
Executed desk now id (peer (reset p)) d r =
    Tells (peer_reset p d.bgp).0 "peer_reset_failed" (λ _. object (field "reset" (boolean true))) id
      (record d { bgp = (peer_reset p d.bgp).1 }) r
Executed desk now id (rib summary) d r =
    Answers id (object (field "summary" (desk.summary_value (rib_summary d.bgp)))) d r
Executed desk now id (rib (received p)) d r =
    Tells (rib_in p d.bgp) "rib_in_failed" (prefixes_value p) id d r
Executed desk now id (rib (out p)) d r =
    Tells (rib_out desk.net p d.bgp) "rib_out_failed" (prefixes_value p) id d r
Executed desk now id (archive status) d r =
    Calls (Reports.status desk.kit) (λ s. desk.status_value (status_result s)) id d r
Executed desk now id (archive (rollover stream)) d r =
    ((stream ≡ "updates")
      × Calls (Rounds.rollover desk.kit now Types.updates) (λ _. object (field "ok" (boolean true)))
          id d r)
    ⊎ ((stream ≡ "ribs")
        × Calls (Rounds.rollover desk.kit now Types.ribs) (λ _. object (field "ok" (boolean true)))
            id d r)
Executed desk now id (archive snapshot) d r =
    Calls (Rounds.snapshot_now desk.kit (Rounds.empty_snapshot now 0)) segment_value id d r
Executed desk now id (archive destinations) d r =
    Answers id
      (object (field "destinations" (array (destination_values (Reports.destinations d.archive)))))
      d r
Executed desk now id (archive retry) d r =
    Calls (Reports.retry_failed_replications desk.kit)
      (λ count. object (field "retried_jobs" (number (pos count)))) id d r

with_archive-Calls :
    {A : Type 0} (act : Act A) (to_value : A → Value) (id : String) (d : Daemon)
    → Calls act to_value id d (with_archive act to_value id d)
unfolding with_archive
with_archive-Calls act to_value id d = elim (Result-cases (act (d.archive, d.files)).0) [
  | inl (a, e) ↦ rw (e, with_archive) (inl (a, refl, refl), refl)
  | inr (m, e) ↦ rw (e, with_archive) (inr (m, refl, refl), refl)
]

or_refuse-Tells :
    {A : Type 0} (result : Result A) (code : String) (to_value : A → Value) (id : String)
    (after : Daemon)
    → Tells result code to_value id after (respond (or_refuse id code to_value result), after)
unfolding or_refuse
or_refuse-Tells (ok a) code to_value id after = (inl (a, refl, refl), refl)
or_refuse-Tells (err e) code to_value id after = (inr (e, refl, refl), refl)

show_response-Shows :
    (desk : Desk) (found : Option PeerInfo) (id : String) (after : Daemon)
    → Shows desk found id after (respond (show_response desk id found), after)
unfolding show_response
show_response-Shows desk (some i) id after = (inl (i, refl, refl), refl)
show_response-Shows desk none id after = (inr (refl, refl), refl)

abbrev served : Desk → ℤ → Link → Daemon → String × Value → Reply × Daemon
served desk now link d (cmd, args) = handle desk now (kind_of cmd) (request link cmd args) d

module _ (desk : Desk) (link : Link) (w : ReadsArgs desk) (now : ℤ) (d : Daemon) where
  peer_named :
      (label cmd p : String) (next : String → ControlResponse)
      → with_peer desk label (request link cmd (object (field "peer" (text p)))) next ≡ next p
  unfolding with_peer
  peer_named label cmd p next = rw (w.peer_read p, with_peer) refl

  peer-Executed :
      (c : PeerCommands)
      → Executed desk now link.id (peer c) d (served desk now link d (peer_request c))
  unfolding handle kind_of
  peer-Executed list = (refl, refl)
  peer-Executed (show p) =
      subst (λ r. Shows desk (peer_show p d.bgp) link.id d (respond r, d))
        (sym (peer_named "peer_show" "peer_show" p _))
        (show_response-Shows desk (peer_show p d.bgp) link.id d)
  peer-Executed (reset p) =
      rw (w.peer_read p, handle)
        (or_refuse-Tells (peer_reset p d.bgp).0 "peer_reset_failed" _ link.id
          (record d { bgp = (peer_reset p d.bgp).1 }))

  rib-Executed :
      (c : RibCommands)
      → Executed desk now link.id (rib c) d (served desk now link d (rib_request c))
  unfolding handle kind_of
  rib-Executed summary = (refl, refl)
  rib-Executed (received p) =
      subst
        (λ r. Tells (rib_in p d.bgp) "rib_in_failed" (prefixes_value p) link.id d (respond r, d))
        (sym (peer_named "rib_in" "rib_in" p _))
        (or_refuse-Tells (rib_in p d.bgp) "rib_in_failed" (prefixes_value p) link.id d)
  rib-Executed (out p) =
      subst
        (λ r.
          Tells (rib_out desk.net p d.bgp) "rib_out_failed" (prefixes_value p) link.id d
            (respond r, d))
        (sym (peer_named "rib_out" "rib_out" p _))
        (or_refuse-Tells (rib_out desk.net p d.bgp) "rib_out_failed" (prefixes_value p) link.id d)

  archive-Executed :
      (c : ArchiveCommands)
      → IsStream (archive c)
      → Executed desk now link.id (archive c) d (served desk now link d (archive_request c))
  unfolding handle kind_of
  archive-Executed status h = with_archive-Calls (Reports.status desk.kit) _ link.id d
  archive-Executed snapshot h =
      with_archive-Calls (Rounds.snapshot_now desk.kit (Rounds.empty_snapshot now 0)) _ link.id d
  archive-Executed retry h =
      with_archive-Calls (Reports.retry_failed_replications desk.kit) _ link.id d
  archive-Executed destinations h = (refl, refl)
  archive-Executed (rollover stream) (inl e) = inl (
    e,
    rw (e, w.updates_read, handle)
        (with_archive-Calls (Rounds.rollover desk.kit now Types.updates) _ link.id d),
  )
  archive-Executed (rollover stream) (inr e) = inr (
    e,
    rw (e, w.ribs_read, handle)
        (with_archive-Calls (Rounds.rollover desk.kit now Types.ribs) _ link.id d),
  )

  -- What a command sends is served so.
  IsServed : Commands → Option (String × Value) → Type 0
  IsServed c none = Unit {0}
  IsServed c (some call) = Executed desk now link.id c d (served desk now link d call)

  command-Executed : (c : Commands) → IsStream c → IsServed c (request_of c)
  unfolding IsServed request_of handle kind_of
  command-Executed (start config) h = tt
  command-Executed stop h = (refl, refl)
  command-Executed reload h = (refl, refl)
  command-Executed (peer c) h = peer-Executed c
  command-Executed (rib c) h = rib-Executed c
  command-Executed (archive c) h = archive-Executed c h

  pub line-Executed :
      (c : Commands) (call : String × Value) (payload : String)
      → IsStream c
      → request_of c ≡ some call
      → desk.parse_request (desk.trim_end (payload ++ "\n")) ≡ ok (request link call.0 call.1)
      → Executed desk now link.id c d (handle_line desk now (payload ++ "\n") d)
  unfolding handle_line IsServed
  line-Executed c call payload h e t =
      rw (t, handle_line) (subst (IsServed c) e (command-Executed c h))
