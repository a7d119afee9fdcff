-- ===== src/Control/Told.antt =====
-- src/bin/focld.rs: how the daemon answers the requests that the command line sends.
use focl.Base.{
  String, Bool, true, ◌||◌, Result-cases, Option, none, some, ◌≡◌, refl, subst, inl, inr, ◌⊎◌,
  Result, ok, err, str_eq, arith,
}
use Prim.Native.String.{◌++◌}
use focl.Base.Int.{ℤ}
use focl.Archive.Service.{Act}
use focl.Control.{
  updates, ribs, Value, text, object, field, ControlError, ControlResponse, answer, refuse, kind_of,
}
use focl.Control.Daemon.{
  Desk, Daemon, Reply, respond, subscribe, close, with_archive, with_peer, or_refuse, handle,
  handle_line,
}
use focl.Control.Client.{
  PeerCommands, list, show, reset, RibCommands, summary, received, out, ArchiveCommands, status,
  rollover, snapshot, destinations, retry, Commands, start, stop, reload, peer, rib, archive, Link,
  request, request_of, peer_request, rib_request, archive_request,
}
use focl.Control.Answers.{with_peer_fits, or_refuse_fits, show_response_fits}

-- What serde documents of the arguments that the command line writes.
pub record ReadsArgs (desk : Desk) : Type 0 where
  pub peer_read :
      (p : String) → desk.peer_args (object (field "peer" (text p))) ≡ ok (record { peer = p })
  pub updates_read :
      desk.rollover_args (object (field "stream" (text "updates")))
      ≡ ok (record { stream = updates })
  pub ribs_read :
      desk.rollover_args (object (field "stream" (text "ribs"))) ≡ ok (record { stream = ribs })

-- The first line of a daemon's answer; a connection that is closed gives the empty one.
abbrev pub first_line : (ControlResponse → String) → Reply → String
first_line to_line (respond r) = to_line r
first_line to_line (subscribe r) = to_line r
first_line to_line (close e) = ""

-- The values that the parser of the command line lets through.
abbrev pub IsStream : Commands → Type 0
IsStream (archive (rollover stream)) = (stream ≡ "updates") ⊎ (stream ≡ "ribs")
IsStream (archive status) = Unit {0}
IsStream (archive snapshot) = Unit {0}
IsStream (archive destinations) = Unit {0}
IsStream (archive retry) = Unit {0}
IsStream (start config) = Unit {0}
IsStream stop = Unit {0}
IsStream reload = Unit {0}
IsStream (peer c) = Unit {0}
IsStream (rib c) = Unit {0}

-- The request was understood: the error, if there is one, is about the peer that was named.
unfoldable pub understood : Option ControlError → Bool
understood none = true
understood (some e) =
    str_eq e.code "peer_not_found"
    || str_eq e.code "peer_reset_failed"
    || str_eq e.code "rib_in_failed"
    || str_eq e.code "rib_out_failed"

abbrev pub IsAnswer : String → ControlResponse → Type 0
IsAnswer id r = (r.id ≡ id) × (understood r.error ≡ true)

abbrev pub Told : String → Reply → Type 0
Told id (respond r) = IsAnswer id r
Told id (subscribe r) = ⊥
Told id (close e) = Unit {0}

module _ (id : String) where
  answer-IsAnswer : (v : Value) → IsAnswer id (answer id v)
  unfolding answer understood
  answer-IsAnswer v = (refl, refl)

  with_archive-Told :
      {A : Type 0} (act : Act A) (to_value : A → Value) (d : Daemon)
      → Told id (with_archive act to_value id d).0
  unfolding with_archive
  with_archive-Told act to_value d = elim (Result-cases (act (d.archive, d.files)).0) [
    | inl (a, h) ↦ rw (h, with_archive) (answer-IsAnswer (to_value a))
    | inr (m, h) ↦ rw (h, with_archive) tt
  ]

  refuse-IsAnswer :
      (code e : String)
      → understood (some (record { code = code; message = e })) ≡ true
      → IsAnswer id (refuse id code e)
  unfolding refuse
  refuse-IsAnswer code e h = (refl, h)

abbrev reply : Desk → ℤ → Link → Daemon → String × Value → Reply
reply desk now link d (cmd, args) = (handle desk now (kind_of cmd) (request link cmd args) d).0

module _ (desk : Desk) (link : Link) (w : ReadsArgs desk) (now : ℤ) (d : Daemon) where
  on_peer :
      (label cmd p : String) (next : String → ControlResponse)
      → ((q : String) → IsAnswer link.id (next q))
      → IsAnswer link.id
          (with_peer desk label (request link cmd (object (field "peer" (text p)))) next)
  on_peer label cmd p next k =
      with_peer_fits (IsAnswer link.id) desk label
        (request link cmd (object (field "peer" (text p)))) next k (λ e h. absurd (clash p e h))
    where
      clash : (p e : String) → desk.peer_args (object (field "peer" (text p))) ≡ err e → ⊥
      clash p e h = let both = w.peer_read p in ground arith

  or_refused :
      {A : Type 0} (code : String) (to_value : A → Value) (r : Result A)
      → understood (some (record { code = code; message = "" })) ≡ true
      → IsAnswer link.id (or_refuse link.id code to_value r)
  unfolding understood
  or_refused code to_value r h =
      or_refuse_fits (IsAnswer link.id) link.id code to_value r (answer-IsAnswer link.id)
        (λ e. refuse-IsAnswer link.id code e h)

  peer-Told : (c : PeerCommands) → Told link.id (reply desk now link d (peer_request c))
  unfolding handle kind_of understood
  peer-Told list = answer-IsAnswer link.id _
  peer-Told (show p) = on_peer "peer_show" "peer_show" p _ (λ q.
      show_response_fits (IsAnswer link.id) desk link.id _ (answer-IsAnswer link.id)
        (refuse-IsAnswer link.id "peer_not_found" "peer not found" refl))
  peer-Told (reset p) = rw (w.peer_read p, handle) (or_refused "peer_reset_failed" _ _ refl)

  rib-Told : (c : RibCommands) → Told link.id (reply desk now link d (rib_request c))
  unfolding handle kind_of understood
  rib-Told summary = answer-IsAnswer link.id _
  rib-Told (received p) = on_peer "rib_in" "rib_in" p _ (λ q. or_refused "rib_in_failed" _ _ refl)
  rib-Told (out p) = on_peer "rib_out" "rib_out" p _ (λ q. or_refused "rib_out_failed" _ _ refl)

  archive-Told :
      (c : ArchiveCommands)
      → IsStream (archive c)
      → Told link.id (reply desk now link d (archive_request c))
  unfolding handle kind_of
  archive-Told status h = with_archive-Told link.id _ _ d
  archive-Told snapshot h = with_archive-Told link.id _ _ d
  archive-Told retry h = with_archive-Told link.id _ _ d
  archive-Told destinations h = answer-IsAnswer link.id _
  archive-Told (rollover stream) (inl e) =
      rw (e, w.updates_read, handle) (with_archive-Told link.id _ _ d)
  archive-Told (rollover stream) (inr e) =
      rw (e, w.ribs_read, handle) (with_archive-Told link.id _ _ d)

  -- What a command sends is answered so.
  Asked : Option (String × Value) → Type 0
  Asked none = Unit {0}
  Asked (some call) = Told link.id (reply desk now link d call)

  command-Asked : (c : Commands) → IsStream c → Asked (request_of c)
  unfolding Asked request_of handle kind_of
  command-Asked (start config) h = tt
  command-Asked stop h = answer-IsAnswer link.id _
  command-Asked reload h = answer-IsAnswer link.id _
  command-Asked (peer c) h = peer-Told c
  command-Asked (rib c) h = rib-Told c
  command-Asked (archive c) h = archive-Told c h

  pub line-Told :
      (c : Commands) (call : String × Value) (payload : String)
      → IsStream c
      → request_of c ≡ some call
      → desk.parse_request (desk.trim_end (payload ++ "\n")) ≡ ok (request link call.0 call.1)
      → Told link.id (handle_line desk now (payload ++ "\n") d).0
  unfolding handle_line Asked
  line-Told c call payload h e t = rw (t, handle_line) (subst Asked e (command-Asked c h))
