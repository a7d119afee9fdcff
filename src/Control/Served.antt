-- ===== src/Control/Served.antt =====
-- src/bin/focl.rs and src/bin/focld.rs: a command of the command line, served by the daemon.
use focl.Base.{String, some, ◌≡◌, refl, ap, inl, inr, ◌⊎◌, ok, arith, ◌∙◌}
use Prim.Native.String.{◌++◌}
use focl.Base.Int.{ℤ}
use focl.Control.{Value, ControlResponse}
use focl.Control.Daemon.{Desk, Daemon, Reply, respond, subscribe, close, handle_line}
use focl.Control.Client.{
  Commands, start, stop, reload, peer, rib, archive, Link, request, request_of, main, printed,
  send_control_request, send,
}
use focl.Control.Executed.{Executed, line-Executed}
use focl.Control.Told.{ReadsArgs, first_line, IsStream, IsAnswer, Told, line-Told}

main_sends :
    (link : Link) (socket : String) (c : Commands) (call : String × Value)
    → request_of c ≡ some call
    → main link socket c ≡ send link socket call
unfolding main request_of
main_sends link socket (start config) call e = absurd (ground arith)
main_sends link socket stop call e = ap (send link socket) (ground arith)
main_sends link socket reload call e = ap (send link socket) (ground arith)
main_sends link socket (peer c) call e = ap (send link socket) (ground arith)
main_sends link socket (rib c) call e = ap (send link socket) (ground arith)
main_sends link socket (archive c) call e = ap (send link socket) (ground arith)

sent_back :
    (link : Link) (socket payload line : String) (call : String × Value) (r : ControlResponse)
    → link.connect socket ≡ ok tt
    → link.to_text (request link call.0 call.1) ≡ ok payload
    → link.exchange (payload ++ "\n") ≡ ok line
    → link.parse_response (link.trim_end line) ≡ ok r
    → send link socket call ≡ ok (printed r)
unfolding send send_control_request
sent_back link socket payload line call r c t x p = rw (c, t, x, p) refl

-- `focl` and `focld` agree on the messages. Take a command of the command line but the one that starts
-- the daemon, with a stream that its parser lets through; its socket is connected, its line and the
-- response's are exchanged, and the daemon and `focl` read in them what was written, a peer's name and
-- a stream's among it. Then the daemon carries out that command, as `Executed` says for each: the
-- call on the peers or on the archive that it is for, whose value is answered, whose changes and no
-- others the daemon has, and whose error is refused or, for the archive, closes the connection. And
-- `focl` prints the response, which has the id of its request and succeeds or has an error about the
-- peer that was named, unless the connection is closed. No such command is answered by an error on
-- the request's form, its arguments or its name, in whatever state the daemon is.
pub main-served :
    (desk : Desk) (link : Link) (to_line : ControlResponse → String) (now : ℤ) (d : Daemon)
    (socket payload : String) (c : Commands) (call : String × Value)
    → ReadsArgs desk
    → IsStream c
    → request_of c ≡ some call
    → link.connect socket ≡ ok tt
    → link.to_text (request link call.0 call.1) ≡ ok payload
    → desk.parse_request (desk.trim_end (payload ++ "\n")) ≡ ok (request link call.0 call.1)
    → link.exchange (payload ++ "\n")
      ≡ ok (first_line to_line (handle_line desk now (payload ++ "\n") d).0)
    → ((r : ControlResponse)
        → ((handle_line desk now (payload ++ "\n") d).0 ≡ respond r)
        → (link.parse_response (link.trim_end (to_line r)) ≡ ok r))
    → Executed desk now link.id c d (handle_line desk now (payload ++ "\n") d)
      × (((e : String) × ((handle_line desk now (payload ++ "\n") d).0 ≡ close e))
          ⊎ ((r : ControlResponse) × ((handle_line desk now (payload ++ "\n") d).0 ≡ respond r)
              × (main link socket c ≡ ok (printed r))
              × IsAnswer link.id r))
main-served desk link to_line now d socket payload c call w h e n t q x y = (
  line-Executed desk link w now d c call payload h e q,
  told_cases (handle_line desk now (payload ++ "\n") d).0 refl
      (line-Told desk link w now d c call payload h e q),
)
  where
    told_cases :
        (out : Reply)
        → (handle_line desk now (payload ++ "\n") d).0 ≡ out
        → Told link.id out
        → ((m : String) × ((handle_line desk now (payload ++ "\n") d).0 ≡ close m))
          ⊎ ((r : ControlResponse) × ((handle_line desk now (payload ++ "\n") d).0 ≡ respond r)
              × (main link socket c ≡ ok (printed r))
              × IsAnswer link.id r)
    told_cases (close m) s k = inl (m, s)
    told_cases (subscribe r) s k = absurd k
    told_cases (respond r) s k = inr (
      r,
      s,
      main_sends link socket c call e
          ∙ sent_back link socket payload (to_line r) call r n t
              (x ∙ ap (λ o. ok (first_line to_line o)) s) (y r s),
      k,
    )
