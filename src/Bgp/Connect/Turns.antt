-- ===== src/Bgp/Connect/Turns.antt =====
-- src/bgp/mod.rs: a turn of `peer_loop` on the session that `run_active_session` or
-- `run_passive_session` runs.
use focl.Base.{ℕ, String, Bool, Option, none, some, List, ◌∷◌, Result, ok, err, ◌≡◌, refl}
use focl.Net.{NetText, SocketAddr}
use focl.Config.{PeerConfig}
use focl.Types.{connect}
use focl.Bgp.{PrefixEntry}
use focl.Bgp.Auth.{Call, Os}
use focl.Bgp.Connect.{
  session_on, active_stream, passive_stream, run_active_session, run_passive_session,
}
use focl.Bgp.Session.{Effect, sets, Script, Run, after_session, peer_turn}

-- What a turn sees of an attempt to connect.
abbrev pub attempt_of : Result SocketAddr → Option String
attempt_of (ok stream) = none
attempt_of (err e) = some e

-- `peer_loop` around the session.
abbrev pub around : Run (Unit {0}) → List Effect × Bool
around run = let (es, ended) = after_session run in (sets connect none none ∷ es, ended)

module _ (router_id global_asn : ℕ) (prefixes : List PrefixEntry) (peer : PeerConfig)
    (x : Script) where
  turn_of :
      (made : List Call) (r : Result SocketAddr)
      → peer_turn router_id global_asn prefixes peer (attempt_of r, x)
        ≡ around (session_on router_id global_asn prefixes peer x (made, r)).1
  unfolding peer_turn session_on after_session
  turn_of made (ok stream) = refl
  turn_of made (err e) = refl

  -- The turn of an active peer is the one on its attempt to connect.
  pub active_turn :
      (os : Os) (net : NetText)
      → peer_turn router_id global_asn prefixes peer (attempt_of (active_stream os net peer).1, x)
        ≡ around (run_active_session os net router_id global_asn prefixes peer x).1
  unfolding run_active_session
  active_turn os net = turn_of (active_stream os net peer).0 (active_stream os net peer).1

  -- That of a passive peer is the one on the connection that it accepts.
  pub passive_turn :
      (os : Os) (net : NetText)
      → peer_turn router_id global_asn prefixes peer (attempt_of (passive_stream os net peer).1, x)
        ≡ around (run_passive_session os net router_id global_asn prefixes peer x).1
  unfolding run_passive_session
  passive_turn os net = turn_of (passive_stream os net peer).0 (passive_stream os net peer).1
