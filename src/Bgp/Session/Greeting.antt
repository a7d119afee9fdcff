-- ===== src/Bgp/Session/Greeting.antt =====
-- src/bgp/mod.rs: when a session is established.
use mathlib.Core.List.{append-nil}
use focl.Base.{
  ℕ, Bool, true, false, ◌&&◌, ◌≡◌, refl, ap, ◌∙◌, List, [], ◌∷◌, arith, is_none, Result, ok, err,
  unwrap_or,
}
use focl.Config.{PeerConfig}
use focl.Types.{PeerState, established}
use focl.Bgp.{PrefixEntry, BgpMessage, open_message, keep_alive}
use focl.Bgp.Session.States.{states, states-append, IsQuiet, serve-IsQuiet}
use focl.Bgp.Session.{
  Script, Run, ◌>>=◌, hold_time_of, expect_open, expect_keep_alive, handshake, run_session,
}

abbrev pub mem_established : List PeerState → Bool
mem_established [] = false
mem_established (established ∷ l) = true
mem_established (_ ∷ l) = mem_established l

abbrev pub is_open : Result BgpMessage → Bool
is_open (ok (open_message _)) = true
is_open _ = false

abbrev pub is_keep_alive : Result BgpMessage → Bool
is_keep_alive (ok keep_alive) = true
is_keep_alive _ = false

-- A handshake that goes through: both writes, an OPEN, then a KEEPALIVE.
abbrev pub greeted : Script → Bool
greeted x =
    is_none (x.write_errors 0)
    && (is_open x.first && (is_none (x.write_errors 1) && is_keep_alive x.second))

handshake-greeted :
    (router_id local_as hold_time : ℕ) (x : Script)
    → mem_established (states (handshake router_id local_as hold_time x).0) ≡ greeted x
unfolding handshake expect_open expect_keep_alive
handshake-greeted router_id local_as hold_time x = ground arith

states->>= :
    (m : Run (Unit {0})) (f : Unit {0} → Run (Unit {0}))
    → ((a : Unit {0}) → IsQuiet (f a))
    → states (m >>= f).0 ≡ states m.0
states->>= (es, err e) f k = refl
states->>= (es, ok a) f k = rw (states-append es (f a).0, (k a).none_set) (append-nil (states es))

-- A session sets `Established` exactly when its OPEN is written, the first message it reads is an
-- OPEN, its KEEPALIVE is written and the second message is a KEEPALIVE.
pub established_iff_greeted :
    (router_id global_asn : ℕ) (prefixes : List PrefixEntry) (peer : PeerConfig) (x : Script)
    → mem_established (states (run_session router_id global_asn prefixes peer x).0) ≡ greeted x
unfolding run_session
established_iff_greeted router_id global_asn prefixes peer x =
    let local_as = unwrap_or peer.local_as global_asn in
    let hold_time = hold_time_of peer in
    ap mem_established (
      states->>= (handshake router_id local_as hold_time x) _
        (λ _. serve-IsQuiet router_id local_as hold_time prefixes x))
    ∙ handshake-greeted router_id local_as hold_time x
