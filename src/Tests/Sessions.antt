-- ===== src/Tests/Sessions.antt =====
-- A codec, a frame, and a session that comes up and is lost.
use focl.Base.{
  ℕ, ◌-◌, ◌*◌, ◌≤◌, String, true, false, Option, none, some, List, [], ◌∷◌, ◌++◌, ◌≡◌, ◌⊎◌, inr,
  refl, arith, ok, err, length, take,
}
use focl.Base.Int.{pos}
use focl.Net.{v6}
use focl.Types.{idle}
use focl.Bgp.{keep_alive, open_message, PrefixEntry}
use focl.Bgp.Framing.{
  Codec, header_len, max_len, marker, write_bgp_message, read_bgp_message, length_field, parse,
}
use focl.Bgp.Framing.Frames.{Encodes, read-write, read_bgp_message_frame}
use focl.Bgp.Announce.{build_announce_update, hop_of, next_hop_shared_iff}
use focl.Bgp.Session.{
  Turn, Script, got, timed_out, read_failed, sec, session_loop, run_session, peer_loop,
}
use focl.Bgp.Session.States.{Follows, states, peer_loop-states}
use focl.Bgp.Session.Greeting.{mem_established, established_iff_greeted}
use focl.Bgp.Session.Timers.{Timely, Kept, session_loop-Kept, Alive, session_loop-Alive}
use focl.Tests.Config.{peer_at}

-- A codec that knows one message.
abbrev frame : List ℕ
frame = marker ++ 0 ∷ 19 ∷ 4 ∷ []

abbrev codec : Codec
codec = record {
  encode = λ m. frame;
  parse_32 = λ bytes. ok keep_alive;
  parse_16 = λ bytes. err "no";
}

keep_alive-Encodes : Encodes codec keep_alive
unfolding length_field
keep_alive-Encodes = record {
  least = omega arith;
  most = omega arith;
  stated = refl;
  parses = refl;
}

read-write_example : read_bgp_message codec (frame ++ 7 ∷ []) ≡ (ok keep_alive, 7 ∷ [])
unfolding write_bgp_message
read-write_example = read-write codec keep_alive frame (7 ∷ []) keep_alive-Encodes refl

read_bgp_message_frame_example :
    (f : List ℕ) × (frame ++ 7 ∷ [] ≡ f ++ 7 ∷ [])
    × (take 16 f ≡ marker)
    × (length_field f ≡ length f)
    × (header_len ≤ length f)
    × (length f ≤ max_len)
    × (parse codec f ≡ ok keep_alive)
read_bgp_message_frame_example =
    read_bgp_message_frame codec (frame ++ 7 ∷ []) (7 ∷ []) keep_alive read-write_example

abbrev v6_entry : PrefixEntry
v6_entry = record { network = record { addr = v6 42; prefix_len = 64 }; next_hop = none }

next_hop_shared_iff_example :
    hop_of (build_announce_update v6_entry 1 64500)
    ≡ hop_of (build_announce_update v6_entry 2 64500)
next_hop_shared_iff_example = (next_hop_shared_iff v6_entry 1 2 64500 refl).1 (inr (42, refl))

-- Two turns: a KEEPALIVE after half a second, then silence up to the keepalive that is due.
abbrev turns : List Turn
turns =
    record { now = 0; write_error = none; outcome = got keep_alive (sec - 5) }
    ∷ record { now = sec; write_error = none; outcome = timed_out }
    ∷ []

turns-Timely : Timely 7 sec sec 0 turns
turns-Timely = (omega arith, (omega arith, tt))

session_loop-Kept_example : Kept 7 sec sec turns (session_loop (3 * sec) sec sec (3 * sec) turns)
session_loop-Kept_example =
    session_loop-Kept 7 (3 * sec) sec (omega arith) sec (3 * sec) 0 turns (omega arith) turns-Timely

session_loop-Alive_example :
    (((session_loop (3 * sec) sec sec (3 * sec) turns).1 ≡ ok tt) × Alive (3 * sec) (3 * sec) turns)
    ⊎ (((session_loop (3 * sec) sec sec (3 * sec) turns).1 ≡ err "hold timer expired")
        × ¬ (Alive (3 * sec) (3 * sec) turns))
session_loop-Alive_example =
    session_loop-Alive (3 * sec) sec sec (3 * sec) turns (refl, tt, (refl, tt, tt))

abbrev script : Script
script = record {
  write_errors = λ n. none;
  first = ok (
      open_message (record {
        version = 4;
        asn = 64501;
        hold_time = 90;
        sender_ip = 3221225986;
        extended_length = false;
        opt_params = [];
      }));
  second = ok keep_alive;
  timestamp = pos 100;
  start = 0;
  start_hold = 1;
  turns = record { now = 0; write_error = none; outcome = read_failed "reset" } ∷ [];
}

abbrev entries : List PrefixEntry
entries = v6_entry ∷ []

established_iff_greeted_example :
    mem_established (states (run_session 3221225985 64500 entries (peer_at "192.0.2.2") script).0)
    ≡ true
established_iff_greeted_example =
    established_iff_greeted 3221225985 64500 entries (peer_at "192.0.2.2") script

-- A failed attempt to connect, then a session, then another failed attempt.
abbrev attempts : List (Option String × Script)
attempts = (some "refused", script) ∷ (none, script) ∷ (some "refused", script) ∷ []

peer_loop-states_example :
    Follows idle (states (peer_loop 3221225985 64500 entries (peer_at "192.0.2.2") attempts))
peer_loop-states_example = peer_loop-states 3221225985 64500 entries (peer_at "192.0.2.2") attempts
