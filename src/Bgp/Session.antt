-- ===== src/Bgp/Session.antt =====
-- src/bgp/mod.rs: `run_session`, `send_prefix_announcements` and one turn of `peer_loop`.
-- A session is run against a script of what the outside does: the results of its reads and writes
-- and the readings of the clocks. It yields what it does, in order, and its result. A session that
-- is still in its loop where the script ends has the result `ok`; the code itself returns errors
-- only. Instants are numbers of nanoseconds.
pub mod States
pub mod Greeting
pub mod Timers
use focl.Base.{
  ℕ, suc, ◌+◌, ◌*◌, ◌/◌, min, max, ◌-◌, String, Bool, true, false, not, Option, none, some, List,
  [], ◌∷◌, ◌++◌, unwrap_or, leb, if◌then◌else◌, length, Result, ok, err,
}
use focl.Base.Int.{ℤ}
use focl.Config.{PeerConfig}
use focl.Types.{PeerState, connect, active, open_sent, established}
use focl.Bgp.{
  PrefixEntry, BgpMessage, open_message, update_message, notification_message, keep_alive,
}
use focl.Bgp.Announce.{build_announce_update}

-- What a session does: calls of `set_peer_state`, messages written, the count of prefixes set, and
-- the keepalives of the loop, with their instants.
pub data Effect : Type 0 where
  sets : PeerState → Option String → Option ℤ → Effect
  sends : BgpMessage → Effect
  advertises : ℕ → Effect
  keeps_alive : ℕ → Effect

-- What a read under `timeout` gives: a message and the instant at which the deadline is set anew,
-- an error, or nothing in time.
pub data Outcome : Type 0 where
  got : BgpMessage → ℕ → Outcome
  read_failed : String → Outcome
  timed_out : Outcome

-- One turn of the loop: the instant that it starts at, the error of a keepalive that it writes, if
-- it writes one and that fails, and the outcome of its read.
pub record Turn : Type 0 where
  pub now : ℕ
  pub write_error : Option String
  pub outcome : Outcome

-- `start` and `start_hold` are the two readings of the clock before the loop, one for each timer.
pub record Script : Type 0 where
  pub write_errors : ℕ → Option String
  pub first : Result BgpMessage
  pub second : Result BgpMessage
  pub timestamp : ℤ
  pub start : ℕ
  pub start_hold : ℕ
  pub turns : List Turn

abbrev pub Run : Type 0 → Type 0
Run A = List Effect × Result A

infixl 5 ◌>>=◌ ◌>>◌
abbrev pub ◌>>=◌ : {A B : Type 0} → Run A → (A → Run B) → Run B
(es, ok a) >>= f = (es ++ (f a).0, (f a).1)
(es, err e) >>= f = (es, err e)

abbrev pub ◌>>◌ : {B : Type 0} → Run (Unit {0}) → Run B → Run B
m >> k = m >>= λ _. k

abbrev pub emit : Effect → Run (Unit {0})
emit e = (e ∷ [], ok tt)

abbrev pub lift : {A : Type 0} → Result A → Run A
lift r = ([], r)

-- `write_bgp_message`: the message is written, or the write fails.
abbrev pub attempt : Option String → Effect → Run (Unit {0})
attempt none e = emit e
attempt (some error) e = ([], err error)

abbrev pub sec : ℕ
sec = 1000000000

unfoldable pub hold_time_of : PeerConfig → ℕ
hold_time_of peer = max peer.hold_time_secs 3

abbrev pub keepalive_secs : ℕ → ℕ
keepalive_secs hold_time = max (hold_time / 3) 1

unfoldable pub expect_open : BgpMessage → Run (Unit {0})
expect_open (open_message _) = lift (ok tt)
expect_open (update_message _) = ([], err "expected OPEN from peer")
expect_open (notification_message _) = ([], err "expected OPEN from peer")
expect_open keep_alive = ([], err "expected OPEN from peer")

unfoldable pub expect_keep_alive : BgpMessage → Run (Unit {0})
expect_keep_alive keep_alive = lift (ok tt)
expect_keep_alive (open_message _) = ([], err "expected KEEPALIVE from peer after OPEN")
expect_keep_alive (update_message _) = ([], err "expected KEEPALIVE from peer after OPEN")
expect_keep_alive (notification_message _) = ([], err "expected KEEPALIVE from peer after OPEN")

-- The loop of `send_prefix_announcements`; `n` writes came before.
unfoldable pub announce : (ℕ → Option String) → ℕ → ℕ → ℕ → List PrefixEntry → Run (Unit {0})
announce write_errors router_id local_as n [] = lift (ok tt)
announce write_errors router_id local_as n (p ∷ ps) =
    attempt (write_errors n) (sends (build_announce_update p router_id local_as))
    >> announce write_errors router_id local_as (suc n) ps

-- The `match` on what was read: the new deadline.
unfoldable pub receive : ℕ → ℕ → Outcome → Run ℕ
receive hold deadline (got (open_message _) after) = lift (ok (after + hold))
receive hold deadline (got (update_message _) after) = lift (ok (after + hold))
receive hold deadline (got keep_alive after) = lift (ok (after + hold))
receive hold deadline (got (notification_message _) after) =
    ([], err "received NOTIFICATION from peer")
receive hold deadline (read_failed error) = ([], err error)
receive hold deadline timed_out = lift (ok deadline)

abbrev pub expire_if : Bool → Run (Unit {0})
expire_if true = ([], err "hold timer expired")
expire_if false = ([], ok tt)

-- The start of a turn: the keepalive, if it is due.
unfoldable pub keep_up : ℕ → Turn → Run (Unit {0})
keep_up next t = if leb next t.now then attempt t.write_error (keeps_alive t.now) else ([], ok tt)

abbrev pub next_after : ℕ → ℕ → Turn → ℕ
next_after interval next t = if leb next t.now then t.now + interval else next

-- The time that a read may take, from the start of its turn.
abbrev pub timeout_dur : ℕ → ℕ → ℕ
timeout_dur next now = min (next - now) sec

-- The loop of `run_session`, a turn at a time.
unfoldable pub session_loop : ℕ → ℕ → ℕ → ℕ → List Turn → Run (Unit {0})
session_loop hold interval next deadline [] = lift (ok tt)
session_loop hold interval next deadline (t ∷ ts) = do
  keep_up next t
  expire_if (leb deadline t.now)
  deadline' ← receive hold deadline t.outcome
  session_loop hold interval (next_after interval next t) deadline' ts

-- The part of `run_session` up to `Established`.
unfoldable pub handshake : ℕ → ℕ → ℕ → Script → Run (Unit {0})
handshake router_id local_as hold_time x = do
  emit (sets open_sent none none)
  attempt (x.write_errors 0) (
      sends (
        open_message (record {
          version = 4;
          asn = local_as;
          hold_time = hold_time;
          sender_ip = router_id;
          extended_length = false;
          opt_params = [];
        })))
  incoming ← lift x.first
  expect_open incoming
  attempt (x.write_errors 1) (sends keep_alive)
  incoming ← lift x.second
  expect_keep_alive incoming
  emit (sets established none (some x.timestamp))

-- The part of `run_session` behind it; `local_as` is that of `send_prefix_announcements`.
unfoldable pub serve : ℕ → ℕ → ℕ → List PrefixEntry → Script → Run (Unit {0})
serve router_id local_as hold_time prefixes x =
    let interval = keepalive_secs hold_time * sec in
    do
      announce x.write_errors router_id local_as 2 prefixes
      emit (advertises (length prefixes))
      session_loop (hold_time * sec) interval (x.start + interval) (x.start_hold + hold_time * sec)
          x.turns

unfoldable pub run_session : ℕ → ℕ → List PrefixEntry → PeerConfig → Script → Run (Unit {0})
run_session router_id global_asn prefixes peer x =
    let local_as = unwrap_or peer.local_as global_asn in
    let hold_time = hold_time_of peer in
    handshake router_id local_as hold_time x >> serve router_id local_as hold_time prefixes x

-- What `peer_loop` does after a session, and whether the session has ended.
unfoldable pub after_session : Run (Unit {0}) → List Effect × Bool
after_session (es, ok _) = (es, false)
after_session (es, err error) = (es ++ sets active (some error) none ∷ [], true)

-- A turn of `peer_loop`: an attempt to connect, which fails or gives a session to run.
unfoldable pub peer_turn :
    ℕ → ℕ → List PrefixEntry → PeerConfig → Option String × Script → List Effect × Bool
peer_turn router_id global_asn prefixes peer (none, x) =
    let (es, ended) = after_session (run_session router_id global_asn prefixes peer x) in
    (sets connect none none ∷ es, ended)
peer_turn router_id global_asn prefixes peer (some error, x) =
    (sets connect none none ∷ sets active (some error) none ∷ [], true)

-- `peer_loop`: the next turn begins when a session has ended.
unfoldable pub peer_loop :
    ℕ → ℕ → List PrefixEntry → PeerConfig → List (Option String × Script) → List Effect
peer_loop router_id global_asn prefixes peer [] = []
peer_loop router_id global_asn prefixes peer (a ∷ as') =
    let (es, ended) = peer_turn router_id global_asn prefixes peer a in
    let rest = peer_loop router_id global_asn prefixes peer as' in if ended then es ++ rest else es
