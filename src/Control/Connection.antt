-- ===== src/Control/Connection.antt =====
-- src/bin/focld.rs: a connection of the control socket, `handle_client`, from its first line to its end.
-- What the other tasks do to the daemon between two lines is an argument.
use focl.Base.{
  ℕ, suc, String, Bool, true, false, ◌||◌, ◌&&◌, Option, none, some, List, [], ◌∷◌, Result, ok, err,
}
use focl.Base.Int.{ℤ}
use focl.Types.{EventEnvelope}
use focl.Control.{ControlResponse}
use focl.Control.Daemon.{Desk, Daemon, Reply, respond, subscribe, close, handle_line}

-- What `recv` of a subscription gives.
pub data Received : Type 0 where
  event : EventEnvelope → Received
  lagged : ℕ → Received
  closed : Received

-- Where the task of a connection may be dropped: as it waits for its n-th line, and before the payload
-- and before the line end of its n-th message.
pub data Moment : Type 0 where
  reading writing ending : ℕ → Moment

-- The errors of the two writes of the n-th message, its payload, which includes its text from serde, and
-- its line end; the time when the n-th line is served; what happens to the daemon before that; and
-- the events after a subscription. `main` returns some time after it was told to stop, and the
-- runtime then drops this task: `told` is whether someone else has told it by then, and `dropped`
-- whether, if it was told at all, the task is gone.
pub record Wire : Type 0 where
  pub payload_error : ℕ → Option String
  pub newline_error : ℕ → Option String
  pub clock : ℕ → ℤ
  pub meanwhile : ℕ → Daemon → Daemon
  pub told : Moment → Bool
  pub dropped : Moment → Bool
  pub received : List Received

-- What was written: a whole message, or a payload without its line end.
pub data Sent : Type 0 where
  sent_response : ControlResponse → Sent
  sent_event : EventEnvelope → Sent
  unended : Sent

-- How a connection ends: at the end of its lines, at the end of the events, with an error, or with
-- `main`; or it still waits for events.
pub data Outcome : Type 0 where
  at_eof : Outcome
  events_closed : Outcome
  failed : String → Outcome
  with_main : Outcome
  watching : Outcome

abbrev pub is_dropped : Wire → Moment → Daemon → Bool
is_dropped wire m d = (d.shutting_down || wire.told m) && wire.dropped m

-- What the task does next, if it is still there.
abbrev pub unless_dropped :
    Bool → List Sent → Daemon → (Outcome × List Sent) × Daemon → (Outcome × List Sent) × Daemon
unless_dropped true messages d next = ((with_main, messages), d)
unless_dropped false messages d next = next

-- A write, and what follows it.
abbrev pub unless_failed :
    Option String
    → List Sent
    → Daemon
    → (Outcome × List Sent) × Daemon
    → (Outcome × List Sent) × Daemon
unless_failed (some e) messages d next = ((failed e, messages), d)
unless_failed none messages d next = next

abbrev pub after_message : Sent → (Outcome × List Sent) × Daemon → (Outcome × List Sent) × Daemon
after_message message ((outcome, messages), d) = ((outcome, message ∷ messages), d)

-- `write_response`, and the same two writes for an event; and what follows them.
unfoldable pub write_then :
    Wire → ℕ → Sent → Daemon → (Outcome × List Sent) × Daemon → (Outcome × List Sent) × Daemon
write_then wire n message d rest = unless_dropped (is_dropped wire (writing n) d) [] d (
    unless_failed (wire.payload_error n) [] d (
      unless_dropped (is_dropped wire (ending n) d) (unended ∷ []) d
        (unless_failed (wire.newline_error n) (unended ∷ []) d (after_message message rest))))

-- The loop of a subscription.
unfoldable pub forward : Wire → ℕ → List Received → Daemon → (Outcome × List Sent) × Daemon
forward wire n [] d = ((watching, []), d)
forward wire n (event e ∷ more) d = write_then wire n (sent_event e) d (forward wire (suc n) more d)
forward wire n (lagged _ ∷ more) d = forward wire n more d
forward wire n (closed ∷ more) d = ((events_closed, []), d)

-- The write of a reply, and what follows it.
abbrev pub conclude :
    Wire → ℕ → Reply → Daemon → (Outcome × List Sent) × Daemon → (Outcome × List Sent) × Daemon
conclude wire n (close e) d rest = ((failed e, []), d)
conclude wire n (subscribe r) d rest =
    write_then wire n (sent_response r) d (forward wire (suc n) wire.received d)
conclude wire n (respond r) d rest = write_then wire n (sent_response r) d rest

-- `handle_client`: the lines, or the error of a read, up to the end of the stream.
unfoldable pub handle_client :
    Desk → Wire → ℕ → List (Result String) → Daemon → (Outcome × List Sent) × Daemon
handle_client desk wire n [] d =
    let before = wire.meanwhile n d in
    unless_dropped (is_dropped wire (reading n) before) [] before ((at_eof, []), before)
handle_client desk wire n (err e ∷ lines) d =
    let before = wire.meanwhile n d in
    unless_dropped (is_dropped wire (reading n) before) [] before ((failed e, []), before)
handle_client desk wire n (ok line ∷ lines) d =
    let before = wire.meanwhile n d in
    let (reply, d') = handle_line desk (wire.clock n) line before in
    unless_dropped (is_dropped wire (reading n) before) [] before
      (conclude wire n reply d' (handle_client desk wire (suc n) lines d'))
