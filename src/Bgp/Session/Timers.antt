-- ===== src/Bgp/Session/Timers.antt =====
-- src/bgp/mod.rs: the keepalive and hold timers of an established session.
use focl.Base.{
  if◌then◌else◌, ℕ, ◌+◌, ◌≤◌, ◌<◌, Bool, true, false, All, Option, some, String, ◌≡◌, ◌⊎◌, inl,
  refl, none, List, [], ◌∷◌, arith, leb, ok, err,
}
use focl.Bgp.{notification_message}
use focl.Bgp.Session.{
  Effect, sets, sends, advertises, keeps_alive, Outcome, got, read_failed, timed_out, Turn, Run,
  attempt, ◌>>=◌, ◌>>◌, timeout_dur, receive, expire_if, keep_up, next_after, session_loop,
}

-- Each turn starts by the end of the one before it: the time that its read may take, and the slack
-- of the scheduler.
abbrev pub Timely : ℕ → ℕ → ℕ → ℕ → List Turn → Type 0
Timely slack interval next bound [] = Unit {0}
Timely slack interval next bound (t ∷ ts) =
    (t.now ≤ bound)
    × Timely slack interval (next_after interval next t)
        (t.now + timeout_dur (next_after interval next t) t.now + slack) ts

-- Keepalives one interval apart: none early, and none late by more than the slack.
abbrev pub Paced : ℕ → ℕ → ℕ → List Effect → Type 0
Paced slack interval next [] = Unit {0}
Paced slack interval next (keeps_alive k ∷ es) =
    (next ≤ k) × (k ≤ next + slack) × Paced slack interval (k + interval) es
Paced slack interval next (sets _ _ _ ∷ es) = Paced slack interval next es
Paced slack interval next (sends _ ∷ es) = Paced slack interval next es
Paced slack interval next (advertises _ ∷ es) = Paced slack interval next es

-- The effects of the rest of a turn, behind its keepalive.
abbrev rest_of : ℕ → ℕ → ℕ → ℕ → Turn → List Turn → Run (Unit {0})
rest_of hold interval next deadline t ts =
    expire_if (leb deadline t.now)
    >> (receive hold deadline t.outcome >>= λ d.
        session_loop hold interval (next_after interval next t) d ts)

-- When the next keepalive is due, behind these effects.
abbrev pub due : ℕ → ℕ → List Effect → ℕ
due interval next [] = next
due interval next (keeps_alive k ∷ es) = due interval (k + interval) es
due interval next (sets _ _ _ ∷ es) = due interval next es
due interval next (sends _ ∷ es) = due interval next es
due interval next (advertises _ ∷ es) = due interval next es

-- The keepalives are paced, and while there is no error none is left out: each turn that has started
-- did so before the next one is due.
abbrev pub Kept : ℕ → ℕ → ℕ → List Turn → Run (Unit {0}) → Type 0
Kept slack interval next ts (es, r) =
    Paced slack interval next es
    × ((r ≡ ok tt) → All (λ (t : Turn). t.now < due interval next es) ts)

later_due :
    (slack interval next : ℕ) (es : List Effect)
    → Paced slack interval next es
    → next ≤ due interval next es
later_due slack interval next [] h = omega arith
later_due slack interval next (keeps_alive k ∷ es) (early, late, h) =
    omega (arith, early, later_due slack interval (k + interval) es h)
later_due slack interval next (sets _ _ _ ∷ es) h = later_due slack interval next es h
later_due slack interval next (sends _ ∷ es) h = later_due slack interval next es h
later_due slack interval next (advertises _ ∷ es) h = later_due slack interval next es h

-- An action with no effect leaves the pace to what follows.
silent-Kept :
    {A : Type 0} (slack interval next : ℕ) (ts : List Turn) (m : Run A) (f : A → Run (Unit {0}))
    → m.0 ≡ []
    → ((a : A) → Kept slack interval next ts (f a))
    → Kept slack interval next ts (m >>= f)
silent-Kept slack interval next ts (es, ok a) f e h = rw e (h a)
silent-Kept slack interval next ts (es, err x) f e h = rw e (tt, λ k. absurd (ground arith))

expire_if-silent : (b : Bool) → (expire_if b).0 ≡ []
expire_if-silent true = refl
expire_if-silent false = refl

receive-silent : (hold deadline : ℕ) (o : Outcome) → (receive hold deadline o).0 ≡ []
unfolding receive
receive-silent hold deadline o = ground arith

module _ (slack interval : ℕ) (positive : 0 < interval) where
  -- A keepalive at its time, which is written or fails.
  sent_in_time :
      (next : ℕ) (t : Turn) (ts : List Turn) (o : Option String) (rest : Run (Unit {0}))
      → next ≤ t.now
      → t.now ≤ next + slack
      → Kept slack interval (t.now + interval) ts rest
      → Kept slack interval next (t ∷ ts) (attempt o (keeps_alive t.now) >> rest)
  sent_in_time next t ts (some e) rest early late h = (tt, λ k. absurd (ground arith))
  sent_in_time next t ts none (es, r) early late (paced, started) = (
    (early, late, paced),
    λ k. (omega (arith, later_due slack interval (t.now + interval) es paced), started k),
  )

  -- The start of a turn, whichever the test gives.
  turn_Kept :
      (next : ℕ) (t : Turn) (ts : List Turn) (rest : Run (Unit {0})) (b : Bool)
      → leb next t.now ≡ b
      → t.now ≤ next + slack
      → Kept slack interval (if b then t.now + interval else next) ts rest
      → Kept slack interval next
          (t ∷ ts)
          ((if b then attempt t.write_error (keeps_alive t.now) else ([], ok tt)) >> rest)
  turn_Kept next t ts rest true e late h =
      sent_in_time next t ts t.write_error rest (ground arith) late h
  turn_Kept next t ts (es, r) false e late (paced, started) =
      let early : t.now < next = ground arith in
      (paced, λ k. (omega (arith, early, later_due slack interval next es paced), started k))

  keep_up-Kept :
      (next : ℕ) (t : Turn) (ts : List Turn) (rest : Run (Unit {0}))
      → t.now ≤ next + slack
      → Kept slack interval (next_after interval next t) ts rest
      → Kept slack interval next (t ∷ ts) (keep_up next t >> rest)
  unfolding keep_up
  keep_up-Kept next t ts rest late h = turn_Kept next t ts rest (leb next t.now) refl late h

module _ (slack hold interval : ℕ) (positive : 0 < interval) where
  rest_of-Kept :
      (next deadline : ℕ) (t : Turn) (ts : List Turn)
      → ((d : ℕ)
          → Kept slack interval
              (next_after interval next t)
              ts
              (session_loop hold interval (next_after interval next t) d ts))
      → Kept slack interval
          (next_after interval next t)
          ts
          (rest_of hold interval next deadline t ts)
  rest_of-Kept next deadline t ts h =
      silent-Kept slack interval (next_after interval next t) ts (expire_if (leb deadline t.now)) _
        (expire_if-silent (leb deadline t.now))
        λ _.
          silent-Kept slack interval (next_after interval next t) ts
            (receive hold deadline t.outcome) _ (receive-silent hold deadline t.outcome) h

  -- While turns start in time and the interval is not 0, the loop sends its keepalives one interval
  -- apart: the first at the
  -- time set for it, each next one an interval after the one before, never earlier, and later by no
  -- more than the slack. As long as the loop has not ended with an error none of them is left out:
  -- every turn that has started did so before the time at which the next one is due, which is the time
  -- set for the first, or an interval after the last one that was sent.
  pub session_loop-Kept :
      (next deadline bound : ℕ) (ts : List Turn)
      → bound ≤ next + slack
      → Timely slack interval next bound ts
      → Kept slack interval next ts (session_loop hold interval next deadline ts)
  unfolding session_loop
  session_loop-Kept next deadline bound [] b w = (tt, λ k. tt)
  session_loop-Kept next deadline bound (t ∷ ts) b w =
      keep_up-Kept slack interval positive next t ts (rest_of hold interval next deadline t ts)
        (omega arith)
        (rest_of-Kept next deadline t ts λ d.
          session_loop-Kept (next_after interval next t) d
            (t.now + timeout_dur (next_after interval next t) t.now + slack) ts (ground arith) w.1)

-- The deadline after an outcome.
abbrev pub deadline_after : ℕ → ℕ → Outcome → ℕ
deadline_after hold deadline (got _ after) = after + hold
deadline_after hold deadline (read_failed _) = deadline
deadline_after hold deadline timed_out = deadline

-- Every turn starts before the deadline, which each message sets anew.
abbrev pub Alive : ℕ → ℕ → List Turn → Type 0
Alive hold deadline [] = Unit {0}
Alive hold deadline (t ∷ ts) =
    (t.now < deadline) × Alive hold (deadline_after hold deadline t.outcome) ts

abbrev pub CalmOutcome : Outcome → Type 0
CalmOutcome (got (notification_message _) _) = ⊥
CalmOutcome (got _ _) = Unit {0}
CalmOutcome (read_failed _) = ⊥
CalmOutcome timed_out = Unit {0}

-- No write and no read fails, and no NOTIFICATION comes.
abbrev pub IsCalm : List Turn → Type 0
IsCalm [] = Unit {0}
IsCalm (t ∷ ts) = (t.write_error ≡ none) × CalmOutcome t.outcome × IsCalm ts

-- On a calm connection the hold timer alone decides: if every turn starts before the deadline, which
-- each message sets anew, the loop goes on to the end of the script, and if not it ends with the error
-- "hold timer expired".
pub session_loop-Alive :
    (hold interval next deadline : ℕ) (ts : List Turn)
    → IsCalm ts
    → (((session_loop hold interval next deadline ts).1 ≡ ok tt) × Alive hold deadline ts)
      ⊎ (((session_loop hold interval next deadline ts).1 ≡ err "hold timer expired")
          × ¬ (Alive hold deadline ts))
unfolding session_loop keep_up receive
session_loop-Alive hold interval next deadline [] c = inl (refl, tt)
session_loop-Alive hold interval next deadline (t ∷ ts) c = ground (
  arith,
  session_loop-Alive hold interval (next_after interval next t)
      (deadline_after hold deadline t.outcome) ts c.2,
)
