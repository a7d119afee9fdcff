-- ===== src/Bgp/Session/States.antt =====
-- src/bgp/mod.rs: the states that a peer goes through.
use focl.Base.{
  ℕ, suc, ◌+◌, ◌*◌, String, Bool, true, false, ◌≡◌, ◌⊎◌, inl, inr, refl, ap, Option, none, some,
  List, [], ◌∷◌, ◌++◌, arith, if◌then◌else◌, ok, err, unwrap_or, Result-cases,
}
use focl.Config.{PeerConfig}
use focl.Types.{PeerState, idle, connect, active, open_sent, established}
use focl.Bgp.{PrefixEntry, BgpMessage}
use focl.Bgp.Announce.{build_announce_update}
use focl.Bgp.Session.{
  Effect, sets, sends, advertises, keeps_alive, Outcome, Turn, Script, Run, ◌>>=◌, attempt,
  hold_time_of, keepalive_secs, sec, expect_open, expect_keep_alive, announce, receive, expire_if,
  keep_up, next_after, session_loop, handshake, serve, run_session, after_session, peer_turn,
  peer_loop,
}

abbrev pub states : List Effect → List PeerState
states [] = []
states (sets state _ _ ∷ es) = state ∷ states es
states (sends _ ∷ es) = states es
states (advertises _ ∷ es) = states es
states (keeps_alive _ ∷ es) = states es

pub states-append : (es fs : List Effect) → states (es ++ fs) ≡ states es ++ states fs
states-append [] fs = refl
states-append (sets state _ _ ∷ es) fs = ap (◌∷◌ state) (states-append es fs)
states-append (sends _ ∷ es) fs = states-append es fs
states-append (advertises _ ∷ es) fs = states-append es fs
states-append (keeps_alive _ ∷ es) fs = states-append es fs

-- An action that sets no state.
pub record IsQuiet {A : Type 0} (m : Run A) : Type 0 where
  pub none_set : states m.0 ≡ []

>>=-IsQuiet :
    {A B : Type 0} (m : Run A) (f : A → Run B)
    → IsQuiet m
    → ((a : A) → IsQuiet (f a))
    → IsQuiet (m >>= f)
>>=-IsQuiet (es, ok a) f h k = record {
  none_set = rw (states-append es (f a).0, h.none_set) ((k a).none_set);
}
>>=-IsQuiet (es, err e) f h k = record { none_set = h.none_set }

attempt-IsQuiet : (w : Option String) (m : BgpMessage) → IsQuiet (attempt w (sends m))
attempt-IsQuiet none m = record { none_set = refl }
attempt-IsQuiet (some e) m = record { none_set = refl }

announce-IsQuiet :
    (w : ℕ → Option String) (router_id local_as n : ℕ) (ps : List PrefixEntry)
    → IsQuiet (announce w router_id local_as n ps)
unfolding announce
announce-IsQuiet w router_id local_as n [] = record { none_set = refl }
announce-IsQuiet w router_id local_as n (p ∷ ps) =
    >>=-IsQuiet (attempt (w n) (sends (build_announce_update p router_id local_as))) _
      (attempt-IsQuiet (w n) _) (λ _. announce-IsQuiet w router_id local_as (suc n) ps)

keep_up-IsQuiet : (next : ℕ) (t : Turn) → IsQuiet (keep_up next t)
unfolding keep_up
keep_up-IsQuiet next t = record { none_set = ground arith }

expire_if-IsQuiet : (b : Bool) → IsQuiet (expire_if b)
expire_if-IsQuiet true = record { none_set = refl }
expire_if-IsQuiet false = record { none_set = refl }

receive-IsQuiet : (hold deadline : ℕ) (o : Outcome) → IsQuiet (receive hold deadline o)
unfolding receive
receive-IsQuiet hold deadline o = record { none_set = ground arith }

session_loop-IsQuiet :
    (hold interval next deadline : ℕ) (ts : List Turn)
    → IsQuiet (session_loop hold interval next deadline ts)
unfolding session_loop
session_loop-IsQuiet hold interval next deadline [] = record { none_set = refl }
session_loop-IsQuiet hold interval next deadline (t ∷ ts) =
    >>=-IsQuiet (keep_up next t) _ (keep_up-IsQuiet next t) λ _.
      >>=-IsQuiet (expire_if _) _ (expire_if-IsQuiet _) λ _.
        >>=-IsQuiet (receive hold deadline t.outcome) _ (receive-IsQuiet hold deadline t.outcome)
          λ d. session_loop-IsQuiet hold interval (next_after interval next t) d ts

-- The states of a session: `OpenSent`, then perhaps `Established`; for certain if it goes on.
abbrev Opens : Run (Unit {0}) → Type 0
Opens (es, ok _) = states es ≡ open_sent ∷ established ∷ []
Opens (es, err _) = (states es ≡ open_sent ∷ []) ⊎ (states es ≡ open_sent ∷ established ∷ [])

handshake-Opens :
    (router_id local_as hold_time : ℕ) (x : Script)
    → Opens (handshake router_id local_as hold_time x)
unfolding handshake expect_open expect_keep_alive
handshake-Opens router_id local_as hold_time x = ground arith

>>=-Opens :
    (m : Run (Unit {0})) (f : Unit {0} → Run (Unit {0}))
    → Opens m
    → ((a : Unit {0}) → IsQuiet (f a))
    → Opens (m >>= f)
>>=-Opens (es, err e) f h k = h
>>=-Opens (es, ok a) f h k =
    let same : states (es ++ (f a).0) ≡ open_sent ∷ established ∷ [] =
      rw (states-append es (f a).0, h, (k a).none_set) in
    elim (Result-cases (f a).1) [ inl (u, e) ↦ rw e same | inr (x, e) ↦ rw e (inr same) ]

pub serve-IsQuiet :
    (router_id local_as hold_time : ℕ) (prefixes : List PrefixEntry) (x : Script)
    → IsQuiet (serve router_id local_as hold_time prefixes x)
unfolding serve
serve-IsQuiet router_id local_as hold_time prefixes x =
    let interval = keepalive_secs hold_time * sec in
    >>=-IsQuiet (announce x.write_errors router_id local_as 2 prefixes) _
      (announce-IsQuiet x.write_errors router_id local_as 2 prefixes)
      λ _. record {
        none_set =
            (session_loop-IsQuiet (hold_time * sec) interval (x.start + interval)
              (x.start_hold + hold_time * sec) x.turns).none_set;
      }

run_session-Opens :
    (router_id global_asn : ℕ) (prefixes : List PrefixEntry) (peer : PeerConfig) (x : Script)
    → Opens (run_session router_id global_asn prefixes peer x)
unfolding run_session
run_session-Opens router_id global_asn prefixes peer x =
    >>=-Opens (handshake router_id (unwrap_or peer.local_as global_asn) (hold_time_of peer) x) _
      (handshake-Opens router_id (unwrap_or peer.local_as global_asn) (hold_time_of peer) x)
      (λ _.
        serve-IsQuiet router_id (unwrap_or peer.local_as global_asn) (hold_time_of peer) prefixes x)

-- The moves between states that a peer can make.
infix 4 ◌⟶◌
pub data ◌⟶◌ : PeerState → PeerState → Type 0 where
  begins : idle ⟶ connect
  opens : connect ⟶ open_sent
  gives_up : connect ⟶ active
  refused : open_sent ⟶ active
  agreed : open_sent ⟶ established
  lost : established ⟶ active
  retries : active ⟶ connect

-- Each state follows from the one before.
abbrev pub Follows : PeerState → List PeerState → Type 0
Follows p [] = Unit {0}
Follows p (q ∷ qs) = (p ⟶ q) × Follows q qs

-- The states of one turn of `peer_loop`, by whether its session has ended.
abbrev TurnStates : Bool → List PeerState → Type 0
TurnStates false l = l ≡ connect ∷ open_sent ∷ established ∷ []
TurnStates true l =
    (l ≡ connect ∷ active ∷ [])
    ⊎ (l ≡ connect ∷ open_sent ∷ active ∷ [])
    ⊎ (l ≡ connect ∷ open_sent ∷ established ∷ active ∷ [])

after_session-states :
    (m : Run (Unit {0}))
    → Opens m
    → TurnStates (after_session m).1 (connect ∷ states (after_session m).0)
unfolding after_session
after_session-states (es, ok u) h = ap (◌∷◌ connect) h
after_session-states (es, err e) h =
    ground (arith, states-append es (sets active (some e) none ∷ []))

peer_turn-states :
    (router_id global_asn : ℕ) (prefixes : List PrefixEntry) (peer : PeerConfig)
    (a : Option String × Script)
    → TurnStates
        (peer_turn router_id global_asn prefixes peer a).1
        (states (peer_turn router_id global_asn prefixes peer a).0)
unfolding peer_turn
peer_turn-states router_id global_asn prefixes peer (none, x) =
    after_session-states (run_session router_id global_asn prefixes peer x)
      (run_session-Opens router_id global_asn prefixes peer x)
peer_turn-states router_id global_asn prefixes peer (some e, x) = inl refl

-- A turn from a state that leads to `Connect`, and what follows it.
TurnStates-Follows :
    (ended : Bool) (l rest : List PeerState) (p : PeerState)
    → p ⟶ connect
    → TurnStates ended l
    → ((q : PeerState) → q ⟶ connect → Follows q rest)
    → Follows p (if ended then l ++ rest else l)
TurnStates-Follows false l rest p c h k = rw h (c, (opens, (agreed, tt)))
TurnStates-Follows true l rest p c (inl h) k = rw h (c, (gives_up, k active retries))
TurnStates-Follows true l rest p c (inr (inl h)) k = rw h (c, (opens, (refused, k active retries)))
TurnStates-Follows true l rest p c (inr (inr h)) k =
    rw h (c, (opens, (agreed, (lost, k active retries))))

states-if :
    (b : Bool) (es fs : List Effect)
    → states (if b then es ++ fs else es) ≡ (if b then states es ++ states fs else states es)
states-if true es fs = states-append es fs
states-if false es fs = refl

peer_loop-Follows :
    (router_id global_asn : ℕ) (prefixes : List PrefixEntry) (peer : PeerConfig)
    (attempts : List (Option String × Script)) (p : PeerState)
    → p ⟶ connect
    → Follows p (states (peer_loop router_id global_asn prefixes peer attempts))
unfolding peer_loop
peer_loop-Follows router_id global_asn prefixes peer [] p c = tt
peer_loop-Follows router_id global_asn prefixes peer (a ∷ rest) p c =
    let (es, ended) = peer_turn router_id global_asn prefixes peer a in
    let later = peer_loop router_id global_asn prefixes peer rest in
    rw (states-if ended es later) (
      TurnStates-Follows ended (states es) (states later) p c
        (peer_turn-states router_id global_asn prefixes peer a)
        (peer_loop-Follows router_id global_asn prefixes peer rest))

-- Whatever the outside does, the states that `peer_loop` sets for a peer, in any number of turns,
-- start from `Idle` and make only the moves of the table: `Connect` to `OpenSent` or `Active`,
-- `OpenSent` to `Established` or `Active`, `Established` to `Active`, `Active` to `Connect`.
pub peer_loop-states :
    (router_id global_asn : ℕ) (prefixes : List PrefixEntry) (peer : PeerConfig)
    (attempts : List (Option String × Script))
    → Follows idle (states (peer_loop router_id global_asn prefixes peer attempts))
peer_loop-states router_id global_asn prefixes peer attempts =
    peer_loop-Follows router_id global_asn prefixes peer attempts idle begins
