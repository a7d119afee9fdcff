-- ===== src/Control/Ordered.antt =====
-- src/bin/focld.rs: the responses of a connection, in the order of its lines.
use focl.Base.{
  ℕ, suc, String, Bool, true, false, Option, none, some, List, [], ◌∷◌, ◌++◌, ◌≡◌, refl, ap, sym,
  Result, ok, err, arith,
}
use focl.Control.{ControlResponse}
use focl.Control.Daemon.{Desk, Daemon, Reply, respond, subscribe, close, handle_line}
use focl.Control.Connection.{
  Received, event, lagged, closed, Wire, Sent, sent_response, sent_event, unended, Outcome, at_eof,
  failed, with_main, reading, writing, ending, is_dropped, unless_dropped, unless_failed,
  after_message, forward, conclude, handle_client, write_then,
}
use focl.Control.Answers.{HasId, handle_line-HasId, id_of}

-- The ids of the lines up to the first read that fails.
abbrev pub asked : Desk → List (Result String) → List String
asked desk [] = []
asked desk (err e ∷ lines) = []
asked desk (ok line ∷ lines) = id_of desk line ∷ asked desk lines

-- The ids of the responses that were written to their line end.
abbrev pub answered : List Sent → List String
answered [] = []
answered (sent_response r ∷ more) = r.id ∷ answered more
answered (sent_event e ∷ more) = answered more
answered (unended ∷ more) = answered more

-- The first ids asked are those answered, and all are at the end of the stream.
abbrev pub InOrder : List String → Outcome × List Sent → Type 0
InOrder ids (outcome, sent) =
    (rest : List String) × (ids ≡ answered sent ++ rest) × ((outcome ≡ at_eof) → (rest ≡ []))

-- No response, and not the end of the lines.
abbrev IsSilent : Outcome × List Sent → Type 0
IsSilent (outcome, sent) = (answered sent ≡ []) × ¬ (outcome ≡ at_eof)

-- What holds of an end at once holds of a step that may be the end.
unless_dropped_keeps :
    (P : Outcome × List Sent → Type 0) (b : Bool) (messages : List Sent) (d : Daemon)
    (next : (Outcome × List Sent) × Daemon)
    → P (with_main, messages)
    → P next.0
    → P (unless_dropped b messages d next).0
unless_dropped_keeps P true messages d next h k = h
unless_dropped_keeps P false messages d next h k = k

unless_failed_keeps :
    (P : Outcome × List Sent → Type 0) (o : Option String) (messages : List Sent) (d : Daemon)
    (next : (Outcome × List Sent) × Daemon)
    → ((e : String) → P (failed e, messages))
    → P next.0
    → P (unless_failed o messages d next).0
unless_failed_keeps P (some e) messages d next h k = h e
unless_failed_keeps P none messages d next h k = k

write_then_keeps :
    (P : Outcome × List Sent → Type 0) (wire : Wire) (n : ℕ) (message : Sent) (d : Daemon)
    (rest : (Outcome × List Sent) × Daemon)
    → ((messages : List Sent) → answered messages ≡ [] → P (with_main, messages))
    → ((messages : List Sent) (e : String) → answered messages ≡ [] → P (failed e, messages))
    → P (after_message message rest).0
    → P (write_then wire n message d rest).0
unfolding write_then
write_then_keeps P wire n message d rest h k l =
    unless_dropped_keeps P (is_dropped wire (writing n) d) [] d _ (h [] refl) (
      unless_failed_keeps P (wire.payload_error n) [] d _ (λ e. k [] e refl)
        (unless_dropped_keeps P (is_dropped wire (ending n) d) (unended ∷ []) d _
          (h (unended ∷ []) refl)
          (unless_failed_keeps P (wire.newline_error n) (unended ∷ []) d
            (after_message message rest) (λ e. k (unended ∷ []) e refl) l)))

forward-IsSilent :
    (wire : Wire) (n : ℕ) (events : List Received) (d : Daemon)
    → IsSilent (forward wire n events d).0
unfolding forward
forward-IsSilent wire n [] d = (refl, λ e. ground arith)
forward-IsSilent wire n (event e ∷ more) d =
    write_then_keeps IsSilent wire n (sent_event e) d (forward wire (suc n) more d)
      (λ messages silent. (silent, λ x. absurd (ground arith)))
      (λ messages m silent. (silent, λ x. absurd (ground arith)))
      (forward-IsSilent wire (suc n) more d)
forward-IsSilent wire n (lagged k ∷ more) d = forward-IsSilent wire n more d
forward-IsSilent wire n (closed ∷ more) d = (refl, λ e. ground arith)

-- An end without a response, which is not that of the lines.
silent-InOrder : (ids : List String) (run : Outcome × List Sent) → IsSilent run → InOrder ids run
silent-InOrder ids (outcome, sent) (silent, not_eof) =
    (ids, ap (λ l. l ++ ids) (sym silent), λ e. absurd (not_eof e))

write_then-InOrder :
    (wire : Wire) (n : ℕ) (ids : List String) (id : String) (r : ControlResponse) (d : Daemon)
    (rest : (Outcome × List Sent) × Daemon)
    → r.id ≡ id
    → InOrder ids rest.0
    → InOrder (id ∷ ids) (write_then wire n (sent_response r) d rest).0
write_then-InOrder wire n ids id r d rest h (more, e, eof) =
    write_then_keeps (InOrder (id ∷ ids)) wire n (sent_response r) d rest
      (λ messages silent.
        silent-InOrder (id ∷ ids) (with_main, messages) (silent, λ x. absurd (ground arith)))
      (λ messages m silent.
        silent-InOrder (id ∷ ids) (failed m, messages) (silent, λ x. absurd (ground arith)))
      (more, rw (h) (ap (λ l. id ∷ l) e), eof)

module _ (wire : Wire) (n : ℕ) (ids : List String) (id : String) where
  conclude-InOrder :
      (reply : Reply) (d : Daemon) (rest : (Outcome × List Sent) × Daemon)
      → HasId id reply
      → InOrder ids rest.0
      → InOrder (id ∷ ids) (conclude wire n reply d rest).0
  conclude-InOrder (close e) d rest h k = (id ∷ ids, refl, λ x. absurd (ground arith))
  conclude-InOrder (respond r) d rest h k = write_then-InOrder wire n ids id r d rest h k
  conclude-InOrder (subscribe r) d rest h k =
      write_then-InOrder wire n ids id r d (forward wire (suc n) wire.received d) h (
        silent-InOrder ids (forward wire (suc n) wire.received d).0
          (forward-IsSilent wire (suc n) wire.received d))

-- On every connection, whatever the other tasks do meanwhile and wherever it ends, the responses carry
-- the ids of the first lines in their order, one response for each ("unknown" for a line that does not
-- parse); when it ends at the end of the stream, no line is left without its response.
pub handle_client-InOrder :
    (desk : Desk) (wire : Wire) (n : ℕ) (lines : List (Result String)) (d : Daemon)
    → InOrder (asked desk lines) (handle_client desk wire n lines d).0
unfolding handle_client
handle_client-InOrder desk wire n [] d =
    unless_dropped_keeps (InOrder []) (is_dropped wire (reading n) (wire.meanwhile n d)) []
      (wire.meanwhile n d) ((at_eof, []), wire.meanwhile n d) ([], refl, λ e. refl)
      ([], refl, λ e. refl)
handle_client-InOrder desk wire n (err e ∷ lines) d =
    unless_dropped_keeps (InOrder []) (is_dropped wire (reading n) (wire.meanwhile n d)) []
      (wire.meanwhile n d) ((failed e, []), wire.meanwhile n d) ([], refl, λ x. refl)
      ([], refl, λ x. refl)
handle_client-InOrder desk wire n (ok line ∷ lines) d =
    let before = wire.meanwhile n d in
    let (reply, d') = handle_line desk (wire.clock n) line before in
    let rest : (Outcome × List Sent) × Daemon = handle_client desk wire (suc n) lines d' in
    unless_dropped_keeps (InOrder (id_of desk line ∷ asked desk lines))
      (is_dropped wire (reading n) before) [] before (conclude wire n reply d' rest)
      (silent-InOrder (id_of desk line ∷ asked desk lines) (with_main, [])
        (refl, λ x. absurd (ground arith)))
      (conclude-InOrder wire n (asked desk lines) (id_of desk line) reply d' rest
        (handle_line-HasId desk (wire.clock n) line before)
        (handle_client-InOrder desk wire (suc n) lines d'))
