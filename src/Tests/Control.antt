-- ===== src/Tests/Control.antt =====
-- A daemon with one peer and a disabled archive, its connections, and a run of the command line.
use focl.Base.{
  String, true, false, none, List, [], ◌∷◌, ◌≡◌, ◌⊎◌, refl, ap, subst, arith, Result, ok, err,
  str_eq, if◌then◌else◌,
}
use focl.Base.Int.{pos}
use focl.Archive.Writer.Complete.{calm}
use focl.Control.{
  Value, null, boolean, number, text, array, object, no_fields, field_then, ControlRequest,
  ControlResponse, refuse, reload, from_request, kind_of, PeerKeyArgs, ArchiveRolloverArgs, updates,
  ribs,
}
use focl.Control.Daemon.{Desk, Daemon, Reply, respond, subscribe, close, handle, handle_line}
use focl.Control.Connection.{Wire, at_eof, failed, handle_client}
use focl.Control.Client.{peer, show, Link, request_of, main, printed}
use focl.Control.Client.{no_args}
use focl.Control.Queries.{handle-Unchanged}
use focl.Control.Ordered.{answered, InOrder, handle_client-InOrder}
use focl.Control.Complete.{IsPlain, IsUndisturbed, handle_client_complete, snapshot-unanswered}
use focl.Control.Executed.{Executed}
use focl.Control.Served.{main-served}
use focl.Control.Told.{IsAnswer, ReadsArgs, first_line}
use focl.Tests.Config.{net}
use focl.Tests.Segments.{no_files}
use focl.Tests.Services.{one_peer}
use focl.Tests.Replicas.{kit, service}

abbrev show_request : ControlRequest
show_request = record {
  version = 1;
  id = "req-1";
  cmd = "peer_show";
  args = object (field_then "peer" (text "192.0.2.2") no_fields);
}

abbrev snapshot_request : ControlRequest
snapshot_request = record {
  version = 1;
  id = "req-2";
  cmd = "archive_snapshot_now";
  args = no_args;
}

abbrev read_request : String → Result ControlRequest
read_request line =
    if str_eq line "{show}\n"
    then ok show_request
    else if str_eq line "{snapshot}\n"
    then ok snapshot_request
    else err "expected value"

abbrev read_peer : Value → Result String
read_peer (object (field_then name (text p) more)) = ok p
read_peer (object (field_then name null more)) = err "no text"
read_peer (object (field_then name (boolean b) more)) = err "no text"
read_peer (object (field_then name (number n) more)) = err "no text"
read_peer (object (field_then name (array vs) more)) = err "no text"
read_peer (object (field_then name (object fs) more)) = err "no text"
read_peer (object no_fields) = err "no field"
read_peer null = err "no object"
read_peer (boolean b) = err "no object"
read_peer (number n) = err "no object"
read_peer (text s) = err "no object"
read_peer (array vs) = err "no object"

abbrev args_of : Result String → Result PeerKeyArgs
args_of (ok p) = ok (record { peer = p })
args_of (err e) = err e

abbrev stream_of : Result String → Result ArchiveRolloverArgs
stream_of (ok s) =
    if str_eq s "updates"
    then ok (record { stream = updates })
    else if str_eq s "ribs"
    then ok (record { stream = ribs })
    else err "unknown variant"
stream_of (err e) = err e

abbrev pub desk : Desk
desk = record {
  kit = kit;
  net = net;
  trim_end = λ line. line;
  parse_request = read_request;
  peer_args = λ v. args_of (read_peer v);
  rollover_args = λ v. stream_of (read_peer v);
  peer_value = λ info. text info.address;
  summary_value = λ s. null;
  status_value = λ s. null;
}

abbrev daemon : Daemon
daemon = record {
  archive = record service { cfg = record service.cfg { enabled = false } };
  files = calm no_files 0;
  bgp = one_peer;
  shutting_down = false;
}

abbrev wire : Wire
wire = record {
  payload_error = λ n. none;
  newline_error = λ n. none;
  clock = λ n. pos 1000;
  meanwhile = λ n d. d;
  told = λ m. false;
  dropped = λ m. true;
  received = [];
}

handle-Unchanged_example : (handle desk (pos 1000) reload show_request daemon).1 ≡ daemon
handle-Unchanged_example = handle-Unchanged desk (pos 1000) reload show_request daemon tt

abbrev three : List (Result String)
three = ok "{show}\n" ∷ ok "{snapshot}\n" ∷ ok "{show}\n" ∷ []

handle_client-InOrder_example :
    InOrder ("req-1" ∷ "req-2" ∷ "req-1" ∷ []) (handle_client desk wire 0 three daemon).0
handle_client-InOrder_example = handle_client-InOrder desk wire 0 three daemon

abbrev two : List (Result String)
two = ok "{show}\n" ∷ ok "{\n" ∷ []

show_request-IsPlain :
    (req : ControlRequest) → (read_request "{show}\n" ≡ ok req) → IsPlain (from_request req) req
unfolding kind_of
show_request-IsPlain req e =
    let same : show_request ≡ req = ground arith in
    subst (λ (r : ControlRequest). IsPlain (from_request r) r) same tt

unread : (req : ControlRequest) → (read_request "{\n" ≡ ok req) → IsPlain (from_request req) req
unread req e = absurd (ground arith)

wire-IsUndisturbed : IsUndisturbed wire
wire-IsUndisturbed = record {
  payload = λ n. refl;
  newline = λ n. refl;
  untold = λ m. refl;
  others = λ n d. refl;
}

handle_client_complete_example :
    ((handle_client desk wire 0 two daemon).0.0 ≡ at_eof)
    × (answered (handle_client desk wire 0 two daemon).0.1 ≡ "req-1" ∷ "unknown" ∷ [])
handle_client_complete_example =
    handle_client_complete desk wire 0 two daemon wire-IsUndisturbed refl
      (show_request-IsPlain, (unread, tt))

snapshot-unanswered_example :
    handle_client desk wire 0 (ok "{snapshot}\n" ∷ two) daemon
    ≡ ((failed "archive is disabled", []), daemon)
unfolding kind_of
snapshot-unanswered_example =
    snapshot-unanswered desk wire 0 "{snapshot}\n" two daemon snapshot_request refl refl refl

-- The reply to the line of `focl peer show 192.0.2.2`.
abbrev reply : Reply
reply = (handle_line desk (pos 1000) "{show}\n" daemon).0

abbrev response_of : Reply → ControlResponse
response_of (respond r) = r
response_of (subscribe r) = r
response_of (close e) = refuse "" "" e

abbrev to_line : ControlResponse → String
to_line r = "{peer}"

abbrev link : Link
link = record {
  current_exe = err "no such file";
  with_file_name = λ path name. name;
  exists = λ path. false;
  spawn = λ path config. err "no such file";
  connect = λ socket. ok tt;
  id = "req-1";
  to_text = λ req. ok "{show}";
  exchange = λ line. ok (first_line to_line reply);
  trim_end = λ line. line;
  parse_response = λ line. ok (response_of reply);
}

desk-ReadsArgs : ReadsArgs desk
desk-ReadsArgs = record { peer_read = λ p. refl; updates_read = refl; ribs_read = refl }

main-served_example :
    Executed desk
      (pos 1000)
      "req-1"
      (peer (show "192.0.2.2"))
      daemon
      (handle_line desk (pos 1000) "{show}\n" daemon)
    × (((e : String) × (reply ≡ close e))
        ⊎ ((r : ControlResponse) × (reply ≡ respond r)
            × (main link "/tmp/focld.sock" (peer (show "192.0.2.2")) ≡ ok (printed r))
            × IsAnswer "req-1" r))
unfolding request_of
main-served_example =
    main-served desk link to_line (pos 1000) daemon "/tmp/focld.sock" "{show}"
      (peer (show "192.0.2.2")) ("peer_show", show_request.args) desk-ReadsArgs tt refl refl refl
      refl refl (λ r s. ap (λ o. ok (response_of o)) s)
