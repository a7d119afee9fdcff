-- ===== src/Bgp/Connect.antt =====
-- src/bgp/mod.rs: how a session gets its stream, `run_active_session` and `run_passive_session`.
pub mod Signed
pub mod Turns
use focl.Base.{
  ℕ, String, Bool, true, false, Option, none, some, List, [], unwrap_or, Result, ok, err, ok_or,
  context,
}
use focl.Base
use focl.Base.Text.{decimal}
use Prim.Native.String.{◌++◌}
use focl.Net.{NetText, IpAddr, v4, v6, SocketAddr}
use focl.Config.{PeerConfig}
use focl.Bgp.{PrefixEntry}
use focl.Bgp.Auth.{
  Call, new_socket, bind_to, connect_to, listen_at, accept, Os, Traced, ◌>>=◌, ◌>>◌, returned,
  perform, named, set_md5_signature,
}
use focl.Bgp.Session.{Script, Run, run_session}

unfoldable pub normalize_socket_addr : NetText → String → ℕ → Result SocketAddr
normalize_socket_addr net raw default_port = elim (net.parse_socket_addr raw) [
  | some sa ↦ ok sa
  | none ↦
      Base.◌>>=◌ (ok_or (net.parse_ip_addr raw) ("invalid ip/address " ++ raw))
        (λ ip. ok (record { ip = ip; port = default_port }))
]

abbrev pub is_ipv4 : SocketAddr → Bool
is_ipv4 sa = elim sa.ip [ v4 _ ↦ true | v6 _ ↦ false ]

-- The address to bind to, if the peer has one.
unfoldable pub local_bind : NetText → Option String → Result (Option SocketAddr)
local_bind net none = ok none
local_bind net (some raw) =
    Base.◌>>=◌ (context (normalize_socket_addr net raw 0) "invalid peer local_address")
      (λ local. ok (some local))

-- The arms of the `match`: the first two make the same calls. The result is the stream's peer.
unfoldable pub connect_from :
    Os → Option String → SocketAddr → Option SocketAddr → Traced SocketAddr
connect_from os password remote (some local) = do
  perform os (new_socket (is_ipv4 local))
  perform os (bind_to local)
  set_md5_signature os "failed to set TCP-MD5 signature" remote password
  perform os (connect_to remote)
  returned (ok remote)
connect_from os password remote none = do
  perform os (connect_to remote)
  set_md5_signature os "failed to set TCP-MD5 signature" remote password
  returned (ok remote)

unfoldable pub connect_with_optional_bind :
    Os → NetText → PeerConfig → SocketAddr → Traced SocketAddr
connect_with_optional_bind os net peer remote = do
  local ← returned (local_bind net peer.local_address)
  connect_from os peer.password remote local

abbrev pub with_port : String → ℕ → String
with_port address port = address ++ ":" ++ decimal port

-- `run_active_session` up to its session.
unfoldable pub active_stream : Os → NetText → PeerConfig → Traced SocketAddr
active_stream os net peer = do
  addr ← returned (
      ok_or (net.parse_socket_addr (with_port peer.address peer.remote_port))
        ("invalid peer socket " ++ with_port peer.address peer.remote_port))
  connect_with_optional_bind os net peer addr

-- `run_passive_session` up to its session.
unfoldable pub passive_stream : Os → NetText → PeerConfig → Traced SocketAddr
passive_stream os net peer =
    let listen_addr = unwrap_or peer.local_address ("0.0.0.0:" ++ decimal peer.remote_port) in
    do
      listen ← returned (
          context (normalize_socket_addr net listen_addr peer.remote_port)
            ("invalid passive local_address " ++ listen_addr))
      named (λ _. "failed binding passive listener " ++ os.addr_text listen)
          (perform os (listen_at listen))
      perform os accept
      set_md5_signature os "failed to set TCP-MD5 signature on accepted connection" os.accepted
          peer.password
      returned (ok os.accepted)

-- A stream, and the session on it.
unfoldable pub session_on :
    ℕ → ℕ → List PrefixEntry → PeerConfig → Script → Traced SocketAddr → List Call × Run (Unit {0})
session_on router_id global_asn prefixes peer x (made, ok stream) =
    (made, run_session router_id global_asn prefixes peer x)
session_on router_id global_asn prefixes peer x (made, err e) = (made, ([], err e))

unfoldable pub run_active_session :
    Os → NetText → ℕ → ℕ → List PrefixEntry → PeerConfig → Script → List Call × Run (Unit {0})
unfolding session_on
run_active_session os net router_id global_asn prefixes peer x =
    session_on router_id global_asn prefixes peer x (active_stream os net peer)

unfoldable pub run_passive_session :
    Os → NetText → ℕ → ℕ → List PrefixEntry → PeerConfig → Script → List Call × Run (Unit {0})
unfolding session_on
run_passive_session os net router_id global_asn prefixes peer x =
    session_on router_id global_asn prefixes peer x (passive_stream os net peer)
