-- ===== src/Tests/Connections.antt =====
-- A connection with a password, and without a local address.
use focl.Base.{false, none, some, List, [], ◌∷◌, ◌≡◌, refl, ok}
use focl.Net.{SocketAddr, v4}
use focl.Config.{PeerConfig}
use focl.Bgp.Auth.{
  Call, connect_to, sign, md5sig, Os, perform, set_md5_signature, set_tcp_md5_signature,
}
use focl.Bgp.Connect.{connect_with_optional_bind, connect_from, local_bind}
use focl.Bgp.Connect.Signed.{signed_first, keys, connect_with_optional_bind-signed}
use focl.Tests.Config.{net, peer_at}

abbrev remote : SocketAddr
remote = record { ip = v4 3221225986; port = 179 }

-- A system on which every call succeeds.
abbrev os : Os
os = record {
  fails = λ call. none;
  accepted = remote;
  as_bytes = λ s. 115 ∷ 51 ∷ [];
  addr_text = λ a. "192.0.2.2:179";
}

abbrev guarded : PeerConfig
guarded = record (peer_at "192.0.2.2") { local_address = none; password = some "s3" }

abbrev made : List Call
made = connect_to remote ∷ sign (md5sig remote (115 ∷ 51 ∷ [])) ∷ []

connects : connect_with_optional_bind os net guarded remote ≡ (made, ok remote)
unfolding connect_with_optional_bind connect_from local_bind perform set_md5_signature
    set_tcp_md5_signature
connects = refl

connect_with_optional_bind-signed_example :
    (signed_first made ≡ false) × (keys made ≡ (115 ∷ 51 ∷ []) ∷ [])
connect_with_optional_bind-signed_example =
    connect_with_optional_bind-signed os net guarded remote remote made connects
