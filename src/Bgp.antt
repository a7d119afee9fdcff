-- ===== src/Bgp.antt =====
-- src/bgp: the BGP service. The messages are bgpkit-parser's, with the parts that the code builds
-- or matches on; what else a received message holds is kept as bytes.
pub mod Framing
pub mod Peers
pub mod Announce
pub mod Session
pub mod Auth
pub mod Connect
use focl.Base.{ℕ, String, Bool, Option, List}
use focl.Base.Int.{ℤ}
use focl.Net.{IpAddr, IpNet}
use focl.Config.{PeerConfig}
use focl.Types.{PeerState}

pub data Attribute : Type 0 where
  origin_igp : Attribute
  as_path : List ℕ → Bool → Attribute
  next_hop : IpAddr → Attribute
  other : List ℕ → Attribute

pub record BgpOpenMessage : Type 0 where
  pub version : ℕ
  pub asn : ℕ
  pub hold_time : ℕ
  pub sender_ip : ℕ
  pub extended_length : Bool
  pub opt_params : List (List ℕ)

pub record BgpUpdateMessage : Type 0 where
  pub withdrawn_prefixes : List IpNet
  pub attributes : List Attribute
  pub announced_prefixes : List IpNet

pub data BgpMessage : Type 0 where
  open_message : BgpOpenMessage → BgpMessage
  update_message : BgpUpdateMessage → BgpMessage
  notification_message : List ℕ → BgpMessage
  keep_alive : BgpMessage

pub record PrefixEntry : Type 0 where
  pub network : IpNet
  pub next_hop : Option IpAddr

pub record PeerInfo : Type 0 where
  pub address : String
  pub name : Option String
  pub remote_as : ℕ
  pub local_as : ℕ
  pub remote_port : ℕ
  pub passive : Bool
  pub auth_enabled : Bool
  pub state : PeerState
  pub last_error : Option String
  pub advertised_prefixes : ℕ
  pub established_at : Option ℤ

pub record RibSummary : Type 0 where
  pub peers_total : ℕ
  pub peers_established : ℕ
  pub advertised_prefixes_total : ℕ

-- The task is the number that the runtime gave it.
pub record PeerRuntime : Type 0 where
  pub info : PeerInfo
  pub cfg : PeerConfig
  pub task : ℕ
