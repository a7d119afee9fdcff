-- ===== src/Archive/Snapshot/Records.antt =====
-- bgpkit-parser's models of MRT records, with the parts that the code fills in.
use focl.Base.{ℕ, String, List}
use focl.Net.{IpAddr, IpNet}
use focl.Bgp.{Attribute, BgpMessage}

pub data EntryType : Type 0 where
  bgp4mp table_dump_v2 : EntryType

pub data Subtype : Type 0 where
  message_as4 state_change_as4 peer_index_table rib_ipv4_unicast : Subtype

pub record Bgp4MpMessage : Type 0 where
  pub peer_asn : ℕ
  pub local_asn : ℕ
  pub interface_index : ℕ
  pub peer_ip : IpAddr
  pub local_ip : IpAddr
  pub bgp_message : BgpMessage

-- A state is the number that `BgpState::try_from` has accepted.
pub record Bgp4MpStateChange : Type 0 where
  pub peer_asn : ℕ
  pub local_asn : ℕ
  pub interface_index : ℕ
  pub peer_ip : IpAddr
  pub local_addr : IpAddr
  pub old_state : ℕ
  pub new_state : ℕ

pub record MrtPeer : Type 0 where
  pub peer_bgp_id : ℕ
  pub peer_ip : IpAddr
  pub peer_asn : ℕ

pub record PeerIndexTable : Type 0 where
  pub collector_bgp_id : ℕ
  pub view_name : String
  pub id_peer_map : List (ℕ × MrtPeer)
  pub peer_ip_id_map : List (IpAddr × ℕ)

pub record RibEntry : Type 0 where
  pub peer_index : ℕ
  pub originated_time : ℕ
  pub attributes : List Attribute

pub record RibAfiEntries : Type 0 where
  pub sequence_number : ℕ
  pub prefix : IpNet
  pub rib_entries : List RibEntry

pub data MrtMessage : Type 0 where
  message : Bgp4MpMessage → MrtMessage
  state_change : Bgp4MpStateChange → MrtMessage
  index_table : PeerIndexTable → MrtMessage
  rib_afi : RibAfiEntries → MrtMessage

pub record CommonHeader : Type 0 where
  pub timestamp : ℕ
  pub entry_type : EntryType
  pub entry_subtype : Subtype
  pub length : ℕ
