-- ===== src/Archive/Snapshot.antt =====
-- src/archive/snapshot.rs: the MRT records of updates, of changes of state and of a table dump. The
-- models of bgpkit-parser are records here; what encodes and parses them is an argument.
pub mod Records
pub mod Dump
use Prim.Native.String.{◌++◌}
use focl.Base.{
  ℕ, suc, ◌%◌, ◌^◌, ◌-◌, String, Bool, true, false, not, Option, none, some, List, [], ◌∷◌, ltb,
  ◌==◌, ◌||◌, if◌then◌else◌, length, Result, ok, err, ◌>>=◌, ◌>>◌, bail_if, ok_or, context,
}
use mathlib.Core.List.{◌++◌ as append}
use focl.Base.Int.{ℤ, rem_euclid}
use focl.Base.Text.{decimal}
use focl.Net.{IpAddr, v4, v6, IpNet}
use focl.Bgp.{Attribute, BgpMessage, open_message, update_message, notification_message, keep_alive}
use focl.Bgp.Framing.{Codec}
use focl.Archive.Snapshot.Records.{
  EntryType, bgp4mp, table_dump_v2, Subtype, message_as4, state_change_as4, peer_index_table,
  rib_ipv4_unicast, Bgp4MpMessage, Bgp4MpStateChange, MrtPeer, PeerIndexTable, RibEntry,
  RibAfiEntries, MrtMessage, message, state_change, index_table, rib_afi, CommonHeader,
}
use focl.Archive.Types.{
  UpdateRecordInput, PeerStateRecordInput, SnapshotPeer, SnapshotRoute, RibSnapshotInput,
}

-- What the library does: the parsers, the encoders, the texts of values in messages, and
-- `Ipv4Net::new`.
pub record Mrt : Type 0 where
  pub codec : Codec
  pub try_state : ℕ → Option ℕ
  pub parse_attributes : List ℕ → Result (List Attribute)
  pub ipv4_net : ℕ → ℕ → Option IpNet
  pub encode_message : MrtMessage → Subtype → List ℕ
  pub encode_header : CommonHeader → List ℕ
  pub msg_type_text : BgpMessage → String
  pub ipv4_text : ℕ → String
  pub net_text : IpNet → String

-- `timestamp as u32`
abbrev pub as_u32 : ℤ → ℕ
as_u32 timestamp = rem_euclid timestamp (2 ^ 32)

unfoldable pub encode_mrt_message : Mrt → ℕ → EntryType → Subtype → MrtMessage → List ℕ
encode_mrt_message lib timestamp entry_type subtype msg =
    let payload = lib.encode_message msg subtype in
    append
      (lib.encode_header (record {
        timestamp = timestamp;
        entry_type = entry_type;
        entry_subtype = subtype;
        length = length payload % 2 ^ 32;
      }))
      payload

-- The parser is tried with 32-bit AS numbers, then with 16-bit ones.
parse_either : Mrt → List ℕ → Result BgpMessage
parse_either lib raw = elim (lib.codec.parse_32 raw) [
  | ok msg ↦ ok msg
  | err _ ↦ elim (lib.codec.parse_16 raw) [
    | ok msg ↦ ok msg
    | err e ↦ err ("failed to parse BGP message with bgpkit-parser: " ++ e)
  ]
]

abbrev pub is_update : BgpMessage → Bool
is_update (update_message _) = true
is_update (open_message _) = false
is_update (notification_message _) = false
is_update keep_alive = false

unfoldable pub parse_update_message : Mrt → List ℕ → Result BgpMessage
unfolding parse_either
parse_update_message lib raw = do
  parsed ← parse_either lib raw
  bail_if (not (is_update parsed))
      ("expected BGP UPDATE message payload, got " ++ lib.msg_type_text parsed)
  ok parsed

unfoldable pub encode_bgp4mp_message_as4 : Mrt → UpdateRecordInput → Result (List ℕ)
encode_bgp4mp_message_as4 lib input = do
  bgp_message ← parse_update_message lib input.bgp_message
  ok (
      encode_mrt_message lib (as_u32 input.timestamp) bgp4mp message_as4 (
        message (record {
          peer_asn = input.peer_asn;
          local_asn = input.local_asn;
          interface_index = input.interface_index;
          peer_ip = v4 input.peer_ip;
          local_ip = v4 input.local_ip;
          bgp_message = bgp_message;
        })))

unfoldable pub encode_bgp4mp_state_change_as4 : Mrt → PeerStateRecordInput → Result (List ℕ)
encode_bgp4mp_state_change_as4 lib input = do
  old_state ←
      ok_or (lib.try_state input.old_state) ("invalid old_state value " ++ decimal input.old_state)
  new_state ←
      ok_or (lib.try_state input.new_state) ("invalid new_state value " ++ decimal input.new_state)
  ok (
      encode_mrt_message lib (as_u32 input.timestamp) bgp4mp state_change_as4 (
        state_change (record {
          peer_asn = input.peer_asn;
          local_asn = input.local_asn;
          interface_index = input.interface_index;
          peer_ip = v4 input.peer_ip;
          local_addr = v4 input.local_ip;
          old_state = old_state;
          new_state = new_state;
        })))

ip_eq : IpAddr → IpAddr → Bool
ip_eq (v4 a) (v4 b) = a == b
ip_eq (v6 a) (v6 b) = a == b
ip_eq _ _ = false

-- `HashMap::insert` and `contains_key`
put : {K V : Type 0} → (K → K → Bool) → K → V → List (K × V) → List (K × V)
put same k v [] = (k, v) ∷ []
put same k v ((j, old) ∷ m) = if same j k then (k, v) ∷ m else (j, old) ∷ put same k v m

unfoldable pub contains_key : ℕ → List (ℕ × MrtPeer) → Bool
contains_key k [] = false
contains_key k ((j, _) ∷ m) = j == k || contains_key k m

-- The loop of `build_peer_index_table`, from the index `idx`.
unfoldable pub index_peers : ℕ → List SnapshotPeer → List (ℕ × MrtPeer) → List (ℕ × MrtPeer)
unfolding put
index_peers idx [] m = m
index_peers idx (p ∷ ps) m = index_peers (suc idx) ps (
    put ◌==◌ (idx % 2 ^ 16)
      (record { peer_bgp_id = p.peer_bgp_id; peer_ip = p.peer_ip; peer_asn = p.peer_asn }) m)

unfoldable pub index_ips : ℕ → List SnapshotPeer → List (IpAddr × ℕ) → List (IpAddr × ℕ)
unfolding put ip_eq
index_ips idx [] m = m
index_ips idx (p ∷ ps) m = index_ips (suc idx) ps (put ip_eq p.peer_ip (idx % 2 ^ 16) m)

unfoldable pub build_peer_index_table : RibSnapshotInput → Result PeerIndexTable
build_peer_index_table snapshot = do
  bail_if (ltb (2 ^ 16 - 1) (length snapshot.peers)) "peer count exceeds TABLE_DUMP_V2 limit"
  ok (record {
    collector_bgp_id = snapshot.collector_bgp_id;
    view_name = snapshot.view_name;
    id_peer_map = index_peers 0 snapshot.peers [];
    peer_ip_id_map = index_ips 0 snapshot.peers [];
  })

-- The body of the loop of `build_table_dump_v2`.
unfoldable pub encode_route : Mrt → ℕ → List (ℕ × MrtPeer) → SnapshotRoute → Result (List ℕ)
encode_route lib timestamp peers route = do
  bail_if (ltb 32 route.prefix_len) ("invalid IPv4 prefix length " ++ decimal route.prefix_len)
  bail_if (not (contains_key route.peer_index peers)) (
      "route references unknown peer_index "
      ++ (decimal route.peer_index ++ (" (peers: " ++ (decimal (length peers) ++ ")"))))
  ipv4_prefix ←
      ok_or (lib.ipv4_net route.prefix route.prefix_len) (
        "invalid route prefix "
        ++ (lib.ipv4_text route.prefix ++ ("/" ++ decimal route.prefix_len)))
  attributes ←
      context (lib.parse_attributes route.path_attributes)
        ("failed parsing route attributes for prefix " ++ lib.net_text ipv4_prefix)
  ok (
      encode_mrt_message lib timestamp table_dump_v2 rib_ipv4_unicast (
        rib_afi (record {
          sequence_number = route.sequence;
          prefix = ipv4_prefix;
          rib_entries =
              record {
                peer_index = route.peer_index;
                originated_time = route.originated_time;
                attributes = attributes;
              }
              ∷ [];
        })))

unfoldable pub encode_routes :
    Mrt → ℕ → List (ℕ × MrtPeer) → List SnapshotRoute → Result (List (List ℕ))
encode_routes lib timestamp peers [] = ok []
encode_routes lib timestamp peers (r ∷ rs) = do
  rec ← encode_route lib timestamp peers r
  rest ← encode_routes lib timestamp peers rs
  ok (rec ∷ rest)

unfoldable pub build_table_dump_v2 : Mrt → RibSnapshotInput → Result (List (List ℕ))
build_table_dump_v2 lib snapshot = do
  table ← build_peer_index_table snapshot
  rest ← encode_routes lib (as_u32 snapshot.timestamp) table.id_peer_map snapshot.routes
  ok (
      encode_mrt_message lib (as_u32 snapshot.timestamp) table_dump_v2 peer_index_table
        (index_table table)
      ∷ rest)
