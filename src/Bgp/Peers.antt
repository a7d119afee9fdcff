-- ===== src/Bgp/Peers.antt =====
-- src/bgp/mod.rs: `BgpService`, the table of peers and the calls on it. A task is a number; a task
-- that was spawned runs until it is aborted.
pub mod Laws
pub mod Invariant
pub mod Owned
use mathlib.Core.List.{foldl}
use focl.Base.{
  ℕ, suc, ◌+◌, String, Bool, true, false, not, Option, none, some, List, [], ◌∷◌, ◌++◌, map,
  is_some, is_none, unwrap_or, length, filter, if◌then◌else◌, Result, ok, err, ◌>>=◌, ok_or,
  context,
}
use Prim.Native.String.{◌++◌ as append_text}
use focl.Base.Assoc.{get, insert, remove}
use focl.Base.Int.{ℤ}
use focl.Net.{NetText, IpAddr, v4, v6}
use focl.Config.{PeerConfig, PrefixConfig, FoclConfig}
use focl.Types.{
  PeerState, idle, connect, active, open_sent, open_confirm, established, Event, peer_state,
  EventEnvelope, envelope,
}
use focl.Bgp.{PrefixEntry, PeerInfo, RibSummary, PeerRuntime}

pub record BgpService : Type 0 where
  pub global_asn : ℕ
  pub router_id : ℕ
  pub prefixes : List PrefixEntry
  pub peers : List (String × PeerRuntime)
  pub events : List EventEnvelope
  pub spawned : ℕ
  pub aborted : List ℕ

abbrev pub is_established : PeerState → Bool
is_established established = true
is_established idle = false
is_established connect = false
is_established active = false
is_established open_sent = false
is_established open_confirm = false

-- The first lines of `spawn_peer_task`: what a new task starts from.
unfoldable pub initial_info : ℕ → PeerConfig → PeerInfo
initial_info global_asn peer_cfg = record {
  address = peer_cfg.address;
  name = peer_cfg.name;
  remote_as = peer_cfg.remote_as;
  local_as = unwrap_or peer_cfg.local_as global_asn;
  remote_port = peer_cfg.remote_port;
  passive = peer_cfg.passive;
  auth_enabled = is_some peer_cfg.password;
  state = idle;
  last_error = none;
  advertised_prefixes = 0;
  established_at = none;
}

unfoldable pub spawn_peer_task : PeerConfig → BgpService → PeerRuntime × BgpService
spawn_peer_task peer_cfg s = (
  record { info = initial_info s.global_asn peer_cfg; cfg = peer_cfg; task = s.spawned },
  record s { spawned = s.spawned + 1 },
)

-- The body of the loop of `start_peers`.
unfoldable pub start_peer : PeerConfig → BgpService → BgpService
unfolding spawn_peer_task
start_peer peer s =
    if not peer.enabled
    then s
    else (let (runtime, s') = spawn_peer_task peer s in
        record s' { peers = insert peer.address runtime s'.peers })

unfoldable pub start_peers : List PeerConfig → BgpService → BgpService
start_peers [] s = s
start_peers (p ∷ ps) s = start_peers ps (start_peer p s)

parse_next_hop : NetText → Option String → Result (Option IpAddr)
parse_next_hop net none = ok none
parse_next_hop net (some text) =
    context (do hop ← ok_or (net.parse_ip_addr text) "invalid IP address syntax"; ok (some hop))
      "invalid next-hop address"

parse_prefix : NetText → PrefixConfig → Result PrefixEntry
unfolding parse_next_hop
parse_prefix net p = do
  network ← ok_or (net.parse_ip_net p.network) (append_text "invalid prefix network: " p.network)
  next_hop ← parse_next_hop net p.next_hop
  ok (record { network = network; next_hop = next_hop })

parse_prefixes : NetText → List PrefixConfig → Result (List PrefixEntry)
unfolding parse_prefix
parse_prefixes net [] = ok []
parse_prefixes net (p ∷ ps) = do
  entry ← parse_prefix net p
  entries ← parse_prefixes net ps
  ok (entry ∷ entries)

-- `BgpService::new`
unfoldable pub new : NetText → FoclConfig → Result BgpService
unfolding parse_prefixes
new net cfg = do
  router_id ← ok_or (net.parse_ipv4 cfg.global.router_id) "global.router_id must be IPv4"
  prefixes ← context (parse_prefixes net cfg.prefixes) "invalid prefix in config"
  ok (
      start_peers cfg.peers (record {
        global_asn = cfg.global.asn;
        router_id = router_id;
        prefixes = prefixes;
        peers = [];
        events = [];
        spawned = 0;
        aborted = [];
      }))

-- What `set_peer_state` does to the entry that it finds.
unfoldable pub with_state : PeerState → Option String → Option ℤ → PeerInfo → PeerInfo
with_state state last_error established_at info = record info {
  state = state;
  last_error =
      if is_some last_error
      then last_error
      else if is_established state
      then none
      else info.last_error;
  established_at = if is_some established_at then established_at else info.established_at;
}

unfoldable pub set_peer_state :
    String → PeerState → Option String → Option ℤ → BgpService → BgpService
set_peer_state address state last_error established_at s = elim (get address s.peers) [
  | none ↦ s
  | some runtime ↦ record s {
    peers =
        insert address
          (record runtime { info = with_state state last_error established_at runtime.info })
          s.peers;
    events = s.events ++ envelope (peer_state address state) ∷ [];
  }
]

-- The end of `send_prefix_announcements`.
unfoldable pub set_advertised : String → ℕ → BgpService → BgpService
set_advertised address count s = elim (get address s.peers) [
  | none ↦ s
  | some runtime ↦ record s {
    peers =
        insert address
          (record runtime { info = record runtime.info { advertised_prefixes = count } }) s.peers;
  }
]

abbrev pub infos : List (String × PeerRuntime) → List PeerInfo
infos [] = []
infos ((address, runtime) ∷ m) = runtime.info ∷ infos m

unfoldable pub peer_list : BgpService → List PeerInfo
peer_list s = infos s.peers

unfoldable pub peer_show : String → BgpService → Option PeerInfo
peer_show peer s = elim (get peer s.peers) [ none ↦ none | some runtime ↦ some runtime.info ]

abbrev pub not_found : String → String
not_found peer = append_text "peer " (append_text peer " not found")

unfoldable pub peer_reset : String → BgpService → Result (Unit {0}) × BgpService
unfolding spawn_peer_task
peer_reset peer s = elim (get peer s.peers) [
  | none ↦ (err (not_found peer), record s { peers = remove peer s.peers })
  | some old ↦
      let stopped : BgpService = record s {
        peers = remove peer s.peers;
        aborted = s.aborted ++ old.task ∷ [];
      } in
      let (runtime, s') = spawn_peer_task old.cfg stopped in
      (ok tt, record s' { peers = insert peer runtime s'.peers })
]

sum_advertised : List PeerInfo → ℕ
sum_advertised [] = 0
sum_advertised (i ∷ is) = i.advertised_prefixes + sum_advertised is

unfoldable pub rib_summary : BgpService → RibSummary
unfolding sum_advertised
rib_summary s = record {
  peers_total = length s.peers;
  peers_established = length (filter (λ (i : PeerInfo). is_established i.state) (infos s.peers));
  advertised_prefixes_total = sum_advertised (infos s.peers);
}

unfoldable pub rib_out : NetText → String → BgpService → Result (List String)
rib_out net peer s =
    if is_none (get peer s.peers)
    then err (not_found peer)
    else ok (map (λ (p : PrefixEntry). net.ip_net_text p.network) s.prefixes)

unfoldable pub rib_in : String → BgpService → Result (List String)
rib_in peer s = if is_none (get peer s.peers) then err (not_found peer) else ok []
