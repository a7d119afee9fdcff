-- ===== src/Config/Defaults.antt =====
-- src/config/mod.rs: the defaults of `#[serde(default = …)]`, which stand for the keys that a file leaves
-- out.
use focl.Base.{ℕ, String, Bool, true, false, Option, none, some, List, [], map, unwrap_or}
use focl.Config.{
  GlobalConfig, PeerConfig, PrefixConfig, ArchiveDestinationConfig, CustomLayoutTemplates,
  LayoutProfile, route_views, CompressionKind, gzip, RibSource, adj_rib_in, ArchiveConfig,
  FoclConfig, default_archive_root, default_archive_tmp_root, default_archive,
}

abbrev pub default_listen : Bool
default_listen = true

abbrev pub default_listen_addr : String
default_listen_addr = "0.0.0.0:179"

abbrev pub default_control_socket : String
default_control_socket = "/tmp/focld.sock"

abbrev pub default_log_level : String
default_log_level = "info"

abbrev pub default_true : Bool
default_true = true

abbrev pub default_hold_time : ℕ
default_hold_time = 90

abbrev pub default_connect_retry : ℕ
default_connect_retry = 5

abbrev pub default_remote_port : ℕ
default_remote_port = 179

abbrev pub default_collector_id : String
default_collector_id = "focl01"

abbrev pub default_updates_interval : ℕ
default_updates_interval = 900

abbrev pub default_ribs_interval : ℕ
default_ribs_interval = 7200

-- The tables of a file, each key that may be left out with what was written.
pub record WrittenGlobal : Type 0 where
  pub asn : ℕ
  pub router_id : String
  pub listen : Option Bool
  pub listen_addr : Option String
  pub control_socket : Option String
  pub log_level : Option String

pub record WrittenPeer : Type 0 where
  pub address : String
  pub remote_as : ℕ
  pub local_as : Option ℕ
  pub hold_time_secs : Option ℕ
  pub connect_retry_secs : Option ℕ
  pub remote_port : Option ℕ
  pub local_address : Option String
  pub enabled : Option Bool
  pub passive : Option Bool
  pub route_refresh : Option Bool
  pub name : Option String
  pub password : Option String

pub record WrittenArchive : Type 0 where
  pub enabled : Option Bool
  pub collector_id : Option String
  pub layout_profile : Option LayoutProfile
  pub updates_interval_secs : Option ℕ
  pub ribs_interval_secs : Option ℕ
  pub compression : Option CompressionKind
  pub root : Option String
  pub tmp_root : Option String
  pub fsync_on_rotate : Option Bool
  pub include_peer_state_records : Option Bool
  pub rib_source : Option RibSource
  pub custom_templates : Option CustomLayoutTemplates
  pub destinations : Option (List ArchiveDestinationConfig)

pub record Written : Type 0 where
  pub global : WrittenGlobal
  pub peers : Option (List WrittenPeer)
  pub prefixes : Option (List PrefixConfig)
  pub archive : Option WrittenArchive

unfoldable pub global_of : WrittenGlobal → GlobalConfig
global_of g = record {
  asn = g.asn;
  router_id = g.router_id;
  listen = unwrap_or g.listen default_listen;
  listen_addr = unwrap_or g.listen_addr default_listen_addr;
  control_socket = unwrap_or g.control_socket default_control_socket;
  log_level = unwrap_or g.log_level default_log_level;
}

unfoldable pub peer_of : WrittenPeer → PeerConfig
peer_of p = record {
  address = p.address;
  remote_as = p.remote_as;
  local_as = p.local_as;
  hold_time_secs = unwrap_or p.hold_time_secs default_hold_time;
  connect_retry_secs = unwrap_or p.connect_retry_secs default_connect_retry;
  remote_port = unwrap_or p.remote_port default_remote_port;
  local_address = p.local_address;
  enabled = unwrap_or p.enabled default_true;
  passive = unwrap_or p.passive false;
  route_refresh = unwrap_or p.route_refresh default_true;
  name = p.name;
  password = p.password;
}

unfoldable pub archive_of : WrittenArchive → ArchiveConfig
archive_of a = record {
  enabled = unwrap_or a.enabled false;
  collector_id = unwrap_or a.collector_id default_collector_id;
  layout_profile = unwrap_or a.layout_profile route_views;
  updates_interval_secs = unwrap_or a.updates_interval_secs default_updates_interval;
  ribs_interval_secs = unwrap_or a.ribs_interval_secs default_ribs_interval;
  compression = unwrap_or a.compression gzip;
  root = unwrap_or a.root default_archive_root;
  tmp_root = unwrap_or a.tmp_root default_archive_tmp_root;
  fsync_on_rotate = unwrap_or a.fsync_on_rotate default_true;
  include_peer_state_records = unwrap_or a.include_peer_state_records default_true;
  rib_source = unwrap_or a.rib_source adj_rib_in;
  custom_templates = a.custom_templates;
  destinations = unwrap_or a.destinations [];
}

-- A table `[archive]` that is left out is `ArchiveConfig::default()`, destination included; one that is
-- there has the destinations that it writes, and no other.
unfoldable pub archive_or_default : Option WrittenArchive → ArchiveConfig
archive_or_default none = default_archive
archive_or_default (some a) = archive_of a

unfoldable pub config_of : Written → FoclConfig
config_of f = record {
  global = global_of f.global;
  peers = map peer_of (unwrap_or f.peers []);
  prefixes = unwrap_or f.prefixes [];
  archive = archive_or_default f.archive;
}
