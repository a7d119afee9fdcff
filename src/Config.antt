-- ===== src/Config.antt =====
-- src/config/mod.rs: the configuration's types, defaults and small accessors.
-- A path is its text; numbers keep the range of their Rust type by the file that is parsed.
pub mod Validate
pub mod Valid
pub mod Defaults
pub mod Bare
use Prim.Native.String.{◌++◌}
use focl.Base.{ℕ, String, Bool, true, false, Option, none, some, List, [], ◌∷◌, unwrap_or}

pub record GlobalConfig : Type 0 where
  pub asn : ℕ
  pub router_id : String
  pub listen : Bool
  pub listen_addr : String
  pub control_socket : String
  pub log_level : String

pub record PeerConfig : Type 0 where
  pub address : String
  pub remote_as : ℕ
  pub local_as : Option ℕ
  pub hold_time_secs : ℕ
  pub connect_retry_secs : ℕ
  pub remote_port : ℕ
  pub local_address : Option String
  pub enabled : Bool
  pub passive : Bool
  pub route_refresh : Bool
  pub name : Option String
  pub password : Option String

pub record PrefixConfig : Type 0 where
  pub network : String
  pub next_hop : Option String

pub data LayoutProfile : Type 0 where
  route_views ris custom : LayoutProfile

pub data CompressionKind : Type 0 where
  gzip bzip2 zstd : CompressionKind

pub data RibSource : Type 0 where
  adj_rib_in loc_rib : RibSource

pub data DestinationType : Type 0 where
  to_local to_s3 : DestinationType

pub data DestinationMode : Type 0 where
  primary async_replica : DestinationMode

pub record CustomLayoutTemplates : Type 0 where
  pub updates : String
  pub ribs : String

pub record ArchiveDestinationConfig : Type 0 where
  pub destination_type : DestinationType
  pub mode : DestinationMode
  pub path : Option String
  pub required : Option Bool
  pub endpoint : Option String
  pub bucket : Option String
  pub prefix : Option String
  pub upload_concurrency : Option ℕ
  pub retry_backoff_secs : Option ℕ
  pub max_retries : Option ℕ
  pub region : Option String
  pub access_key_id : Option String
  pub secret_access_key : Option String
  pub session_token : Option String

pub record ArchiveConfig : Type 0 where
  pub enabled : Bool
  pub collector_id : String
  pub layout_profile : LayoutProfile
  pub updates_interval_secs : ℕ
  pub ribs_interval_secs : ℕ
  pub compression : CompressionKind
  pub root : String
  pub tmp_root : String
  pub fsync_on_rotate : Bool
  pub include_peer_state_records : Bool
  pub rib_source : RibSource
  pub custom_templates : Option CustomLayoutTemplates
  pub destinations : List ArchiveDestinationConfig

pub record FoclConfig : Type 0 where
  pub global : GlobalConfig
  pub peers : List PeerConfig
  pub prefixes : List PrefixConfig
  pub archive : ArchiveConfig

-- `CompressionKind::extension`
unfoldable pub extension : CompressionKind → String
extension gzip = "gz"
extension bzip2 = "bz2"
extension zstd = "zst"

abbrev pub is_primary : DestinationMode → Bool
is_primary primary = true
is_primary async_replica = false

abbrev pub is_custom : LayoutProfile → Bool
is_custom custom = true
is_custom route_views = false
is_custom ris = false

-- The accessors of `ArchiveDestinationConfig` that fill in its defaults.
unfoldable pub retry_backoff_of : ArchiveDestinationConfig → ℕ
retry_backoff_of d = unwrap_or d.retry_backoff_secs 5

unfoldable pub max_retries_of : ArchiveDestinationConfig → ℕ
max_retries_of d = unwrap_or d.max_retries 0

unfoldable pub upload_concurrency_of : ArchiveDestinationConfig → ℕ
upload_concurrency_of d = unwrap_or d.upload_concurrency 4

unfoldable pub key_of : DestinationType → ArchiveDestinationConfig → String
key_of to_local d = "local:" ++ unwrap_or d.path "<missing>"
key_of to_s3 d =
    "s3:" ++ (unwrap_or d.endpoint "<missing>" ++ (":" ++ unwrap_or d.bucket "<missing>"))

-- `destination_key`
unfoldable pub destination_key : ArchiveDestinationConfig → String
unfolding key_of
destination_key d = key_of d.destination_type d

abbrev pub default_archive_root : String
default_archive_root = "/var/lib/focld/archive"

abbrev pub default_archive_tmp_root : String
default_archive_tmp_root = "/var/lib/focld/archive/.tmp"

-- The one destination of the default configuration.
abbrev pub default_destination : ArchiveDestinationConfig
default_destination = record {
  destination_type = to_local;
  mode = primary;
  path = some default_archive_root;
  required = some true;
  endpoint = none;
  bucket = none;
  prefix = none;
  upload_concurrency = some 4;
  retry_backoff_secs = some 5;
  max_retries = some 0;
  region = none;
  access_key_id = none;
  secret_access_key = none;
  session_token = none;
}

-- `ArchiveConfig::default()`
abbrev pub default_archive : ArchiveConfig
default_archive = record {
  enabled = false;
  collector_id = "focl01";
  layout_profile = route_views;
  updates_interval_secs = 900;
  ribs_interval_secs = 7200;
  compression = gzip;
  root = default_archive_root;
  tmp_root = default_archive_tmp_root;
  fsync_on_rotate = true;
  include_peer_state_records = true;
  rib_source = adj_rib_in;
  custom_templates = none;
  destinations = default_destination ∷ [];
}
