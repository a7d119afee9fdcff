-- ===== src/Config/Validate.antt =====
-- src/config/mod.rs: the `validate` methods and `FoclConfig::load`.
use Prim.Native.String.{◌++◌}
use focl.Base.{
  ℕ, ◌%◌, String, Bool, true, false, not, ◌&&◌, ◌||◌, Option, none, some, List, [], ◌∷◌, ltb, ◌==◌,
  if◌then◌else◌, is_some, is_none, length, filter, Result, ok, ◌>>=◌, ◌>>◌, bail_if, ok_or, context,
}
use focl.Base.Text.{contains, decimal, all_chars}
use focl.Net.{NetText}
use focl.Config.{
  DestinationType, to_local, to_s3, PeerConfig, PrefixConfig, CustomLayoutTemplates,
  ArchiveDestinationConfig, ArchiveConfig, FoclConfig, is_primary, is_custom,
}

-- `CustomLayoutTemplates::validate`, one template.
validate_template : String → String → Result (Unit {0})
validate_template name value = do
  bail_if (not (contains value "{collector}"))
      ("[archive.custom_templates]." ++ (name ++ " must contain {collector} token"))
  bail_if (not (contains value "{yyyymmdd}") || not (contains value "{hhmm}"))
      ("[archive.custom_templates]." ++ (name ++ " must contain {yyyymmdd} and {hhmm} tokens"))

unfoldable pub validate_templates : CustomLayoutTemplates → Result (Unit {0})
unfolding validate_template
validate_templates t = do validate_template "updates" t.updates; validate_template "ribs" t.ribs

destination_problem : DestinationType → ArchiveDestinationConfig → Result (Unit {0})
destination_problem to_local d =
    bail_if (is_none d.path) "archive destination type=local requires path"
destination_problem to_s3 d =
    bail_if (is_none d.endpoint || is_none d.bucket)
      "archive destination type=s3 requires endpoint and bucket"

-- `ArchiveDestinationConfig::validate`
unfoldable pub validate_destination : ArchiveDestinationConfig → Result (Unit {0})
unfolding destination_problem
validate_destination d = destination_problem d.destination_type d

unfoldable pub validate_destinations : List ArchiveDestinationConfig → Result (Unit {0})
validate_destinations [] = ok tt
validate_destinations (d ∷ ds) = validate_destination d >> validate_destinations ds

unfoldable pub validate_layout : ArchiveConfig → Result (Unit {0})
validate_layout cfg =
    if is_custom cfg.layout_profile
    then (do
      templates ←
          ok_or cfg.custom_templates
            "[archive].layout_profile=custom requires [archive.custom_templates]"
      validate_templates templates)
    else ok tt

abbrev pub no_destinations : List ArchiveDestinationConfig → Bool
no_destinations [] = true
no_destinations (d ∷ ds) = false

-- `destinations.iter().filter(|d| d.mode == Primary).count()`
unfoldable pub primary_count : List ArchiveDestinationConfig → ℕ
primary_count ds = length (filter (λ d. is_primary d.mode) ds)

-- The checks of `ArchiveConfig::validate` that run on an enabled archive.
validate_enabled : NetText → ArchiveConfig → Result (Unit {0})
validate_enabled net cfg = do
  bail_if (all_chars net.is_whitespace cfg.collector_id) "[archive].collector_id must not be empty"
  bail_if (cfg.updates_interval_secs == 0 || not (3600 % cfg.updates_interval_secs == 0)) (
      "[archive].updates_interval_secs must be >0 and divide 3600, got "
      ++ decimal cfg.updates_interval_secs)
  bail_if
      (cfg.ribs_interval_secs == 0 || not (cfg.ribs_interval_secs % cfg.updates_interval_secs == 0))
      "[archive].ribs_interval_secs must be >0 and a multiple of updates_interval_secs"
  bail_if (no_destinations cfg.destinations)
      "[archive].destinations must include at least one destination"
  bail_if (primary_count cfg.destinations == 0)
      "[archive].destinations must include at least one mode=primary destination"
  validate_layout cfg
  validate_destinations cfg.destinations

-- `ArchiveConfig::validate`
unfoldable pub validate_archive : NetText → ArchiveConfig → Result (Unit {0})
unfolding validate_enabled
validate_archive net cfg = if not cfg.enabled then ok tt else validate_enabled net cfg

local_address_ok : NetText → String → Bool
local_address_ok net local =
    is_some (net.parse_socket_addr local) || is_some (net.parse_ip_addr local)

validate_local : NetText → String → Option String → Result (Unit {0})
validate_local net peer none = ok tt
validate_local net peer (some local) = bail_if (not (local_address_ok net local)) (
    "peer "
    ++ (peer ++ (" has invalid local_address " ++ (local ++ "; expected IP or socket address"))))

-- One turn of the loop over the peers in `FoclConfig::validate`.
unfoldable pub validate_peer : NetText → PeerConfig → Result (Unit {0})
unfolding validate_local local_address_ok
validate_peer net peer = do
  bail_if (peer.remote_as == 0) ("peer " ++ (peer.address ++ " has invalid remote_as 0"))
  bail_if (peer.remote_port == 0) ("peer " ++ (peer.address ++ " has invalid remote_port 0"))
  bail_if (not (peer.hold_time_secs == 0) && ltb peer.hold_time_secs 3) (
      "peer "
      ++ (peer.address
          ++ (" has invalid hold_time_secs "
              ++ (decimal peer.hold_time_secs ++ "; must be 0 or >=3"))))
  validate_local net peer.address peer.local_address

unfoldable pub validate_peers : NetText → List PeerConfig → Result (Unit {0})
validate_peers net [] = ok tt
validate_peers net (p ∷ ps) = validate_peer net p >> validate_peers net ps

unfoldable pub validate_prefixes : NetText → List PrefixConfig → Result (Unit {0})
validate_prefixes net [] = ok tt
validate_prefixes net (p ∷ ps) =
    bail_if (is_none (net.parse_ip_net p.network))
      ("invalid IP prefix in [[prefixes]]: " ++ p.network)
    >> validate_prefixes net ps

-- `FoclConfig::validate`
unfoldable pub validate : NetText → FoclConfig → Result (Unit {0})
validate net cfg = do
  bail_if (cfg.global.asn == 0) "[global].asn must be non-zero"
  bail_if (is_none (net.parse_ipv4 cfg.global.router_id))
      "[global].router_id must be a valid IPv4 address"
  validate_peers net cfg.peers
  validate_prefixes net cfg.prefixes
  validate_archive net cfg.archive

-- `FoclConfig::load`, with the file system's reader and the TOML parser as arguments.
unfoldable pub load :
    NetText → (String → Result String) → (String → Result FoclConfig) → String → Result FoclConfig
load net read_to_string from_str path = do
  raw ← context (read_to_string path) ("failed to read config file " ++ path)
  cfg ← context (from_str raw) ("failed to parse TOML in " ++ path)
  context (validate net cfg) ("config validation failed for " ++ path)
  ok cfg
