-- ===== src/Tests/Config.antt =====
-- A configuration that is accepted, and the file that it is loaded from.
use focl.Base.Text.{all_chars}
use focl.Base.{
  unwrap_or, Option, ℕ, List, ◌↔◌, String, true, false, none, some, [], ◌∷◌, ◌≡◌, refl, str_eq,
  if◌then◌else◌, Result, ok, err,
}
use focl.Net.{NetText, v4}
use focl.Config.{
  ArchiveDestinationConfig, default_destination, PeerConfig, ArchiveConfig, FoclConfig,
  default_archive,
}
use focl.Config.Validate.{
  validate_destination, validate_destinations, validate_layout, primary_count, validate_archive,
  validate_peer, validate_peers, validate_prefixes, validate, load,
}
use focl.Config.Valid.{IsValid, validate_iff}
use focl.Config.Defaults.{config_of}
use focl.Config.Bare.{
  AreNamed, AreTargets, bare_file, bare_config, bare_archive_file, bare_file_iff,
}

-- A parser that knows the addresses below.
abbrev pub net : NetText
net = record {
  parse_ipv4 = λ s. if str_eq s "192.0.2.1" then some 3221225985 else none;
  parse_ip_addr = λ s. if str_eq s "192.0.2.7" then some (v4 3221225991) else none;
  parse_socket_addr = λ s. none;
  parse_ip_net = λ s.
      if str_eq s "203.0.113.0/24"
      then some (record { addr = v4 3405803776; prefix_len = 24 })
      else none;
  ip_net_text = λ p. "203.0.113.0/24";
  is_whitespace = λ c. false;
}

abbrev pub peer_at : String → PeerConfig
peer_at address = record {
  address = address;
  remote_as = 64501;
  local_as = none;
  hold_time_secs = 90;
  connect_retry_secs = 5;
  remote_port = 179;
  local_address = some "192.0.2.7";
  enabled = true;
  passive = false;
  route_refresh = true;
  name = none;
  password = none;
}

abbrev pub archive : ArchiveConfig
archive = record default_archive { enabled = true }

abbrev pub cfg : FoclConfig
cfg = record {
  global = record {
    asn = 64500;
    router_id = "192.0.2.1";
    listen = false;
    listen_addr = "0.0.0.0:179";
    control_socket = "/tmp/focld.sock";
    log_level = "info";
  };
  peers = peer_at "192.0.2.2" ∷ [];
  prefixes = record { network = "203.0.113.0/24"; next_hop = none } ∷ [];
  archive = archive;
}

-- The accepted configuration is valid.
validate_iff_example : IsValid net cfg
unfolding validate validate_archive validate_peer validate_peers validate_prefixes validate_layout
    validate_destinations validate_destination primary_count all_chars
validate_iff_example = (validate_iff net cfg).0 refl

abbrev read_to_string : String → Result String
read_to_string path = if str_eq path "focl.toml" then ok "[global]" else err "no such file"

abbrev from_str : String → Result FoclConfig
from_str raw = if str_eq raw "[global]" then ok cfg else err "syntax"

-- The configuration is what the file loads as.
loads : load net read_to_string from_str "focl.toml" ≡ ok cfg
unfolding load validate validate_archive validate_peer validate_peers validate_prefixes
    validate_layout validate_destinations validate_destination primary_count all_chars
loads = refl

abbrev asn : ℕ
asn = 64500

abbrev a_peer : List (String × ℕ)
a_peer = ("192.0.2.2", 64501) ∷ []

abbrev a_destination : Option (List ArchiveDestinationConfig)
a_destination = some (default_destination ∷ [])

bare_file_iff_example :
    ((validate net (config_of (bare_file asn "192.0.2.1" a_peer)) ≡ ok tt)
      ↔ AreNamed net asn "192.0.2.1" a_peer)
    × ((validate net (bare_config true asn "192.0.2.1" a_peer) ≡ ok tt)
        ↔ AreNamed net asn "192.0.2.1" a_peer)
    × ((validate net (config_of (bare_archive_file a_destination asn "192.0.2.1" a_peer)) ≡ ok tt)
        ↔ AreNamed net asn "192.0.2.1" a_peer × AreTargets (unwrap_or a_destination []))
unfolding all_chars
bare_file_iff_example = bare_file_iff net asn "192.0.2.1" a_peer a_destination refl
