-- ===== src/Config/Bare.antt =====
-- src/config/mod.rs: files that say no more than they must.
use focl.Base.{
  unwrap_or, Option, Any, ℕ, String, Bool, true, false, refl, inl, none, some, List, [], ◌∷◌, map,
  ◌≡◌, ◌≢◌, ◌↔◌, All, is_some, inr, ok, arith,
}
use focl.Base.Text.{all_chars}
use focl.Net.{NetText}
use focl.Config.{primary, ArchiveDestinationConfig, FoclConfig, default_archive}
use focl.Config.Validate.{validate}
use focl.Config.Valid.{HasTarget, IsValidArchive, IsValidPeer, validate_iff}
use focl.Config.Defaults.{
  WrittenPeer, Written, global_of, peer_of, archive_or_default, archive_of, config_of,
}

-- A peer of which the file says the address and the AS alone.
abbrev pub bare_peer : String → ℕ → WrittenPeer
bare_peer address remote_as = record {
  address = address;
  remote_as = remote_as;
  local_as = none;
  hold_time_secs = none;
  connect_retry_secs = none;
  remote_port = none;
  local_address = none;
  enabled = none;
  passive = none;
  route_refresh = none;
  name = none;
  password = none;
}

abbrev pub bare_peers : List (String × ℕ) → List WrittenPeer
bare_peers [] = []
bare_peers ((address, remote_as) ∷ more) = bare_peer address remote_as ∷ bare_peers more

-- A file that says of itself the AS and the router id, and of each peer the address and the AS.
abbrev pub bare_file : ℕ → String → List (String × ℕ) → Written
bare_file asn router_id peers = record {
  global = record {
    asn = asn;
    router_id = router_id;
    listen = none;
    listen_addr = none;
    control_socket = none;
    log_level = none;
  };
  peers = some (bare_peers peers);
  prefixes = none;
  archive = none;
}

module _ (net : NetText) where
  bare_peers_valid :
      (peers : List (String × ℕ))
      → All (λ (p : String × ℕ). p.1 ≢ 0) peers
      → All (IsValidPeer net) (map peer_of (bare_peers peers))
  unfolding peer_of
  bare_peers_valid [] h = tt
  bare_peers_valid ((address, remote_as) ∷ more) h = (
    record {
      remote_as = h.0;
      remote_port = omega arith;
      hold_time = inr (omega arith);
      local = tt;
    },
    bare_peers_valid more h.1,
  )

  bare_peers_needed :
      (peers : List (String × ℕ))
      → All (IsValidPeer net) (map peer_of (bare_peers peers))
      → All (λ (p : String × ℕ). p.1 ≢ 0) peers
  unfolding peer_of
  bare_peers_needed [] h = tt
  bare_peers_needed ((address, remote_as) ∷ more) h = (h.0.remote_as, bare_peers_needed more h.1)

-- What such a file stands for, and its archive switched on or off.
abbrev pub bare_config : Bool → ℕ → String → List (String × ℕ) → FoclConfig
bare_config enabled asn router_id peers =
    let cfg = config_of (bare_file asn router_id peers) in
    record cfg { archive = record cfg.archive { enabled = enabled } }

-- The same file with a table `[archive]` that says `enabled = true` and the destinations, if they are
-- written.
abbrev pub bare_archive_file :
    Option (List ArchiveDestinationConfig) → ℕ → String → List (String × ℕ) → Written
bare_archive_file destinations asn router_id peers = record (bare_file asn router_id peers) {
  archive = some (record {
    enabled = some true;
    collector_id = none;
    layout_profile = none;
    updates_interval_secs = none;
    ribs_interval_secs = none;
    compression = none;
    root = none;
    tmp_root = none;
    fsync_on_rotate = none;
    include_peer_state_records = none;
    rib_source = none;
    custom_templates = none;
    destinations = destinations;
  });
}

default_archive_valid :
    (net : NetText) (enabled : Bool)
    → all_chars net.is_whitespace "focl01" ≡ false
    → IsValidArchive net (record default_archive { enabled = enabled })
default_archive_valid net enabled named = record {
  named = named;
  updates_pos = omega arith;
  updates_divide = refl;
  ribs_pos = omega arith;
  ribs_multiple = refl;
  has_primary = inl refl;
  templates = λ e. absurd (ground arith);
  targets = (refl, tt);
}

-- One destination is primary, and each has what its type needs.
abbrev pub AreTargets : List ArchiveDestinationConfig → Type 0
AreTargets ds =
    Any (λ (d : ArchiveDestinationConfig). d.mode ≡ primary) ds
    × All (λ (d : ArchiveDestinationConfig). HasTarget d.destination_type d) ds

-- The AS is not 0, the router id is an IPv4 address, and no peer has the AS 0.
abbrev pub AreNamed : NetText → ℕ → String → List (String × ℕ) → Type 0
AreNamed net asn router_id peers =
    (asn ≢ 0)
    × (is_some (net.parse_ipv4 router_id) ≡ true)
    × All (λ (p : String × ℕ). p.1 ≢ 0) peers

module _ (net : NetText) (asn : ℕ) (router_id : String) (peers : List (String × ℕ))
    (named : all_chars net.is_whitespace "focl01" ≡ false) where
  switched_iff :
      (enabled : Bool)
      → (validate net (bare_config enabled asn router_id peers) ≡ ok tt)
        ↔ AreNamed net asn router_id peers
  unfolding config_of global_of archive_or_default
  switched_iff enabled =
      let both = validate_iff net (bare_config enabled asn router_id peers) in
      (
        λ h. let v = both.0 h in (v.asn, v.router_id, bare_peers_needed net peers v.peers),
        λ h. both.1 (record {
          asn = h.0;
          router_id = h.1;
          peers = bare_peers_valid net peers h.2;
          prefixes = tt;
          archive = λ _. default_archive_valid net enabled named;
        }),
      )

  written_iff :
      (ds : Option (List ArchiveDestinationConfig))
      → (validate net (config_of (bare_archive_file ds asn router_id peers)) ≡ ok tt)
        ↔ AreNamed net asn router_id peers × AreTargets (unwrap_or ds [])
  unfolding config_of global_of archive_or_default archive_of
  written_iff ds =
      let both = validate_iff net (config_of (bare_archive_file ds asn router_id peers)) in
      (
        λ h.
            let v = both.0 h in
            let a = v.archive refl in
            ((v.asn, v.router_id, bare_peers_needed net peers v.peers), (a.has_primary, a.targets)),
        λ h. both.1 (record {
          asn = h.0.0;
          router_id = h.0.1;
          peers = bare_peers_valid net peers h.0.2;
          prefixes = tt;
          archive = λ _. record {
            named = named;
            updates_pos = omega arith;
            updates_divide = refl;
            ribs_pos = omega arith;
            ribs_multiple = refl;
            has_primary = h.1.0;
            templates = λ e. absurd (ground arith);
            targets = h.1.1;
          };
        }),
      )

-- The defaults are in order, provided that "focl01" is not blank. A file that says only what it must is
-- accepted exactly when its AS is not 0, its router id is an IPv4 address and no peer has the AS 0;
-- so is what it stands for with its archive, `ArchiveConfig::default()`, switched on; and a file
-- whose table `[archive]` says `enabled = true` and at most the destinations is accepted exactly when
-- besides one of these is primary and each has what its type needs, so never without any.
pub bare_file_iff :
    (net : NetText) (asn : ℕ) (router_id : String) (peers : List (String × ℕ))
    (ds : Option (List ArchiveDestinationConfig))
    → all_chars net.is_whitespace "focl01" ≡ false
    → ((validate net (config_of (bare_file asn router_id peers)) ≡ ok tt)
        ↔ AreNamed net asn router_id peers)
      × ((validate net (bare_config true asn router_id peers) ≡ ok tt)
          ↔ AreNamed net asn router_id peers)
      × ((validate net (config_of (bare_archive_file ds asn router_id peers)) ≡ ok tt)
          ↔ AreNamed net asn router_id peers × AreTargets (unwrap_or ds []))
unfolding config_of global_of archive_or_default
bare_file_iff net asn router_id peers ds named = (
  switched_iff net asn router_id peers named false,
  switched_iff net asn router_id peers named true,
  written_iff net asn router_id peers named ds,
)
