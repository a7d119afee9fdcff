-- ===== src/Config/Valid.antt =====
-- src/config/mod.rs: what `validate` accepts, stated without its order of tests, and the proof that
-- it accepts exactly that.
use focl.Base.{
  ◌%◌, ◌≤◌, ◌<◌, String, ◌≡◌, refl, ◌≢◌, ◌↔◌, ◌⊎◌, inl, inr, true, false, Option, none, some, List,
  [], ◌∷◌, arith, is_some, Any, All, Result, ok, Bool-cases, Result-cases, ap,
}
use focl.Base.Text.{contains, all_chars}
use focl.Net.{NetText}
use focl.Config.{
  LayoutProfile, route_views, ris, custom, is_custom, DestinationType, to_local, to_s3, primary,
  PeerConfig, PrefixConfig, CustomLayoutTemplates, ArchiveDestinationConfig, ArchiveConfig,
  FoclConfig,
}
use focl.Config.Validate.{
  validate_templates, validate_destination, validate_destinations, validate_layout, primary_count,
  no_destinations, validate_archive, validate_peer, validate_peers, validate_prefixes, validate,
  load,
}

abbrev pub LocalParses : NetText → Option String → Type 0
LocalParses net none = Unit {0}
LocalParses net (some local) =
    (is_some (net.parse_socket_addr local) ≡ true) ⊎ (is_some (net.parse_ip_addr local) ≡ true)

pub record IsValidPeer (net : NetText) (p : PeerConfig) : Type 0 where
  pub remote_as : p.remote_as ≢ 0
  pub remote_port : p.remote_port ≢ 0
  pub hold_time : (p.hold_time_secs ≡ 0) ⊎ (3 ≤ p.hold_time_secs)
  pub local : LocalParses net p.local_address

pub record HasTokens (template : String) : Type 0 where
  pub collector : contains template "{collector}" ≡ true
  pub yyyymmdd : contains template "{yyyymmdd}" ≡ true
  pub hhmm : contains template "{hhmm}" ≡ true

abbrev pub TemplatesFit : Option CustomLayoutTemplates → Type 0
TemplatesFit none = ⊥
TemplatesFit (some t) = HasTokens t.updates × HasTokens t.ribs

-- The fields that a destination's type requires.
abbrev pub HasTarget : DestinationType → ArchiveDestinationConfig → Type 0
HasTarget to_local d = is_some d.path ≡ true
HasTarget to_s3 d = (is_some d.endpoint ≡ true) × (is_some d.bucket ≡ true)

pub record IsValidArchive (net : NetText) (cfg : ArchiveConfig) : Type 0 where
  pub named : all_chars net.is_whitespace cfg.collector_id ≡ false
  pub updates_pos : 0 < cfg.updates_interval_secs
  pub updates_divide : 3600 % cfg.updates_interval_secs ≡ 0
  pub ribs_pos : 0 < cfg.ribs_interval_secs
  pub ribs_multiple : cfg.ribs_interval_secs % cfg.updates_interval_secs ≡ 0
  pub has_primary : Any (λ (d : ArchiveDestinationConfig). d.mode ≡ primary) cfg.destinations
  pub templates : cfg.layout_profile ≡ custom → TemplatesFit cfg.custom_templates
  pub targets :
      All (λ (d : ArchiveDestinationConfig). HasTarget d.destination_type d) cfg.destinations

pub record IsValid (net : NetText) (cfg : FoclConfig) : Type 0 where
  pub asn : cfg.global.asn ≢ 0
  pub router_id : is_some (net.parse_ipv4 cfg.global.router_id) ≡ true
  pub peers : All (IsValidPeer net) cfg.peers
  pub prefixes :
      All (λ (p : PrefixConfig). is_some (net.parse_ip_net p.network) ≡ true) cfg.prefixes
  pub archive : cfg.archive.enabled ≡ true → IsValidArchive net cfg.archive

validate_peer_iff :
    (net : NetText) (p : PeerConfig) → (validate_peer net p ≡ ok tt) ↔ IsValidPeer net p
unfolding validate_peer
validate_peer_iff net p = (λ h. ground arith, λ v. ground arith)

validate_peers_iff :
    (net : NetText) (ps : List PeerConfig)
    → (validate_peers net ps ≡ ok tt) ↔ All (IsValidPeer net) ps
unfolding validate_peers
validate_peers_iff net [] = (λ h. tt, λ v. refl)
validate_peers_iff net (p ∷ ps) = (
  λ h. ground (arith, validate_peer_iff net p, validate_peers_iff net ps),
  λ v. ground (arith, validate_peer_iff net p, validate_peers_iff net ps),
)

validate_prefixes_iff :
    (net : NetText) (ps : List PrefixConfig)
    → (validate_prefixes net ps ≡ ok tt)
      ↔ All (λ (p : PrefixConfig). is_some (net.parse_ip_net p.network) ≡ true) ps
unfolding validate_prefixes
validate_prefixes_iff net [] = (λ h. tt, λ v. refl)
validate_prefixes_iff net (p ∷ ps) = (
  λ h. ground (arith, validate_prefixes_iff net ps),
  λ v. ground (arith, validate_prefixes_iff net ps),
)

validate_destination_iff :
    (d : ArchiveDestinationConfig)
    → (validate_destination d ≡ ok tt) ↔ HasTarget d.destination_type d
unfolding validate_destination
validate_destination_iff d = (λ h. ground arith, λ v. ground arith)

validate_destinations_iff :
    (ds : List ArchiveDestinationConfig)
    → (validate_destinations ds ≡ ok tt)
      ↔ All (λ (d : ArchiveDestinationConfig). HasTarget d.destination_type d) ds
unfolding validate_destinations
validate_destinations_iff [] = (λ h. tt, λ v. refl)
validate_destinations_iff (d ∷ ds) = (
  λ h. ground (arith, validate_destination_iff d, validate_destinations_iff ds),
  λ v. ground (arith, validate_destination_iff d, validate_destinations_iff ds),
)

primary_count_pos :
    (ds : List ArchiveDestinationConfig)
    → (0 < primary_count ds) ↔ Any (λ (d : ArchiveDestinationConfig). d.mode ≡ primary) ds
unfolding primary_count
primary_count_pos [] = (λ h. omega arith, λ h. absurd h)
primary_count_pos (d ∷ ds) =
    (λ h. ground (arith, primary_count_pos ds), λ h. ground (arith, primary_count_pos ds))

nonempty_of_primary :
    (ds : List ArchiveDestinationConfig) → 0 < primary_count ds → no_destinations ds ≡ false
unfolding primary_count
nonempty_of_primary [] h = absurd (omega arith)
nonempty_of_primary (d ∷ ds) h = refl

layout-cases : (l : LayoutProfile) → ((l ≡ custom) × (is_custom l ≡ true)) ⊎ (is_custom l ≡ false)
layout-cases custom = inl (refl, refl)
layout-cases route_views = inr refl
layout-cases ris = inr refl

validate_layout_iff :
    (cfg : ArchiveConfig)
    → (validate_layout cfg ≡ ok tt)
      ↔ (cfg.layout_profile ≡ custom → TemplatesFit cfg.custom_templates)
unfolding validate_layout validate_templates
validate_layout_iff cfg = (
  λ h e. ground arith,
  λ v. elim (layout-cases cfg.layout_profile) [
    | inl (e, t) ↦ let fits = v e in ground arith
    | inr f ↦ ground arith
  ],
)

validate_archive_iff :
    (net : NetText) (cfg : ArchiveConfig)
    → (validate_archive net cfg ≡ ok tt) ↔ (cfg.enabled ≡ true → IsValidArchive net cfg)
unfolding validate_archive
validate_archive_iff net cfg = (
  λ h e. ground (
    arith,
    primary_count_pos cfg.destinations,
    validate_layout_iff cfg,
    validate_destinations_iff cfg.destinations,
  ),
  λ v. elim (Bool-cases cfg.enabled) [
    | inl e ↦
        let w = v e in
        ground (
          arith,
          nonempty_of_primary cfg.destinations,
          primary_count_pos cfg.destinations,
          validate_layout_iff cfg,
          validate_destinations_iff cfg.destinations,
        )
    | inr e ↦ ground arith
  ],
)

-- `validate` accepts a configuration exactly when it is valid: its AS number is not 0 and its router
-- id is an IPv4 address; each peer has an AS number and a port that are not 0, a hold time of 0 or at
-- least 3, and a local address that parses, if it has one; each prefix parses; and if the archive is
-- enabled, it has a collector id that is not blank, an updates interval that divides 3600, a ribs
-- interval that is a multiple of it, neither of them 0, a primary destination, the tokens in its
-- templates if its layout is custom, and in each destination the fields that its type needs.
pub validate_iff : (net : NetText) (cfg : FoclConfig) → (validate net cfg ≡ ok tt) ↔ IsValid net cfg
unfolding validate
validate_iff net cfg = (
  λ h. ground (
    arith,
    validate_peers_iff net cfg.peers,
    validate_prefixes_iff net cfg.prefixes,
    validate_archive_iff net cfg.archive,
  ),
  λ v. ground (
    arith,
    validate_peers_iff net cfg.peers,
    validate_prefixes_iff net cfg.prefixes,
    validate_archive_iff net cfg.archive,
  ),
)

-- A configuration that `load` returns is valid, and is the parse of the file's text.
pub load-IsValid :
    (net : NetText) (read_to_string : String → Result String)
    (from_str : String → Result FoclConfig) (path : String) (cfg : FoclConfig)
    → load net read_to_string from_str path ≡ ok cfg
    → IsValid net cfg × ((raw : String) × (read_to_string path ≡ ok raw) × (from_str raw ≡ ok cfg))
unfolding load
load-IsValid net read_to_string from_str path cfg h = elim (Result-cases (read_to_string path)) [
  | inr (e, r) ↦ absurd (ground arith)
  | inl (raw, r) ↦ elim (Result-cases (from_str raw)) [
    | inr (e, p) ↦ absurd (ground arith)
    | inl (c, p) ↦ elim (Result-cases (validate net c)) [
      | inr (e, v) ↦ absurd (ground arith)
      | inl (u, v) ↦
          let same : c ≡ cfg = ground arith in
          ((validate_iff net cfg).0 (rw (← same) v), (raw, r, rw p (ap ok same)))
    ]
  ]
]
