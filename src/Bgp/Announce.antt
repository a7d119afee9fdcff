-- ===== src/Bgp/Announce.antt =====
-- src/bgp/mod.rs: `build_announce_update`.
use focl.Base.{
  ℕ, refl, ap, ◌⊎◌, ◌↔◌, inl, inr, ◌+◌, ◌*◌, ◌^◌, ◌≡◌, false, Option, none, some, List, [], ◌∷◌,
  unwrap_or, arith,
}
use focl.Net.{IpAddr, v4, v6}
use focl.Bgp.{Attribute, origin_igp, as_path, next_hop, BgpMessage, update_message, PrefixEntry}

-- `Ipv6Addr::new(0xfe80, 0, 0, 0, 0, 0, 0, 1)`
abbrev pub link_local : ℕ
link_local = 0xfe80 * 2 ^ 112 + 1

default_next_hop : IpAddr → ℕ → IpAddr
default_next_hop (v4 _) router_id = v4 router_id
default_next_hop (v6 _) router_id = v6 link_local

unfoldable pub build_announce_update : PrefixEntry → ℕ → ℕ → BgpMessage
unfolding default_next_hop
build_announce_update entry router_id local_as = update_message (record {
  withdrawn_prefixes = [];
  attributes =
      origin_igp
      ∷ as_path (local_as ∷ []) false
      ∷ next_hop (unwrap_or entry.next_hop (default_next_hop entry.network.addr router_id))
      ∷ [];
  announced_prefixes = entry.network ∷ [];
})

-- The next hop that an UPDATE carries.
abbrev pub hop_in : List Attribute → Option IpAddr
hop_in [] = none
hop_in (next_hop ip ∷ rest) = some ip
hop_in (origin_igp ∷ rest) = hop_in rest
hop_in (as_path _ _ ∷ rest) = hop_in rest
hop_in (Attribute.other _ ∷ rest) = hop_in rest

abbrev pub hop_of : BgpMessage → Option IpAddr
hop_of (update_message u) = hop_in u.attributes
hop_of (BgpMessage.open_message _) = none
hop_of (BgpMessage.notification_message _) = none
hop_of BgpMessage.keep_alive = none

id_of : Option IpAddr → ℕ
id_of (some (v4 n)) = n
id_of (some (v6 _)) = 0
id_of none = 0

-- For a prefix with no next hop of its own, two routers announce the same next hop exactly when they
-- have the same id or the prefix is an IPv6 one: the next hop of an IPv6 prefix is not derived from
-- the router's id.
pub next_hop_shared_iff :
    (entry : PrefixEntry) (router_id other_id local_as : ℕ)
    → entry.next_hop ≡ none
    → (hop_of (build_announce_update entry router_id local_as)
        ≡ hop_of (build_announce_update entry other_id local_as))
      ↔ ((router_id ≡ other_id) ⊎ ((a : ℕ) × (entry.network.addr ≡ v6 a)))
unfolding build_announce_update default_next_hop id_of
next_hop_shared_iff entry router_id other_id local_as h = rw h (defaults entry.network.addr)
  where
    own :
        (b : ℕ)
        → ((router_id ≡ other_id) ⊎ ((a : ℕ) × (v4 b ≡ v6 a)))
        → Path (Option IpAddr) (some (v4 router_id)) (some (v4 other_id))
    own b (inl e) = ap (λ n. some (v4 n)) e
    own b (inr (a, e)) = ground (arith, e)

    defaults :
        (addr : IpAddr)
        → (Path
            (Option IpAddr)
            (some (default_next_hop addr router_id))
            (some (default_next_hop addr other_id)))
          ↔ ((router_id ≡ other_id) ⊎ ((a : ℕ) × (addr ≡ v6 a)))
    defaults (v4 b) = (λ e. inl (ap id_of e), own b)
    defaults (v6 b) = (λ _. inr (b, refl), λ _. refl)
