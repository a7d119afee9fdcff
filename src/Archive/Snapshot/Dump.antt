-- ===== src/Archive/Snapshot/Dump.antt =====
-- src/archive/snapshot.rs: which snapshots `build_table_dump_v2` encodes, and what its records are.
use focl.Base.{
  ℕ, suc, ◌+◌, ◌-◌, ◌%◌, ◌^◌, ◌≤◌, ◌<◌, Bool, true, false, List, [], ◌∷◌, ◌≡◌, ◌↔◌, refl, arith,
  ltb, leb, ◌==◌, ◌||◌, ◌&&◌, is_some, length, All, Result, ok, err, Result-cases, Bool-cases, inl,
  inr,
}
use focl.Archive.Types.{SnapshotPeer, SnapshotRoute, RibSnapshotInput}
use focl.Archive.Snapshot.Records.{MrtPeer}
use focl.Archive.Snapshot.{
  Mrt, as_u32, put, contains_key, index_peers, build_peer_index_table, encode_route, encode_routes,
  build_table_dump_v2,
}

abbrev pub is_ok : {A : Type 0} → Result A → Bool
is_ok (ok _) = true
is_ok (err _) = false

-- A route of a dump with `n` peers.
pub record RouteFits (lib : Mrt) (n : ℕ) (r : SnapshotRoute) : Type 0 where
  pub prefix_len : r.prefix_len ≤ 32
  pub peer : r.peer_index < n
  pub net : is_some (lib.ipv4_net r.prefix r.prefix_len) ≡ true
  pub attributes : is_ok (lib.parse_attributes r.path_attributes) ≡ true

pub record IsDumpable (lib : Mrt) (snapshot : RibSnapshotInput) : Type 0 where
  pub peers : length snapshot.peers ≤ 2 ^ 16 - 1
  pub routes : All (RouteFits lib (length snapshot.peers)) snapshot.routes

contains_key-put :
    (k j : ℕ) (p : MrtPeer) (m : List (ℕ × MrtPeer))
    → contains_key k (put ◌==◌ j p m) ≡ (j == k || contains_key k m)
unfolding contains_key put
contains_key-put k j p [] = refl
contains_key-put k j p ((i, q) ∷ m) = ground (arith, contains_key-put k j p m)

-- The table has exactly the indices of the peers.
contains_key-index_peers :
    (k idx : ℕ) (ps : List SnapshotPeer) (m : List (ℕ × MrtPeer))
    → idx + length ps ≤ 2 ^ 16
    → contains_key k (index_peers idx ps m)
      ≡ (contains_key k m || (leb idx k && ltb k (idx + length ps)))
unfolding index_peers
contains_key-index_peers k idx [] m h = ground arith
contains_key-index_peers k idx (p ∷ ps) m h =
    let peer : MrtPeer = record {
      peer_bgp_id = p.peer_bgp_id;
      peer_ip = p.peer_ip;
      peer_asn = p.peer_asn;
    } in
    ground (
      arith,
      contains_key-index_peers k (suc idx) ps (put ◌==◌ (idx % 2 ^ 16) peer m),
      contains_key-put k (idx % 2 ^ 16) peer m,
    )

module _ (lib : Mrt) (timestamp : ℕ) (peers : List (ℕ × MrtPeer)) (n : ℕ)
    (known : (k : ℕ) → contains_key k peers ≡ ltb k n) where
  encode_route_iff :
      (r : SnapshotRoute) → (is_ok (encode_route lib timestamp peers r) ≡ true) ↔ RouteFits lib n r
  unfolding encode_route
  encode_route_iff r = (
    λ h. ground (arith, known r.peer_index),
    λ f. ground (arith, known r.peer_index, f.prefix_len, f.peer, f.net, f.attributes),
  )

  encode_routes_iff :
      (rs : List SnapshotRoute)
      → (is_ok (encode_routes lib timestamp peers rs) ≡ true) ↔ All (RouteFits lib n) rs
  unfolding encode_routes
  encode_routes_iff [] = (λ _. tt, λ _. refl)
  encode_routes_iff (r ∷ rs) = (
    λ h. ground (arith, encode_route_iff r, encode_routes_iff rs),
    λ f. ground (arith, encode_route_iff r, encode_routes_iff rs),
  )

known_peers :
    (ps : List SnapshotPeer)
    → length ps ≤ 2 ^ 16 - 1
    → (k : ℕ) → contains_key k (index_peers 0 ps []) ≡ ltb k (length ps)
unfolding contains_key
known_peers ps h k = ground (arith, contains_key-index_peers k 0 ps [])

-- `build_table_dump_v2` succeeds exactly on the snapshots with at most 65535 peers whose routes each
-- have a prefix length of at most 32, the index of a peer of the snapshot, a prefix that the library
-- accepts and attributes that parse.
pub build_table_dump_v2_iff :
    (lib : Mrt) (snapshot : RibSnapshotInput)
    → (is_ok (build_table_dump_v2 lib snapshot) ≡ true) ↔ IsDumpable lib snapshot
unfolding build_table_dump_v2 build_peer_index_table
build_table_dump_v2_iff lib snapshot =
    elim (Bool-cases (ltb (2 ^ 16 - 1) (length snapshot.peers))) [
      | inl many ↦ (λ h. ground arith, λ v. ground (arith, v.peers))
      | inr few ↦
          let routes =
            encode_routes_iff lib (as_u32 snapshot.timestamp) (index_peers 0 snapshot.peers [])
              (length snapshot.peers) (known_peers snapshot.peers (ground arith)) snapshot.routes in
          (
            λ h. record { peers = ground arith; routes = routes.0 (ground arith) },
            λ v. ground (arith, routes.1 v.routes),
          )
    ]

length-encode_routes :
    (lib : Mrt) (timestamp : ℕ) (peers : List (ℕ × MrtPeer)) (rs : List SnapshotRoute)
    (records : List (List ℕ))
    → encode_routes lib timestamp peers rs ≡ ok records
    → length records ≡ length rs
unfolding encode_routes
length-encode_routes lib timestamp peers [] records h = ground arith
length-encode_routes lib timestamp peers (r ∷ rs) records h =
    elim (Result-cases (encode_route lib timestamp peers r)) [
      | inr (e, f) ↦ absurd (ground arith)
      | inl (b, f) ↦ elim (Result-cases (encode_routes lib timestamp peers rs)) [
        | inr (e, g) ↦ absurd (ground arith)
        | inl (rest, g) ↦ ground (arith, length-encode_routes lib timestamp peers rs rest)
      ]
    ]

-- A dump has one record for the peers and one for each route.
pub length-build_table_dump_v2 :
    (lib : Mrt) (snapshot : RibSnapshotInput) (records : List (List ℕ))
    → build_table_dump_v2 lib snapshot ≡ ok records
    → length records ≡ length snapshot.routes + 1
unfolding build_table_dump_v2 build_peer_index_table
length-build_table_dump_v2 lib snapshot records h =
    let t = as_u32 snapshot.timestamp in
    let m = index_peers 0 snapshot.peers [] in
    elim (Result-cases (encode_routes lib t m snapshot.routes)) [
      | inr (e, f) ↦ absurd (ground arith)
      | inl (rest, f) ↦ ground (arith, length-encode_routes lib t m snapshot.routes rest f)
    ]
