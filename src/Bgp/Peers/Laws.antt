-- ===== src/Bgp/Peers/Laws.antt =====
-- src/bgp/mod.rs: what the calls on the table of peers do, for every key of the table.
use focl.Base.{
  ◌+◌, ◌≡◌, ◌⊎◌, String, Option, none, some, [], ◌∷◌, ◌++◌, arith, is_some, if◌then◌else◌, str_eq,
  ok, err, eq_iff, Option-cases, inl, inr,
}
use focl.Base.Assoc.{get, remove, get-insert, get-remove}
use focl.Base.Int.{ℤ}
use focl.Types.{PeerState, envelope, peer_state}
use focl.Bgp.{PeerRuntime}
use focl.Bgp.Peers.{BgpService, initial_info, with_state, set_peer_state, peer_reset, not_found}

-- `set_peer_state` on a table that has the peer changes that peer's entry alone: its state, an error
-- that is given and, on `Established` with no error, the old error, and a timestamp that is given.
-- Its configuration and its task stay, and one event tells the new state. On a table that lacks the
-- peer it does nothing.
pub get-set_peer_state :
    (address j : String) (state : PeerState) (last_error : Option String)
    (established_at : Option ℤ) (s : BgpService)
    → (get j (set_peer_state address state last_error established_at s).peers ≡ (
        if str_eq address j
        then (elim (get address s.peers) [
          | none ↦ none
          | some runtime ↦
              some
                (record runtime { info = with_state state last_error established_at runtime.info })
        ])
        else get j s.peers))
      × ((set_peer_state address state last_error established_at s).events ≡ (
          if is_some (get address s.peers)
          then s.events ++ envelope (peer_state address state) ∷ []
          else s.events))
unfolding set_peer_state
get-set_peer_state address j state last_error established_at s =
    elim (Option-cases (get address s.peers)) [
      | inl e ↦ ground (arith, eq_iff address j)
      | inr (r, e) ↦ ground (
        arith,
        eq_iff address j,
        get-insert address j (record r { info = with_state state last_error established_at r.info })
            s.peers,
      )
    ]

-- A reset of an unknown peer is an error that leaves the table's entries as they were. A reset of a
-- known one succeeds: its task is aborted, a task with a new number runs it under the same
-- configuration from `Idle`, with no error, no prefixes and no timestamp, and the entry of every
-- other key is as before.
pub peer_reset_lem :
    (peer j : String) (s : BgpService)
    → let (result, s') = peer_reset peer s in
      ((get peer s.peers ≡ none)
        × (result ≡ err (not_found peer))
        × (get j s'.peers ≡ get j s.peers)
        × (s'.aborted ≡ s.aborted)
        × (s'.spawned ≡ s.spawned))
      ⊎ ((old : PeerRuntime) × (get peer s.peers ≡ some old)
          × (result ≡ ok tt)
          × (get j s'.peers ≡ (
              if str_eq peer j
              then some (record {
                info = initial_info s.global_asn old.cfg;
                cfg = old.cfg;
                task = s.spawned;
              })
              else get j s.peers))
          × (s'.aborted ≡ s.aborted ++ old.task ∷ [])
          × (s'.spawned ≡ s.spawned + 1))
unfolding peer_reset
peer_reset_lem peer j s = elim (Option-cases (get peer s.peers)) [
  | inl e ↦ inl (
    e,
    ground arith,
    ground (arith, get-remove peer j s.peers, eq_iff peer j),
    ground arith,
    ground arith,
  )
  | inr (old, e) ↦
      let runtime : PeerRuntime = record {
        info = initial_info s.global_asn old.cfg;
        cfg = old.cfg;
        task = s.spawned;
      } in
      inr (
        old,
        e,
        ground arith,
        ground (
          arith,
          get-insert peer j runtime (remove peer s.peers),
          get-remove peer j s.peers,
          eq_iff peer j,
        ),
        ground arith,
        ground arith,
      )
]
