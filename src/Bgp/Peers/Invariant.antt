-- ===== src/Bgp/Peers/Invariant.antt =====
-- src/bgp/mod.rs: the invariant of the table of peers, and the calls on an entry.
use text.Mathlib.TextPositions.{eq_refl}
use focl.Base.{
  ℕ, ◌+◌, ◌≡◌, String, Option, some, List, [], ◌∷◌, arith, length, length-append, eq_iff,
  Option-cases, inl, inr, All,
}
use focl.Base.Assoc.{
  get, insert, remove, get-remove, length-insert, length-remove, remove_absent, Distinct,
  Distinct-insert, Distinct-remove,
}
use focl.Base.Int.{ℤ}
use focl.Types.{PeerState}
use focl.Bgp.{PeerRuntime}
use focl.Bgp.Peers.{
  BgpService, initial_info, with_state, set_peer_state, set_advertised, peer_reset,
}

-- No address stands twice, every entry stands under its own address, and the tasks that were spawned
-- are as many as those aborted and the entries.
pub record IsService (s : BgpService) : Type 0 where
  pub distinct : Distinct s.peers
  pub named : All (λ (e : String × PeerRuntime). e.1.cfg.address ≡ e.0) s.peers
  pub owned : s.spawned ≡ length s.aborted + length s.peers

abbrev Named : String × PeerRuntime → Type 0
Named e = e.1.cfg.address ≡ e.0

pub Named-insert :
    (k : String) (r : PeerRuntime) (m : List (String × PeerRuntime))
    → r.cfg.address ≡ k
    → All Named m
    → All Named (insert k r m)
unfolding insert
Named-insert k r [] e h = (e, tt)
Named-insert k r ((i, w) ∷ m) e h = ground (arith, Named-insert k r m e h.1)

Named-remove : (k : String) (m : List (String × PeerRuntime)) → All Named m → All Named (remove k m)
unfolding remove
Named-remove k [] h = tt
Named-remove k ((i, w) ∷ m) h = ground (arith, Named-remove k m h.1)

Named-get :
    (k : String) (r : PeerRuntime) (m : List (String × PeerRuntime))
    → get k m ≡ some r
    → All Named m
    → r.cfg.address ≡ k
unfolding get
Named-get k r [] e h = cc
Named-get k r ((i, w) ∷ m) e h = ground (arith, eq_iff i k, Named-get k r m)

pub set_peer_state-IsService :
    (address : String) (state : PeerState) (last_error : Option String) (established_at : Option ℤ)
    (s : BgpService)
    → IsService s
    → IsService (set_peer_state address state last_error established_at s)
unfolding set_peer_state
set_peer_state-IsService address state last_error established_at s v =
    elim (Option-cases (get address s.peers)) [
      | inl e ↦ rw (e, set_peer_state) v
      | inr (r, e) ↦
          let r' : PeerRuntime = record r {
            info = with_state state last_error established_at r.info;
          } in
          rw (e, set_peer_state)
            (record {
              distinct = Distinct-insert address r' s.peers v.distinct;
              named =
                  Named-insert address r' s.peers (Named-get address r s.peers e v.named) v.named;
              owned = ground (arith, v.owned, length-insert address r' s.peers);
            })
    ]

pub set_advertised-IsService :
    (address : String) (count : ℕ) (s : BgpService)
    → IsService s
    → IsService (set_advertised address count s)
unfolding set_advertised
set_advertised-IsService address count s v = elim (Option-cases (get address s.peers)) [
  | inl e ↦ rw (e, set_advertised) v
  | inr (r, e) ↦
      let r' : PeerRuntime = record r { info = record r.info { advertised_prefixes = count } } in
      rw (e, set_advertised)
        (record {
          distinct = Distinct-insert address r' s.peers v.distinct;
          named = Named-insert address r' s.peers (Named-get address r s.peers e v.named) v.named;
          owned = ground (arith, v.owned, length-insert address r' s.peers);
        })
]

pub peer_reset-IsService :
    (peer : String) (s : BgpService) → IsService s → IsService (peer_reset peer s).1
unfolding peer_reset
peer_reset-IsService peer s v = elim (Option-cases (get peer s.peers)) [
  | inl e ↦ rw (e, peer_reset) (rw (remove_absent peer s.peers e) v)
  | inr (old, e) ↦
      let runtime : PeerRuntime = record {
        info = initial_info s.global_asn old.cfg;
        cfg = old.cfg;
        task = s.spawned;
      } in
      rw (e, peer_reset)
        (record {
          distinct =
              Distinct-insert peer runtime (remove peer s.peers)
                (Distinct-remove peer s.peers v.distinct);
          named =
              Named-insert peer runtime (remove peer s.peers) (Named-get peer old s.peers e v.named)
                (Named-remove peer s.peers v.named);
          owned = ground (
            arith,
            v.owned,
            length-insert peer runtime (remove peer s.peers),
            get-remove peer peer s.peers,
            eq_refl peer,
            length-remove peer s.peers old v.distinct e,
            length-append {0} s.aborted (old.task ∷ []),
          );
        })
]
