-- ===== src/Bgp/Peers/Owned.antt =====
-- src/bgp/mod.rs: the tasks that the table of peers owns, from `start_peers` on.
use focl.Base.{
  ℕ, ◌+◌, ◌≡◌, ◌≢◌, refl, String, true, not, Option, none, List, [], ◌∷◌, arith, if_either, length,
  eq_iff, All,
}
use focl.Base.Assoc.{get, insert, get-insert, length-insert, Distinct-insert}
use focl.Base.Int.{ℤ}
use focl.Config.{PeerConfig}
use focl.Types.{PeerState}
use focl.Bgp.{PeerRuntime}
use focl.Bgp.Peers.{
  BgpService, initial_info, start_peer, start_peers, set_peer_state, set_advertised, peer_reset,
}
use focl.Bgp.Peers.Invariant.{
  IsService, Named-insert, set_peer_state-IsService, set_advertised-IsService, peer_reset-IsService,
}

-- Starting a peer whose address is not in the table yet.
start_peer-IsService :
    (p : PeerConfig) (s : BgpService)
    → get p.address s.peers ≡ none
    → IsService s
    → IsService (start_peer p s)
unfolding start_peer
start_peer-IsService p s e v =
    let runtime : PeerRuntime = record {
      info = initial_info s.global_asn p;
      cfg = p;
      task = s.spawned;
    } in
    if_either IsService (not p.enabled) s
      (record s { peers = insert p.address runtime s.peers; spawned = s.spawned + 1 }) v
      (record {
        distinct = Distinct-insert p.address runtime s.peers v.distinct;
        named = Named-insert p.address runtime s.peers refl v.named;
        owned = ground (arith, v.owned, length-insert p.address runtime s.peers);
      })

get-start_peer :
    (p : PeerConfig) (j : String) (s : BgpService)
    → p.address ≢ j
    → get j s.peers ≡ none
    → get j (start_peer p s).peers ≡ none
unfolding start_peer
get-start_peer p j s n e = ground (
  arith,
  eq_iff p.address j,
  get-insert p.address j (record { info = initial_info s.global_asn p; cfg = p; task = s.spawned })
      s.peers,
)

-- The addresses of a list of configurations differ, and none is in the table.
abbrev pub AllNew : List PeerConfig → BgpService → Type 0
AllNew [] s = Unit {0}
AllNew (p ∷ ps) s =
    (get p.address s.peers ≡ none)
    × All (λ (q : PeerConfig). p.address ≢ q.address) ps
    × AllNew ps s

AllNew-start_peer :
    (p : PeerConfig) (ps : List PeerConfig) (s : BgpService)
    → All (λ (q : PeerConfig). p.address ≢ q.address) ps
    → AllNew ps s
    → AllNew ps (start_peer p s)
AllNew-start_peer p [] s d n = tt
AllNew-start_peer p (q ∷ qs) s d n =
    (get-start_peer p q.address s d.0 n.0, n.1, AllNew-start_peer p qs s d.1 n.2)

pub start_peers-IsService :
    (ps : List PeerConfig) (s : BgpService)
    → AllNew ps s
    → IsService s
    → IsService (start_peers ps s)
unfolding start_peers
start_peers-IsService [] s n v = v
start_peers-IsService (p ∷ ps) s n v =
    start_peers-IsService ps (start_peer p s) (AllNew-start_peer p ps s n.1 n.2)
      (start_peer-IsService p s n.0 v)

-- What happens to the table once its peers run.
pub data Change : Type 0 where
  sets : String → PeerState → Option String → Option ℤ → Change
  advertises : String → ℕ → Change
  resets : String → Change

unfoldable pub change : BgpService → Change → BgpService
change s (sets address state last_error established_at) =
    set_peer_state address state last_error established_at s
change s (advertises address count) = set_advertised address count s
change s (resets peer) = (peer_reset peer s).1

unfoldable pub changes : BgpService → List Change → BgpService
changes s [] = s
changes s (c ∷ cs) = changes (change s c) cs

pub change-IsService : (s : BgpService) (c : Change) → IsService s → IsService (change s c)
unfolding change
change-IsService s (sets a st e ts) v = set_peer_state-IsService a st e ts s v
change-IsService s (advertises a n) v = set_advertised-IsService a n s v
change-IsService s (resets p) v = peer_reset-IsService p s v

changes-IsService : (s : BgpService) (cs : List Change) → IsService s → IsService (changes s cs)
unfolding changes
changes-IsService s [] v = v
changes-IsService s (c ∷ cs) v = changes-IsService (change s c) cs (change-IsService s c v)

-- From a table as it should be, start peers whose addresses differ from one another and from those
-- in the table, and let any state changes, announcements and resets follow, in any order: the table
-- is as it should be, so the tasks that were spawned are as many as those aborted and the entries.
pub start_changes-IsService :
    (ps : List PeerConfig) (s : BgpService) (cs : List Change)
    → AllNew ps s
    → IsService s
    → IsService (changes (start_peers ps s) cs)
start_changes-IsService ps s cs n v =
    changes-IsService (start_peers ps s) cs (start_peers-IsService ps s n v)

-- Start two enabled peers with one address, which is not in the table, from a table as it should be:
-- the tasks that were spawned are one more than those aborted and the entries.
pub same_address_leaks_task :
    (p q : PeerConfig) (s : BgpService)
    → p.enabled ≡ true
    → q.enabled ≡ true
    → p.address ≡ q.address
    → get p.address s.peers ≡ none
    → IsService s
    → let s' = start_peers (p ∷ q ∷ []) s in s'.spawned ≡ length s'.aborted + length s'.peers + 1
unfolding start_peers start_peer
same_address_leaks_task p q s on on' same new v =
    let r : PeerRuntime = record {
      info = initial_info s.global_asn p;
      cfg = p;
      task = s.spawned;
    } in
    let r' : PeerRuntime = record {
      info = initial_info s.global_asn q;
      cfg = q;
      task = s.spawned + 1;
    } in
    ground (
      arith,
      v.owned,
      eq_iff p.address q.address,
      get-insert p.address q.address r s.peers,
      length-insert p.address r s.peers,
      length-insert q.address r' (insert p.address r s.peers),
    )
