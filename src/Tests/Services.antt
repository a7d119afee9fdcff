-- ===== src/Tests/Services.antt =====
-- A table of peers, and the tasks that it starts.
use focl.Base.Text.{text_ne}
use focl.Base.{◌+◌, none, some, List, [], ◌∷◌, ◌≡◌, refl, length}
use focl.Base.Assoc.{get}
use focl.Base.Int.{pos}
use focl.Types.{established}
use focl.Bgp.Peers.{BgpService, initial_info, start_peers}
use focl.Bgp.Peers.Invariant.{IsService}
use focl.Bgp.Peers.Owned.{
  Change, sets, resets, changes, start_changes-IsService, same_address_leaks_task,
}
use focl.Tests.Config.{peer_at}

abbrev empty_service : BgpService
empty_service = record {
  global_asn = 64500;
  router_id = 3221225985;
  prefixes = [];
  peers = [];
  events = [];
  spawned = 0;
  aborted = [];
}

abbrev pub one_peer : BgpService
one_peer = record empty_service {
  peers =
      (
        "192.0.2.2",
        record {
          info = initial_info 64500 (peer_at "192.0.2.2");
          cfg = peer_at "192.0.2.2";
          task = 0;
        },
      )
      ∷ [];
  spawned = 1;
}

empty_service-IsService : IsService empty_service
empty_service-IsService = record { distinct = tt; named = tt; owned = refl }

abbrev later : List Change
later = sets "192.0.2.2" established none (some (pos 100)) ∷ resets "192.0.2.2" ∷ []

start_changes-IsService_example :
    IsService
      (changes (start_peers (peer_at "192.0.2.2" ∷ peer_at "192.0.2.3" ∷ []) empty_service) later)
unfolding get
start_changes-IsService_example =
    start_changes-IsService (peer_at "192.0.2.2" ∷ peer_at "192.0.2.3" ∷ []) empty_service later
      (refl, (text_ne "192.0.2.2" "192.0.2.3" refl, tt), (refl, tt, tt)) empty_service-IsService

same_address_leaks_task_example :
    let s' = start_peers (peer_at "192.0.2.2" ∷ peer_at "192.0.2.2" ∷ []) empty_service in
    s'.spawned ≡ length s'.aborted + length s'.peers + 1
unfolding get
same_address_leaks_task_example =
    same_address_leaks_task (peer_at "192.0.2.2") (peer_at "192.0.2.2") empty_service refl refl refl
      refl empty_service-IsService
