-- ===== src/Control/Reached.antt =====
-- src/bin/focld.rs: the state in which `main` comes to its accept loop, and what it leads to.
use Prim.Native.String.{◌++◌}
use focl.Bgp.{PrefixEntry}
use focl.Base.{ok_or, ◌>>=◌, subst, ℕ, List, [], ◌∷◌, ◌≡◌, ◌≢◌, refl, All, Result, ok, err, arith}
use focl.Base.Assoc.{get}
use focl.Config.{PeerConfig, FoclConfig}
use focl.Bgp.Peers.{BgpService, start_peers}
use focl.Bgp.Peers
use focl.Bgp.Peers.Invariant.{IsService}
use focl.Bgp.Peers.Owned.{AllNew, start_peers-IsService}
use focl.Archive.World.{World, M, pure, touch}
use focl.Archive.World
use focl.Archive.Queue.Rows.{IsQueue}
use focl.Archive.Triple.{Post, Triple-bind}
use focl.Archive.Service.Started.{Gives, Gives-behind, start-IsArchive}
use focl.Net.{NetText}
use focl.Archive.Service.{ArchiveService}
use focl.Archive.Service.Start.{start}
use focl.Archive.Service.Invariant.{IsArchive}
use focl.Control.Daemon.{Desk, Daemon}
use focl.Control.Steps.{Reach, IsDaemon, Reach-IsDaemon}
use focl.Control.Boot.{
  Found, boot, started_archive, start_archive, daemon_of, cleanup_socket, lifted,
}

-- No address stands twice.
abbrev pub DistinctAddresses : List PeerConfig → Type 0
DistinctAddresses [] = Unit {0}
DistinctAddresses (p ∷ ps) =
    All (λ (q : PeerConfig). p.address ≢ q.address) ps × DistinctAddresses ps

module _ (s : BgpService) (empty : s.peers ≡ []) where
  pub DistinctAddresses-AllNew : (ps : List PeerConfig) → DistinctAddresses ps → AllNew ps s
  unfolding get
  DistinctAddresses-AllNew [] h = tt
  DistinctAddresses-AllNew (p ∷ ps) h = (rw (empty) refl, h.0, DistinctAddresses-AllNew ps h.1)

start_archive-IsArchive :
    (desk : Desk) (found : Found) (cfg : FoclConfig) (id : ℕ)
    → IsQueue found.table
    → Gives (IsArchive desk.kit cfg.archive) (start_archive desk found cfg id)
unfolding start_archive
start_archive-IsArchive desk found cfg id q = record {
  at = λ w _.
      given (start desk.kit cfg.archive id found.entries found.table found.now w)
        (start-IsArchive desk.kit cfg.archive id found.entries found.table found.now w q);
}
  where
    given :
        (out : Result (Unit {0}) × (ArchiveService × World))
        → IsArchive desk.kit cfg.archive out.1.0
        → Post (λ s _. IsArchive desk.kit cfg.archive s) (λ _. Unit {0}) (started_archive out)
    given (ok a, (s, w)) h = h
    given (err e, (s, w)) h = tt

-- The table before the first peer is started.
abbrev empty_service : ℕ → ℕ → List PrefixEntry → BgpService
empty_service asn router_id prefixes = record {
  global_asn = asn;
  router_id = router_id;
  prefixes = prefixes;
  peers = [];
  events = [];
  spawned = 0;
  aborted = [];
}

started-IsService :
    (asn : ℕ) (peers : List PeerConfig) (s : BgpService) (id : Result ℕ)
    (prefixes : Result (List PrefixEntry))
    → DistinctAddresses peers
    → (◌>>=◌ id λ i. ◌>>=◌ prefixes λ ps. ok (start_peers peers (empty_service asn i ps))) ≡ ok s
    → IsService s
started-IsService asn peers s (err m) prefixes d e = absurd (ground arith)
started-IsService asn peers s (ok i) (err m) d e = absurd (ground arith)
started-IsService asn peers s (ok i) (ok ps) d e =
    let begun = empty_service asn i ps in
    let same : start_peers peers begun ≡ s = ground arith in
    subst IsService same (
      start_peers-IsService peers begun (DistinctAddresses-AllNew begun refl peers d)
        (record { distinct = tt; named = tt; owned = omega arith }))

new-IsService :
    (net : NetText) (cfg : FoclConfig) (s : BgpService)
    → DistinctAddresses cfg.peers
    → Peers.new net cfg ≡ ok s
    → IsService s
unfolding Peers.new
new-IsService net cfg s d e = started-IsService cfg.global.asn cfg.peers s _ _ d e

-- A result that is there already, with what it is known to be.
Gives-lifted :
    {A B : Type 0} {R : B → Type 0} (r : Result A) (next : A → M B)
    → ((a : A) → (r ≡ ok a) → Gives R (next a))
    → Gives R (World.◌>>=◌ (lifted r) next)
Gives-lifted (ok a) next k = record { at = λ w p. (k a refl).at w p }
Gives-lifted (err e) next k = record { at = λ w p. tt }

module _ (desk : Desk) (found : Found) (cfg : FoclConfig) where
  -- The steps of `main` behind those of the archive and of the peers.
  abbrev ready : ArchiveService → BgpService → M Daemon
  ready archive bgp = World.◌>>◌ (cleanup_socket cfg.global.control_socket found.stale_socket) (
      World.◌>>◌ (touch ("failed binding control socket " ++ cfg.global.control_socket))
        (daemon_of archive bgp))

  ready-Gives :
      (archive : ArchiveService) (bgp : BgpService)
      → IsArchive desk.kit cfg.archive archive
      → IsService bgp
      → Gives (IsDaemon desk.kit cfg.archive) (ready archive bgp)
  unfolding daemon_of
  ready-Gives archive bgp a b =
      let error = "failed binding control socket " ++ cfg.global.control_socket in
      Gives-behind (cleanup_socket cfg.global.control_socket found.stale_socket)
        (λ _. World.◌>>◌ (touch error) (daemon_of archive bgp))
        (λ _.
          Gives-behind (touch error) (λ _. daemon_of archive bgp)
            (λ _. record { at = λ w p. record { archive = a; bgp = b } }))

  boot-Gives :
      IsQueue found.table
      → DistinctAddresses cfg.peers
      → Gives (IsDaemon desk.kit cfg.archive) (boot desk found (ok cfg))
  unfolding boot
  boot-Gives q d =
      let peers : ArchiveService → M Daemon =
        λ archive. World.◌>>=◌ (lifted (Peers.new desk.net cfg)) (ready archive) in
      let router_id : Result ℕ =
        ok_or (desk.net.parse_ipv4 cfg.global.router_id) "global.router_id must be valid IPv4" in
      Gives-lifted router_id (λ id. World.◌>>=◌ (start_archive desk found cfg id) peers)
        (λ id _.
          Triple-bind (start_archive desk found cfg id) peers
            (start_archive-IsArchive desk found cfg id q)
            (λ archive. record {
              at = λ w a.
                  (Gives-lifted (Peers.new desk.net cfg) (ready archive)
                      (λ bgp e. ready-Gives archive bgp a (new-IsService desk.net cfg bgp d e))).at
                    w tt;
            }))

-- Start the daemon with a loaded configuration whose peers have different addresses, on a queue whose
-- ids rise, and whichever calls fail: if it comes to its accept loop, then however long it runs and
-- in whatever order it serves its clients, takes records in, turns the archive's two tasks and
-- changes its peers, the configuration of the archive stays; an open segment is of the configuration,
-- and its start and its paths are those of one bucket; the replicator keeps its destinations, and
-- the ids of its queue rise and none is above the last; and in the table of peers no address stands
-- twice, each entry stands under its own address, and the tasks that were spawned are as many as those
-- aborted and the entries.
pub boot-Reach :
    (desk : Desk) (found : Found) (cfg : FoclConfig) (w w' : World) (d e : Daemon)
    → IsQueue found.table
    → DistinctAddresses cfg.peers
    → boot desk found (ok cfg) w ≡ (ok d, w')
    → Reach desk d e
    → IsDaemon desk.kit cfg.archive e
boot-Reach desk found cfg w w' d e q distinct booted r =
    let start : IsDaemon desk.kit cfg.archive d =
      subst (Post (λ (d : Daemon) _. IsDaemon desk.kit cfg.archive d) (λ _. Unit {0})) booted
        ((boot-Gives desk found cfg q distinct).at w tt) in
    Reach-IsDaemon desk cfg.archive start r
