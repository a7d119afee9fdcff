-- ===== src/Control/Boot.antt =====
-- src/bin/focld.rs: `main`, from the loaded configuration to the bound socket.
use focl.Base.{ℕ, String, Bool, false, List, Result, ok, err, ok_or, if◌then◌else◌}
use Prim.Native.String.{◌++◌}
use focl.Base.Int.{ℤ}
use focl.Config.{FoclConfig}
use focl.Bgp.Peers.{BgpService}
use focl.Bgp.Peers
use focl.Archive.World.{World, M, pure, touch, ◌>>=◌, ◌>>◌}
use focl.Archive.Queue.{Table}
use focl.Archive.Service.{ArchiveService}
use focl.Archive.Service.Start
use focl.Control.Daemon.{Desk, Daemon}

-- What is there when the daemon starts: the entries of the temporary root, the rows of the queue, the
-- time, and whether a socket was left behind.
pub record Found : Type 0 where
  pub entries : List (Result (String × Bool))
  pub table : Table
  pub now : ℤ
  pub stale_socket : Bool

abbrev pub lifted : {A : Type 0} → Result A → M A
lifted r w = (r, w)

-- `ArchiveService::new`: the service, if it starts.
abbrev pub started_archive :
    Result (Unit {0}) × (ArchiveService × World) → Result ArchiveService × World
started_archive (ok _, (s, w)) = (ok s, w)
started_archive (err e, (s, w)) = (err e, w)

unfoldable pub start_archive : Desk → Found → FoclConfig → ℕ → M ArchiveService
start_archive desk found cfg id w =
    started_archive (Start.start desk.kit cfg.archive id found.entries found.table found.now w)

unfoldable pub cleanup_socket : String → Bool → M (Unit {0})
cleanup_socket path exists =
    if exists then touch ("failed removing stale socket " ++ path) else pure tt

unfoldable pub daemon_of : ArchiveService → BgpService → M Daemon
daemon_of archive bgp w =
    (ok (record { archive = archive; files = w; bgp = bgp; shutting_down = false }), w)

-- `main` up to the accept loop, on the result of `FoclConfig::load`.
unfoldable pub boot : Desk → Found → Result FoclConfig → M Daemon
unfolding start_archive daemon_of
boot desk found loaded = do
  cfg ← lifted loaded
  collector_bgp_id ←
      lifted
        (ok_or (desk.net.parse_ipv4 cfg.global.router_id) "global.router_id must be valid IPv4")
  archive ← start_archive desk found cfg collector_bgp_id
  bgp ← lifted (Peers.new desk.net cfg)
  cleanup_socket cfg.global.control_socket found.stale_socket
  touch ("failed binding control socket " ++ cfg.global.control_socket)
  daemon_of archive bgp
