-- ===== src/Tests/Boots.antt =====
-- A daemon that starts with a disabled archive and one peer, and takes its first steps.
use focl.Base.{false, true, none, [], ◌∷◌, ◌≡◌, refl, ok}
use focl.Base.Int.{pos}
use focl.Base.Assoc.{insert}
use focl.Config.{FoclConfig, default_archive}
use focl.Bgp.Peers.{start_peers, start_peer, spawn_peer_task, initial_info}
use focl.Bgp.Peers
use focl.Bgp.Peers.Owned.{resets, change}
use focl.Archive.Queue.{empty_table}
use focl.Archive.World.{call}
use focl.Archive.Writer.Complete.{calm}
use focl.Archive.Service.Start.{start}
use focl.Archive.Service.Background.{ticks, turn}
use focl.Control.Daemon.{Daemon, handle_line}
use focl.Control.Boot.{Found, boot, cleanup_socket}
use focl.Control.Steps.{here, next, serves, turns, peer_changes, IsDaemon, after_act}
use focl.Control.Reached.{boot-Reach}
use focl.Tests.Config.{cfg}
use focl.Tests.Control.{desk}
use focl.Tests.Services.{one_peer}
use focl.Tests.Replicas.{service}
use focl.Net.{v4}
use focl.Tests.Segments.{no_files}

abbrev idle_cfg : FoclConfig
idle_cfg = record cfg { archive = default_archive }

abbrev found : Found
found = record { entries = []; table = empty_table; now = pos 1000; stale_socket = true }

abbrev ready : Daemon
ready = record {
  archive = record service { cfg = default_archive; replicator = none };
  files = calm no_files 2;
  bgp = record one_peer {
    prefixes =
        record { network = record { addr = v4 3405803776; prefix_len = 24 }; next_hop = none } ∷ [];
  };
  shutting_down = false;
}

boots : boot desk found (ok idle_cfg) (calm no_files 0) ≡ (ok ready, calm no_files 2)
unfolding boot start Peers.new start_peers start_peer initial_info insert cleanup_socket call
boots = refl

-- A line is served, the scheduler ticks, and the peer is reset.
abbrev later : Daemon
later =
    let served : Daemon = (handle_line desk (pos 1000) "{show}\n" ready).1 in
    let ticked : Daemon = after_act (turn desk.kit (ticks (pos 1005))) served in
    record ticked { bgp = change ticked.bgp (resets "192.0.2.2") }

boot-Reach_example : IsDaemon desk.kit default_archive later
boot-Reach_example =
    boot-Reach desk found idle_cfg (calm no_files 0) (calm no_files 2) ready later
      (record { rising = tt; bounded = tt }) (tt, tt) boots
      (next (next (next here (serves ready (pos 1000) "{show}\n")) (turns _ (ticks (pos 1005))))
        (peer_changes _ (resets "192.0.2.2")))
