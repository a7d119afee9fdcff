-- ===== src/Archive/Service/Start.antt =====
-- src/archive/mod.rs: `ArchiveService::new` and `cleanup_tmp_root`. What `read_dir` lists and what the
-- database holds are arguments.
use Prim.Native.String.{◌++◌ as append_text}
use focl.Base.{
  ℕ, String, Bool, true, false, not, Option, none, some, List, [], ◌∷◌, if◌then◌else◌, Result, ok,
  err, context,
}
use focl.Base.Int.{ℤ}
use focl.Config.{ArchiveConfig}
use focl.Archive.World.{M, pure, touch, call, update}
use focl.Archive.World
use focl.Archive.Queue.{Table}
use focl.Archive.FilePath.{join}
use focl.Archive.Replicator.{Replicator, Outside}
use focl.Archive.Replicator
use focl.Archive.Service.{ArchiveService, Kit, ensure_updates_writer}

-- An entry of the directory, with whether it is a file, or the error of reading it.
remove_entry : Result (String × Bool) → M (Unit {0})
remove_entry (err e) = World.raise e
remove_entry (ok (path, false)) = pure tt
remove_entry (ok (path, true)) =
    call (append_text "failed removing temp segment " path) (update path none)

remove_entries : List (Result (String × Bool)) → M (Unit {0})
unfolding remove_entry
remove_entries [] = pure tt
remove_entries (e ∷ es) = World.◌>>◌ (remove_entry e) (remove_entries es)

-- `cleanup_tmp_root` of a directory that exists, on the entries that `read_dir` lists.
unfoldable pub cleanup_tmp_root : String → List (Result (String × Bool)) → M (Unit {0})
unfolding remove_entries
cleanup_tmp_root tmp_root entries =
    World.◌>>◌ (touch (append_text "failed reading tmp root " tmp_root)) (remove_entries entries)

-- `with_context`
abbrev pub reworded : {A : Type 0} → String → M A → M A
reworded message act w = let (r, after) = act w in (context r message, after)

-- `ReplicationQueue::new`: `table` is what the database holds.
unfoldable pub open_queue : Outside → String → Table → M Table
open_queue outside root table =
    let dir = join root ".replication" in
    World.◌>>◌ (touch (append_text "failed creating replication dir " dir)) (
      World.◌>>◌ (touch (append_text "failed opening queue db " (join dir "queue.sqlite")))
        (elim (outside.database 0) [ none ↦ pure table | some e ↦ World.raise e ]))

-- The steps of `ArchiveService::new` up to the replicator, for an enabled archive.
unfoldable pub prepare : Kit → ArchiveConfig → List (Result (String × Bool)) → Table → M Replicator
prepare kit cfg entries table =
    World.◌>>◌ (touch (append_text "failed creating archive root " cfg.root)) (
      World.◌>>◌ (touch (append_text "failed creating archive tmp root " cfg.tmp_root)) (
        World.◌>>◌
          (reworded (append_text "failed cleaning tmp root " cfg.tmp_root)
            (cleanup_tmp_root cfg.tmp_root entries))
          (World.◌>>=◌ (open_queue kit.outside cfg.root table)
            λ opened. pure (Replicator.new cfg.destinations opened true))))

unfoldable pub service_of : ArchiveConfig → ℕ → Option Replicator → ArchiveService
service_of cfg collector_bgp_id replicator = record {
  cfg = cfg;
  collector_bgp_id = collector_bgp_id;
  updates_writer = none;
  ribs_last = none;
  last_rib_bucket = none;
  replicator = replicator;
  events = [];
}

-- The end of `new` for an enabled archive.
unfoldable pub begin :
    Kit
    → ArchiveConfig
    → ℕ
    → ℤ
    → Result Replicator
    → World.World
    → Result (Unit {0}) × (ArchiveService × World.World)
unfolding service_of
begin kit cfg id now (err e) w = (err e, (service_of cfg id none, w))
begin kit cfg id now (ok rep) w = ensure_updates_writer kit now (service_of cfg id (some rep), w)

-- `ArchiveService::new`. The service is there only if the result is `ok`.
unfoldable pub start :
    Kit
    → ArchiveConfig
    → ℕ
    → List (Result (String × Bool))
    → Table
    → ℤ
    → World.World
    → Result (Unit {0}) × (ArchiveService × World.World)
unfolding prepare service_of begin
start kit cfg id entries table now w =
    if not cfg.enabled
    then (ok tt, (service_of cfg id none, w))
    else (let (result, w') = prepare kit cfg entries table w in begin kit cfg id now result w')
