-- ===== src/Archive/Service/Started.antt =====
-- src/archive/mod.rs: the archive that `ArchiveService::new` gives, whatever was found.
use Prim.Native.String.{◌++◌}
use focl.Archive.FilePath.{join}
use focl.Base.{
  if_either, ℕ, String, Bool, true, not, Option, none, some, List, [], refl, Result, ok, err,
}
use focl.Base.Int.{ℤ}
use focl.Config.{ArchiveConfig}
use focl.Archive.World.{World, M, pure, touch}
use focl.Archive.Queue.{Table}
use focl.Archive.World
use focl.Archive.Queue.Rows.{IsQueue}
use focl.Archive.Triple.{Post, Triple, Triple-bind}
use focl.Archive.Replicator.{Replicator, collect}
use focl.Archive.Replicator
use focl.Archive.Replicator.Sound.{IsReplicator}
use focl.Archive.Service.{ArchiveService, Kit}
use focl.Archive.Service.Start.{
  start, prepare, begin, service_of, open_queue, reworded, cleanup_tmp_root,
}
use focl.Archive.Service.Invariant.{IsArchive, any_result, ensure_updates_writer-Safe}

-- An action that gives a value with `R`, whatever it fails at.
abbrev pub Gives : {A : Type 0} → (A → Type 0) → M A → Type 0
Gives R m = Triple (λ _. Unit {0}) m (λ a _. R a) (λ _. Unit {0})

pub Gives-behind :
    {A B : Type 0} {R : B → Type 0} (m : M A) (next : A → M B)
    → ((a : A) → Gives R (next a))
    → Gives R (World.◌>>=◌ m next)
Gives-behind m next k = Triple-bind m next (any_result m) k

database-Gives :
    (t : Table) (o : Option String)
    → IsQueue t
    → Gives {A = Table} IsQueue (elim o [ none ↦ pure t | some e ↦ World.raise e ])
database-Gives t none q = record { at = λ _ _. q }
database-Gives t (some e) q = record { at = λ _ _. tt }

open_queue-Gives :
    (kit : Kit) (root : String) (t : Table)
    → IsQueue t
    → Gives IsQueue (open_queue kit.outside root t)
unfolding open_queue
open_queue-Gives kit root t q =
    let opened : M Table = elim (kit.outside.database 0) [
      | none ↦ pure t
      | some e ↦ World.raise e
    ] in
    let dir = join root ".replication" in
    let error = "failed opening queue db " ++ join dir "queue.sqlite" in
    Gives-behind (touch ("failed creating replication dir " ++ dir))
      (λ _. World.◌>>◌ (touch error) opened)
      (λ _.
        Gives-behind (touch error) (λ _. opened) (λ _. database-Gives t (kit.outside.database 0) q))

new-IsReplicator :
    (cfg : ArchiveConfig) (t : Table)
    → IsQueue t
    → IsReplicator (collect cfg.destinations []) (Replicator.new cfg.destinations t true)
unfolding Replicator.new
new-IsReplicator cfg t q = record { queue = q; destinations = refl }

prepare-Gives :
    (kit : Kit) (cfg : ArchiveConfig) (entries : List (Result (String × Bool))) (t : Table)
    → IsQueue t
    → Gives (IsReplicator (collect cfg.destinations [])) (prepare kit cfg entries t)
unfolding prepare
prepare-Gives kit cfg entries t q =
    let last : Table → M Replicator =
      λ opened. pure (Replicator.new cfg.destinations opened true) in
    let queue : M Replicator = World.◌>>=◌ (open_queue kit.outside cfg.root t) last in
    let clean : M (Unit {0}) =
      reworded ("failed cleaning tmp root " ++ cfg.tmp_root)
        (cleanup_tmp_root cfg.tmp_root entries) in
    let root : M (Unit {0}) = touch ("failed creating archive root " ++ cfg.root) in
    let tmp_root : M (Unit {0}) = touch ("failed creating archive tmp root " ++ cfg.tmp_root) in
    Gives-behind root (λ _. World.◌>>◌ tmp_root (World.◌>>◌ clean queue))
      (λ _.
        Gives-behind tmp_root (λ _. World.◌>>◌ clean queue)
          (λ _.
            Gives-behind clean (λ _. queue)
              (λ _.
                Triple-bind (open_queue kit.outside cfg.root t) last
                  (open_queue-Gives kit cfg.root t q)
                  (λ opened. record { at = λ w p. new-IsReplicator cfg opened p }))))

-- The service that `ArchiveService::new` gives.
begin-IsArchive :
    (kit : Kit) (cfg : ArchiveConfig) (id : ℕ) (now : ℤ) (result : Result Replicator) (w : World)
    → Post (λ rep _. IsReplicator (collect cfg.destinations []) rep) (λ _. Unit {0}) (result, w)
    → IsArchive kit cfg (begin kit cfg id now result w).1.0
unfolding begin service_of
begin-IsArchive kit cfg id now (err e) w p = record { cfg = refl; writer = tt; replicator = tt }
begin-IsArchive kit cfg id now (ok rep) w p =
    (ensure_updates_writer-Safe kit cfg now).at (service_of cfg id (some rep)) w
      (record { cfg = refl; writer = tt; replicator = p })

pub start-IsArchive :
    (kit : Kit) (cfg : ArchiveConfig) (id : ℕ) (entries : List (Result (String × Bool))) (t : Table)
    (now : ℤ) (w : World)
    → IsQueue t
    → IsArchive kit cfg (start kit cfg id entries t now w).1.0
unfolding start
start-IsArchive kit cfg id entries t now w q =
    let (result, w') = prepare kit cfg entries t w in
    if_either (λ (out : Result (Unit {0}) × (ArchiveService × World)). IsArchive kit cfg out.1.0)
      (not cfg.enabled) (ok tt, (service_of cfg id none, w)) (begin kit cfg id now result w')
      (unfold service_of in (record { cfg = refl; writer = tt; replicator = tt }))
      (begin-IsArchive kit cfg id now result w' ((prepare-Gives kit cfg entries t q).at w tt))
