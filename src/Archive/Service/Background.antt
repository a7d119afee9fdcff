-- ===== src/Archive/Service/Background.antt =====
-- src/archive/mod.rs: `spawn_background_tasks`. Two tasks turn for ever, one over the replicator's
-- rounds and one over the scheduler's ticks; a failed turn is logged, and the next one comes. In which
-- order their turns come is an argument.
use focl.Base.{Option, none, some, List, [], ◌∷◌, ok}
use focl.Base.Int.{ℤ}
use focl.Archive.World.{World}
use focl.Archive.Replicator.{Replicator, Outside, run_once}
use focl.Archive.Service.{ArchiveService, Kit, Act, ◌>>=◌, fields}
use focl.Archive.Service.Rounds.{tick}

-- A round of the replicator, if there is one; its clock, its uploads and its database are `o`.
unfoldable pub round_of : Outside → Option Replicator → Act (Unit {0})
round_of o none state = (ok tt, state)
round_of o (some rep) (s, w) =
    let (result, rep', w') = run_once o rep w in (result, (record s { replicator = some rep' }, w'))

unfoldable pub replicate_once : Outside → Act (Unit {0})
replicate_once o = do s ← fields; round_of o s.replicator

-- A turn of one of the two tasks.
pub data Turn : Type 0 where
  round : Outside → Turn
  ticks : ℤ → Turn

unfoldable pub turn : Kit → Turn → Act (Unit {0})
turn kit (round o) = replicate_once o
turn kit (ticks now) = tick kit now

unfoldable pub background : Kit → List Turn → ArchiveService × World → ArchiveService × World
background kit [] state = state
background kit (t ∷ ts) state = background kit ts (turn kit t state).1
