-- ===== src/Archive/World.antt =====
-- What the archive acts on: the files. A call of the system may fail: the n-th call fails when
-- `faults n` holds, and then changes nothing.
use focl.Base.{
  ℕ, suc, String, Bool, Option, none, some, List, str_eq, if◌then◌else◌, Result, ok, err,
}
use Prim.Native.String.{◌++◌}
use focl.Archive.FilePath.{parent}

pub record World : Type 0 where
  pub files : String → Option (List ℕ)
  pub faults : ℕ → Bool
  pub calls : ℕ

-- An action: its result, and the world after it, also after an error.
abbrev pub M : Type 0 → Type 0
M A = World → Result A × World

-- One action, and behind it, unless it fails, the next, in the world that it leaves.
infixl 5 ◌>>=◌
abbrev pub ◌>>=◌ : {A B : Type 0} (act : M A) (next : A → M B) → M B
◌>>=◌ act next w = let (r, after) = act w in elim r [ ok a ↦ next a after | err e ↦ (err e, after) ]

infixl 5 ◌>>◌
abbrev pub ◌>>◌ : {B : Type 0} (act : M (Unit {0})) (next : M B) → M B
act >> next = act >>= λ _. next

abbrev pub pure : {A : Type 0} → A → M A
pure a w = (ok a, w)

abbrev pub raise : {A : Type 0} → String → M A
raise e w = (err e, w)

abbrev pub update : String → Option (List ℕ) → (String → Option (List ℕ)) → String → Option (List ℕ)
update path content files q = if str_eq q path then content else files q

-- One call of the system that changes the files so, unless it fails.
unfoldable pub call :
    String → ((String → Option (List ℕ)) → String → Option (List ℕ)) → M (Unit {0})
call error change w =
    let w' : World = record w { calls = suc w.calls } in
    if w.faults w.calls then (err error, w') else (ok tt, record w' { files = change w.files })

-- A call that leaves the files alone: flushes, syncs, directories.
abbrev pub touch : String → M (Unit {0})
touch error = call error (λ files. files)

-- `if let Some(parent) = path.parent() { fs::create_dir_all(parent) }`
unfoldable pub create_parent : String → String → M (Unit {0})
create_parent error path = elim (parent path) [ none ↦ pure tt | some dir ↦ touch (error ++ dir) ]

-- `File::create` and `fs::write`
abbrev pub write_file : String → String → List ℕ → M (Unit {0})
write_file error path content = call error (update path (some content))

unfoldable pub or_missing : String → Option (List ℕ) → M (List ℕ)
or_missing error none w = (err error, w)
or_missing error (some content) w = (ok content, w)

-- `File::open`, `fs::metadata` and reads: the content of a file that is there.
unfoldable pub read_file : String → String → M (List ℕ)
read_file error path = do touch error; λ w. or_missing error (w.files path) w

unfoldable pub rename_to : String → String → String → Option (List ℕ) → M (Unit {0})
rename_to error from to none = raise error
rename_to error from to (some content) =
    call error (λ files. update to (some content) (update from none files))

-- `fs::rename`, which replaces the target in one step.
unfoldable pub rename : String → String → String → M (Unit {0})
rename error from to w = rename_to error from to (w.files from) w
