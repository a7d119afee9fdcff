-- ===== src/Archive/Triple.antt =====
-- What an action leaves of the files, for every way that calls may fail: rules for each way to build
-- an action.
use focl.Base.{
  ℕ, suc, String, Bool, true, false, Option, none, some, List, Result, ok, err, if◌then◌else◌, ◌≡◌,
  refl, subst, sym, Option-cases, inl, inr,
}
use Prim.Native.String.{◌++◌}
use focl.Archive.FilePath.{parent}
use focl.Archive.World.{create_parent, World, M, ◌>>=◌, pure, touch, call, read_file, or_missing}

abbrev pub Files : Type 0
Files = String → Option (List ℕ)

abbrev pub Post : {A : Type 0} → (A → Files → Type 0) → (Files → Type 0) → Result A × World → Type 0
Post Q E (ok a, w) = Q a w.files
Post Q E (err e, w) = E w.files

-- From files with `P`, a result comes with `Q` and an error with `E`.
pub record Triple {A : Type 0} (P : Files → Type 0) (m : M A) (Q : A → Files → Type 0)
    (E : Files → Type 0) : Type 0 where
  pub at : (w : World) → P w.files → Post Q E (m w)

module _ {A B : Type 0} {Q : A → Files → Type 0} {R : B → Files → Type 0} {E : Files → Type 0} where
  bind-Post :
      (r : Result A) (w : World) (f : A → M B)
      → Post Q E (r, w)
      → ((a : A) → Triple (Q a) (f a) R E)
      → Post R E (◌>>=◌ (λ _. (r, w)) f w)
  bind-Post (ok a) w f h k = (k a).at w h
  bind-Post (err e) w f h k = h

  pub Triple-bind :
      {P : Files → Type 0} (m : M A) (f : A → M B)
      → Triple P m Q E
      → ((a : A) → Triple (Q a) (f a) R E)
      → Triple P (m >>= f) R E
  Triple-bind m f h k = record { at = λ w p. bind-Post (m w).0 (m w).1 f (h.at w p) k }

pub Triple-call :
    {P : Files → Type 0} {Q : Files → Type 0} {E : Files → Type 0} (error : String)
    (change : Files → Files)
    → ((f : Files) → P f → Q (change f))
    → ((f : Files) → P f → E f)
    → Triple P (call error change) (λ _. Q) E
unfolding call
Triple-call {P} {Q} {E} error change done kept = record { at = λ w p. go (w.faults w.calls) w p }
  where
    go :
        (b : Bool) (w : World)
        → P w.files
        → Post
            (λ (_ : Unit {0}). Q)
            E
            (if b
              then (err error, record w { calls = suc w.calls })
              else (ok tt, record w { calls = suc w.calls; files = change w.files }))
    go true w p = kept w.files p
    go false w p = done w.files p

module _ {P : Files → Type 0} {E : Files → Type 0} (kept : (f : Files) → P f → E f) where
  pub Triple-touch : (error : String) → Triple P (touch error) (λ _. P) E
  Triple-touch error = Triple-call error (λ f. f) (λ f p. p) kept

  pub Triple-pure : {A : Type 0} (a : A) → Triple P (pure a) (λ _. P) E
  Triple-pure a = record { at = λ w p. p }

  pub Triple-create_parent : (error path : String) → Triple P (create_parent error path) (λ _. P) E
  unfolding create_parent
  Triple-create_parent error path = elim (Option-cases (parent path)) [
    | inl e ↦ rw (e, create_parent) (Triple-pure tt)
    | inr (dir, e) ↦ rw (e, create_parent) (Triple-touch (error ++ dir))
  ]

  Triple-or_missing :
      (error : String) (path : String)
      → Triple P (λ w. or_missing error (w.files path) w) (λ _. P) E
  unfolding or_missing
  Triple-or_missing error path = record { at = λ w p. go (w.files path) w p }
    where
      go :
          (o : Option (List ℕ)) (w : World)
          → P w.files
          → Post (λ (_ : List ℕ). P) E (or_missing error o w)
      go none w p = kept w.files p
      go (some c) w p = p

  pub Triple-read_file : (error path : String) → Triple P (read_file error path) (λ _. P) E
  unfolding read_file
  Triple-read_file error path =
      Triple-bind (touch error) (λ _ w. or_missing error (w.files path) w) (Triple-touch error)
        (λ _. Triple-or_missing error path)

-- What is read is the content of the file.
pub Triple-content :
    {P : Files → Type 0} {E : Files → Type 0} (kept : (f : Files) → P f → E f) (error path : String)
    → Triple P (read_file error path) (λ c f. P f × (f path ≡ some c)) E
unfolding read_file or_missing
Triple-content {P} {E} kept error path =
    Triple-bind (touch error) (λ _ w. or_missing error (w.files path) w) (Triple-touch kept error)
      (λ _. record { at = λ w p. go (w.files path) w p refl })
  where
    go :
        (o : Option (List ℕ)) (w : World)
        → P w.files
        → w.files path ≡ o
        → Post (λ (c : List ℕ) f. P f × (f path ≡ some c)) E (or_missing error o w)
    go none w p e = kept w.files p
    go (some c) w p e = (p, e)

-- A result that is there already.
pub Triple-given :
    {A B : Type 0} {P : Files → Type 0} {R : B → Files → Type 0} {E : Files → Type 0} (r : Result A)
    (a : A) (next : A → M B)
    → r ≡ ok a
    → Triple P (next a) R E
    → Triple P ((λ w. (r, w)) >>= next) R E
Triple-given {P} {R} {E} r a next e h = subst (λ o. Triple P ((λ w. (o, w)) >>= next) R E) (sym e) h

pub Triple-if :
    {A : Type 0} {P : Files → Type 0} {Q : A → Files → Type 0} {E : Files → Type 0} (b : Bool)
    (m n : M A)
    → Triple P m Q E
    → Triple P n Q E
    → Triple P (if b then m else n) Q E
Triple-if true m n h k = h
Triple-if false m n h k = k

weaken-Post :
    {A : Type 0} (Q : A → Files → Type 0) {E F : Files → Type 0} (h : (f : Files) → E f → F f)
    (r : Result A) (w : World)
    → Post Q E (r, w)
    → Post Q F (r, w)
weaken-Post Q h (ok a) w p = p
weaken-Post Q h (err e) w p = h w.files p

pub Triple-weaken :
    {A : Type 0} {P : Files → Type 0} {m : M A} {Q : A → Files → Type 0} {E F : Files → Type 0}
    (h : (f : Files) → E f → F f)
    → Triple P m Q E
    → Triple P m Q F
Triple-weaken {m} {Q} h t = record { at = λ w p. weaken-Post Q h (m w).0 (m w).1 (t.at w p) }

weaken_ok :
    {A : Type 0} {Q R : A → Files → Type 0} (E : Files → Type 0)
    (h : (a : A) (f : Files) → Q a f → R a f) (r : Result A) (w : World)
    → Post Q E (r, w)
    → Post R E (r, w)
weaken_ok E h (ok a) w p = h a w.files p
weaken_ok E h (err e) w p = p

-- A weaker conclusion for a success.
pub Triple-weaken_done :
    {P : Files → Type 0} {m : M (Unit {0})} {Q R : Files → Type 0} {E : Files → Type 0}
    (h : (f : Files) → Q f → R f)
    → Triple P m (λ _. Q) E
    → Triple P m (λ _. R) E
Triple-weaken_done {m} {E} h t = record {
  at = λ w p. weaken_ok E (λ _. h) (m w).0 (m w).1 (t.at w p);
}
