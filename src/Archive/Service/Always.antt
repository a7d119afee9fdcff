-- ===== src/Archive/Service/Always.antt =====
-- Rules for what every action of the service keeps of its fields, also when it fails.
use focl.Base.{Result, ok, err, Bool, true, false, if◌then◌else◌, ◌≡◌, refl, subst, arith}
use focl.Archive.World.{World, M}
use focl.Archive.Triple.{Post, Triple}
use focl.Archive.Service.{ArchiveService, Act, ◌>>=◌, act_if, lift, on_files, fields}

module _ (Holds : ArchiveService → Type 0) where
  pub record Keeps {A : Type 0} (act : Act A) : Type 0 where
    pub at : (s : ArchiveService) (w : World) → Holds s → Holds (act (s, w)).1.0

  after :
      {A B : Type 0} (r : Result A) (s : ArchiveService) (w : World) (next : A → Act B)
      → Holds s
      → ((a : A) → (r ≡ ok a) → Keeps (next a))
      → (state : ArchiveService × World) → Holds (◌>>=◌ (λ _. (r, (s, w))) next state).1.0
  after (ok a) s w next h k state = (k a refl).at s w h
  after (err e) s w next h k state = h

  pub Keeps-bind :
      {A B : Type 0} (act : Act A) (next : A → Act B)
      → Keeps act
      → ((a : A) → Keeps (next a))
      → Keeps (act >>= next)
  Keeps-bind act next h k = record {
    at = λ s w p.
        after (act (s, w)).0 (act (s, w)).1.0 (act (s, w)).1.1 next (h.at s w p) (λ a _. k a)
          (s, w);
  }

  -- What a result that is there already is known to be.
  pub Keeps-lift :
      {A B : Type 0} (r : Result A) (next : A → Act B)
      → ((a : A) → (r ≡ ok a) → Keeps (next a))
      → Keeps (lift r >>= next)
  Keeps-lift r next k = record { at = λ s w p. after r s w next p k (s, w) }

  pub Keeps-fields :
      {B : Type 0} (next : ArchiveService → Act B)
      → ((s : ArchiveService) → Holds s → Keeps (next s))
      → Keeps (fields >>= next)
  Keeps-fields next k = record { at = λ s w p. (k s p).at s w p }

  pub Keeps-act_if : (b : Bool) (act : Act (Unit {0})) → Keeps act → Keeps (act_if b act)
  Keeps-act_if true act h = h
  Keeps-act_if false act h = record { at = λ s w p. p }

  pub Keeps-if :
      {A : Type 0} (b : Bool) (x y : Act A) → Keeps x → Keeps y → Keeps (if b then x else y)
  Keeps-if true x y h k = h
  Keeps-if false x y h k = k

  given :
      {A : Type 0} (R : A → Type 0) (a : A) (r : Result A) (w : World)
      → Post (λ b _. R b) (λ _. Unit {0}) (r, w)
      → r ≡ ok a
      → R a
  given R a (ok b) w p e = let same : b ≡ a = ground arith in subst R same p
  given R a (err m) w p e = absurd (ground arith)

  -- An action on the files, and behind it what its result is known to be.
  pub Keeps-on_files :
      {A B : Type 0} (R : A → Type 0) (m : M A) (next : A → Act B)
      → Triple (λ _. Unit {0}) m (λ a _. R a) (λ _. Unit {0})
      → ((a : A) → R a → Keeps (next a))
      → Keeps (on_files m >>= next)
  Keeps-on_files R m next t k = record {
    at = λ s w p.
        after (m w).0 s (m w).1 next p (λ a e. k a (given R a (m w).0 (m w).1 (t.at w tt) e))
          (s, w);
  }
