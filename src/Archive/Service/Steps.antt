-- ===== src/Archive/Service/Steps.antt =====
-- Rules for what an action of the service leaves of its fields, when it succeeds.
use focl.Base.{Result, ok, err, Bool, true, false, String, not, if◌then◌else◌, ◌≡◌, refl, arith}
use focl.Archive.World.{World, M}
use focl.Archive.Service.{ArchiveService, Act, ◌>>=◌, act_if, done, lift, on_files, fields}
use focl.Archive.Service.Bucket.{OnOk}

-- From fields with `P`, a result comes with `Q`.
pub record From {A : Type 0} (P : ArchiveService → Type 0) (act : Act A)
    (Q : A → ArchiveService → Type 0) : Type 0 where
  pub at : (s : ArchiveService) (w : World) → P s → OnOk Q (act (s, w))

bind-OnOk :
    {A B : Type 0} (Q : A → ArchiveService → Type 0) (R : B → ArchiveService → Type 0)
    (r : Result A) (state : ArchiveService × World) (next : A → Act B)
    → OnOk Q (r, state)
    → ((a : A) → From (Q a) (next a) R)
    → OnOk R (◌>>=◌ (λ _. (r, state)) next state)
bind-OnOk Q R (ok a) (s, w) next h k = (k a).at s w h
bind-OnOk Q R (err e) state next h k = tt

pub From-bind :
    {A B : Type 0} {P : ArchiveService → Type 0} {Q : A → ArchiveService → Type 0}
    {R : B → ArchiveService → Type 0} (act : Act A) (next : A → Act B)
    → From P act Q
    → ((a : A) → From (Q a) (next a) R)
    → From P (act >>= next) R
From-bind {Q} {R} act next h k = record {
  at = λ s w p. bind-OnOk Q R (act (s, w)).0 (act (s, w)).1 next (h.at s w p) k;
}

pub From-act_if :
    {P : ArchiveService → Type 0} {Q : Unit {0} → ArchiveService → Type 0} (b : Bool)
    (act : Act (Unit {0}))
    → (b ≡ true → From P act Q)
    → (b ≡ false → From P done Q)
    → From P (act_if b act) Q
From-act_if true act h k = h refl
From-act_if false act h k = k refl

pub From-lift_ok :
    {A B : Type 0} {P : ArchiveService → Type 0} {R : B → ArchiveService → Type 0} (r : Result A)
    (a : A) (next : A → Act B)
    → r ≡ ok a
    → From P (next a) R
    → From P (lift r >>= next) R
From-lift_ok (ok b) a next e h = let same : b ≡ a = ground arith in rw (same) h
From-lift_ok (err m) a next e h = absurd (ground arith)

lift-OnOk :
    {A : Type 0} (P : ArchiveService → Type 0) (r : Result A) (s : ArchiveService) (w : World)
    → P s
    → OnOk (λ _. P) (r, (s, w))
lift-OnOk P (ok a) s w p = p
lift-OnOk P (err e) s w p = tt

module _ {P : ArchiveService → Type 0} {A : Type 0} where
  pub From-lift : (r : Result A) → From P (lift r) (λ _. P)
  From-lift r = record { at = λ s w p. lift-OnOk P r s w p }

  pub From-on_files : (m : M A) → From P (on_files m) (λ _. P)
  From-on_files m = record { at = λ s w p. lift-OnOk P (m w).0 s (m w).1 p }

pub From-done : {P : ArchiveService → Type 0} → From P done (λ _. P)
From-done = record { at = λ s w p. p }

pub From-fields :
    {B : Type 0} {P : ArchiveService → Type 0} {R : B → ArchiveService → Type 0}
    (next : ArchiveService → Act B)
    → ((s : ArchiveService) → P s → From (λ t. t ≡ s) (next s) R)
    → From P (fields >>= next) R
From-fields next k = record { at = λ s w p. (k s p).at s w refl }

-- A weaker condition before, a stronger conclusion after.
pub From-weaken :
    {A : Type 0} {P P' : ArchiveService → Type 0} {Q : A → ArchiveService → Type 0} {act : Act A}
    → ((s : ArchiveService) → P' s → P s)
    → From P act Q
    → From P' act Q
From-weaken f h = record { at = λ s w p. h.at s w (f s p) }

-- A test that fails with an error.
pub From-guard :
    {A : Type 0} {P : ArchiveService → Type 0} {Q : A → ArchiveService → Type 0} (b : Bool)
    (message : String) (act : Act A)
    → From P act Q
    → From P (if not b then lift (err message) else act) Q
From-guard true message act h = h
From-guard false message act h = record { at = λ s w p. tt }

-- Two conclusions of one run.
both :
    {A : Type 0} (Q R : A → ArchiveService → Type 0) (r : Result A) (state : ArchiveService × World)
    → OnOk Q (r, state)
    → OnOk R (r, state)
    → OnOk (λ a s. Q a s × R a s) (r, state)
both Q R (ok a) (s, w) p q = (p, q)
both Q R (err e) state p q = tt

pub From-both :
    {A : Type 0} {P : ArchiveService → Type 0} {Q R : A → ArchiveService → Type 0} {act : Act A}
    → From P act Q
    → From P act R
    → From P act (λ a s. Q a s × R a s)
From-both {Q} {R} {act} h k = record {
  at = λ s w p. both Q R (act (s, w)).0 (act (s, w)).1 (h.at s w p) (k.at s w p);
}
