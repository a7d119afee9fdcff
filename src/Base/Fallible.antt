-- ===== src/Base/Fallible.antt =====
-- `anyhow::Result`: an error is its message, the outermost context first.
use Prim.Native.String.{String}
use mathlib.Core.Path.{◌≡◌, refl}
use mathlib.Core.Bool.{Bool, true, false}
use mathlib.Core.Option.{Option, none, some}
use mathlib.Core.Logic.{◌⊎◌, inl, inr}

pub data Result {ℓ} (A : Type ℓ) : Type ℓ where
  ok : A → Result A
  err : String → Result A

-- `if test { bail!(message) }`
abbrev pub bail_if : Bool → String → Result (Unit {0})
bail_if true e = err e
bail_if false e = ok tt

-- `?`: the first error is the result.
infixl 5 ◌>>=◌
abbrev pub ◌>>=◌ {ℓ κ} : {A : Type ℓ} {B : Type κ} (r : Result A) (next : A → Result B) → Result B
err message >>= next = err message
ok value >>= next = next value

infixl 5 ◌>>◌
abbrev pub ◌>>◌ {ℓ} : {B : Type ℓ} (check : Result (Unit {0})) (next : Result B) → Result B
err message >> next = err message
ok _ >> next = next

-- `ok_or_else`, and `context` on an `Option`
abbrev pub ok_or {ℓ} : {A : Type ℓ} → Option A → String → Result A
ok_or none e = err e
ok_or (some a) e = ok a

-- `with_context`: the message that is shown is the context's.
abbrev pub context {ℓ} : {A : Type ℓ} → Result A → String → Result A
context (ok a) c = ok a
context (err e) c = err c

pub Result-cases {ℓ} :
    {A : Type ℓ} (r : Result A) → ((a : A) × (r ≡ ok a)) ⊎ ((e : String) × (r ≡ err e))
Result-cases (ok a) = inl (a, refl)
Result-cases (err e) = inr (e, refl)
