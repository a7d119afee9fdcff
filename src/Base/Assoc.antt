-- ===== src/Base/Assoc.antt =====
-- A `HashMap` with text keys as an association list. The order of its values is that of insertion,
-- which stands for the order that the table happens to have.
use Prim.Native.String.{String}
use focl.Base.{
  suc, ◌≡◌, refl, Option, none, some, List, [], ◌∷◌, arith, str_eq, if◌then◌else◌, eq_iff, length,
  is_some,
}

module _ {ℓ} {V : Type ℓ} where
  unfoldable pub get : String → List (String × V) → Option V
  get k [] = none
  get k ((j, v) ∷ m) = if str_eq j k then some v else get k m

  unfoldable pub insert : (key : String) (value : V) → List (String × V) → List (String × V)
  insert key value [] = (key, value) ∷ []
  insert key value ((i, old) ∷ rest) =
      if str_eq i key then (key, value) ∷ rest else (i, old) ∷ insert key value rest

  unfoldable pub remove : String → List (String × V) → List (String × V)
  remove k [] = []
  remove k ((j, w) ∷ m) = if str_eq j k then remove k m else (j, w) ∷ remove k m

  pub get-insert :
      (k j : String) (v : V) (m : List (String × V))
      → get j (insert k v m) ≡ (if str_eq k j then some v else get j m)
  unfolding get insert
  get-insert k j v [] = refl
  get-insert k j v ((i, w) ∷ m) =
      ground (arith, eq_iff k j, eq_iff i k, eq_iff i j, get-insert k j v m)

  pub get-remove :
      (k j : String) (m : List (String × V))
      → get j (remove k m) ≡ (if str_eq k j then none else get j m)
  unfolding get remove
  get-remove k j [] = ground arith
  get-remove k j ((i, w) ∷ m) = ground (arith, eq_iff k j, eq_iff i k, eq_iff i j, get-remove k j m)

  -- An insertion adds an entry, or replaces the one that is there.
  pub length-insert :
      (k : String) (v : V) (m : List (String × V))
      → length (insert k v m) ≡ (if is_some (get k m) then length m else suc (length m))
  unfolding get insert
  length-insert k v [] = refl
  length-insert k v ((i, w) ∷ m) = ground (arith, length-insert k v m)

  -- No key stands twice.
  abbrev pub Distinct : List (String × V) → Type ℓ
  Distinct [] = Unit
  Distinct ((k, v) ∷ m) = (get k m ≡ none) × Distinct m

  pub Distinct-insert :
      (k : String) (v : V) (m : List (String × V)) → Distinct m → Distinct (insert k v m)
  unfolding get insert
  Distinct-insert k v [] h = (refl, tt)
  Distinct-insert k v ((i, w) ∷ m) h =
      ground (arith, eq_iff i k, eq_iff k i, get-insert k i v m, Distinct-insert k v m h.1)

  pub Distinct-remove : (k : String) (m : List (String × V)) → Distinct m → Distinct (remove k m)
  unfolding get remove
  Distinct-remove k [] h = tt
  Distinct-remove k ((i, w) ∷ m) h =
      ground (arith, eq_iff i k, get-remove k i m, Distinct-remove k m h.1)

  -- A key that is absent is no entry, and one that is there is one entry.
  pub remove_absent : (k : String) (m : List (String × V)) → get k m ≡ none → remove k m ≡ m
  unfolding get remove
  remove_absent k [] h = refl
  remove_absent k ((i, w) ∷ m) h = ground (arith, remove_absent k m)

  pub length-remove :
      (k : String) (m : List (String × V)) (v : V)
      → Distinct m
      → get k m ≡ some v
      → length m ≡ suc (length (remove k m))
  unfolding get remove
  length-remove k [] v d h = cc
  length-remove k ((i, w) ∷ m) v d h =
      ground (arith, eq_iff i k, remove_absent k m, length-remove k m v d.1)
