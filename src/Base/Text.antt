-- ===== src/Base/Text.antt =====
-- Texts as Rust's `format!` and `str` methods make them.
use Prim.Native.Nat.{ℕ, zero, suc, ◌+◌, ◌-◌, ◌/◌, ◌%◌}
use Prim.Native.Char.{Char, code}
use Prim.Native.String.{String, [], ◌∷◌, ◌++◌, slice, count}
use mathlib.Core.Path.{◌≡◌, refl}
use mathlib.Core.Bool.{Bool, true, false, ◌&&◌}
use text.Mathlib.Text.{find?, starts_with}
use native.Mathlib.Omega.{arith}
use text.Mathlib.TextEquality.{eq_iff}
use focl.Base.Tests.{str_eq, ◌==◌, ltb, if◌then◌else◌, is_some}

digit : ℕ → String
digit d = slice "0123456789" d (d + 1)

digits : ℕ → ℕ → String
unfolding digit
digits zero n = ""
digits (suc f) n =
    let rest = digits f (n / 10) in if ltb n 10 then digit n else rest ++ digit (n % 10)

-- `{}` of an unsigned number: a number has no more digits than its value and one.
unfoldable pub decimal : ℕ → String
unfolding digits
decimal n = digits (n + 1) n

zeros : ℕ → String
zeros zero = ""
zeros (suc n) = "0" ++ zeros n

-- `{:02}` and `{:04}` of an unsigned number.
unfoldable pub padded : ℕ → ℕ → String
unfolding zeros decimal
padded w n = let s = decimal n in zeros (w - count s) ++ s

-- `s.contains(part)`
unfoldable pub contains : String → String → Bool
contains s part = is_some (find? s part)

abbrev pub is_empty : String → Bool
is_empty [] = true
is_empty (c ∷ s) = false

-- `s.chars().all(test)`
unfoldable pub all_chars : (Char → Bool) → String → Bool
all_chars test [] = true
all_chars test (c ∷ s) = test c && all_chars test s

unfoldable pub trim_start_matches : ℕ → String → String
trim_start_matches k [] = ""
trim_start_matches k (c ∷ s) =
    let rest = trim_start_matches k s in if code c == k then rest else c ∷ s

unfoldable pub trim_end_matches : ℕ → String → String
trim_end_matches k [] = ""
trim_end_matches k (c ∷ s) =
    let rest = trim_end_matches k s in if is_empty rest && code c == k then "" else c ∷ rest

-- The text after its first `n` characters.
skip : ℕ → String → String
skip zero s = s
skip (suc n) [] = ""
skip (suc n) (c ∷ s) = skip n s

replace_from : ℕ → String → String → String → String
unfolding skip
replace_from zero from to s = s
replace_from (suc f) from to [] = ""
replace_from (suc f) from to (c ∷ s) =
    let hit = replace_from f from to (skip (count from) (c ∷ s)) in
    let miss = replace_from f from to s in if starts_with (c ∷ s) from then to ++ hit else c ∷ miss

-- `s.replace(from, to)` for a `from` that is not empty: every match from the left, none twice.
-- Each step drops a character of `s`, so its length and one is fuel enough.
unfoldable pub replace : String → String → String → String
unfolding replace_from
replace from to s = replace_from (count s + 1) from to s

decimal_example : decimal 1045 ≡ "1045"
unfolding decimal
decimal_example = refl

padded_example : padded 4 26 ≡ "0026"
unfolding padded
padded_example = refl

replace_example : replace "{dd}" "7" "{dd}/x{dd}" ≡ "7/x7"
unfolding replace
replace_example = refl

trim_example : trim_end_matches b'/' (trim_start_matches b'/' "//a/b/") ≡ "a/b"
unfolding trim_end_matches trim_start_matches
trim_example = refl

-- Texts that the test tells apart are different.
pub text_ne : (s t : String) → str_eq s t ≡ false → ¬ (s ≡ t)
text_ne s t h e = ground (arith, eq_iff s t)
