-- ===== src/Archive/FilePath.antt =====
-- `std::path::Path` over texts, as far as src/archive/layout.rs and src/archive/replicator.rs use it.
-- A last component that is `.` is not skipped.
use Prim.Native.Char.{code}
use Prim.Native.String.{String, [], ◌∷◌, ◌++◌}
use focl.Base.{◌≡◌, refl, Bool, false, ◌||◌, Option, none, some, ◌==◌, str_eq, if◌then◌else◌}
use focl.Base.Text.{is_empty, trim_end_matches}

starts_at_root : String → Bool
starts_at_root [] = false
starts_at_root (c ∷ s) = code c == b'/'

ends_with_slash : String → Bool
ends_with_slash [] = false
ends_with_slash (c ∷ s) = if is_empty s then code c == b'/' else ends_with_slash s

-- `base.join(rel)`
unfoldable pub join : String → String → String
unfolding starts_at_root ends_with_slash
join base rel =
    if starts_at_root rel
    then rel
    else if is_empty base || ends_with_slash base
    then base ++ rel
    else base ++ ("/" ++ rel)

-- The text up to the last slash, with it, and the text behind.
split_last : String → String × String
split_last [] = ("", "")
split_last (c ∷ s) =
    let (dir, name) = split_last s in
    if is_empty dir
    then if code c == b'/' then (c ∷ "", name) else ("", c ∷ name)
    else (c ∷ dir, name)

-- `file_name`, and what stands before it.
unfoldable pub split_name : String → Option (String × String)
unfolding split_last trim_end_matches
split_name p =
    let (dir, name) = split_last (trim_end_matches b'/' p) in
    if is_empty name || str_eq name ".." then none else some (dir, name)

-- `parent`: what stands before the last component, if there is one. A root stays as it is.
unfoldable pub parent : String → Option String
unfolding split_last trim_end_matches
parent p =
    let (dir, name) = split_last (trim_end_matches b'/' p) in
    let short = trim_end_matches b'/' dir in
    if is_empty name then none else some (if is_empty short then dir else short)

-- The text behind the last dot, if there is a dot behind the first character.
after_dot : String → Option String
after_dot [] = none
after_dot (c ∷ s) = elim (after_dot s) [
  | some e ↦ some e
  | none ↦ if code c == b'.' then some s else none
]

-- `extension` of a file name
unfoldable pub name_extension : String → Option String
unfolding after_dot
name_extension [] = none
name_extension (c ∷ s) = after_dot s

join_example : join "/var/archive" "a/b.gz" ≡ "/var/archive/a/b.gz"
unfolding join
join_example = refl

split_name_example : split_name "a/b/c.gz" ≡ some ("a/b/", "c.gz")
unfolding split_name
split_name_example = refl

name_extension_example : name_extension "c.tar.gz" ≡ some "gz"
unfolding name_extension
name_extension_example = refl

parent_example : parent "/a/b/c.gz" ≡ some "/a/b"
unfolding parent
parent_example = refl
