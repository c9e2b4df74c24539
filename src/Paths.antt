-- ===== src/Paths.antt =====
-- context.go: ContextPath, the names of a context and its ancestors, and the patterns that match it.
pub mod Suffix
use mathlib.Core.List.{reverse}
use joe_cli.Common.{
  Bool, List, Option, Text, [], codes, false, if◌then◌else◌, maybe, none, not, some, text_eq, true,
  ℕ, ◌&&◌, ◌++◌, ◌==◌, ◌||◌, ◌∷◌,
}
use joe_cli.Support.Fields.{is_space}

-- `strings.HasPrefix`
abbrev pub begins : ℕ → Text → Bool
begins c [] = false
begins c (d ∷ s) = d == c

abbrev pub begins_expr : Text → Bool
begins_expr [] = false
begins_expr (c ∷ s) = c == b'<' && begins b'-' s

unfoldable pub match_expr : Text → Bool
match_expr field = begins_expr field

unfoldable pub match_arg : Text → Bool
match_arg field = begins b'<' field && not (begins_expr field)

unfoldable pub match_flag : Text → Bool
match_flag field = begins b'-' field

unfoldable pub match_command : Text → Bool
match_command field = not (match_flag field) && (not (match_arg field) && not (match_expr field))

-- `matchField`
unfoldable pub match_field : Text → Text → Bool
match_field pattern' field =
    if text_eq pattern' []
    then true
    else if text_eq pattern' (codes "*")
    then match_command field
    else if text_eq pattern' (codes "-") || text_eq pattern' (codes "--")
    then match_flag field
    else if text_eq pattern' (codes "<>")
    then match_arg field
    else if text_eq pattern' (codes "<->")
    then match_expr field
    else if text_eq pattern' field
    then true
    else begins b'-' pattern' && text_eq (b'-' ∷ pattern') field

-- The loop of `Match`, which goes backward through both lists: here they stand reversed.
unfoldable pub match_backward : List Text → List Text → Bool
match_backward [] fields = true
match_backward (p ∷ ps) [] = true
match_backward (p ∷ ps) (f ∷ fs) = match_field p f && match_backward ps fs

unfoldable pub match_parts : List Text → List Text → Bool
match_parts parts path = match_backward (reverse parts) (reverse path)

-- `strings.Fields`: the words between white space, with the word that is being read
unfoldable pub fields_from : Text → Text → List Text
fields_from [] [] = []
fields_from (w ∷ word) [] = (w ∷ word) ∷ []
fields_from [] (c ∷ s) = if is_space c then fields_from [] s else fields_from (c ∷ []) s
fields_from (w ∷ word) (c ∷ s) =
    let done = (w ∷ word) ∷ fields_from [] s in
    let longer = fields_from (w ∷ word ++ c ∷ []) s in if is_space c then done else longer

-- `Match`
unfoldable pub path_match : List Text → Text → Bool
path_match path pattern' = match_parts (fields_from [] pattern') path

-- `Last`; `none` is the panic on a path without names
unfoldable pub last : List Text → Option Text
last [] = none
last (n ∷ []) = some n
last (n ∷ m ∷ ns) = last (m ∷ ns)

-- `IsCommand`, `IsFlag`, `IsArg` and `IsExpr`
unfoldable pub is_kind : (Text → Bool) → List Text → Option Bool
is_kind kind path = maybe (last path) none (λ n. some (kind n))

-- `String`
unfoldable pub spaced_names : List Text → Text
spaced_names [] = []
spaced_names (n ∷ []) = n
spaced_names (n ∷ m ∷ ns) = n ++ b' ' ∷ spaced_names (m ∷ ns)

-- `Path`: the names of the lineage from the root on, without a root that has no name.
unfoldable pub without_root : List Text → Option (List Text)
without_root [] = none
without_root (n ∷ ns) = if text_eq n [] then some ns else some (n ∷ ns)

unfoldable pub path_of : List Text → Option (List Text)
path_of lineage = without_root (reverse lineage)
