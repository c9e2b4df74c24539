-- ===== src/Commands/Order/Flags.antt =====
-- command.go: `orderFlags`, which reads the names that the flags depend on, and orders the flags.
pub mod Names
pub mod Resolved
use joe_cli.Common.{
  Bool, List, Option, Text, [], elem, eqb_ℤ, false, if◌then◌else◌, length, ltb, maybe, none, not,
  pos, some, text_eq, ℕ, ◌++◌, ◌+◌, ◌==◌, ◌||◌, ◌∷◌,
}
use joe_cli.Commands.Order.{OrderedFlag, Sorted, order_class, topo_sort_flags}

-- What `orderFlags` reports of a flag, by the name of the flag and the name that it gives.
pub data DependencyError : Type 0 where
  must_be_named : Text → DependencyError
  upon_itself : Text → DependencyError
  upon_arg : (self name : Text) → DependencyError
  does_not_exist : (self name : Text) → DependencyError

-- `strings.TrimLeft(name, "-")`
unfoldable pub trim_dashes : Text → Text
trim_dashes [] = []
trim_dashes (c ∷ s) = let rest = trim_dashes s in if c == b'-' then rest else c ∷ s

-- `findFlagByName` of a string: the index of the flag, from the index `i`
abbrev pub has_name : OrderedFlag → Text → Bool
has_name f name = text_eq f.name name || elem name f.aliases

unfoldable pub find_flag : List OrderedFlag → ℕ → Text → Option ℕ
find_flag [] i trimmed = none
find_flag (f ∷ fs) i trimmed =
    let rest = find_flag fs (i + 1) trimmed in if has_name f trimmed then some i else rest

unfoldable pub find_flag_by_name : List OrderedFlag → Text → Option ℕ
find_flag_by_name flags name = find_flag flags 0 (trim_dashes name)

-- `findArgByName` of a string, among the names of the args
unfoldable pub trim_prefix : ℕ → Text → Text
trim_prefix p [] = []
trim_prefix p (c ∷ s) = if c == p then s else c ∷ s

unfoldable pub trim_suffix : ℕ → Text → Text
trim_suffix p [] = []
trim_suffix p (c ∷ []) = if c == p then [] else c ∷ []
trim_suffix p (c ∷ d ∷ s) = c ∷ trim_suffix p (d ∷ s)

unfoldable pub has_arg : List Text → Text → Bool
has_arg args name = elem (trim_suffix b'>' (trim_prefix b'<' name)) args

-- Everything that the loop over the names looks into. The ancestors answer for the flags of
-- `c.Parent().LookupFlag`.
pub record Scope : Type 0 where
  pub flags : List OrderedFlag
  pub args : List Text
  pub ancestor : Text → Bool

-- the errors, and `deps[i]`
abbrev Found : Type 0
Found = List DependencyError × List ℕ

unfoldable pub found_flag : Text → ℕ → ℕ → Found → Found
found_flag self i index (errs, deps) =
    if index == i then (upon_itself self ∷ errs, deps) else (errs, index ∷ deps)

unfoldable pub no_flag : Scope → Text → Text → Found → Found
no_flag scope self name (errs, deps) =
    if has_arg scope.args name
    then (upon_arg self name ∷ errs, deps)
    else if scope.ancestor name
    then (errs, deps)
    else (does_not_exist self name ∷ errs, deps)

-- the loop over the names that the flag `i` depends on
unfoldable pub read_names : Scope → Text → ℕ → List Text → Found
read_names scope self i [] = ([], [])
read_names scope self i (name ∷ names) =
    let trimmed = trim_dashes name in
    let (errs, deps) = read_names scope self i names in
    if text_eq trimmed []
    then (must_be_named self ∷ errs, deps)
    else maybe (find_flag_by_name scope.flags trimmed) (no_flag scope self trimmed (errs, deps))
        λ index. found_flag self i index (errs, deps)

-- the loop over the flags: the errors and `deps`
unfoldable pub read_flags : Scope → ℕ → List OrderedFlag → List DependencyError × List (List ℕ)
read_flags scope i [] = ([], [])
read_flags scope i (f ∷ fs) =
    let (errs, deps) = read_names scope f.name i f.depends_on in
    let (errs', deps') = read_flags scope (i + 1) fs in (errs ++ errs', deps ∷ deps')

-- `anyOrdering`
unfoldable pub any_ordering : List OrderedFlag → Bool
any_ordering [] = false
any_ordering (f ∷ fs) =
    not (eqb_ℤ (order_class f) (pos 0)) || (ltb 0 (length f.depends_on) || any_ordering fs)

-- `flagOrder` behind the call, or the error. Without one the flags stand as they are defined.
pub data FlagOrder : Type 0 where
  as_defined : FlagOrder
  sorted : Sorted → FlagOrder
  failed : List DependencyError → FlagOrder

unfoldable pub order_flags : Scope → FlagOrder
order_flags scope =
    let (errs, deps) = read_flags scope 0 scope.flags in
    if ltb 0 (length errs)
    then failed errs
    else if any_ordering scope.flags
    then sorted (topo_sort_flags scope.flags deps)
    else as_defined
