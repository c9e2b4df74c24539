-- ===== src/Filters.antt =====
-- filter.go: the filters of contexts by patterns, and their composition.
pub mod Alternatives
use joe_cli.Support.Fields.{trim_left, trim_right}
use joe_cli.Common.{
  Bool, List, Option, Text, [], cut, false, if◌then◌else◌, map, maybe, none, some, text_eq, true,
  ◌&&◌, ◌==◌, ◌||◌, ◌∷◌,
}
use joe_cli.Paths.{fields_from, match_parts}
use joe_cli.Extensions.Expander.Compile.{split_on}

-- A value of the data: a string, or another, which equals none.
pub data Datum : Type 0 where
  text_datum : Text → Datum
  other_datum : Datum

-- What filters read of the context: its path, and the data that LookupData finds.
pub record FilterContext : Type 0 where
  pub path : List Text
  pub lookup_data : Text → Option Datum

abbrev pub Filter : Type 0
Filter = FilterContext → Bool

unfoldable pub any_filter : List Filter → Filter
any_filter [] c = false
any_filter (f ∷ fs) c = f c || any_filter fs c

unfoldable pub all_filter : List Filter → Filter
all_filter [] c = true
all_filter (f ∷ fs) c = f c && all_filter fs c

-- `castUniverseFilter`
unfoldable pub cast_universe_filter : (List Filter → Filter) → List Filter → Filter
cast_universe_filter combine [] c = true
cast_universe_filter combine (f ∷ []) c = f c
cast_universe_filter combine (f ∷ g ∷ fs) c = combine (f ∷ g ∷ fs) c

abbrev pub any_of : List Filter → Filter
any_of = cast_universe_filter any_filter

abbrev pub all_of : List Filter → Filter
all_of = cast_universe_filter all_filter

-- `HasData` and its `Matches`, without a value and with a string
abbrev pub equals_datum : Option Text → Datum → Bool
equals_datum none d = true
equals_datum (some value) (text_datum s) = text_eq s value
equals_datum (some value) other_datum = false

unfoldable pub has_data : Text → Option Text → Filter
has_data name value c = maybe (c.lookup_data name) false (equals_datum value)

-- `strings.CutSuffix(s, "}")`
unfoldable pub cut_brace : Text → Option Text
cut_brace [] = none
cut_brace (c ∷ []) = if c == b'}' then some [] else none
cut_brace (c ∷ d ∷ s) = maybe (cut_brace (d ∷ s)) none (λ t. some (c ∷ t))

-- `strings.TrimSpace`
abbrev pub trim_space : Text → Text
trim_space s = trim_right (trim_left s)

-- what stands between the braces
unfoldable pub data_filter : Text → Filter
data_filter kvp =
    let (k, value, has_value) = cut b':' kvp in
    if has_value
    then has_data (trim_space k) (some (trim_space value))
    else has_data (trim_space k) none

unfoldable pub path_filter : Text → Filter
path_filter expr c = match_parts (fields_from [] expr) c.path

unfoldable pub new_context_path_expr : Text → Filter
new_context_path_expr [] = path_filter []
new_context_path_expr (c ∷ s) =
    let braced = maybe (cut_brace s) (path_filter (c ∷ s)) data_filter in
    if c == b'{' then braced else path_filter (c ∷ s)

unfoldable pub pattern_filter : Text → Filter
pattern_filter pattern' =
    any_of (map (λ expr. new_context_path_expr (trim_space expr)) (split_on b',' pattern'))
