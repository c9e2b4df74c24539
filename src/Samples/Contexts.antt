-- ===== src/Samples/Contexts.antt =====
-- Filters of contexts on concrete inputs.
use joe_cli.Support.Fields.{trim_left, trim_right}
use joe_cli.Common.{
  Option, Text, [], codes, false, if◌then◌else◌, none, refl, some, text_eq, true, ◌||◌, ◌∷◌, ◌≡◌,
}
use joe_cli.Filters.{
  Datum, FilterContext, cast_universe_filter, cut_brace, data_filter, has_data,
  new_context_path_expr, pattern_filter, text_datum,
}
use joe_cli.Filters.Alternatives.{pattern_filter-comma}
use joe_cli.Extensions.Expander.Compile.{split_at, split_on}

abbrev sample_data : Text → Option Datum
sample_data name = if text_eq name (codes "kind") then some (text_datum (codes "x")) else none

abbrev sample_context : FilterContext
sample_context = record {
  path = codes "app" ∷ codes "sub" ∷ codes "--flag" ∷ [];
  lookup_data = sample_data;
}

data_matches : pattern_filter (codes "{ kind : x }") sample_context ≡ true
unfolding pattern_filter split_on split_at cast_universe_filter new_context_path_expr cut_brace
    data_filter has_data trim_left trim_right
data_matches = refl

data_differs : pattern_filter (codes "{kind:y}") sample_context ≡ false
unfolding pattern_filter split_on split_at cast_universe_filter new_context_path_expr cut_brace
    data_filter has_data trim_left trim_right
data_differs = refl

pattern_filter-comma_example : pattern_filter (codes "{other}, sub -,{kind:y}") sample_context ≡ (
    pattern_filter (codes "{other}") sample_context
    || pattern_filter (codes " sub -,{kind:y}") sample_context)
pattern_filter-comma_example =
    pattern_filter-comma (codes "{other}") (codes " sub -,{kind:y}") sample_context
