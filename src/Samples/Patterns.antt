-- ===== src/Samples/Patterns.antt =====
-- The patterns of pattern_test.go and others, and the theorems on them at concrete patterns.
use joe_cli.Extensions.Expander.Joined.{source_of, source_of-find_all_submatch_index}
use joe_cli.Support.Unquote.{unquote}
use joe_cli.Extensions.Expander.Room.{find_all_submatch_index-InOrder}
use joe_cli.Extensions.Expander.Compile.{
  Options, add_expr, compile, compile_pattern_core, convert_ws_exprs, default_new_expr,
  default_options, expr_of, fallback_of, is_nop_name, new_literal, parts_from, plain_between,
  recursive_from, recursive_new_expr, space_of, split_at, split_on, substitute, substitute_all,
  trail, trail_last, trim_at, trim_end, with_meta, with_metas,
}
use joe_cli.Extensions.Expander.Regions.{InOrder}
use joe_cli.Extensions.Expander.Format.{
  append_exprs, append_name, append_subexp_names, expand_exprs, expand_pattern, fallback_format,
  format, format_str, name_of_ws_token, repr, repr_all, repr_ws, string_of, subexp_names,
  with_trailing,
}
use joe_cli.Extensions.Expander.{
  Pattern, cut_prefix, fallback_expr, format_expr, literal_expr, literal_value,
}
use joe_cli.Common.{
  List, Option, Text, [], arith, codes, elem, maybe, refl, some, true, ℕ, ◌∷◌, ◌≡◌,
}
use joe_cli.Extensions.Expander.Scan.{
  Loc, equal_at, find_all_submatch_index, find_end, opens, round, round_at_start, same_bytes, scan,
  submatch,
}

abbrev loc_of : ℕ → ℕ → ℕ → ℕ → Loc
loc_of a b c d = record { from = a; to = b; key_from = c; key_to = d }

abbrev found_in : Text → Option (List Loc)
unfolding find_all_submatch_index scan round opens equal_at same_bytes round_at_start find_end
    submatch
found_in s = find_all_submatch_index 1 s (codes "%(") b')'

abbrev two_keys : Text
two_keys = codes "%(a)  %(b)"

skips :
    find_all_submatch_index 1 two_keys (codes "%(") b')'
    ≡ some (loc_of 0 4 2 3 ∷ loc_of 6 10 8 9 ∷ [])
unfolding find_all_submatch_index scan round opens equal_at same_bytes round_at_start find_end
    submatch
skips = refl

nested_key : found_in (codes "%(token:%(nested))") ≡ some (loc_of 0 18 2 17 ∷ [])
unfolding found_in
nested_key = refl

nested_illegal : found_in (codes "%(%(a)") ≡ some (loc_of 2 6 4 5 ∷ [])
unfolding found_in
nested_illegal = refl

-- a start that stays open costs the next expression too
nested_lost : found_in (codes "%(%(a %(b)") ≡ some []
unfolding found_in
nested_lost = refl

abbrev braces : Options
braces = record default_options { recursive = true; start = codes "${"; end_byte = codes "}" }

abbrev compiled : Options → Text → Option Pattern
unfolding compile compile_pattern_core found_in find_all_submatch_index scan round opens equal_at
    same_bytes round_at_start find_end submatch parts_from plain_between expr_of new_literal unquote
    default_new_expr is_nop_name recursive_new_expr recursive_from fallback_of split_on split_at
    trim_end trim_at cut_prefix convert_ws_exprs add_expr trail_last trail space_of with_metas
    with_meta substitute_all substitute
compiled o s = compile 1 o s

white_space :
    compiled default_options (codes "hi%(space)%(a:d)%(newline)\\t")
    ≡ some (record {
      exprs =
          literal_expr (codes "hi") (codes " ")
          ∷ format_expr (codes "a") (codes "d") (10 ∷ [])
          ∷ literal_expr (9 ∷ []) []
          ∷ [];
      start = codes "%(";
      end_byte = codes ")";
    })
unfolding compiled
white_space = refl

recursion :
    compiled braces (codes "${V:${E:vi}}")
    ≡ some (record {
      exprs =
          fallback_expr (codes "V") (fallback_expr (codes "E") (literal_value (codes "vi")) []) []
          ∷ [];
      start = codes "${";
      end_byte = codes "}";
    })
unfolding compiled
recursion = refl

-- the text of a pattern leaves out its last fallback
abbrev editor : Pattern
editor = record {
  exprs = fallback_expr (codes "V") (literal_value (codes "vi")) (codes " ") ∷ [];
  start = codes "${";
  end_byte = codes "}";
}

text_of_editor : string_of editor ≡ codes "${V:}${space}"
unfolding string_of repr_all repr repr_ws name_of_ws_token
text_of_editor = refl

-- and its white space is written twice
abbrev as_text : Option Text → Text → Text
as_text v f = maybe v [] (λ t. t)

expanded_editor : expand_pattern as_text editor (λ name. some (codes "ed")) ≡ codes "ed  "
unfolding expand_pattern expand_exprs format format_str with_trailing fallback_format cut_prefix
expanded_editor = refl

names_once :
    subexp_names (record editor {
      exprs =
          format_expr (codes "a") [] []
          ∷ fallback_expr (codes "b") (format_expr (codes "a") [] []) []
          ∷ format_expr (codes "b") [] []
          ∷ [];
    })
    ≡ codes "a" ∷ codes "b" ∷ []
unfolding subexp_names append_exprs append_subexp_names append_name elem
names_once = refl

source_of-find_all_submatch_index_example :
    source_of (codes "%(") b')' (parts_from two_keys 0 (loc_of 0 4 2 3 ∷ loc_of 6 10 8 9 ∷ []))
    ≡ two_keys
source_of-find_all_submatch_index_example =
    source_of-find_all_submatch_index 1 two_keys (codes "%(") b')'
      (loc_of 0 4 2 3 ∷ loc_of 6 10 8 9 ∷ []) skips

find_all_submatch_index-InOrder_example :
    (locs : List Loc) × (find_all_submatch_index 1 two_keys (codes "%(") b')' ≡ some locs)
    × InOrder 2 10 0 locs
find_all_submatch_index-InOrder_example =
    find_all_submatch_index-InOrder 1 two_keys b'%' (codes "(") b')' (omega arith)
