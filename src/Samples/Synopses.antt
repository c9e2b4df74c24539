-- ===== src/Samples/Synopses.antt =====
-- Usage texts and the names of flags, on concrete inputs.
use joe_cli.Parse.Options.{digits_value, number_value}
use joe_cli.Common.{Distinct, List, Text, [], codes, elem, length, pos, refl, ◌∷◌, ◌≡◌}
use joe_cli.Synopsis.Usage.{
  UsageExpr, atoi, first_placeholders, insert_placeholder, key, literal, match_key, new_expr,
  parse_usage, placeholder, placeholder_names, segments, sort_placeholders, until_close,
  without_placeholders,
}
use joe_cli.Synopsis.Usage.Source.{AllUnmatched, segments-IsCut, source_of_usage}
use joe_cli.Synopsis.Usage.Placeholders.{InPositions, placeholder_names_lem, used_names}
use joe_cli.Synopsis.Names.{Shows, long_options_of, new_flag_names, new_flag_names-Shows}

abbrev usage_text : Text
usage_text = codes "Sets {2:VALUE} of {1:NAME} to {VALUE}, {"

ordered_names : placeholder_names (parse_usage usage_text) ≡ codes "NAME" ∷ codes "VALUE" ∷ []
unfolding placeholder_names parse_usage segments match_key until_close new_expr atoi number_value
    digits_value first_placeholders sort_placeholders insert_placeholder elem
ordered_names = refl

plain_usage : without_placeholders (parse_usage usage_text) ≡ codes "Sets VALUE of NAME to VALUE, {"
unfolding without_placeholders parse_usage segments match_key until_close new_expr atoi number_value
    digits_value
plain_usage = refl

-- a key has one byte at least, so that of an empty pair of braces goes on
empty_braces : segments 6 [] (codes "{} {a}") ≡ key (codes "} {a") ∷ []
unfolding segments match_key until_close
empty_braces = refl

segments-IsCut_example :
    (source_of_usage (segments (length usage_text) [] usage_text) ≡ usage_text)
    × AllUnmatched (segments (length usage_text) [] usage_text)
segments-IsCut_example = segments-IsCut usage_text

abbrev usage_exprs : List UsageExpr
usage_exprs =
    literal (codes "of ")
    ∷ placeholder (codes "B") (pos 2)
    ∷ placeholder (codes "A") (pos 1)
    ∷ placeholder (codes "B") (pos 0)
    ∷ []

placeholder_names_lem_example :
    Distinct (placeholder_names usage_exprs)
    × ((n : Text) → elem n (placeholder_names usage_exprs) ≡ elem n (used_names usage_exprs))
    × InPositions (sort_placeholders (first_placeholders [] usage_exprs))
placeholder_names_lem_example = placeholder_names_lem usage_exprs

new_flag_names-Shows_example :
    Shows
      (new_flag_names (codes "verbose") (codes "v" ∷ codes "loud" ∷ codes "V" ∷ []))
      (long_options_of (codes "verbose" ∷ codes "v" ∷ codes "loud" ∷ codes "V" ∷ []))
new_flag_names-Shows_example =
    new_flag_names-Shows (codes "verbose") (codes "v" ∷ codes "loud" ∷ codes "V" ∷ [])
