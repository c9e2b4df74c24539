-- ===== src/Samples/Expressions.antt =====
-- Expressions on concrete inputs.
use joe_cli.Common.{
  Bool, List, Text, [], codes, false, insert, lookup, ltb, none, refl, some, true, ℕ, ◌%◌, ◌++◌,
  ◌==◌, ◌∷◌, ◌≡◌,
}
use joe_cli.Extensions.Expr.{
  Expr, Expression, add_aliases, add_names, crashed, expression_of, find_expr, find_inline,
  numeric_of, or_numeric, parse_expressions, parse_rounds, read_operator, rejected,
  unknown_expr_error,
}
use joe_cli.Extensions.Expr.Bare.{
  AllBare, Bare, Unknown, dashed, exprs_of, operators, parse_expressions-AllBare,
  parse_expressions-Unknown,
}
use joe_cli.Extensions.Expr.Evaluation.{
  Evaluator, Yielder, evaluate_composite, evaluate_core, returns, run_with,
}
use joe_cli.Extensions.Expr.Evaluation.Filters.{
  evaluate_composite-predicates, evaluate_core-predicates, predicates,
}

abbrev plain_expr : Text → Expr
plain_expr name = record { name = name; aliases = []; args = []; numeric = false; rtl = false }

abbrev sample_expression : Bool → Expression
unfolding expression_of add_names add_aliases insert numeric_of
sample_expression inline =
    expression_of (plain_expr (codes "even") ∷ plain_expr (codes "print") ∷ []) inline

abbrev sample_line : List (Text × Expr)
sample_line =
    (codes "print", plain_expr (codes "print"))
    ∷ (codes "even", plain_expr (codes "even"))
    ∷ (codes "print", plain_expr (codes "print"))
    ∷ []

abbrev print_Bare :
    (inline : Bool) → Bare (sample_expression inline) (codes "print") (plain_expr (codes "print"))
unfolding sample_expression lookup
print_Bare inline = record {
  first = b'p';
  behind = codes "rint";
  spelled = refl;
  no_dash = refl;
  found = refl;
  no_args = refl;
}

abbrev even_Bare :
    (inline : Bool) → Bare (sample_expression inline) (codes "even") (plain_expr (codes "even"))
unfolding sample_expression lookup
even_Bare inline = record {
  first = b'e';
  behind = codes "ven";
  spelled = refl;
  no_dash = refl;
  found = refl;
  no_args = refl;
}

abbrev line_AllBare : (inline : Bool) → AllBare (sample_expression inline) sample_line
line_AllBare inline = (print_Bare inline, (even_Bare inline, (print_Bare inline, tt)))

parse_expressions-AllBare_example :
    exprs_of (parse_expressions (sample_expression true) (dashed sample_line))
    ≡ some (operators sample_line)
parse_expressions-AllBare_example =
    parse_expressions-AllBare (sample_expression true) sample_line (line_AllBare true)

abbrev odd_Unknown : Unknown (sample_expression false) (codes "odd")
unfolding sample_expression lookup
odd_Unknown = record {
  first = b'o';
  behind = codes "dd";
  spelled = refl;
  no_dash = refl;
  not_found = refl;
  no_inline = refl;
  no_numeric = refl;
}

parse_expressions-Unknown_example :
    parse_expressions
      (sample_expression false)
      (dashed sample_line ++ codes "-odd" ∷ codes "-print" ∷ [])
    ≡ rejected (unknown_expr_error (codes "-odd"))
parse_expressions-Unknown_example =
    parse_expressions-Unknown (sample_expression false) sample_line (codes "odd")
      (codes "-print" ∷ []) (line_AllBare false) odd_Unknown

-- An upper case letter that is no operator's name is taken for a short inline one all the same.
inline_crash : parse_expressions (sample_expression true) (codes "-X" ∷ []) ≡ crashed
unfolding sample_expression parse_expressions parse_rounds read_operator find_expr find_inline
    or_numeric lookup
inline_crash = refl

abbrev is_even : ℕ → Bool
is_even n = n % 2 == 0

abbrev is_small : ℕ → Bool
is_small n = ltb n 4

-- appends the value to a log
abbrev log_value : Evaluator (List ℕ) ℕ ℕ
log_value n s = returns none (s ++ n ∷ [])

evaluate_core-predicates_example :
    evaluate_core
      (predicates (is_even ∷ is_small ∷ []) ++ log_value ∷ [])
      (1 ∷ 2 ∷ 3 ∷ 4 ∷ 0 ∷ [])
      []
    ≡ evaluate_core (log_value ∷ []) (2 ∷ 0 ∷ []) []
evaluate_core-predicates_example =
    evaluate_core-predicates (is_even ∷ is_small ∷ []) (log_value ∷ []) (1 ∷ 2 ∷ 3 ∷ 4 ∷ 0 ∷ []) []

abbrev log_yield : Yielder (List ℕ) ℕ ℕ
log_yield n s = (none, s ++ n ∷ [])

evaluate_composite-predicates_example :
    run_with log_yield (evaluate_composite (predicates (is_even ∷ is_small ∷ [])) 3 [])
    ≡ (none, 3 ∷ [])
evaluate_composite-predicates_example =
    evaluate_composite-predicates (is_even ∷ is_small ∷ []) log_yield 3 []
