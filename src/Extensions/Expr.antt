-- ===== src/Extensions/Expr.antt =====
-- extensions/expr/expr.go: how the words of an expression are parsed to its operators.
pub mod Evaluation
pub mod Empty
pub mod Bare
use Prim.Native.Nat.{bit_or}
use joe_cli.Common.{
  Bool, List, Map, Option, Text, [], drop, false, if◌then◌else◌, insert, leb, length, lookup, maybe,
  none, not, some, suc, text_eq, true, zero, ℕ, ◌&&◌, ◌++◌, ◌+◌, ◌==◌, ◌||◌, ◌∷◌,
}
use joe_cli.Errors.{
  Error, ErrorCode, ParseError, args_must_precede_exprs, expected_argument, parse_error, plain,
  unexpected_argument, unknown_expr,
}
use joe_cli.Binding.{Arg, new_binding}
use joe_cli.Results.{BindingResult, merge_binding_results}
use joe_cli.Parse.Mode.{or_if, raw_rtl}
use joe_cli.Parse.Options.{atoi_succeeds}
use joe_cli.Parse.Loop.{Outcome, finished, out_of_fuel, panicked, raw_parse_binding}

pub record Expr : Type 0 where
  pub name : Text
  pub aliases : List Text
  pub args : List Arg
  pub numeric : Bool
  pub rtl : Bool

-- an operator, with what was bound to its args
pub record BoundExpr : Type 0 where
  pub expr : Expr
  pub result : BindingResult

pub data Parsed : Type 0 where
  parsed : List BoundExpr → BindingResult → Parsed
  rejected : Error → Parsed
  crashed : Parsed
  fuel_spent : Parsed

unfoldable pub add_aliases : Expr → List Text → Map Expr → Map Expr
add_aliases x [] names = names
add_aliases x (a ∷ aliases) names = add_aliases x aliases (insert a x names)

-- `names`: the map, and the name of the numeric operator
unfoldable pub add_names : List Expr → Map Expr → Map Expr
add_names [] names = names
add_names (x ∷ xs) names = add_names xs (add_aliases x x.aliases (insert x.name x names))

unfoldable pub numeric_of : List Expr → Text → Text
numeric_of [] numeric = numeric
numeric_of (x ∷ xs) numeric = numeric_of xs (if x.numeric then x.name else numeric)

-- an expression, with its map of names
pub record Expression : Type 0 where
  pub names : Map Expr
  pub numeric : Text
  pub parse_inline_values : Bool

unfoldable pub expression_of : List Expr → Bool → Expression
expression_of exprs inline = record {
  names = add_names exprs [];
  numeric = numeric_of exprs [];
  parse_inline_values = inline;
}

-- What `findExpr` returns; `none` of the operator is nil.
pub record FoundExpr : Type 0 where
  pub expr : Option Expr
  pub short_inline : Bool
  pub ok : Bool

abbrev pub is_some_expr : Option Expr → Bool
is_some_expr none = false
is_some_expr (some x) = true

-- `unicode.IsUpper` of a letter of one byte
abbrev pub is_upper : ℕ → Bool
is_upper c = leb b'A' c && leb c b'Z'

unfoldable pub contains_byte : ℕ → Text → Bool
contains_byte c [] = false
contains_byte c (d ∷ s) = (d == c) || contains_byte c s

-- `[]rune(exprName)[0]` of the empty name is a panic, `none`
unfoldable pub find_inline : Expression → Text → Option FoundExpr
find_inline e [] = none
find_inline e (c ∷ name) =
    if is_upper c || contains_byte b'=' (c ∷ name)
    then some (record { expr = lookup (c ∷ []) e.names; short_inline = true; ok = true })
    else some (record { expr = none; short_inline = false; ok = false })

unfoldable pub find_expr : Expression → Text → Option FoundExpr
find_expr e name =
    let found = lookup name e.names in
    let inline = find_inline e name in
    if not (is_some_expr found) && e.parse_inline_values
    then inline
    else some (record { expr = found; short_inline = false; ok = is_some_expr found })

-- The operator of a word, and the args behind what of it is pushed back.
pub data Operator : Type 0 where
  operator : Expr → List Text → Operator
  unknown : Operator
  crash : Operator

abbrev pub operator_of : Option Expr → List Text → Operator
operator_of none args = crash
operator_of (some x) args = operator x args

-- `name` is `arg[1:]`
unfoldable pub or_numeric : Expression → Text → List Text → FoundExpr → Operator
or_numeric e name args found =
    let pushed = if found.short_inline then drop 1 name ∷ args else args in
    if found.ok
    then operator_of found.expr pushed
    else if not (text_eq e.numeric []) && atoi_succeeds name
    then operator_of (lookup e.numeric e.names) (name ∷ pushed)
    else unknown

unfoldable pub read_operator : Expression → Text → List Text → Operator
read_operator e [] args = crash
read_operator e (d ∷ name) args = maybe (find_expr e name) crash (or_numeric e name args)

unfoldable pub to_raw_expr : Expr → ℕ
to_raw_expr x = or_if x.rtl raw_rtl 0

abbrev pub unknown_expr_error : Text → Error
unknown_expr_error name =
    parse_error
      (record { code = unknown_expr; err = none; name = name; value = []; remaining = [] })

-- `args[0]` of no args is a panic
abbrev pub args_must_precede : List Text → Parsed
args_must_precede [] = crashed
args_must_precede (arg ∷ _) = rejected (
    parse_error (record {
      code = args_must_precede_exprs;
      err = none;
      name = [];
      value = arg;
      remaining = [];
    }))

unfoldable pub after_error : ErrorCode → ParseError → (List Text → Parsed) → Parsed
after_error unexpected_argument pe go_on = args_must_precede pe.remaining
after_error expected_argument pe go_on = rejected (parse_error pe)
after_error code pe go_on = go_on pe.remaining

-- What follows a call of `RawParse`. An error that is no ParseError does not convert.
unfoldable pub after_operator :
    (BindingResult → Parsed) → (BindingResult → List Text → Parsed) → Outcome → Parsed
after_operator stop go_on (finished bin none) = stop bin
after_operator stop go_on (finished bin (some (plain cause))) = crashed
after_operator stop go_on (finished bin (some (parse_error pe))) =
    after_error pe.code pe (go_on bin)
after_operator stop go_on panicked = crashed
after_operator stop go_on out_of_fuel = fuel_spent

-- an operator with the args that are left
abbrev pub parse_operator : Expr → List Text → Outcome
parse_operator x args = raw_parse_binding args (new_binding [] x.args []) (to_raw_expr x)

abbrev pub bind : Expr → BindingResult → BoundExpr
bind x bin = record { expr = x; result = bin }

abbrev pub run_operator : (Expr → List Text → Parsed) → Text → Operator → Parsed
run_operator parse arg (operator x args) = parse x args
run_operator parse arg unknown = rejected (unknown_expr_error arg)
run_operator parse arg crash = crashed

-- the loop, over the args that are left
unfoldable pub parse_rounds :
    ℕ → Expression → List Text → List BoundExpr → List (Option BindingResult) → Parsed
parse_rounds fuel e [] results all = parsed results (merge_binding_results all)
parse_rounds zero e (arg ∷ args) results all = fuel_spent
parse_rounds (suc fuel) e (arg ∷ args) results all =
    run_operator
      (λ x args'.
        after_operator
          (λ bin.
            parsed (results ++ bind x bin ∷ []) (merge_binding_results (all ++ some bin ∷ [])))
          (λ bin left. parse_rounds fuel e left (results ++ bind x bin ∷ []) (all ++ some bin ∷ []))
          (parse_operator x args'))
      arg (read_operator e arg args)

-- Each round takes a word or some bytes of it.
abbrev pub bytes : List Text → ℕ
bytes [] = 0
bytes (arg ∷ args) = length arg + 1 + bytes args

unfoldable pub parse_expressions : Expression → List Text → Parsed
parse_expressions e args = parse_rounds (bytes args) e args [] []
