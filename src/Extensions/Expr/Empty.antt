-- ===== src/Extensions/Expr/Empty.antt =====
-- extensions/expr/expr.go: `RawParse` for an operator without args.
use joe_cli.Parse.Options.{
  letter, letters, read_flag, read_option, resolve_letter, short_options, unknown_letter,
}
use joe_cli.Counters.{has_dash}
use joe_cli.Binding.{
  is_short, define_args, define_flags, define_persistent, resolve_alias, resolve_in_tables,
  new_binding, to_binding,
}
use joe_cli.Positional.{current, finish, new_arg_binding, takers_of}
use joe_cli.Parse.Mode.{
  or_if, raw_rtl, disallow_flags_after_args, parse_unknown_flags_as_args, right_to_left,
  skip_flag_parsing, skip_program_name,
}
use joe_cli.Common.{
  suc, length, ◌+◌, ◌*◌, arith, Bool, List, Text, [], false, lookup, none, refl, some, true, ℕ,
  ◌==◌, ◌∷◌, ◌≡◌,
}
use joe_cli.Extensions.Expr.{Expr, parse_operator, to_raw_expr}
use joe_cli.Results.{new_binding_result}
use joe_cli.Errors.{rune_option_name, unknown_option_error}
use joe_cli.Parse.Loop.{
  enough_fuel, start, count_skip, finished, is_word, parse_word, parsing, raw_parse,
  raw_parse_binding, any_panics, right_to_left_skip, skip_takers,
}

-- `RawParse` over the binding without args, in both of its modes
on_empty-end :
    (rtl : Bool)
    → raw_parse [] (to_binding (new_binding [] [] [])) (or_if rtl raw_rtl 0)
      ≡ finished (new_binding_result (some [])) none
unfolding raw_parse right_to_left_skip right_to_left skip_program_name skip_flag_parsing
    new_arg_binding to_binding new_binding define_flags define_persistent define_args takers_of
    skip_takers count_skip parsing finish current
on_empty-end true = refl
on_empty-end false = refl

on_empty-flag :
    (rtl : Bool) (fuel c : ℕ) (name : Text) (args : List Text)
    → (c == b'-') ≡ false
    → parsing
        (to_binding (new_binding [] [] []))
        (or_if rtl raw_rtl 0)
        (suc fuel)
        ((b'-' ∷ c ∷ name) ∷ args)
        (start
          ((b'-' ∷ c ∷ name) ∷ args)
          (or_if rtl raw_rtl 0)
          (new_arg_binding (to_binding (new_binding [] [] []))))
      ≡ finished
          (new_binding_result (some ((b'-' ∷ c ∷ name) ∷ args)))
          (some (unknown_option_error (rune_option_name c) ((b'-' ∷ c ∷ name) ∷ args)))
unfolding to_binding new_binding define_flags define_persistent define_args skip_flag_parsing
    parsing parse_word is_word read_flag read_option short_options letters letter resolve_letter
    resolve_alias resolve_in_tables lookup unknown_letter disallow_flags_after_args
    parse_unknown_flags_as_args has_dash is_short
on_empty-flag true fuel c name args no_dash = rw no_dash refl
on_empty-flag false fuel c name args no_dash = rw no_dash refl

more_fuel : (arg : Text) (args : List Text) → enough_fuel (arg ∷ args) ≡ suc (2 * length args + 3)
more_fuel arg args = omega arith

on_empty-next :
    (rtl : Bool) (c : ℕ) (name : Text) (args : List Text)
    → (c == b'-') ≡ false
    → raw_parse ((b'-' ∷ c ∷ name) ∷ args) (to_binding (new_binding [] [] [])) (or_if rtl raw_rtl 0)
      ≡ finished
          (new_binding_result (some ((b'-' ∷ c ∷ name) ∷ args)))
          (some (unknown_option_error (rune_option_name c) ((b'-' ∷ c ∷ name) ∷ args)))
unfolding raw_parse right_to_left_skip right_to_left skip_program_name skip_flag_parsing
    new_arg_binding to_binding new_binding define_flags define_persistent define_args takers_of
    skip_takers count_skip
on_empty-next true c name args no_dash =
    rw (more_fuel (b'-' ∷ c ∷ name) args) (on_empty-flag true _ c name args no_dash)
on_empty-next false c name args no_dash =
    rw (more_fuel (b'-' ∷ c ∷ name) args) (on_empty-flag false _ c name args no_dash)

-- Without args, no lookup panics.
on_empty_lem :
    (args : List Text) (flags : ℕ)
    → raw_parse_binding args (new_binding [] [] []) flags
      ≡ raw_parse args (to_binding (new_binding [] [] [])) flags
unfolding raw_parse_binding any_panics new_binding define_flags define_persistent define_args
on_empty_lem args flags = refl

pub raw_parse-end :
    (x : Expr) → x.args ≡ [] → parse_operator x [] ≡ finished (new_binding_result (some [])) none
unfolding to_raw_expr
raw_parse-end x bare = rw (bare, on_empty_lem) (on_empty-end x.rtl)

raw_parse-next :
    (x : Expr) (c : ℕ) (name : Text) (args : List Text)
    → x.args ≡ []
    → (c == b'-') ≡ false
    → parse_operator x ((b'-' ∷ c ∷ name) ∷ args)
      ≡ finished
          (new_binding_result (some ((b'-' ∷ c ∷ name) ∷ args)))
          (some (unknown_option_error (rune_option_name c) ((b'-' ∷ c ∷ name) ∷ args)))
unfolding to_raw_expr
raw_parse-next x c name args bare no_dash =
    rw (bare, on_empty_lem) (on_empty-next x.rtl c name args no_dash)

pub raw_parse-flag :
    (x : Expr) (n : Text) {c : ℕ} {behind : Text} (args : List Text)
    → x.args ≡ []
    → n ≡ c ∷ behind
    → (c == b'-') ≡ false
    → parse_operator x ((b'-' ∷ n) ∷ args)
      ≡ finished
          (new_binding_result (some ((b'-' ∷ n) ∷ args)))
          (some (unknown_option_error (rune_option_name c) ((b'-' ∷ n) ∷ args)))
raw_parse-flag x n {c} {behind} args bare spelled no_dash =
    rw spelled (raw_parse-next x c behind args bare no_dash)
