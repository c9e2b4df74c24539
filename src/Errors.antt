-- ===== src/Errors.antt =====
-- error.go: the codes, the parse errors and their constructors; and the signals of set.go by which
-- an arg counter answers.
use joe_cli.Common.{
  Bool, List, Option, Text, [], if◌then◌else◌, ltb, none, some, true, ℕ, ◌==◌, ◌∷◌,
}

pub data ErrorCode : Type 0 where
  unexpected_argument command_not_found unknown_option missing_argument : ErrorCode
  invalid_argument expected_argument unknown_expr args_must_precede_exprs : ErrorCode
  flag_used_after_args expected_required_option unavailable_persistent_option : ErrorCode

-- `argCountError`, in the order of its `iota`
pub data ArgCountError : Type 0 where
  arg_cannot_use_flag arg_expected_more arg_start_soft_errors end_of_arguments : ArgCountError

-- The int that stands for the signal.
unfoldable pub rank : ArgCountError → ℕ
rank arg_cannot_use_flag = 0
rank arg_expected_more = 1
rank arg_start_soft_errors = 2
rank end_of_arguments = 3

-- An error that is no `*ParseError`: a signal, the `expected n arguments` of `expectedArgument`, or
-- one made by `errors.New` or by code outside the package.
pub data Cause : Type 0 where
  signal : ArgCountError → Cause
  expected : ℕ → Cause
  message : Text → Cause

-- `ParseError`. `Suggestions` and `detail` belong to the suggestion of commands.
pub record ParseError : Type 0 where
  pub code : ErrorCode
  pub err : Option Cause
  pub name : Text
  pub value : Text
  pub remaining : List Text

pub data Error : Type 0 where
  plain : Cause → Error
  parse_error : ParseError → Error

abbrev pub unexpected_argument_error : Text → List Text → Error
unexpected_argument_error value remaining = parse_error (record {
  code = unexpected_argument;
  err = none;
  name = [];
  value = value;
  remaining = remaining;
})

abbrev pub expected_argument_error : ℕ → Error
expected_argument_error count = parse_error (record {
  code = expected_argument;
  err = some (expected count);
  name = [];
  value = [];
  remaining = [];
})

-- `optionName` of a rune and of a string
abbrev pub rune_option_name : ℕ → Text
rune_option_name c = if c == b'-' then b'-' ∷ [] else b'-' ∷ c ∷ []

abbrev pub option_name : Text → Text
option_name (c ∷ []) = b'-' ∷ c ∷ []
option_name n = b'-' ∷ b'-' ∷ n

-- `unknownOption` and `flagAfterArgError` of a name that `optionName` has written
abbrev pub unknown_option_error : Text → List Text → Error
unknown_option_error name remaining =
    parse_error
      (record { code = unknown_option; err = none; name = name; value = []; remaining = remaining })

abbrev pub flag_after_arg_error : Text → Error
flag_after_arg_error name = parse_error (record {
  code = flag_used_after_args;
  err = none;
  name = option_name name;
  value = [];
  remaining = [];
})

abbrev pub flag_unexpected_argument_error : Text → Text → List Text → Error
flag_unexpected_argument_error name value remaining = parse_error (record {
  code = invalid_argument;
  err = none;
  name = name;
  value = value;
  remaining = remaining;
})

-- `argTakerError`: a parse error is relabelled in place, any other error is wrapped.
abbrev pub arg_taker_error : Text → Text → Error → List Text → Error
arg_taker_error name value (parse_error p) remaining =
    parse_error (record p { name = name; value = value; remaining = remaining })
arg_taker_error name value (plain c) remaining = parse_error (record {
  code = invalid_argument;
  err = some c;
  name = name;
  value = value;
  remaining = remaining;
})

-- `isHardArgCountErr`
unfoldable pub is_hard_arg_count_err : Error → Bool
unfolding rank
is_hard_arg_count_err (plain (signal f)) = ltb (rank f) (rank arg_start_soft_errors)
is_hard_arg_count_err _ = true
