-- ===== src/Parse/Options.antt =====
-- set.go, in `RawParse`: long options, and the loop over the letters of short options.
use joe_cli.Common.{
  Bool, List, Option, Text, [], cut, false, if◌then◌else◌, leb, maybe, none, not, some, text_eq,
  true, ℕ, ◌&&◌, ◌*◌, ◌++◌, ◌+◌, ◌-◌, ◌==◌, ◌^◌, ◌∷◌,
}
use joe_cli.Errors.{
  Error, arg_taker_error, end_of_arguments, flag_after_arg_error, flag_unexpected_argument_error,
  option_name, plain, rune_option_name, signal, unknown_option_error,
}
use joe_cli.Counters.{Counter, done}
use joe_cli.Binding.{Binding}
use joe_cli.Results.{BindingResult, append_output}
use joe_cli.Positional.{instance_take, on_taken, take_args}
use joe_cli.Parse.Mode.{disallow_flags_after_args, parse_unknown_flags_as_args}
use joe_cli.Parse.Words.{
  Exit, Machine, args_only, continue_parsing, dashes, did_pushback_arg, is_args_only, panics,
  returns,
}

abbrev pub push_back : Text → List Text → Machine → Exit
push_back arg args m = continue_parsing (arg ∷ args) (record m { state = did_pushback_arg })

-- `name` is `arg[2:]` up to the equal sign, `flag` the option that it resolves to
unfoldable pub long_value : Binding → Text → Text → Text → Bool → List Text → Machine → Exit
long_value b name flag value has_value args m =
    if has_value
    then continue_parsing args
        (record m { out = append_output m.out flag ((b'-' ∷ b'-' ∷ name) ∷ value ∷ []) })
    else on_taken (take_args flag (b.lookup_option flag) args)
        (λ outputs rest.
          continue_parsing rest
            (record m { out = append_output m.out flag (option_name name ∷ outputs) }))
        (λ e. returns m.out (arg_taker_error (option_name name) [] e (option_name name ∷ args)))

-- an alias that resolves to `flag`
unfoldable pub known_long : Binding → ℕ → Text → Text → Bool → List Text → Machine → Text → Exit
known_long b flags name value has_value args m flag =
    if disallow_flags_after_args flags && m.any_args
    then returns m.out (flag_after_arg_error name)
    else long_value b name flag value has_value args m

-- what a name that does not resolve leads to
unfoldable pub unknown_long : ℕ → Text → List Text → Machine → Exit
unknown_long flags name args m =
    if parse_unknown_flags_as_args flags
    then push_back (b'-' ∷ b'-' ∷ name) args m
    else returns m.out (unknown_option_error (option_name name) (option_name name ∷ args))

-- `text` is the word without its two dashes
unfoldable pub long_option : Binding → ℕ → Text → List Text → Machine → Exit
long_option b flags text args m =
    let (name, value, has_value) = cut b'=' text in
    maybe (b.resolve_alias name) (unknown_long flags name args m)
      (known_long b flags name value has_value args m)

abbrev pub is_digit : ℕ → Bool
is_digit c = leb b'0' c && leb c b'9'

-- The value of decimal digits, of which there is one at least.
unfoldable pub digits_value : ℕ → Text → Option ℕ
digits_value v [] = some v
digits_value v (c ∷ s) =
    let rest = digits_value (v * 10 + (c - b'0')) s in if is_digit c then rest else none

unfoldable pub number_value : Text → Option ℕ
number_value [] = none
number_value (c ∷ s) = digits_value 0 (c ∷ s)

unfoldable pub within : ℕ → Option ℕ → Bool
within limit none = false
within limit (some v) = leb v limit

-- whether `strconv.Atoi(s)` has no error: a sign, digits, and an int of 64 bits
unfoldable pub atoi_succeeds : Text → Bool
atoi_succeeds [] = false
atoi_succeeds (c ∷ s) =
    if c == b'-'
    then within (2 ^ 63) (number_value s)
    else if c == b'+'
    then within (2 ^ 63 - 1) (number_value s)
    else within (2 ^ 63 - 1) (number_value (c ∷ s))

-- The option that a letter stands for, and whether it is the numeric one, which takes the whole word.
unfoldable pub resolve_letter : Binding → Bool → Text → ℕ → Option (Text × Bool)
resolve_letter b first arg c =
    maybe (b.resolve_alias (c ∷ []))
      (if first && not (text_eq b.numeric []) && atoi_succeeds arg
        then some (b.numeric, true)
        else none)
      λ flag. some (flag, false)

-- What a letter leads to: the next letter, with the args and the result so far, or an exit.
pub data Letter : Type 0 where
  next_letter : List Text → BindingResult → Letter
  leaves : Exit → Letter

-- `value[0] == '='`
unfoldable pub begins_with_equals : Text → Bool
begins_with_equals [] = false
begins_with_equals (c ∷ _) = c == b'='

-- `EndOfArguments` says that the option takes no value; any other error is returned.
unfoldable pub letter_refused : Text → Text → List Text → Machine → Error → Letter
letter_refused short flag args m (plain (signal end_of_arguments)) =
    next_letter args (append_output m.out flag (short ∷ [] ∷ []))
letter_refused short flag args m e = leaves (returns m.out e)

-- A letter with text behind it: `value` is not empty.
unfoldable pub letter_value : Text → Text → Text → Counter → List Text → Machine → Letter
letter_value short flag value opt args m =
    maybe (instance_take value false opt)
      (leaves
        (continue_parsing args (record m { out = append_output m.out flag (short ∷ value ∷ []) })))
      λ e.
        if begins_with_equals value
        then leaves
            (returns m.out (flag_unexpected_argument_error short value ((short ++ value) ∷ args)))
        else letter_refused short flag args m e

-- A letter that ends the word, of an option whose value is optional: the counter is asked at once.
-- `opt.Done()` on a nil counter is a panic.
unfoldable pub letter_alone : Option Counter → Text → Text → List Text → Machine → Letter
letter_alone none short flag args m = leaves panics
letter_alone (some opt) short flag args m =
    let alone = append_output m.out flag (short ∷ [] ∷ []) in
    maybe (done opt) (next_letter args alone) (λ e. leaves (returns alone e))

-- A letter that ends the word.
unfoldable pub letter_end : Binding → Text → Text → List Text → Machine → Letter
letter_end b short flag args m =
    if b.behavior_flags flag
    then letter_alone (b.lookup_option flag) short flag args m
    else on_taken (take_args flag (b.lookup_option flag) args)
        (λ outputs rest. next_letter rest (append_output m.out flag (short ∷ outputs)))
        (λ e. leaves (returns m.out (arg_taker_error (option_name flag) [] e (short ∷ args))))

-- `letter_value` of the counter that was looked up: a call on a nil counter panics
unfoldable pub letter_value_of : Option Counter → Text → Text → Text → List Text → Machine → Letter
letter_value_of none short flag value args m = leaves panics
letter_value_of (some opt) short flag value args m = letter_value short flag value opt args m

-- a letter that is no option
unfoldable pub unknown_letter : ℕ → Bool → Text → ℕ → Text → List Text → Machine → Letter
unknown_letter flags first arg c behind args m =
    if first && parse_unknown_flags_as_args flags
    then leaves (push_back (b'-' ∷ arg) args m)
    else leaves
        (returns m.out (unknown_option_error (rune_option_name c) ((b'-' ∷ c ∷ behind) ∷ args)))

-- a letter that stands for an option, with the value that the word gives it
unfoldable pub known_letter : Binding → Text → Text → Text → List Text → Machine → Letter
known_letter b short flag [] args m = letter_end b short flag args m
known_letter b short flag (d ∷ value) args m =
    letter_value_of (b.lookup_option flag) short flag (d ∷ value) args m

-- One round of the loop: the letter `c` of the word `arg`, with `behind` the rest of the word.
unfoldable pub letter : Binding → ℕ → Bool → Text → ℕ → Text → List Text → Machine → Letter
letter b flags first arg c behind args m =
    maybe (resolve_letter b first arg c) (unknown_letter flags first arg c behind args m)
      λ (flag, looks_numeric).
        known_letter b (b'-' ∷ c ∷ []) flag (if looks_numeric then arg else behind) args m

abbrev pub after_letter : Letter → (List Text → BindingResult → Exit) → Exit
after_letter (leaves e) go_on = e
after_letter (next_letter rest out) go_on = go_on rest out

unfoldable pub letters : Binding → ℕ → Bool → Text → Text → List Text → Machine → Exit
letters b flags first arg [] args m = continue_parsing args m
letters b flags first arg (c ∷ behind) args m =
    after_letter (letter b flags first arg c behind args m)
      λ rest out. letters b flags false arg behind rest (record m { out = out })

-- `arg` is the word without its dash
unfoldable pub short_options : Binding → ℕ → Text → List Text → Machine → Exit
short_options b flags arg args m =
    if disallow_flags_after_args flags && m.any_args
    then returns m.out (flag_after_arg_error arg)
    else letters b flags true arg arg args m

-- A word behind its `--` test. `arg[1]` of a word of one byte, the lone dash, is a panic.
unfoldable pub read_option : Binding → ℕ → Text → List Text → Machine → Exit
read_option b flags (d ∷ c ∷ text) args m =
    if c == b'-' then long_option b flags text args m else short_options b flags (c ∷ text) args m
read_option b flags _ args m = panics

-- What follows the inner loop: the word is read as a flag.
unfoldable pub read_flag : Binding → ℕ → Text → List Text → Machine → Exit
read_flag b flags arg args m =
    let m' = record m { state = if text_eq arg dashes then args_only else m.state } in
    if is_args_only m'.state then continue_parsing args m' else read_option b flags arg args m'
