-- ===== src/Parse/Terminates/Options.antt =====
-- The bounds for the part of `RawParse` that reads a word as options.
use joe_cli.Results.{BindingResult}
use joe_cli.Binding.{Binding}
use joe_cli.Counters.{Counter}
use joe_cli.Common.{
  Bool, List, Option, Text, [], arith, cut, false, if◌then◌else◌, length, maybe_cases, none, some,
  text_eq, true, ℕ, ◌*◌, ◌+◌, ◌∷◌, ◌≤◌,
}
use joe_cli.Parse.Words.{Exit, Machine, args_only, dashes}
use joe_cli.Parse.Options.{
  Letter, after_letter, known_letter, known_long, leaves, letter, letter_alone, letter_end,
  letter_refused, letter_value, letter_value_of, letters, long_option, long_value, next_letter,
  read_flag, read_option, resolve_letter, short_options, unknown_letter, unknown_long,
}
use joe_cli.Parse.Terminates.Measure.{ExitBound, LetterBound, take_args-TakenBound}

long_value-ExitBound :
    (b : Binding) (name flag value : Text) (has_value : Bool) (args : List Text) (m : Machine)
    → ExitBound (2 * length args + 1) (long_value b name flag value has_value args m)
unfolding long_value
long_value-ExitBound b name flag value has_value args m =
    ground (arith, take_args-TakenBound flag (b.lookup_option flag) args)

long_option-ExitBound :
    (b : Binding) (flags : ℕ) (text : Text) (args : List Text) (m : Machine)
    → ExitBound (2 * length args + 2) (long_option b flags text args m)
unfolding long_option unknown_long known_long
long_option-ExitBound b flags text args m =
    let (name, value, has_value) = cut b'=' text in
    maybe_cases (ExitBound (2 * length args + 2)) (b.resolve_alias name) _ _ (λ _. ground arith)
      (λ flag _. ground (arith, long_value-ExitBound b name flag value has_value args m))

letter_value-LetterBound :
    (short flag value : Text) (opt : Counter) (args : List Text) (m : Machine)
    → LetterBound (length args) (letter_value short flag value opt args m)
unfolding letter_value letter_refused
letter_value-LetterBound short flag value opt args m = ground arith

letter_end-LetterBound :
    (b : Binding) (short flag : Text) (args : List Text) (m : Machine)
    → LetterBound (length args) (letter_end b short flag args m)
unfolding letter_end letter_alone
letter_end-LetterBound b short flag args m =
    ground (arith, take_args-TakenBound flag (b.lookup_option flag) args)

letter_value_of-LetterBound :
    (o : Option Counter) (short flag value : Text) (args : List Text) (m : Machine)
    → LetterBound (length args) (letter_value_of o short flag value args m)
unfolding letter_value_of
letter_value_of-LetterBound none short flag value args m = tt
letter_value_of-LetterBound (some opt) short flag value args m =
    letter_value-LetterBound short flag value opt args m

known_letter-LetterBound :
    (b : Binding) (short flag value : Text) (args : List Text) (m : Machine)
    → LetterBound (length args) (known_letter b short flag value args m)
unfolding known_letter
known_letter-LetterBound b short flag [] args m = letter_end-LetterBound b short flag args m
known_letter-LetterBound b short flag (d ∷ value) args m =
    letter_value_of-LetterBound (b.lookup_option flag) short flag (d ∷ value) args m

letter-LetterBound :
    (b : Binding) (flags : ℕ) (first : Bool) (arg : Text) (c : ℕ) (behind : Text) (args : List Text)
    (m : Machine)
    → LetterBound (length args) (letter b flags first arg c behind args m)
unfolding letter unknown_letter
letter-LetterBound b flags first arg c behind args m =
    maybe_cases (LetterBound (length args)) (resolve_letter b first arg c) _ _ (λ _. ground arith)
      (λ (flag, looks_numeric) _. known_letter-LetterBound b _ flag _ args m)

pub ExitBound-mono : (n k : ℕ) (e : Exit) → k ≤ n → ExitBound k e → ExitBound n e
ExitBound-mono n k e h b = ground arith

after_letter-ExitBound :
    (n : ℕ) (l : Letter) (go_on : List Text → BindingResult → Exit)
    → LetterBound n l
    → ((rest : List Text) (out : BindingResult)
        → length rest ≤ n
        → ExitBound (2 * n + 2) (go_on rest out))
    → ExitBound (2 * n + 2) (after_letter l go_on)
after_letter-ExitBound n (leaves e) go_on b h = b
after_letter-ExitBound n (next_letter rest out) go_on b h = h rest out b

letters-ExitBound :
    (b : Binding) (flags : ℕ) (first : Bool) (arg text : Text) (args : List Text) (m : Machine)
    → ExitBound (2 * length args + 2) (letters b flags first arg text args m)
unfolding letters
letters-ExitBound b flags first arg [] args m = ground arith
letters-ExitBound b flags first arg (c ∷ behind) args m =
    after_letter-ExitBound (length args) _ _ (letter-LetterBound b flags first arg c behind args m)
      λ rest out h.
        ExitBound-mono (2 * length args + 2) (2 * length rest + 2) _ (omega arith)
          (letters-ExitBound b flags false arg behind rest (record m { out = out }))

read_option-ExitBound :
    (b : Binding) (flags : ℕ) (arg : Text) (args : List Text) (m : Machine)
    → ExitBound (2 * length args + 2) (read_option b flags arg args m)
unfolding read_option short_options
read_option-ExitBound b flags (d ∷ c ∷ text) args m = ground (
  arith,
  long_option-ExitBound b flags text args m,
  letters-ExitBound b flags true (c ∷ text) (c ∷ text) args m,
)
read_option-ExitBound b flags _ args m = tt

pub read_flag-ExitBound :
    (b : Binding) (flags : ℕ) (arg : Text) (args : List Text) (m : Machine)
    → ExitBound (2 * length args + 2) (read_flag b flags arg args m)
unfolding read_flag
read_flag-ExitBound b flags arg args m =
    let m' = record m { state = if text_eq arg dashes then args_only else m.state } in
    ground (arith, read_option-ExitBound b flags arg args m')
