-- ===== src/Parse/Safe.antt =====
-- The panics of `RawParse` (set.go): an index out of range, and a call on a nil counter.
pub mod Guards
mod Words
mod Options
pub mod LoneDash
use joe_cli.Binding.Counted.{HasCounter, lookup_panics-new_binding}
use joe_cli.Binding.Consistent.{to_binding-IsLawful}
use joe_cli.Parse.Safe.Options.{read_flag-Safe}
use joe_cli.Parse.Safe.Words.{words-Safe}
use joe_cli.Errors.{Error}
use joe_cli.Parse.Mode.{skip_program_name}
use joe_cli.Parse.Safe.Guards.{AttemptSafe, ExitSafe, MachineSafe, NotDash}
use joe_cli.Positional.Cursor.{IsPaired}
use mathlib.Core.List.{reverse}
use joe_cli.Common.{
  All, Bool, Bool-cases, List, Option, Text, [], ap, arith, false, inl, inr, length, none, pos,
  refl, some, suc, true, zero, ℕ, ◌∷◌, ◌≡◌, ◌≢◌,
}
use joe_cli.Binding.{Arg, Binding, Flag, IsLawful, new_binding}
use joe_cli.Positional.{ArgBinding, new_arg_binding, next, takers_of}
use joe_cli.Parse.Words.{
  Attempt, Exit, Machine, continue_parsing, exit, not_argument, panics, returns,
}
use joe_cli.Parse.Loop.{
  Outcome, after_skip, after_words, any_panics, count_skip, enough_fuel, is_word, panicked,
  parse_word, parsing, raw_parse, raw_parse_binding, resume, right_to_left_skip, skip_first,
  skip_takers, start,
}

module _ (b : Binding) (lawful : IsLawful b) where
  after_words-Safe : (flags : ℕ) (x : Attempt) → AttemptSafe x → ExitSafe (after_words b flags x)
  unfolding after_words
  after_words-Safe flags (exit e) h = h
  after_words-Safe flags (not_argument arg args m) (p, d, s) =
      read_flag-Safe b lawful flags arg args m p d s

  parse_word-Safe :
      (flags : ℕ) (arg : Text) (args : List Text) (m : Machine)
      → NotDash arg
      → MachineSafe args m
      → ExitSafe (parse_word b flags arg args m)
  unfolding parse_word is_word
  parse_word-Safe flags arg args m d h = elim (Bool-cases (is_word arg m.state)) [
    | inl word ↦ rw word (after_words-Safe flags _ (words-Safe arg args m d h))
    | inr flag ↦ rw flag (read_flag-Safe b lawful flags arg args m (ground arith) d h)
  ]

  resume-Safe :
      (rest : List Text → Machine → Outcome) (e : Exit)
      → ((args : List Text) (m : Machine) → MachineSafe args m → rest args m ≢ panicked)
      → ExitSafe e
      → resume rest e ≢ panicked
  resume-Safe rest (continue_parsing args m) k h = k args m h
  resume-Safe rest (returns out e) k h = λ p. ground arith
  resume-Safe rest panics k h = absurd h

  parsing-Safe :
      (flags fuel : ℕ) (args : List Text) (m : Machine)
      → MachineSafe args m
      → parsing b flags fuel args m ≢ panicked
  unfolding parsing
  parsing-Safe flags fuel [] m h = λ p. ground arith
  parsing-Safe flags zero (arg ∷ args) m h = λ p. ground arith
  parsing-Safe flags (suc fuel) (arg ∷ args) m h =
      resume-Safe _ (parse_word b flags arg args m)
        (λ args' m' h'. parsing-Safe flags fuel args' m' h')
        (parse_word-Safe flags arg args m h.0.0 (h.0.1, h.1))

  after_skip-Safe :
      (arguments : List Text) (flags : ℕ) (args : List Text) (skipped : Option Error × ArgBinding)
      → All NotDash args
      → IsPaired skipped.1
      → after_skip arguments b flags args skipped ≢ panicked
  after_skip-Safe arguments flags args (some e, a) h n = λ p. ground arith
  after_skip-Safe arguments flags args (none, a) h n =
      parsing-Safe flags (enough_fuel args) args (start arguments flags a) (h, n)

length-takers_of : (b : Binding) (names : List Text) → length names ≡ length (takers_of b names)
unfolding takers_of
length-takers_of b [] = refl
length-takers_of b (n ∷ names) = ap suc (length-takers_of b names)

skip_takers-IsPaired : (n : ℕ) (a : ArgBinding) → IsPaired a → IsPaired (skip_takers n a).1
unfolding skip_takers next
skip_takers-IsPaired zero a h = h
skip_takers-IsPaired (suc n) a h =
    ground (arith, skip_takers-IsPaired n (next a) (record { paired = h.paired }))

right_to_left_skip-IsPaired :
    (flags : ℕ) (arguments : List Text) (a : ArgBinding)
    → IsPaired a
    → IsPaired (right_to_left_skip flags arguments a).1
unfolding right_to_left_skip
right_to_left_skip-IsPaired flags arguments a h = ground (
  arith,
  skip_takers-IsPaired (count_skip (reverse a.takers) (pos (length arguments)) (length a.takers)) a
      h,
)

skip_first-NotDash :
    (skip : Bool) (args : List Text) → All NotDash args → All NotDash (skip_first skip args)
skip_first-NotDash true [] h = h
skip_first-NotDash true (a ∷ args) h = h.1
skip_first-NotDash false args h = h

-- `RawParse` does not panic, whatever the flags and the counters, where no argument is the lone dash
-- and each name that the binding resolves an alias to, or names as numeric, has an option.
pub raw_parse-ne-panicked :
    (arguments : List Text) (b : Binding) (flags : ℕ)
    → IsLawful b
    → All NotDash arguments
    → raw_parse arguments b flags ≢ panicked
unfolding raw_parse
raw_parse-ne-panicked arguments b flags lawful h =
    after_skip-Safe b lawful arguments flags _
      (right_to_left_skip flags arguments (new_arg_binding b))
      (skip_first-NotDash (skip_program_name flags) arguments h)
      (right_to_left_skip-IsPaired flags arguments (new_arg_binding b)
        (unfold new_arg_binding in record { paired = length-takers_of b b.positional_arg_names }))

any_panics-new_binding :
    (flags : List Flag) (args : List Arg) (parent : List Flag) (names : List Text)
    → All HasCounter args
    → any_panics (new_binding flags args parent) names ≡ false
unfolding any_panics
any_panics-new_binding flags args parent [] c = refl
any_panics-new_binding flags args parent (name ∷ names) c =
    rw (lookup_panics-new_binding flags args parent name c)
      (any_panics-new_binding flags args parent names c)

-- RawParse over the binding that NewBinding makes of flags, args and parent's flags does not
-- panic, whatever its own flags, where no argument is the lone dash and ArgCount gives a counter
-- for each arg: its NArg is nil, an int, a counter, or an option that is initialized and has a
-- counter itself.
pub raw_parse-new_binding :
    (arguments : List Text) (flags : List Flag) (args : List Arg) (parent : List Flag) (raw : ℕ)
    → All HasCounter args
    → All NotDash arguments
    → raw_parse_binding arguments (new_binding flags args parent) raw ≢ panicked
unfolding raw_parse_binding
raw_parse-new_binding arguments flags args parent raw c h =
    rw (any_panics-new_binding flags args parent _ c)
      (raw_parse-ne-panicked arguments _ raw (to_binding-IsLawful flags args parent c) h)
