-- ===== src/Parse/Terminates.antt =====
-- The rounds of the loop `Parsing` of `RawParse` (set.go), against its fuel.
mod Measure
mod Words
mod Options
use joe_cli.Errors.{Error}
use joe_cli.Parse.Loop.{
  Outcome, after_skip, after_words, enough_fuel, is_word, out_of_fuel, parse_word, parsing,
  raw_parse, resume, right_to_left_skip, start,
}
use joe_cli.Binding.{Binding}
use joe_cli.Common.{
  Bool-cases, List, Option, Text, [], arith, false, inl, inr, length, none, some, suc, zero, ℕ, ◌*◌,
  ◌+◌, ◌∷◌, ◌≡◌, ◌≢◌, ◌≤◌,
}
use joe_cli.Positional.{ArgBinding, new_arg_binding}
use joe_cli.Parse.Words.{
  Attempt, Exit, Machine, ParserState, continue_parsing, exit, not_argument, panics, returns,
}
use joe_cli.Parse.Terminates.Measure.{ExitBound, WordsBound, slack}
use joe_cli.Parse.Terminates.Words.{words-WordsBound}
use joe_cli.Parse.Terminates.Options.{ExitBound-mono, read_flag-ExitBound}

after_words-ExitBound :
    (b : Binding) (flags n : ℕ) (s : ParserState) (x : Attempt)
    → WordsBound n s x
    → ExitBound (2 * n + 1 + slack s) (after_words b flags x)
unfolding after_words
after_words-ExitBound b flags n s (exit e) h = ground arith
after_words-ExitBound b flags n s (not_argument arg args m) h =
    ExitBound-mono _ (2 * length args + 2) _ (omega arith) (read_flag-ExitBound b flags arg args m)

-- A word that is not one is read as a flag, so it was not pushed back.
slack-is_word : (arg : Text) (s : ParserState) → is_word arg s ≡ false → slack s ≡ 1
unfolding is_word
slack-is_word arg s h = ground arith

-- Each round of `Parsing` leaves less to do than the word that it began with.
parse_word-ExitBound :
    (b : Binding) (flags : ℕ) (arg : Text) (args : List Text) (m : Machine)
    → ExitBound (2 * length args + 1 + slack m.state) (parse_word b flags arg args m)
unfolding parse_word
parse_word-ExitBound b flags arg args m = elim (Bool-cases (is_word arg m.state)) [
  | inl word ↦ rw word (
      after_words-ExitBound b flags (length args) m.state _
        (words-WordsBound (length args) arg args m (omega arith)))
  | inr flag ↦ rw flag (
      ExitBound-mono _ (2 * length args + 2) _ (omega (arith, slack-is_word arg m.state flag))
        (read_flag-ExitBound b flags arg args m))
]

resume-ne-out_of_fuel :
    (n : ℕ) (rest : List Text → Machine → Outcome) (e : Exit)
    → ExitBound n e
    → ((args : List Text) (m : Machine)
        → 2 * length args + slack m.state ≤ n
        → rest args m ≢ out_of_fuel)
    → resume rest e ≢ out_of_fuel
resume-ne-out_of_fuel n rest (continue_parsing args m) h k = k args m h
resume-ne-out_of_fuel n rest (returns out e) h k = λ p. ground arith
resume-ne-out_of_fuel n rest panics h k = λ p. ground arith

-- With two rounds for each word the loop has fuel enough.
parsing-ne-out_of_fuel :
    (b : Binding) (flags fuel : ℕ) (args : List Text) (m : Machine)
    → 2 * length args + slack m.state ≤ fuel
    → parsing b flags fuel args m ≢ out_of_fuel
unfolding parsing
parsing-ne-out_of_fuel b flags fuel [] m h = λ e. ground arith
parsing-ne-out_of_fuel b flags zero (arg ∷ args) m h = absurd (omega arith)
parsing-ne-out_of_fuel b flags (suc fuel) (arg ∷ args) m h =
    resume-ne-out_of_fuel fuel _ (parse_word b flags arg args m)
      (ExitBound-mono fuel (2 * length args + 1 + slack m.state) _ (omega arith)
        (parse_word-ExitBound b flags arg args m))
      (λ args' m' h'. parsing-ne-out_of_fuel b flags fuel args' m' h')

after_skip-ne-out_of_fuel :
    (arguments : List Text) (b : Binding) (flags : ℕ) (args : List Text)
    (skipped : Option Error × ArgBinding)
    → after_skip arguments b flags args skipped ≢ out_of_fuel
after_skip-ne-out_of_fuel arguments b flags args (some e, a) = λ p. ground arith
after_skip-ne-out_of_fuel arguments b flags args (none, a) =
    parsing-ne-out_of_fuel b flags (enough_fuel args) args (start arguments flags a) (ground arith)

-- `RawParse` ends, whatever the arguments, the binding and its counters, and the flags: it returns
-- a result with or without an error, or it panics; the loop never runs out of its rounds.
pub raw_parse-ne-out_of_fuel :
    (arguments : List Text) (b : Binding) (flags : ℕ) → raw_parse arguments b flags ≢ out_of_fuel
unfolding raw_parse
raw_parse-ne-out_of_fuel arguments b flags =
    after_skip-ne-out_of_fuel arguments b flags _
      (right_to_left_skip flags arguments (new_arg_binding b))
