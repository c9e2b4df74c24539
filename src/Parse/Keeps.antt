-- ===== src/Parse/Keeps.antt =====
-- Predicates on the result of `RawParse` (set.go) that each recording of an occurrence preserves.
pub mod Kept
mod Words
mod Options
use joe_cli.Parse.Keeps.Options.{read_flag-Keeps}
use joe_cli.Parse.Keeps.Words.{words-Keeps}
use joe_cli.Errors.{Error}
use joe_cli.Parse.Words.{
  Attempt, Exit, Machine, continue_parsing, exit, not_argument, panics, returns, words,
}
use joe_cli.Parse.Keeps.Kept.{AttemptKeeps, ExitKeeps, IsBindable, MachineKeeps, OutcomeKeeps}
use joe_cli.Positional.{ArgBinding, new_arg_binding, next}
use joe_cli.Results.{BindingResult, append_output, new_binding_result}
use joe_cli.Parse.Loop.{
  Outcome, after_skip, after_words, count_skip, enough_fuel, parse_word, parsing, raw_parse, resume,
  right_to_left_skip, skip_takers, start,
}
use joe_cli.Binding.{Binding}
use joe_cli.Common.{
  List, Option, Text, [], arith, length, none, pos, refl, some, suc, zero, ℕ, ◌∷◌, ◌≡◌,
}
use mathlib.Core.List.{reverse}

names-skip_takers : (n : ℕ) (a : ArgBinding) → (skip_takers n a).1.names ≡ a.names
unfolding skip_takers next
names-skip_takers zero a = refl
names-skip_takers (suc n) a = ground (arith, names-skip_takers n (next a))

names-right_to_left_skip :
    (flags : ℕ) (arguments : List Text) (a : ArgBinding)
    → (right_to_left_skip flags arguments a).1.names ≡ a.names
unfolding right_to_left_skip
names-right_to_left_skip flags arguments a = ground (
  arith,
  names-skip_takers (count_skip (reverse a.takers) (pos (length arguments)) (length a.takers)) a,
)

module _ (b : Binding) (P : BindingResult → Type 0)
    (record_keeps : (m : BindingResult) (name label : Text) (values : List Text)
      → IsBindable b name
      → P m
      → P (append_output m name (label ∷ values))) where
  after_words-Keeps :
      (flags : ℕ) (x : Attempt) → AttemptKeeps b P x → ExitKeeps b P (after_words b flags x)
  unfolding after_words
  after_words-Keeps flags (exit e) h = h
  after_words-Keeps flags (not_argument arg args m) h =
      read_flag-Keeps b P record_keeps flags arg args m h

  parse_word-Keeps :
      (flags : ℕ) (arg : Text) (args : List Text) (m : Machine)
      → MachineKeeps b P m
      → ExitKeeps b P (parse_word b flags arg args m)
  unfolding parse_word
  parse_word-Keeps flags arg args m h = ground (
    arith,
    after_words-Keeps flags (words arg args m) (words-Keeps b P record_keeps arg args m h),
    read_flag-Keeps b P record_keeps flags arg args m h,
  )

  resume-Keeps :
      (rest : List Text → Machine → Outcome) (e : Exit)
      → ((args : List Text) (m : Machine) → MachineKeeps b P m → OutcomeKeeps b P (rest args m))
      → ExitKeeps b P e
      → OutcomeKeeps b P (resume rest e)
  resume-Keeps rest (continue_parsing args m) k h = k args m h
  resume-Keeps rest (returns out e) k h = h
  resume-Keeps rest panics k h = tt

  parsing-Keeps :
      (flags fuel : ℕ) (args : List Text) (m : Machine)
      → MachineKeeps b P m
      → OutcomeKeeps b P (parsing b flags fuel args m)
  unfolding parsing
  parsing-Keeps flags fuel [] m h = h.0
  parsing-Keeps flags zero (arg ∷ args) m h = tt
  parsing-Keeps flags (suc fuel) (arg ∷ args) m h =
      resume-Keeps _ (parse_word b flags arg args m)
        (λ args' m' h'. parsing-Keeps flags fuel args' m' h') (parse_word-Keeps flags arg args m h)

  after_skip-Keeps :
      (arguments : List Text) (flags : ℕ) (args : List Text) (skipped : Option Error × ArgBinding)
      → P (new_binding_result (some arguments))
      → skipped.1.names ≡ b.positional_arg_names
      → OutcomeKeeps b P (after_skip arguments b flags args skipped)
  after_skip-Keeps arguments flags args (some e, a) h n = h
  after_skip-Keeps arguments flags args (none, a) h n =
      parsing-Keeps flags (enough_fuel args) args (start arguments flags a) (h, n)

  pub raw_parse-Keeps :
      (arguments : List Text) (flags : ℕ)
      → P (new_binding_result (some arguments))
      → OutcomeKeeps b P (raw_parse arguments b flags)
  unfolding raw_parse new_arg_binding
  raw_parse-Keeps arguments flags h =
      after_skip-Keeps arguments flags _ (right_to_left_skip flags arguments (new_arg_binding b)) h
        (names-right_to_left_skip flags arguments (new_arg_binding b))
