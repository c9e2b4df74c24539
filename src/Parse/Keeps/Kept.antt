-- ===== src/Parse/Keeps/Kept.antt =====
-- The names under which `RawParse` records, and predicates on its result.
use joe_cli.Parse.Options.{Letter, leaves, next_letter}
use joe_cli.Parse.Loop.{Outcome, finished}
use joe_cli.Parse.Words.{
  Attempt, Exit, Machine, continue_parsing, exit, not_argument, panics, returns,
}
use joe_cli.Results.{BindingResult}
use joe_cli.Binding.{Binding}
use joe_cli.Common.{Text, get_elem?, some, ℕ, ◌≡◌}

-- A positional arg, what an alias resolves to, or the numeric option.
pub data IsBindable (b : Binding) (name : Text) : Type 0 where
  positional : (i : ℕ) → get_elem? b.positional_arg_names i ≡ some name → IsBindable b name
  aliased : (alias : Text) → b.resolve_alias alias ≡ some name → IsBindable b name
  by_number : name ≡ b.numeric → IsBindable b name

module _ (b : Binding) (P : BindingResult → Type 0) where
  abbrev pub MachineKeeps : Machine → Type 0
  MachineKeeps m = P m.out × (m.positional.names ≡ b.positional_arg_names)

  abbrev pub ExitKeeps : Exit → Type 0
  ExitKeeps (continue_parsing args m) = MachineKeeps m
  ExitKeeps (returns out e) = P out
  ExitKeeps panics = Unit

  abbrev pub AttemptKeeps : Attempt → Type 0
  AttemptKeeps (exit e) = ExitKeeps e
  AttemptKeeps (not_argument arg args m) = MachineKeeps m

  abbrev pub LetterKeeps : Letter → Type 0
  LetterKeeps (next_letter args out) = P out
  LetterKeeps (leaves e) = ExitKeeps e

  abbrev pub OutcomeKeeps : Outcome → Type 0
  OutcomeKeeps (finished out e) = P out
  OutcomeKeeps _ = Unit

  abbrev pub KeepsOn : (Machine → Attempt) → Type 0
  KeepsOn rest = (m : Machine) → MachineKeeps m → AttemptKeeps (rest m)
