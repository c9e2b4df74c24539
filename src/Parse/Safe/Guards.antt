-- ===== src/Parse/Safe/Guards.antt =====
-- The conditions on words, bindings and cursors that guard the panics of `RawParse`.
use joe_cli.Errors.{Error}
use joe_cli.Common.{
  All, Bool, List, Option, Text, [], ap, arith, false, get_elem?_lt, length, none, refl, some, sym,
  text_eq, true, ◌++◌, ◌<◌, ◌∙◌, ◌∷◌, ◌≡◌,
}
use joe_cli.Counters.{Counter, has_dash}
use joe_cli.Positional.{
  ArgBinding, Taken, current, current_name, failed, finish, set_arg, take_args, take_end, take_loop,
  taken,
}
use joe_cli.Positional.Cursor.{IsPaired, current-lt, set_arg-Advances}
use joe_cli.Parse.Words.{
  Attempt, Exit, Machine, continue_parsing, dash, exit, not_argument, panics, returns,
}
use joe_cli.Parse.Options.{Letter, leaves, next_letter}

abbrev pub NotDash : Text → Type 0
NotDash arg = text_eq arg dash ≡ false

abbrev pub MachineSafe : List Text → Machine → Type 0
MachineSafe args m = All NotDash args × IsPaired m.positional

abbrev pub ExitSafe : Exit → Type 0
ExitSafe (continue_parsing args m) = MachineSafe args m
ExitSafe (returns out e) = Unit
ExitSafe panics = ⊥

abbrev pub AttemptSafe : Attempt → Type 0
AttemptSafe (exit e) = ExitSafe e
AttemptSafe (not_argument arg args m) = (has_dash arg ≡ true) × NotDash arg × MachineSafe args m

abbrev pub LetterSafe : Letter → Type 0
LetterSafe (next_letter args out) = All NotDash args
LetterSafe (leaves e) = ExitSafe e

abbrev pub TakenSafe : Taken → Type 0
TakenSafe (taken outputs rest) = All NotDash rest
TakenSafe (failed e) = Unit

-- Behind an accepted word a name is current; so too where a counter is not done.
pub current_name-lt :
    (a : ArgBinding)
    → IsPaired a
    → a.index < length a.takers
    → (name : Text) × (current_name a ≡ some name)
unfolding current_name
current_name-lt a h k = get_elem?_lt a.names a.index (omega (arith, h.paired))

pub current_name-finish :
    (a : ArgBinding) (e : Error)
    → IsPaired a
    → finish a ≡ some e
    → (name : Text) × (current_name a ≡ some name)
unfolding finish
current_name-finish a e h f = at_current (current a) refl
  where
    at_current : (o : Option Counter) → current a ≡ o → (name : Text) × (current_name a ≡ some name)
    at_current none c = absurd (ground arith)
    at_current (some t) c = current_name-lt a h (current-lt a c)

pub set_arg-IsPaired :
    (arg : Text) (remainder : List Text) (possible_flag : Bool) (a : ArgBinding)
    → IsPaired a
    → IsPaired (set_arg arg remainder possible_flag a).1
set_arg-IsPaired arg remainder possible_flag a h =
    let s = set_arg-Advances arg remainder possible_flag a in
    record {
      paired = ap (λ (ns : List Text). length ns) s.same_names ∙ h.paired ∙ sym s.same_length;
    }

take_end-TakenSafe :
    (bind : ArgBinding) (output args : List Text)
    → All NotDash args
    → TakenSafe (take_end bind output args)
unfolding take_end
take_end-TakenSafe bind output args h = ground arith

take_loop-TakenSafe :
    (bind : ArgBinding) (output args : List Text)
    → All NotDash args
    → TakenSafe (take_loop bind output args)
unfolding take_loop
take_loop-TakenSafe bind output [] h = take_end-TakenSafe bind output [] tt
take_loop-TakenSafe bind output (arg ∷ args) h = ground (
  arith,
  take_end-TakenSafe (set_arg arg (arg ∷ args) true bind).1 output (arg ∷ args) h,
  take_loop-TakenSafe (set_arg arg (arg ∷ args) true bind).1 (output ++ arg ∷ []) args h.1,
)

pub take_args-TakenSafe :
    (name : Text) (opt : Option Counter) (args : List Text)
    → All NotDash args
    → TakenSafe (take_args name opt args)
unfolding take_args
take_args-TakenSafe name opt args h = take_loop-TakenSafe _ [] args h
