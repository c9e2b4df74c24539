-- ===== src/Parse/Terminates/Measure.antt =====
-- What a round of the loop `Parsing` has left to do, and bounds on what its parts leave.
use joe_cli.Counters.{Counter}
use joe_cli.Common.{List, Option, Text, [], arith, length, true, ℕ, ◌*◌, ◌++◌, ◌+◌, ◌∷◌, ◌≤◌}
use joe_cli.Positional.{ArgBinding, Taken, failed, set_arg, take_args, take_end, take_loop, taken}
use joe_cli.Parse.Words.{
  Attempt, Exit, ParserState, continue_parsing, did_pushback_arg, exit, not_argument, panics,
  returns,
}
use joe_cli.Parse.Options.{Letter, leaves, next_letter}

-- A word that was pushed back has one round less to go.
abbrev pub slack : ParserState → ℕ
slack did_pushback_arg = 0
slack _ = 1

-- Bounds on the args that `take` leaves, and on those of the inner loop from the state `s`.
abbrev TakenBound : ℕ → Taken → Type 0
TakenBound n (taken output rest) = length rest ≤ n
TakenBound n (failed e) = Unit

abbrev pub WordsBound : ℕ → ParserState → Attempt → Type 0
WordsBound n s (exit (continue_parsing args m)) = length args ≤ n
WordsBound n s (exit _) = Unit
WordsBound n s (not_argument arg args m) = 2 * length args + 1 ≤ 2 * n + slack s

-- Bounds on what a word that is read as a flag leaves.
abbrev pub ExitBound : ℕ → Exit → Type 0
ExitBound n (continue_parsing args m) = 2 * length args + slack m.state ≤ n
ExitBound n (returns out e) = Unit
ExitBound n panics = Unit

abbrev pub LetterBound : ℕ → Letter → Type 0
LetterBound n (next_letter args out) = length args ≤ n
LetterBound n (leaves e) = ExitBound (2 * n + 2) e

take_end-TakenBound :
    (bind : ArgBinding) (output args : List Text)
    → TakenBound (length args) (take_end bind output args)
unfolding take_end
take_end-TakenBound bind output args = ground arith

take_loop-TakenBound :
    (bind : ArgBinding) (output args : List Text)
    → TakenBound (length args) (take_loop bind output args)
unfolding take_loop
take_loop-TakenBound bind output [] = take_end-TakenBound bind output []
take_loop-TakenBound bind output (arg ∷ args) = ground (
  arith,
  take_end-TakenBound (set_arg arg (arg ∷ args) true bind).1 output (arg ∷ args),
  take_loop-TakenBound (set_arg arg (arg ∷ args) true bind).1 (output ++ arg ∷ []) args,
)

pub take_args-TakenBound :
    (name : Text) (opt : Option Counter) (args : List Text)
    → TakenBound (length args) (take_args name opt args)
unfolding take_args
take_args-TakenBound name opt args = take_loop-TakenBound _ [] args
