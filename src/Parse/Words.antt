-- ===== src/Parse/Words.antt =====
-- set.go, in `RawParse`: the state of the parser, and the inner loop that takes words as arguments.
use joe_cli.Common.{
  Bool, List, Option, Text, [], false, if◌then◌else◌, maybe, none, some, text_eq, true, ◌&&◌, ◌∷◌,
}
use joe_cli.Errors.{Error, arg_taker_error, is_hard_arg_count_err}
use joe_cli.Counters.{has_dash}
use joe_cli.Results.{BindingResult, append_output}
use joe_cli.Positional.{ArgBinding, arg_name, current_name, finish, next, set_arg}

-- `parserState`
pub data ParserState : Type 0 where
  flags_or_args did_pushback_arg args_only : ParserState

abbrev pub is_flags_or_args : ParserState → Bool
is_flags_or_args flags_or_args = true
is_flags_or_args _ = false

abbrev pub is_args_only : ParserState → Bool
is_args_only args_only = true
is_args_only _ = false

abbrev pub is_did_pushback_arg : ParserState → Bool
is_did_pushback_arg did_pushback_arg = true
is_did_pushback_arg _ = false

-- the variables of `RawParse`, save the args that are left
pub record Machine : Type 0 where
  pub out : BindingResult
  pub positional : ArgBinding
  pub state : ParserState
  pub any_args : Bool

-- How a round of the loop `Parsing` ends: it goes on with the args that are left, or returns an
-- error beside what is bound so far, or panics.
pub data Exit : Type 0 where
  continue_parsing : List Text → Machine → Exit
  returns : BindingResult → Error → Exit
  panics : Exit

-- The inner loop may also break, with the word that is then read as a flag.
pub data Attempt : Type 0 where
  exit : Exit → Attempt
  not_argument : Text → List Text → Machine → Attempt

abbrev pub dashes : Text
dashes = b'-' ∷ b'-' ∷ []

abbrev pub dash : Text
dash = b'-' ∷ []

-- `if arg == "--"` in the inner loop
unfoldable pub end_options : List Text → Machine → Attempt
end_options args m =
    maybe (finish m.positional)
      (exit
        (continue_parsing args (record m { state = args_only; positional = next m.positional })))
      λ e. exit (returns m.out e)

-- `positionalOpts.name()`, with a panic where the index is out of range
unfoldable pub named : Option Text → (Text → Attempt) → Attempt
named none k = exit panics
named (some name) k = k name

unfoldable pub recorded : Text → Text → Machine → Machine
recorded arg name m = record m {
  out = append_output m.out name (arg_name name ∷ arg ∷ []);
  state = if is_did_pushback_arg m.state then flags_or_args else m.state;
}

-- a word that no counter refused, behind `SetArg`
unfoldable pub record_word : Text → (Machine → Attempt) → Machine → Attempt
record_word arg rest m = named (current_name m.positional) (λ name. rest (recorded arg name m))

-- An error of `SetArg`: the word is possibly a flag, or the error is returned. (A soft one, if there
-- were any, would be recorded like a word that was accepted.)
unfoldable pub refused : Text → List Text → (Machine → Attempt) → Machine → Error → Attempt
refused arg args rest m e =
    if has_dash arg && is_flags_or_args m.state
    then not_argument arg args m
    else if is_hard_arg_count_err e
    then exit (returns m.out e)
    else record_word arg rest m

-- One round of the inner loop; `rest` is what follows the recording of the word.
unfoldable pub offer_word : Text → List Text → (Machine → Attempt) → Machine → Attempt
offer_word arg args rest m =
    let (answer, positional) = set_arg arg args (is_flags_or_args m.state) m.positional in
    let m' = record m { positional = positional } in
    maybe answer (record_word arg rest m') (refused arg args rest m')

unfoldable pub word_step : Text → List Text → (Machine → Attempt) → Machine → Attempt
word_step arg args rest m =
    let offered = offer_word arg args rest m in
    if text_eq arg dashes then end_options args m else offered

-- `if args.empty()`: the current counter is asked whether it has enough
unfoldable pub words_end : Machine → Attempt
words_end m = maybe (finish m.positional) (exit (continue_parsing [] m)) λ e.
    named (current_name m.positional)
      λ name. exit (returns m.out (arg_taker_error (arg_name name) [] e []))

-- The inner loop from a word, with the args behind it.
unfoldable pub words : Text → List Text → Machine → Attempt
words arg [] m = word_step arg [] words_end m
words arg (a ∷ args) m =
    word_step arg (a ∷ args) (λ m'. words a args (record m' { any_args = true })) m
