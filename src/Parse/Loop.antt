-- ===== src/Parse/Loop.antt =====
-- set.go: `RawParse`, with its loop `Parsing` on fuel.
use mathlib.Core.List.{reverse}
use joe_cli.Common.{
  Bool, List, Option, Text, [], false, if◌then◌else◌, leb_ℤ, length, none, not, pos, some, suc,
  text_eq, true, zero, ℕ, ℤ, ◌*◌, ◌+◌, ◌-ℤ◌, ◌-◌, ◌==◌, ◌||◌, ◌∷◌,
}
use joe_cli.Errors.{Error}
use joe_cli.Counters.{Counter, discrete, has_dash}
use joe_cli.Binding.{Binding, BindingImpl, lookup_panics, to_binding}
use joe_cli.Results.{BindingResult, new_binding_result}
use joe_cli.Positional.{ArgBinding, finish, new_arg_binding, next}
use joe_cli.Parse.Mode.{right_to_left, skip_flag_parsing, skip_program_name}
use joe_cli.Parse.Words.{
  Attempt, Exit, Machine, ParserState, args_only, continue_parsing, dash, exit, flags_or_args,
  is_flags_or_args, not_argument, panics, returns, words,
}
use joe_cli.Parse.Options.{read_flag}

-- What `RawParse` comes to: its two results, or a panic. `out_of_fuel` belongs to the model only.
pub data Outcome : Type 0 where
  finished : BindingResult → Option Error → Outcome
  panicked : Outcome
  out_of_fuel : Outcome

-- `if arg == "" || arg == "-" || arg[0] != '-' || state == argsOnly || state == didPushbackArg`
unfoldable pub is_word : Text → ParserState → Bool
is_word arg state = text_eq arg dash || not (has_dash arg) || not (is_flags_or_args state)

unfoldable pub after_words : Binding → ℕ → Attempt → Exit
after_words b flags (exit e) = e
after_words b flags (not_argument arg args m) = read_flag b flags arg args m

-- one round of the loop `Parsing`, at the word that it has popped
unfoldable pub parse_word : Binding → ℕ → Text → List Text → Machine → Exit
parse_word b flags arg args m =
    if is_word arg m.state
    then after_words b flags (words arg args m)
    else read_flag b flags arg args m

abbrev pub resume : (List Text → Machine → Outcome) → Exit → Outcome
resume rest (continue_parsing args m) = rest args m
resume rest (returns out e) = finished out (some e)
resume rest panics = panicked

-- the loop `Parsing`, and the `Done` behind it
unfoldable pub parsing : Binding → ℕ → ℕ → List Text → Machine → Outcome
parsing b flags fuel [] m = finished m.out (finish m.positional)
parsing b flags zero (arg ∷ args) m = out_of_fuel
parsing b flags (suc fuel) (arg ∷ args) m =
    resume (λ args' m'. parsing b flags fuel args' m') (parse_word b flags arg args m)

-- the type switch of the right-to-left mode
abbrev pub width : Counter → ℕ
width (discrete total count) = count
width _ = 1

-- Its loop, over the takers from the last; the result is `skip`.
unfoldable pub count_skip : List Counter → ℤ → ℕ → ℕ
count_skip [] count skip = skip
count_skip (t ∷ ts) count skip =
    let count' = count -ℤ width t in
    let skip' = skip - 1 in
    let go_on = count_skip ts count' skip' in if skip' == 0 || leb_ℤ count' 1 then skip' else go_on

-- `for range skip`
unfoldable pub skip_takers : ℕ → ArgBinding → Option Error × ArgBinding
skip_takers zero a = (none, a)
skip_takers (suc n) a = elim (finish a) [ some e ↦ (some e, a) | none ↦ skip_takers n (next a) ]

unfoldable pub right_to_left_skip : ℕ → List Text → ArgBinding → Option Error × ArgBinding
right_to_left_skip flags arguments a =
    if right_to_left flags
    then skip_takers (count_skip (reverse a.takers) (pos (length arguments)) (length a.takers)) a
    else (none, a)

abbrev pub skip_first : Bool → List Text → List Text
skip_first true (_ ∷ args) = args
skip_first _ args = args

-- Each word makes two rounds at most: one that pushes it back, and one that takes it.
abbrev pub enough_fuel : List Text → ℕ
enough_fuel args = 2 * length args + 2

-- the machine that the loop `Parsing` starts from
abbrev pub start : List Text → ℕ → ArgBinding → Machine
start arguments flags a = record {
  out = new_binding_result (some arguments);
  positional = a;
  state = if skip_flag_parsing flags then args_only else flags_or_args;
  any_args = false;
}

abbrev pub after_skip : List Text → Binding → ℕ → List Text → Option Error × ArgBinding → Outcome
after_skip arguments b flags args (some e, a) =
    finished (new_binding_result (some arguments)) (some e)
after_skip arguments b flags args (none, a) =
    parsing b flags (enough_fuel args) args (start arguments flags a)

unfoldable pub raw_parse : List Text → Binding → ℕ → Outcome
raw_parse arguments b flags =
    after_skip arguments b flags (skip_first (skip_program_name flags) arguments)
      (right_to_left_skip flags arguments (new_arg_binding b))

-- `RawParse` over a *bindingImpl: `newArgBinding`, its first call, looks up each positional name, and
-- args have no other names. So a counter that panics does so here, before anything is read.
unfoldable pub any_panics : BindingImpl → List Text → Bool
any_panics b [] = false
any_panics b (name ∷ names) = lookup_panics b name || any_panics b names

unfoldable pub raw_parse_binding : List Text → BindingImpl → ℕ → Outcome
raw_parse_binding arguments b flags =
    if any_panics b b.positional_options then panicked else raw_parse arguments (to_binding b) flags
