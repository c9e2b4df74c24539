-- ===== src/Positional.antt =====
-- set.go: `argBinding`, which deals values to the counters in turn, and `argList.take`.
pub mod Cursor
use joe_cli.Common.{
  Bool, List, Option, Text, [], false, get_elem?, if◌then◌else◌, length, none, not, set, some, suc,
  true, zero, ℕ, ◌++◌, ◌+◌, ◌-◌, ◌||◌, ◌∷◌,
}
use joe_cli.Errors.{
  Error, ErrorCode, is_hard_arg_count_err, parse_error, plain, unexpected_argument,
  unexpected_argument_error,
}
use joe_cli.Counters.{Counter, arg_count, done, has_dash, take, take_until_next_flag}
use joe_cli.Binding.{Binding}

pub record ArgBinding : Type 0 where
  pub names : List Text
  pub takers : List Counter
  pub index : ℕ

-- the takers of `newArgBinding`
unfoldable pub takers_of : Binding → List Text → List Counter
takers_of bind [] = []
takers_of bind (a ∷ args) =
    elim (bind.lookup_option a) [ some c ↦ c | none ↦ arg_count take_until_next_flag ]
    ∷ takers_of bind args

unfoldable pub new_arg_binding : Binding → ArgBinding
new_arg_binding bind = record {
  names = bind.positional_arg_names;
  takers = takers_of bind bind.positional_arg_names;
  index = 0;
}

-- A nil counter, `none`, is one that `current` never finds.
unfoldable pub new_arg_binding_single : Text → Option Counter → ArgBinding
new_arg_binding_single name none = record { names = name ∷ []; takers = []; index = 0 }
new_arg_binding_single name (some taker) = record {
  names = name ∷ [];
  takers = taker ∷ [];
  index = 0;
}

unfoldable pub next : ArgBinding → ArgBinding
next a = record a { index = a.index + 1 }

-- `name`; `none` is the panic on an index that is out of range
unfoldable pub current_name : ArgBinding → Option Text
current_name a = get_elem? a.names a.index

abbrev pub arg_name : Text → Text
arg_name name = b'<' ∷ name ++ b'>' ∷ []

unfoldable pub current : ArgBinding → Option Counter
current a = get_elem? a.takers a.index

-- `Done` of the current counter
unfoldable pub finish : ArgBinding → Option Error
finish a = elim (current a) [ none ↦ none | some c ↦ done c ]

-- `takers[index]` after its `Take` has changed it
unfoldable pub put_current : ArgBinding → Counter → ArgBinding
put_current a c = record a { takers = set a.takers a.index c }

-- What `SetArg` does with the answer of `Take`: `again` is the next round of its loop.
unfoldable pub answered :
    Option Error → (ArgBinding → Option Error × ArgBinding) → ArgBinding → Option Error × ArgBinding
answered none again a = (none, a)
answered (some e) again a = if is_hard_arg_count_err e then (some e, a) else again (next a)

unfoldable pub offered :
    Option Counter
    → Text
    → List Text
    → Bool
    → (ArgBinding → Option Error × ArgBinding)
    → ArgBinding
    → Option Error × ArgBinding
offered none arg remainder possible_flag again a =
    (some (unexpected_argument_error arg (arg ∷ remainder)), a)
offered (some t) arg remainder possible_flag again a =
    let (e, t') = take t arg possible_flag in answered e again (put_current a t')

-- The loop of `SetArg`. A round that goes on has moved to the next taker, so there are as many
-- rounds as takers are left, and then none is current.
unfoldable pub set_arg_loop : ℕ → Text → List Text → Bool → ArgBinding → Option Error × ArgBinding
set_arg_loop zero arg remainder possible_flag a =
    (some (unexpected_argument_error arg (arg ∷ remainder)), a)
set_arg_loop (suc rounds) arg remainder possible_flag a =
    offered (current a) arg remainder possible_flag
      (set_arg_loop rounds arg remainder possible_flag) a

unfoldable pub set_arg : Text → List Text → Bool → ArgBinding → Option Error × ArgBinding
set_arg arg remainder possible_flag a =
    set_arg_loop (length a.takers - a.index) arg remainder possible_flag a

abbrev pub is_unexpected_argument : ErrorCode → Bool
is_unexpected_argument unexpected_argument = true
is_unexpected_argument _ = false

-- Whether `argList.take` leaves its loop, and goes on to `Done`, on an error of `SetArg`.
unfoldable pub breaks : Text → Error → Bool
breaks arg (parse_error p) = has_dash arg || is_unexpected_argument p.code
breaks arg (plain c) = has_dash arg || not (is_hard_arg_count_err (plain c))

-- What `argList.take` returns: the values and the args that are left, or the error.
pub data Taken : Type 0 where
  taken : List Text → List Text → Taken
  failed : Error → Taken

-- what is done with either
abbrev pub on_taken {ℓ} : {B : Type ℓ} → Taken → (List Text → List Text → B) → (Error → B) → B
on_taken (taken outputs rest) ok fail = ok outputs rest
on_taken (failed e) ok fail = fail e

abbrev pub default_output : List Text → List Text
default_output [] = [] ∷ []
default_output (o ∷ os) = o ∷ os

-- behind the loop
unfoldable pub take_end : ArgBinding → List Text → List Text → Taken
take_end bind output args = elim (finish bind) [
  | none ↦ taken (default_output output) args
  | some e ↦ failed e
]

unfoldable pub take_loop : ArgBinding → List Text → List Text → Taken
take_loop bind output [] = take_end bind output []
take_loop bind output (arg ∷ args) =
    let bind' = (set_arg arg (arg ∷ args) true bind).1 in
    elim (set_arg arg (arg ∷ args) true bind).0 [
      | none ↦ take_loop bind' (output ++ arg ∷ []) args
      | some e ↦ if breaks arg e then take_end bind' output (arg ∷ args) else failed e
    ]

-- `argList.take`
unfoldable pub take_args : Text → Option Counter → List Text → Taken
take_args name opt args = take_loop (new_arg_binding_single name opt) [] args

-- `instanceTake`
unfoldable pub instance_take : Text → Bool → Counter → Option Error
instance_take arg possible_flag t =
    let (e, t') = take t arg possible_flag in elim e [ some e' ↦ some e' | none ↦ done t' ]
