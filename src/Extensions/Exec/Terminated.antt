-- ===== src/Extensions/Exec/Terminated.antt =====
-- set.go's `argList.take` with the counter of an `ArgList`, and the split of the list
-- (extensions/exec/arglist.go).
use joe_cli.Common.{
  All, Bool, List, Text, [], ap, append-nil, append_assoc, arith, false, none, refl, some, true,
  ◌++◌, ◌∙◌, ◌∷◌, ◌≡◌,
}
use joe_cli.Counters.{done, exec_list, take}
use joe_cli.Errors.{is_hard_arg_count_err, unexpected_argument_error}
use joe_cli.Positional.{
  ArgBinding, answered, breaks, current, default_output, finish, new_arg_binding_single, next,
  offered, put_current, set_arg, set_arg_loop, take_args, take_end, take_loop, taken,
}
use joe_cli.Extensions.Exec.{is_delimiter, split}

-- the counter of an `ArgList` in the loop of `take`
abbrev listing : Text → Bool → ArgBinding
listing name seen = record { names = name ∷ []; takers = exec_list seen ∷ []; index = 0 }

set_arg-listing :
    (name arg : Text) (rest : List Text)
    → set_arg arg rest true (listing name false) ≡ (none, listing name (is_delimiter arg))
unfolding set_arg set_arg_loop current offered take answered put_current
set_arg-listing name arg rest = ground arith

set_arg-listed :
    (name arg : Text) (rest : List Text)
    → set_arg arg rest true (listing name true)
      ≡ (some (unexpected_argument_error arg (arg ∷ rest)), next (listing name true))
unfolding set_arg set_arg_loop current offered take answered put_current is_hard_arg_count_err next
set_arg-listed name arg rest = ground arith

take_loop-listed :
    (name : Text) (output rest : List Text)
    → take_loop (listing name true) output rest ≡ taken (default_output output) rest
unfolding take_loop take_end finish current done next breaks
take_loop-listed name output [] = refl
take_loop-listed name output (arg ∷ rest) = ground (arith, set_arg-listed name arg (arg ∷ rest))

abbrev pub IsOrdinary : Text → Type 0
IsOrdinary w = is_delimiter w ≡ false

take_loop-listing :
    (name : Text) (output words : List Text) (delimiter : Text) (rest : List Text)
    → All IsOrdinary words
    → is_delimiter delimiter ≡ true
    → take_loop (listing name false) output (words ++ delimiter ∷ rest)
      ≡ taken (default_output (output ++ words ++ delimiter ∷ [])) rest
unfolding take_loop
take_loop-listing name output [] delimiter rest h d = ground (
  arith,
  d,
  append-nil output,
  set_arg-listing name delimiter (delimiter ∷ rest),
  take_loop-listed name (output ++ delimiter ∷ []) rest,
)
take_loop-listing name output (w ∷ words) delimiter rest h d = ground (
  arith,
  h.0,
  set_arg-listing name w (w ∷ (words ++ delimiter ∷ rest)),
  take_loop-listing name (output ++ w ∷ []) words delimiter rest h.1 d,
  append_assoc output (w ∷ []) words,
)

default_output-snoc : (ws : List Text) (w : Text) → default_output (ws ++ w ∷ []) ≡ ws ++ w ∷ []
default_output-snoc [] w = refl
default_output-snoc (v ∷ ws) w = refl

-- An option with an `ArgList` takes all words up to a terminator and the terminator, whatever they
-- look like, and leaves the rest.
pub take_args-terminated :
    (name : Text) (words : List Text) (delimiter : Text) (rest : List Text)
    → All IsOrdinary words
    → is_delimiter delimiter ≡ true
    → take_args name (some (exec_list false)) (words ++ delimiter ∷ rest)
      ≡ taken (words ++ delimiter ∷ []) rest
unfolding take_args new_arg_binding_single
take_args-terminated name words delimiter rest h d =
    take_loop-listing name [] words delimiter rest h d
    ∙ ap (λ ws. taken ws rest) (default_output-snoc words delimiter)

-- Of words with a terminator at the end, the list gives back the words, and the terminator as
-- what ended it.
pub split-terminated :
    (words : List Text) (delimiter : Text)
    → is_delimiter delimiter ≡ true
    → split (words ++ delimiter ∷ []) ≡ (words, delimiter)
unfolding split
split-terminated [] delimiter d = rw d refl
split-terminated (w ∷ []) delimiter d = ground arith
split-terminated (w ∷ v ∷ words) delimiter d = rw (split-terminated (v ∷ words) delimiter d)
