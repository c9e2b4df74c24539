-- ===== src/Counters.antt =====
-- The arg counters: arg.go, value.go (`valuePairCounter`), extensions/exec/arglist.go (`counter`).
pub mod Quota
use joe_cli.Common.{
  Bool, Option, Text, [], codes, eqb_ℤ, false, if◌then◌else◌, ltb, negsuc, none, not, pos, some,
  suc, text_eq, true, zero, ℕ, ℤ, ◌&&◌, ◌+◌, ◌==◌, ◌||◌, ◌∷◌,
}
use joe_cli.Support.Unquote.{split_key_value}
use joe_cli.Errors.{
  Error, arg_cannot_use_flag, end_of_arguments, expected_argument_error, message, plain, signal,
}

-- The implementations of `ArgCounter`. `custom` is one of a client: any state, which a number
-- stands for, with its two methods.
pub data Counter : Type 0 where
  discrete : ℕ → ℕ → Counter
  default_counter : Bool → Bool → Counter
  var_args : Bool → Bool → Counter
  matches_args : (Text → Bool) → ℕ → ℕ → Counter
  value_pair : ℕ → Counter
  exec_list : Bool → Counter
  custom : (ℕ → Text → Bool → Option Error × ℕ) → (ℕ → Option Error) → ℕ → Counter

abbrev pub take_unless_flag : ℤ
take_unless_flag = pos 0

abbrev pub take_remaining : ℤ
take_remaining = negsuc 0

abbrev pub take_until_next_flag : ℤ
take_until_next_flag = negsuc 1

abbrev pub take_except_for_flags : ℤ
take_except_for_flags = negsuc 2

-- `ArgCount` of an int
unfoldable pub arg_count : ℤ → Counter
arg_count (pos (suc n)) = discrete (suc n) (suc n)
arg_count (pos zero) = default_counter false false
arg_count n =
    var_args (eqb_ℤ n take_until_next_flag || eqb_ℤ n take_except_for_flags)
      (eqb_ℤ n take_except_for_flags)

unfoldable pub no_args : Counter
no_args = discrete 0 0

-- `OptionalArg`, where `none` is the nil function
unfoldable pub optional_arg : Option (Text → Bool) → Counter
optional_arg none = matches_args (λ _. true) 0 1
optional_arg (some fn) = matches_args fn 0 1

unfoldable pub has_dash : Text → Bool
has_dash [] = false
has_dash (c ∷ _) = c == b'-'

-- `allowFlag`
unfoldable pub allow_flag : Text → Bool → Bool
unfolding has_dash
allow_flag arg possible_flag =
    if text_eq arg (b'-' ∷ []) then false else possible_flag && has_dash arg

abbrev pub end_of_args : Option Error
end_of_args = some (plain (signal end_of_arguments))

-- `Take` of each counter: the error, or nil, and the counter that the call leaves.
unfoldable pub take : Counter → Text → Bool → Option Error × Counter
unfolding allow_flag has_dash split_key_value
take (discrete total zero) arg possible_flag = (end_of_args, discrete total zero)
take (discrete total (suc n)) arg possible_flag = (none, discrete total n)
take (default_counter seen require_seen) arg possible_flag =
    if seen
    then (end_of_args, default_counter seen require_seen)
    else (none, default_counter true require_seen)
take (var_args stop_on_flags intersperse) arg possible_flag = (
  if stop_on_flags && allow_flag arg possible_flag
      then if intersperse then some (plain (signal arg_cannot_use_flag)) else end_of_args
      else none,
  var_args stop_on_flags intersperse,
)
take (matches_args fn count max) arg possible_flag =
    (if fn arg && ltb count max then none else end_of_args, matches_args fn (count + 1) max)
take (value_pair count) arg possible_flag =
    if possible_flag && has_dash arg
    then (end_of_args, value_pair count)
    else if count == 0
    then (none, value_pair (if (split_key_value arg).2 then 2 else 1))
    else if count == 1
    then (none, value_pair 2)
    else if count == 2
    then (end_of_args, value_pair 3)
    else (some (plain (message (codes "too many arguments to filter"))), value_pair count)
take (exec_list seen) arg possible_flag =
    if seen
    then (end_of_args, exec_list seen)
    else (none, exec_list (text_eq arg (codes ";") || text_eq arg (codes "+")))
take (custom method finish s) arg possible_flag =
    let (e, s') = method s arg possible_flag in (e, custom method finish s')

-- `Done` of each counter
unfoldable pub done : Counter → Option Error
done (discrete total zero) = none
done (discrete total (suc n)) = some (expected_argument_error total)
done (default_counter seen require_seen) =
    if require_seen && not seen then some (expected_argument_error 1) else none
done (var_args stop_on_flags intersperse) = none
done (matches_args fn count max) = none
done (value_pair count) =
    if count == 0 then some (plain (message (codes "missing name and value"))) else none
done (exec_list seen) =
    if seen
    then none
    else some (plain (message (codes "must terminate expression with `;' or `+'")))
done (custom method finish s) = finish s
