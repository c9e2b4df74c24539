-- ===== src/Counters/Quota.antt =====
-- set.go's `argList.take` with a counter of a fixed number of values (arg.go).
use joe_cli.Errors.{expected_argument_error, is_hard_arg_count_err, unexpected_argument_error}
use joe_cli.Counters.{discrete, done, take}
use joe_cli.Positional.{
  ArgBinding, answered, breaks, current, default_output, failed, finish, new_arg_binding_single,
  next, offered, put_current, set_arg, set_arg_loop, take_args, take_end, take_loop, taken,
}
use joe_cli.Common.{
  List, Text, [], append-nil, append_assoc, arith, length, none, refl, some, suc, true, zero, ℕ,
  ◌++◌, ◌<◌, ◌∷◌, ◌≡◌,
}

-- the counter at `k` of `n` values in the loop
abbrev counting : Text → ℕ → ℕ → ArgBinding
counting name n k = record { names = name ∷ []; takers = discrete n k ∷ []; index = 0 }

set_arg-taking :
    (name arg : Text) (rest : List Text) (n k : ℕ)
    → set_arg arg rest true (counting name n (suc k)) ≡ (none, counting name n k)
unfolding set_arg set_arg_loop current offered take answered put_current
set_arg-taking name arg rest n k = ground arith

set_arg-full :
    (name arg : Text) (rest : List Text) (n : ℕ)
    → set_arg arg rest true (counting name n 0)
      ≡ (some (unexpected_argument_error arg (arg ∷ rest)), next (counting name n 0))
unfolding set_arg set_arg_loop current offered take answered put_current is_hard_arg_count_err next
set_arg-full name arg rest n = ground arith

take_loop-full :
    (name : Text) (n : ℕ) (output rest : List Text)
    → take_loop (counting name n 0) output rest ≡ taken (default_output output) rest
unfolding take_loop take_end finish current done next breaks
take_loop-full name n output [] = refl
take_loop-full name n output (arg ∷ rest) = ground (arith, set_arg-full name arg (arg ∷ rest) n)

take_loop-values :
    (name : Text) (n : ℕ) (output values rest : List Text)
    → take_loop (counting name n (length values)) output (values ++ rest)
      ≡ taken (default_output (output ++ values)) rest
unfolding take_loop
take_loop-values name n output [] rest = rw (take_loop-full name n output rest, append-nil)
take_loop-values name n output (v ∷ values) rest = ground (
  arith,
  set_arg-taking name v (v ∷ (values ++ rest)) n (length values),
  take_loop-values name n (output ++ v ∷ []) values rest,
  append_assoc output (v ∷ []) values,
)

take_loop-short :
    (name : Text) (n k : ℕ) (output values : List Text)
    → length values < k
    → take_loop (counting name n k) output values ≡ failed (expected_argument_error n)
unfolding take_loop take_end finish current done
take_loop-short name n zero output values h = absurd (omega (arith, h))
take_loop-short name n (suc k) output [] h = refl
take_loop-short name n (suc k) output (v ∷ values) h = ground (
  arith,
  set_arg-taking name v (v ∷ values) n k,
  take_loop-short name n k (output ++ v ∷ []) values (omega (arith, h)),
)

-- An option with a quota takes as many values as its quota, whatever they are, flags included, and
-- leaves the rest; where the quota is 0 it has the empty value.
pub take_args-quota :
    (name : Text) (values rest : List Text)
    → take_args name (some (discrete (length values) (length values))) (values ++ rest)
      ≡ taken (default_output values) rest
unfolding take_args new_arg_binding_single
take_args-quota name values rest = take_loop-values name (length values) [] values rest

-- With fewer args than its quota, an option fails and says how many it expects.
pub take_args-short :
    (name : Text) (n : ℕ) (args : List Text)
    → length args < n
    → take_args name (some (discrete n n)) args ≡ failed (expected_argument_error n)
unfolding take_args new_arg_binding_single
take_args-short name n args h = take_loop-short name n n [] args h
