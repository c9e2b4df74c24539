-- ===== src/Extensions/Expr/Evaluation.antt =====
-- extensions/expr/expr.go: the evaluation of an expression over items.
pub mod Filters
use joe_cli.Common.{Bool, List, Option, [], false, if◌then◌else◌, none, some, true, ◌∷◌}

-- What an evaluator does of a value: it returns with or without an error, or yields a value, and goes
-- on with the error of the yield. `S` is all that evaluators read and write, and `E` the errors.
pub data Run (S V E : Type 0) : Type 0 where
  returns : Option E → S → Run S V E
  yields : V → S → (Option E → S → Run S V E) → Run S V E

abbrev pub Evaluator : Type 0 → Type 0 → Type 0 → Type 0
Evaluator S V E = V → S → Run S V E

abbrev pub Yielder : Type 0 → Type 0 → Type 0 → Type 0
Yielder S V E = V → S → Option E × S

module _ {S E : Type 0} where
  -- what follows an item, unless there is an error
  unfoldable pub unless_error : (S → Option E × S) → Option E × S → Option E × S
  unless_error rest (none, s) = rest s
  unless_error rest (some err, s) = (some err, s)

module _ {S V E : Type 0} where
  -- an evaluator's run, with what its yields call
  unfoldable pub run_with : Yielder S V E → Run S V E → Option E × S
  run_with yield (returns err s) = (err, s)
  run_with yield (yields v s go_on) = let (err, s') = yield v s in run_with yield (go_on err s')

  -- `yielderThunk` from the item at which the list begins; behind the last it is the empty yielder
  unfoldable pub yielder : List (Evaluator S V E) → Yielder S V E
  yielder [] v s = (none, s)
  yielder (e ∷ items) v s = run_with (yielder items) (e v s)

  -- `evaluateCore`: the items of the expression, and the values one after another
  unfoldable pub evaluate_core : List (Evaluator S V E) → List V → S → Option E × S
  evaluate_core items [] s = (none, s)
  evaluate_core items (v ∷ vs) s = unless_error (evaluate_core items vs) (yielder items v s)

  -- `Evaluate` of a Predicate and of an Invariant
  unfoldable pub evaluate_invariant : Bool → Evaluator S V E
  evaluate_invariant i v s = if i then yields v s (λ err s'. returns err s') else returns none s

  unfoldable pub evaluate_predicate : (V → Bool) → Evaluator S V E
  evaluate_predicate p v s = if p v then yields v s (λ err s'. returns err s') else returns none s

  -- One evaluator of a composite: `yielded` is the local variable, and `next` the evaluators behind it.
  -- The wrapper yields the value that the composite got, whatever the evaluator yields.
  unfoldable pub until_yielded : Bool → V → (S → Run S V E) → Run S V E → Run S V E
  until_yielded yielded v next (returns (some err) s) = returns (some err) s
  until_yielded true v next (returns none s) = returns none s
  until_yielded false v next (returns none s) = next s
  until_yielded yielded v next (yields x s go_on) =
      yields v s (λ err s'. until_yielded true v next (go_on err s'))

  unfoldable pub evaluate_composite : List (Evaluator S V E) → Evaluator S V E
  evaluate_composite [] v s = returns none s
  evaluate_composite (e ∷ es) v s = until_yielded false v (evaluate_composite es v) (e v s)
