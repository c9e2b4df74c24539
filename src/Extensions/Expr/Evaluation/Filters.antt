-- ===== src/Extensions/Expr/Evaluation/Filters.antt =====
-- extensions/expr/expr.go: predicates as operators.
use joe_cli.Common.{
  Bool, Bool-cases, List, Option, [], ap, false, if◌then◌else◌, inl, inr, none, refl, some, true,
  ◌&&◌, ◌++◌, ◌||◌, ◌∙◌, ◌∷◌, ◌≡◌,
}
use joe_cli.Extensions.Expr.Evaluation.{
  Evaluator, Run, Yielder, evaluate_composite, evaluate_core, evaluate_predicate, returns, run_with,
  unless_error, until_yielded, yielder,
}

module _ {S V E : Type 0} where
  abbrev pub predicates : List (V → Bool) → List (Evaluator S V E)
  predicates [] = []
  predicates (p ∷ ps) = evaluate_predicate p ∷ predicates ps

module _ {V : Type 0} where
  abbrev pub all_hold : List (V → Bool) → V → Bool
  all_hold [] v = true
  all_hold (p ∷ ps) v = p v && all_hold ps v

  abbrev pub any_holds : List (V → Bool) → V → Bool
  any_holds [] v = false
  any_holds (p ∷ ps) v = p v || any_holds ps v

  abbrev pub values_where : (V → Bool) → List V → List V
  values_where p [] = []
  values_where p (v ∷ vs) = let rest = values_where p vs in if p v then v ∷ rest else rest

module _ {S E : Type 0} where
  unless_error-same :
      (f g : S → Option E × S) (r : Option E × S)
      → ((s : S) → f s ≡ g s)
      → unless_error f r ≡ unless_error g r
  unfolding unless_error
  unless_error-same f g (none, s) same = same s
  unless_error-same f g (some err, s) same = refl

module _ {S V E : Type 0} where
  -- behind a yield, the composite returns what the yield has returned
  run_with-yielded :
      (yield : Yielder S V E) (v : V) (next : S → Run S V E) (r : Option E × S)
      → run_with yield (until_yielded true v next (returns r.0 r.1)) ≡ r
  unfolding run_with until_yielded
  run_with-yielded yield v next (none, s) = refl
  run_with-yielded yield v next (some err, s) = refl

  yielder-predicates :
      (ps : List (V → Bool)) (items : List (Evaluator S V E)) (v : V) (s : S)
      → yielder (predicates ps ++ items) v s
        ≡ (if all_hold ps v then yielder items v s else (none, s))
  unfolding yielder run_with evaluate_predicate
  yielder-predicates [] items v s = refl
  yielder-predicates (p ∷ ps) items v s = elim (Bool-cases (p v)) [
    | inl e ↦ rw e (yielder-predicates ps items v s)
    | inr e ↦ rw e refl
  ]

  -- An expression that begins with predicates does what the items behind them do over those of
  -- the values for which all the predicates hold, in their order and up to the first error.
  pub evaluate_core-predicates :
      (ps : List (V → Bool)) (items : List (Evaluator S V E)) (vs : List V) (s : S)
      → evaluate_core (predicates ps ++ items) vs s
        ≡ evaluate_core items (values_where (all_hold ps) vs) s
  unfolding evaluate_core unless_error
  evaluate_core-predicates ps items [] s = refl
  evaluate_core-predicates ps items (v ∷ vs) s = elim (Bool-cases (all_hold ps v)) [
    | inl e ↦
        ap (unless_error (evaluate_core (predicates ps ++ items) vs))
          (yielder-predicates ps items v s)
        ∙ rw e (
            unless_error-same _ _ (yielder items v s) (λ t. evaluate_core-predicates ps items vs t))
    | inr e ↦
        ap (unless_error (evaluate_core (predicates ps ++ items) vs))
          (yielder-predicates ps items v s)
        ∙ rw e (evaluate_core-predicates ps items vs s)
  ]

  -- A composite of predicates yields the value once if any of them holds, and returns what the
  -- yield does; else it yields nothing.
  pub evaluate_composite-predicates :
      (ps : List (V → Bool)) (yield : Yielder S V E) (v : V) (s : S)
      → run_with yield (evaluate_composite (predicates ps) v s)
        ≡ (if any_holds ps v then yield v s else (none, s))
  unfolding evaluate_composite until_yielded run_with evaluate_predicate
  evaluate_composite-predicates [] yield v s = refl
  evaluate_composite-predicates (p ∷ ps) yield v s = elim (Bool-cases (p v)) [
    | inl e ↦ rw e (run_with-yielded yield v (evaluate_composite (predicates ps) v) (yield v s))
    | inr e ↦ rw e (evaluate_composite-predicates ps yield v s)
  ]
