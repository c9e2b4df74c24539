-- ===== src/Samples/Pipelines.antt =====
-- The theorems on pipelines, timings, the order of hooks and paths, at actions that write a log.
use mathlib.Core.List.{reverse}
use joe_cli.Common.{
  List, Option, Text, [], arith, codes, maybe, none, refl, some, true, ℕ, ◌++◌, ◌+◌, ◌∷◌, ◌≡◌,
}
use joe_cli.Actions.{
  Action, Actions, Effect, cons, middleware, nil, nil_action, pipeline, pipeliner, plain, returns,
}
use joe_cli.Actions.Pipelines.{
  computed, execute_linked, execute_pipeline, execute_simple, execute_step, execute_steps, flatten,
  flatten_action, has_middleware, is_middleware, link, link_step, then_next,
}
use joe_cli.Actions.Pipelines.Linked.{
  enclose, execute_pipeline-link, execute_pipeline-pipeline, is_static,
}
use joe_cli.Actions.Timings.{
  Timing, actual_timing, add_action, after_timing, at_timing, before_steps, before_timing,
  execute_timed, implicit_value_timing, implicitly, just_before_timing, no_actions, ordinal,
  validator_timing, wrap_at,
}
use joe_cli.Actions.Timings.Sorted.{before_steps-use_all, steps_at, steps_before, use_all, use_one}
use joe_cli.Actions.Flow.{bubble, tunnel}
use joe_cli.Actions.Flow.Visits.{bubble-tunnel, effects, in_turn}
use joe_cli.Paths.{fields_from, match_backward, match_field, match_flag, match_parts, path_match}
use joe_cli.Paths.Suffix.{match_parts-append}

abbrev Log : Type 0
Log = List ℕ

abbrev write : ℕ → Effect Log ℕ
write n log = returns none (log ++ n ∷ [])

abbrev fail : ℕ → Effect Log ℕ
fail n log = returns (some n) log

-- writes before and behind its next action
abbrev around : ℕ → Option (Effect Log ℕ) → Effect Log ℕ
around n next log = maybe next (write n log) (λ f. then_next (f (log ++ n ∷ [])) (write (n + 1)))

abbrev inner : Actions Log ℕ
inner =
    cons (plain (write 1))
      (cons (middleware (around 10)) (cons nil_action (cons (plain (write 2)) nil)))

abbrev outer : Actions Log ℕ
outer = cons (plain (write 3)) (cons (pipeliner (pipeline (cons (plain (write 4)) nil))) nil)

-- the middleware of the nested pipeline takes what stands behind that pipeline
nested :
    execute_pipeline (cons (pipeline inner) outer) [] ≡ returns none (1 ∷ 10 ∷ 2 ∷ 3 ∷ 4 ∷ 11 ∷ [])
unfolding execute_pipeline flatten flatten_action execute_steps computed execute_linked
    has_middleware is_middleware link link_step execute_step then_next
nested = refl

stopped :
    execute_pipeline
      (cons (plain (write 1)) (cons (plain (fail 7)) (cons (plain (write 2)) nil)))
      []
    ≡ returns (some 7) (1 ∷ [])
unfolding execute_pipeline flatten flatten_action execute_steps computed execute_linked
    has_middleware is_middleware execute_simple execute_step then_next
stopped = refl

execute_pipeline-link_example :
    execute_pipeline (cons (pipeline inner) outer) []
    ≡ link (computed [] (flatten (cons (pipeline inner) outer))) []
unfolding flatten flatten_action
execute_pipeline-link_example =
    execute_pipeline-link (cons (pipeline inner) outer) [] (λ e. absurd (ground (arith, e)))

execute_pipeline-pipeline_example :
    execute_pipeline (cons (pipeline inner) outer) []
    ≡ enclose (flatten inner) (execute_pipeline outer) []
unfolding flatten flatten_action is_static
execute_pipeline-pipeline_example =
    execute_pipeline-pipeline inner outer [] refl refl (λ e. absurd (ground (arith, e)))

-- an implicit value that is used first, a validator that is used last
abbrev sample_uses : List (Timing × Action Log ℕ)
sample_uses =
    (implicit_value_timing, plain (write 1))
    ∷ (before_timing, plain (write 2))
    ∷ (after_timing, plain (write 3))
    ∷ (validator_timing, plain (write 4))
    ∷ []

before_steps-use_all_example :
    before_steps (use_all (write 100) (write 101) sample_uses no_actions)
    ≡ steps_at (write 100) (write 101) validator_timing sample_uses
      ++ (steps_before (write 100) (write 101) sample_uses
          ++ steps_at (write 100) (write 101) just_before_timing sample_uses)
before_steps-use_all_example = before_steps-use_all (write 100) (write 101) sample_uses

-- the implicit value runs in its turn, ahead of the action before it
implicit_first :
    execute_steps (before_steps (use_all (write 100) (write 101) sample_uses no_actions)) []
    ≡ returns none (4 ∷ 100 ∷ 1 ∷ 101 ∷ 2 ∷ [])
unfolding before_steps use_all use_one at_timing wrap_at implicitly execute_timed actual_timing
    ordinal add_action flatten flatten_action execute_steps computed execute_linked has_middleware
    is_middleware execute_simple execute_step then_next
implicit_first = refl

bubble-tunnel_example :
    (bubble write (λ n. write (n + 10)) (1 ∷ 2 ∷ 3 ∷ []) []
      ≡ in_turn (effects write (λ n. write (n + 10)) (1 ∷ 2 ∷ 3 ∷ [])) [])
    × (tunnel (some write) (λ n. write (n + 10)) (1 ∷ 2 ∷ 3 ∷ []) []
        ≡ in_turn (reverse (effects write (λ n. write (n + 10)) (1 ∷ 2 ∷ 3 ∷ []))) [])
bubble-tunnel_example = bubble-tunnel write (λ n. write (n + 10)) (1 ∷ 2 ∷ 3 ∷ []) []

abbrev sub_flag : List Text
sub_flag = codes "sub" ∷ codes "--flag" ∷ []

any_flag : path_match (codes "app" ∷ sub_flag) (codes "sub -") ≡ true
unfolding path_match match_parts match_backward match_field match_flag fields_from
any_flag = refl

one_dash : path_match (codes "app" ∷ sub_flag) (codes "-flag") ≡ true
unfolding path_match match_parts match_backward match_field fields_from
one_dash = refl

match_parts-append_example :
    (match_parts (codes "*" ∷ codes "-" ∷ []) (codes "app" ∷ sub_flag)
      ≡ match_parts (codes "*" ∷ codes "-" ∷ []) sub_flag)
    × (match_parts sub_flag (codes "app" ∷ sub_flag) ≡ true)
match_parts-append_example =
    match_parts-append (codes "*" ∷ codes "-" ∷ []) (codes "app" ∷ []) sub_flag (omega arith)
