-- ===== src/Actions/Pipelines.antt =====
-- action.go: `flatten`, `toCons` and the execution of a pipeline.
pub mod Linked
use joe_cli.Common.{Bool, List, Option, [], false, if◌then◌else◌, none, some, true, ◌++◌, ◌||◌, ◌∷◌}
use joe_cli.Actions.{
  Action, Actions, Effect, Ran, cons, middleware, nil, nil_action, panics, pipeline, pipeline_func,
  pipeliner, plain, returns,
}

-- What `flatten` leaves of the actions.
pub data Step (S E : Type 0) : Type 0 where
  plain_step : Effect S E → Step S E
  middleware_step : (Option (Effect S E) → Effect S E) → Step S E
  func_step : (S → Actions S E) → Step S E

unfoldable mutual
  pub flatten_action : {S E : Type 0} → Action S E → List (Step S E)
  flatten_action nil_action = []
  flatten_action (plain f) = plain_step f ∷ []
  flatten_action (middleware m) = middleware_step m ∷ []
  flatten_action (pipeline as') = flatten as'
  flatten_action (pipeliner a) = flatten_action a
  flatten_action (pipeline_func f) = func_step f ∷ []

  pub flatten : {S E : Type 0} → Actions S E → List (Step S E)
  flatten nil = []
  flatten (cons a as') = flatten_action a ++ flatten as'

module _ {S E : Type 0} where
  -- `Execute` of a cons: the next action runs unless there is an error.
  unfoldable pub then_next : Ran S E → Effect S E → Ran S E
  then_next (returns none s) next = next s
  then_next (returns (some e) s) next = returns (some e) s
  then_next panics next = panics

  -- `Execute` of one action; that of a pipelineFunc panics
  unfoldable pub execute_step : Step S E → Effect S E
  execute_step (plain_step f) s = f s
  execute_step (middleware_step m) s = m none s
  execute_step (func_step f) s = panics

  -- `Execute` of a simplePipeline
  unfoldable pub execute_simple : List (Step S E) → Effect S E
  execute_simple [] s = returns none s
  execute_simple (a ∷ as') s = then_next (execute_step a s) (execute_simple as')

  unfoldable pub is_middleware : Step S E → Bool
  is_middleware (plain_step f) = false
  is_middleware (middleware_step m) = true
  is_middleware (func_step f) = false

  -- `hasMiddleware`: the last action does not count
  unfoldable pub has_middleware : List (Step S E) → Bool
  has_middleware [] = false
  has_middleware (a ∷ []) = false
  has_middleware (a ∷ b ∷ as') = is_middleware a || has_middleware (b ∷ as')

  -- one round of the loop of `toCons`, behind `next`
  unfoldable pub link_step : Step S E → Effect S E → Effect S E
  link_step (plain_step f) next s = then_next (f s) next
  link_step (middleware_step m) next s = m (some next) s
  link_step (func_step f) next s = panics

  -- The list that the loop links, from the last action to the first.
  unfoldable pub link : List (Step S E) → Effect S E
  link [] s = panics
  link (a ∷ []) s = execute_step a s
  link (a ∷ b ∷ as') s = link_step a (link (b ∷ as')) s

  -- the actions that a pipelineFunc stands for in a context
  unfoldable pub computed : S → List (Step S E) → List (Step S E)
  computed s [] = []
  computed s (func_step f ∷ as') = flatten (f s) ++ computed s as'
  computed s (plain_step f ∷ as') = plain_step f ∷ computed s as'
  computed s (middleware_step m ∷ as') = middleware_step m ∷ computed s as'

  -- The last action is read by its index, which panics if none is left.
  unfoldable pub execute_linked : List (Step S E) → Effect S E
  execute_linked [] s = panics
  execute_linked (a ∷ as') s =
      if has_middleware (a ∷ as') then link (a ∷ as') s else execute_simple (a ∷ as') s

  -- `toCons` and the execution of its result
  unfoldable pub execute_steps : List (Step S E) → Effect S E
  execute_steps [] s = returns none s
  execute_steps (a ∷ as') s = execute_linked (computed s (a ∷ as')) s

  -- `Execute` of the pipeline of the actions
  unfoldable pub execute_pipeline : Actions S E → Effect S E
  execute_pipeline as' s = execute_steps (flatten as') s
