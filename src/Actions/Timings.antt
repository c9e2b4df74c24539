-- ===== src/Actions/Timings.antt =====
-- action.go: timings, `At`, and the pipelines of a target (actionPipelines) to which an action is put off
-- until its timing.
pub mod Sorted
use joe_cli.Common.{List, Option, [], if◌then◌else◌, ltb, none, some, ℕ, ◌++◌, ◌==◌}
use joe_cli.Actions.{Action, Effect, cons, nil, pipeline, plain}
use joe_cli.Actions.Pipelines.{Step, flatten_action}

pub data Timing : Type 0 where
  initial_timing : Timing
  before_timing : Timing
  action_timing : Timing
  after_timing : Timing
  validator_timing : Timing
  implicit_value_timing : Timing
  just_before_timing : Timing

-- the value of the constant; 4 is `syntheticTiming`
unfoldable pub ordinal : Timing → ℕ
ordinal initial_timing = 0
ordinal before_timing = 1
ordinal action_timing = 2
ordinal after_timing = 3
ordinal validator_timing = 5
ordinal implicit_value_timing = 6
ordinal just_before_timing = 7

unfoldable pub actual_timing : Timing → Timing
actual_timing t = if ltb 4 (ordinal t) then before_timing else t

-- The fields of `actionPipelines`, each as the steps of its pipeline. `beforePipeline` is an array with
-- one pipeline for each of four timings.
pub record ActionPipelines (S E : Type 0) : Type 0 where
  pub initializers : List (Step S E)
  pub validators : List (Step S E)
  pub before : List (Step S E)
  pub implicit_values : List (Step S E)
  pub just_before : List (Step S E)
  pub action : List (Step S E)
  pub after : List (Step S E)

module _ {S E : Type 0} where
  abbrev pub no_actions : ActionPipelines S E
  no_actions = record {
    initializers = [];
    validators = [];
    before = [];
    implicit_values = [];
    just_before = [];
    action = [];
    after = [];
  }

  -- `add`
  unfoldable pub add_action : Timing → Action S E → ActionPipelines S E → ActionPipelines S E
  add_action initial_timing h p = record p { initializers = p.initializers ++ flatten_action h }
  add_action before_timing h p = record p { before = p.before ++ flatten_action h }
  add_action validator_timing h p = record p { validators = p.validators ++ flatten_action h }
  add_action implicit_value_timing h p = record p {
    implicit_values = p.implicit_values ++ flatten_action h;
  }
  add_action just_before_timing h p = record p { just_before = p.just_before ++ flatten_action h }
  add_action action_timing h p = record p { action = p.action ++ flatten_action h }
  add_action after_timing h p = record p { after = p.after ++ flatten_action h }

  -- what `Execute` of a beforePipeline executes
  unfoldable pub before_steps : ActionPipelines S E → List (Step S E)
  before_steps p = p.validators ++ (p.before ++ (p.implicit_values ++ p.just_before))

  -- `pipeline`; `none` is the panic on a timing that is not actual_timing
  unfoldable pub pipeline_at : Timing → ActionPipelines S E → Option (List (Step S E))
  pipeline_at after_timing p = some p.after
  pipeline_at before_timing p = some (before_steps p)
  pipeline_at initial_timing p = some p.initializers
  pipeline_at action_timing p = some p.action
  pipeline_at validator_timing p = none
  pipeline_at implicit_value_timing p = none
  pipeline_at just_before_timing p = none

-- An action, or one that `At` has wrapped.
pub data Item (S E : Type 0) : Type 0 where
  bare : Action S E → Item S E
  timed : Timing → Action S E → Item S E

-- What `Execute` of a wrapped action does with the pipelines of the target.
pub data Turn (S E : Type 0) : Type 0 where
  put_off : ActionPipelines S E → Turn S E
  execute_now : Action S E → Turn S E
  too_late : Turn S E

module _ {S E : Type 0} where
  -- `At` where the timing is not that of implicit values
  unfoldable pub wrap_at : Timing → Item S E → Item S E
  wrap_at t (bare a) = timed t a
  wrap_at t (timed u a) =
      if ordinal (actual_timing u) == ordinal (actual_timing t) then timed u a else timed t a

  -- `Execute` of the wrapper in a context that has the timing `now`
  unfoldable pub execute_timed : Timing → Item S E → ActionPipelines S E → Turn S E
  execute_timed now (bare a) p = execute_now a
  execute_timed now (timed t a) p =
      if ltb (ordinal now) (ordinal (actual_timing t))
      then put_off (add_action t a p)
      else if ordinal now == ordinal (actual_timing t)
      then execute_now a
      else too_late

-- The actions that set and unset the internal flag of implicit values are given.
module _ {S E : Type 0} (set_active unset_active : Effect S E) where
  unfoldable pub implicitly : Action S E → Item S E
  implicitly a =
      wrap_at before_timing
        (bare (pipeline (cons (plain set_active) (cons a (cons (plain unset_active) nil)))))

  -- `At` of an action that is not wrapped
  unfoldable pub at_timing : Timing → Action S E → Item S E
  at_timing initial_timing a = wrap_at initial_timing (bare a)
  at_timing before_timing a = wrap_at before_timing (bare a)
  at_timing action_timing a = wrap_at action_timing (bare a)
  at_timing after_timing a = wrap_at after_timing (bare a)
  at_timing validator_timing a = wrap_at validator_timing (bare a)
  at_timing implicit_value_timing a = wrap_at implicit_value_timing (implicitly a)
  at_timing just_before_timing a = wrap_at just_before_timing (bare a)
