-- ===== src/Actions.antt =====
-- action.go: actions, and the pipelines that they are combined to. The context and all that an action
-- reads and writes is the state `S`, and `E` is the type of errors.
pub mod Pipelines
pub mod Timings
pub mod Flow
use joe_cli.Common.{Option}

-- What an action comes to. The state stays as far as it was written, with an error too.
pub data Ran (S E : Type 0) : Type 0 where
  returns : Option E → S → Ran S E
  panics : Ran S E

abbrev pub Effect : Type 0 → Type 0 → Type 0
Effect S E = S → Ran S E

-- The actions that a pipeline tells apart. A middleware takes the next action, if there is one; a
-- pipelineFunc computes its actions from the context.
mutual
  pub data Action (S E : Type 0) : Type 0 where
    nil_action : Action S E
    plain : Effect S E → Action S E
    middleware : (Option (Effect S E) → Effect S E) → Action S E
    pipeline : Actions S E → Action S E
    pipeliner : Action S E → Action S E
    pipeline_func : (S → Actions S E) → Action S E

  pub data Actions (S E : Type 0) : Type 0 where
    nil : Actions S E
    cons : Action S E → Actions S E → Actions S E
