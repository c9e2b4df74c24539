-- ===== src/Actions/Timings/Sorted.antt =====
-- action.go: the pipelines of a target behind a list of actions with timings, which its initializers
-- put off.
use joe_cli.Common.{
  List, [], ap, append-nil, append_assoc, if◌then◌else◌, refl, sym, ◌++◌, ◌==◌, ◌∙◌, ◌∷◌, ◌≡◌,
}
use joe_cli.Actions.{Action, Effect}
use joe_cli.Actions.Pipelines.{Step, flatten, flatten_action, plain_step}
use joe_cli.Actions.Timings.{
  ActionPipelines, Timing, Turn, action_timing, actual_timing, add_action, after_timing, at_timing,
  before_steps, before_timing, execute_now, execute_timed, implicit_value_timing, implicitly,
  initial_timing, just_before_timing, no_actions, ordinal, put_off, too_late, validator_timing,
  wrap_at,
}

module _ {S E : Type 0} (set_active unset_active : Effect S E) where
  -- the pipelines behind one turn
  abbrev pipelines_of : ActionPipelines S E → Turn S E → ActionPipelines S E
  pipelines_of p (put_off q) = q
  pipelines_of p (execute_now a) = p
  pipelines_of p too_late = p

  -- the pipelines behind one action
  unfoldable pub use_one : Timing → Action S E → ActionPipelines S E → ActionPipelines S E
  use_one t a p =
      pipelines_of p (execute_timed initial_timing (at_timing set_active unset_active t a) p)

  -- Each action is wrapped by `At` and executed while the target is initialized.
  unfoldable pub use_all : List (Timing × Action S E) → ActionPipelines S E → ActionPipelines S E
  use_all [] p = p
  use_all ((t, a) ∷ uses) p = use_all uses (use_one t a p)

  -- The steps of the actions with the timing, in their order.
  abbrev pub step_at : Timing → Timing → Action S E → List (Step S E)
  step_at t u a = if ordinal u == ordinal t then flatten_action a else []

  pub steps_at : Timing → List (Timing × Action S E) → List (Step S E)
  steps_at t [] = []
  steps_at t ((u, a) ∷ uses) = step_at t u a ++ steps_at t uses

  -- Those that run at BeforeTiming, and those of implicit values between the two actions that set and
  -- unset the flag, in their order.
  abbrev pub step_before : Timing → Action S E → List (Step S E)
  step_before initial_timing a = []
  step_before before_timing a = flatten_action a
  step_before action_timing a = []
  step_before after_timing a = []
  step_before validator_timing a = []
  step_before implicit_value_timing a =
      plain_step set_active ∷ flatten_action a ++ plain_step unset_active ∷ []
  step_before just_before_timing a = []

  pub steps_before : List (Timing × Action S E) → List (Step S E)
  steps_before [] = []
  steps_before ((u, a) ∷ uses) = step_before u a ++ steps_before uses

  pub record Sorts (uses : List (Timing × Action S E)) (p q : ActionPipelines S E) : Type 0 where
    pub of_validators : q.validators ≡ p.validators ++ steps_at validator_timing uses
    pub of_before : q.before ≡ p.before ++ steps_before uses
    pub of_implicit_values : q.implicit_values ≡ p.implicit_values
    pub of_just_before : q.just_before ≡ p.just_before ++ steps_at just_before_timing uses
    pub of_action : q.action ≡ p.action ++ steps_at action_timing uses
    pub of_after : q.after ≡ p.after ++ steps_at after_timing uses

  record Gains (t : Timing) (a : Action S E) (p q : ActionPipelines S E) : Type 0 where
    to_validators : q.validators ≡ p.validators ++ step_at validator_timing t a
    to_before : q.before ≡ p.before ++ step_before t a
    to_implicit_values : q.implicit_values ≡ p.implicit_values
    to_just_before : q.just_before ≡ p.just_before ++ step_at just_before_timing t a
    to_action : q.action ≡ p.action ++ step_at action_timing t a
    to_after : q.after ≡ p.after ++ step_at after_timing t a

  same : (xs : List (Step S E)) → xs ≡ xs ++ []
  same xs = sym (append-nil xs)

  use_one-Gains :
      (t : Timing) (a : Action S E) (p : ActionPipelines S E) → Gains t a p (use_one t a p)
  unfolding use_one at_timing wrap_at implicitly execute_timed actual_timing ordinal add_action
      flatten_action flatten
  use_one-Gains initial_timing a p = record {
    to_validators = same _;
    to_before = same _;
    to_implicit_values = refl;
    to_just_before = same _;
    to_action = same _;
    to_after = same _;
  }
  use_one-Gains before_timing a p = record {
    to_validators = same _;
    to_before = refl;
    to_implicit_values = refl;
    to_just_before = same _;
    to_action = same _;
    to_after = same _;
  }
  use_one-Gains action_timing a p = record {
    to_validators = same _;
    to_before = same _;
    to_implicit_values = refl;
    to_just_before = same _;
    to_action = refl;
    to_after = same _;
  }
  use_one-Gains after_timing a p = record {
    to_validators = same _;
    to_before = same _;
    to_implicit_values = refl;
    to_just_before = same _;
    to_action = same _;
    to_after = refl;
  }
  use_one-Gains validator_timing a p = record {
    to_validators = refl;
    to_before = same _;
    to_implicit_values = refl;
    to_just_before = same _;
    to_action = same _;
    to_after = same _;
  }
  use_one-Gains implicit_value_timing a p = record {
    to_validators = same _;
    to_before = refl;
    to_implicit_values = refl;
    to_just_before = same _;
    to_action = same _;
    to_after = same _;
  }
  use_one-Gains just_before_timing a p = record {
    to_validators = same _;
    to_before = same _;
    to_implicit_values = refl;
    to_just_before = refl;
    to_action = same _;
    to_after = same _;
  }

  more : (q' q p d ds : List (Step S E)) → q' ≡ q ++ ds → q ≡ p ++ d → q' ≡ p ++ (d ++ ds)
  more q' q p d ds e f = e ∙ ap (λ xs. xs ++ ds) f ∙ append_assoc p d ds

  pub use_all-Sorts :
      (uses : List (Timing × Action S E)) (p : ActionPipelines S E) → Sorts uses p (use_all uses p)
  unfolding use_all steps_at steps_before
  use_all-Sorts [] p = record {
    of_validators = same _;
    of_before = same _;
    of_implicit_values = refl;
    of_just_before = same _;
    of_action = same _;
    of_after = same _;
  }
  use_all-Sorts ((t, a) ∷ uses) p =
      let g = use_one-Gains t a p in
      let h = use_all-Sorts uses (use_one t a p) in
      record {
        of_validators = more _ _ _ _ _ h.of_validators g.to_validators;
        of_before = more _ _ _ _ _ h.of_before g.to_before;
        of_implicit_values = h.of_implicit_values ∙ g.to_implicit_values;
        of_just_before = more _ _ _ _ _ h.of_just_before g.to_just_before;
        of_action = more _ _ _ _ _ h.of_action g.to_action;
        of_after = more _ _ _ _ _ h.of_after g.to_after;
      }

  -- Where the initializers of a target use actions with any timings, its Before pipeline is the
  -- validators, then the actions before and those of implicit values together, then those just
  -- before, each in the order of their use. An action of an implicit value stands between those
  -- that set and unset its flag.
  pub before_steps-use_all :
      (uses : List (Timing × Action S E))
      → before_steps (use_all uses no_actions)
        ≡ steps_at validator_timing uses ++ (steps_before uses ++ steps_at just_before_timing uses)
  unfolding before_steps
  before_steps-use_all uses =
      let h = use_all-Sorts uses no_actions in
      rw (h.of_validators, h.of_before, h.of_implicit_values, h.of_just_before) refl
