-- ===== src/Actions/Flow.antt =====
-- context.go: the order in which the contexts of a lineage, the flags and args of a command, and the
-- commands below one are visited. A lineage lists a context and its ancestors up to the root.
pub mod Visits
use joe_cli.Common.{
  Bool, List, Option, [], false, if◌then◌else◌, length, maybe, none, some, ℕ, ◌++◌, ◌==◌, ◌||◌, ◌∷◌,
}
use joe_cli.Actions.{Effect, returns}
use joe_cli.Actions.Pipelines.{then_next}

module _ {S E C : Type 0} where
  -- the loop of `bubble` behind the first context
  unfoldable pub visit : (C → Effect S E) → List C → Effect S E
  visit anc [] s = returns none s
  visit anc (c ∷ cs) s = then_next (anc c s) (visit anc cs)

  unfoldable pub bubble : (C → Effect S E) → (C → Effect S E) → List C → Effect S E
  bubble self anc [] s = returns none s
  bubble self anc (c ∷ cs) s = then_next (self c s) (visit anc cs)

  -- the loop of `tunnel`, from the root down, without the last context
  unfoldable pub visit_backward : (C → Effect S E) → List C → Effect S E
  visit_backward anc [] s = returns none s
  visit_backward anc (c ∷ cs) s = then_next (visit_backward anc cs s) (anc c)

  -- `self` is nil where a context is initialized again.
  unfoldable pub tunnel : Option (C → Effect S E) → (C → Effect S E) → List C → Effect S E
  tunnel self anc [] s = returns none s
  tunnel self anc (c ∷ cs) s =
      then_next (visit_backward anc cs s) (maybe self (returns none) (λ f. f c))

-- A context of the model: what its target has to run. The hooks are those of a command or a value
-- target; `none` is a target that cannot have any.
pub record Pipelined (S E : Type 0) : Type 0 where
  pub initializers : Effect S E
  pub before : Effect S E
  pub action : Effect S E
  pub after : Effect S E
  pub initialize_hooks : Option (Effect S E)
  pub before_hooks : Option (Effect S E)
  pub after_hooks : Option (Effect S E)

module _ {S E : Type 0} where
  abbrev pub hooks : Option (Effect S E) → Effect S E
  hooks h = maybe h (returns none) (λ f. f)

  -- The state keeps the timing of the context, which `setTiming` sets.
  module _ (set_timing : ℕ → S → S) where
    -- `initialize` and `reinitialize`
    unfoldable pub initialize : List (Pipelined S E) → Effect S E
    initialize lineage s =
        tunnel (some (λ c. c.initializers)) (λ c. hooks c.initialize_hooks) lineage (set_timing 0 s)

    unfoldable pub reinitialize : List (Pipelined S E) → Effect S E
    reinitialize lineage s = tunnel none (λ c. hooks c.initialize_hooks) lineage (set_timing 0 s)

    unfoldable pub execute_before : List (Pipelined S E) → Effect S E
    execute_before lineage s =
        bubble (λ c. c.before) (λ c. hooks c.before_hooks) lineage (set_timing 1 s)

    unfoldable pub execute_after : List (Pipelined S E) → Effect S E
    execute_after lineage s =
        tunnel (some (λ c. c.after)) (λ c. hooks c.after_hooks) lineage (set_timing 3 s)

    unfoldable pub execute_self : Pipelined S E → Effect S E
    execute_self c s = c.action (set_timing 2 s)

    -- `Execute`; what parsing the args comes to is given
    unfoldable pub execute : Effect S E → Pipelined S E → List (Pipelined S E) → Effect S E
    execute parse c ancestors s = then_next (parse s) λ s1.
        then_next (execute_before (c ∷ ancestors) s1)
          λ s2. then_next (execute_self c s2) (execute_after (c ∷ ancestors))

-- The flags of a command, the order that `orderFlags` gave them, and its parent's.
abbrev pub contains : ℕ → List ℕ → Bool
contains f [] = false
contains f (g ∷ gs) = g == f || contains f gs

abbrev pub missing_from : List ℕ → List ℕ → List ℕ
missing_from order [] = []
missing_from order (f ∷ fs) =
    let rest = missing_from order fs in if contains f order then rest else f ∷ rest

-- `localFlagsInOrder`; a flag is a number
unfoldable pub local_flags_in_order : Option (List ℕ) → List ℕ → List ℕ
local_flags_in_order none flags = flags
local_flags_in_order (some order) flags =
    if length order == length flags then order else order ++ missing_from order flags

-- `flagsInOrder` of a command, with those of its ancestors from the parent on
unfoldable pub flags_in_order : List (Option (List ℕ) × List ℕ) → List ℕ
flags_in_order [] = []
flags_in_order ((order, flags) ∷ ancestors) =
    flags_in_order ancestors ++ local_flags_in_order order flags

-- `triggerOptionsHO`: each flag, then each arg, in a context of its own. `on` is what runs there, with
-- the reference that the context leaves to its parent.
unfoldable pub trigger_options : {S E : Type 0} → (ℕ → Effect S E) → List ℕ → List ℕ → Effect S E
trigger_options on flags args s = then_next (visit on flags s) (visit on args)

-- What the callback of `Walk` says.
pub data Verdict (E : Type 0) : Type 0 where
  go_on : Verdict E
  skip_command : Verdict E
  fails : E → Verdict E

mutual
  pub data Tree : Type 0 where
    command : ℕ → Trees → Tree

  pub data Trees : Type 0 where
    no_commands : Trees
    and_command : Tree → Trees → Trees

-- `walkCore`: the commands that are visited, and the error
module _ {E : Type 0} (fn : ℕ → Verdict E) where
  abbrev pub Walked : Type 0
  Walked = List ℕ × Option E

  unfoldable pub walk_on : Walked → Walked → Walked
  walk_on (seen, none) (more, e) = (seen ++ more, e)
  walk_on (seen, some e) later = (seen, some e)

  unfoldable pub walk_below : Verdict E → Walked → Walked
  walk_below go_on below = below
  walk_below skip_command below = ([], none)
  walk_below (fails e) below = ([], some e)

  unfoldable mutual
    pub walk : Tree → Walked
    walk (command c subs) = walk_on (c ∷ [], none) (walk_below (fn c) (walk_all subs))

    pub walk_all : Trees → Walked
    walk_all no_commands = ([], none)
    walk_all (and_command t ts) = walk_on (walk t) (walk_all ts)
