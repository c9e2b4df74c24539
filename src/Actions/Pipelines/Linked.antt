-- ===== src/Actions/Pipelines/Linked.antt =====
-- action.go: the two forms that `toCons` gives to a pipeline, a list that is linked backwards and a
-- simple sequence.
use mathlib.Core.Path.{fun_ext}
use joe_cli.Common.{
  Bool, Bool-cases, List, [], ap, false, inl, inr, none, refl, some, sym, true, ◌++◌, ◌∙◌, ◌∷◌, ◌≡◌,
  ◌≢◌,
}
use joe_cli.Actions.{Actions, Effect, Ran, cons, panics, pipeline, returns}
use joe_cli.Actions.Pipelines.{
  Step, computed, execute_linked, execute_pipeline, execute_simple, execute_step, execute_steps,
  flatten, flatten_action, func_step, has_middleware, is_middleware, link, link_step,
  middleware_step, plain_step, then_next,
}

module _ {S E : Type 0} where
  pub then_next-return : (o : Ran S E) → then_next o (returns none) ≡ o
  unfolding then_next
  then_next-return (returns none s) = refl
  then_next-return (returns (some e) s) = refl
  then_next-return panics = refl

  simple-link :
      (a : Step S E) (as' : List (Step S E)) (s : S)
      → has_middleware (a ∷ as') ≡ false
      → execute_simple (a ∷ as') s ≡ link (a ∷ as') s
  unfolding execute_simple link has_middleware execute_step link_step is_middleware then_next
  simple-link a [] s h = then_next-return (execute_step a s)
  simple-link (plain_step f) (b ∷ as') s h =
      ap (then_next (f s)) (fun_ext (λ s'. simple-link b as' s' h))
  simple-link (middleware_step m) (b ∷ as') s h = absurd (cc)
  simple-link (func_step f) (b ∷ as') s h = refl

  -- The sequence without links does what the linked list does.
  linked-link : (as' : List (Step S E)) (s : S) → execute_linked as' s ≡ link as' s
  unfolding execute_linked link
  linked-link [] s = refl
  linked-link (a ∷ as') s = elim (Bool-cases (has_middleware (a ∷ as'))) [
    | inl e ↦ rw e refl
    | inr e ↦ rw e (simple-link a as' s e)
  ]

  -- A pipeline with an action in it does what the list of its steps, linked backward, does,
  -- whether or not it holds middleware: the plain sequence that is taken without middleware is
  -- the same.
  pub execute_pipeline-link :
      (as' : Actions S E) (s : S)
      → flatten as' ≢ []
      → execute_pipeline as' s ≡ link (computed s (flatten as')) s
  unfolding execute_pipeline
  execute_pipeline-link as' s h = nonempty (flatten as') h
    where
      nonempty :
          (steps : List (Step S E)) → steps ≢ [] → execute_steps steps s ≡ link (computed s steps) s
      nonempty [] h = absurd (h refl)
      nonempty (a ∷ steps) h = unfold execute_steps in linked-link (computed s (a ∷ steps)) s

  -- The actions around what stands behind them: a middleware takes all of it as its next action.
  pub enclose : List (Step S E) → Effect S E → Effect S E
  enclose [] next s = next s
  enclose (a ∷ as') next s = link_step a (enclose as' next) s

  link-append :
      (as' : List (Step S E)) (b : Step S E) (bs : List (Step S E)) (s : S)
      → link (as' ++ b ∷ bs) s ≡ enclose as' (link (b ∷ bs)) s
  unfolding link enclose
  link-append [] b bs s = refl
  link-append (a ∷ []) b bs s = refl
  link-append (a ∷ a' ∷ as') b bs s =
      ap (λ next. link_step a next s) (fun_ext (λ s'. link-append (a' ∷ as') b bs s'))

  -- no pipelineFunc
  unfoldable pub is_static : List (Step S E) → Bool
  is_static [] = true
  is_static (plain_step f ∷ as') = is_static as'
  is_static (middleware_step m ∷ as') = is_static as'
  is_static (func_step f ∷ as') = false

  computed-static : (s : S) (as' : List (Step S E)) → is_static as' ≡ true → computed s as' ≡ as'
  unfolding computed is_static
  computed-static s [] h = refl
  computed-static s (plain_step f ∷ as') h = ap (λ xs. plain_step f ∷ xs) (computed-static s as' h)
  computed-static s (middleware_step m ∷ as') h =
      ap (λ xs. middleware_step m ∷ xs) (computed-static s as' h)
  computed-static s (func_step f ∷ as') h = absurd (cc)

  is_static-append :
      (as' bs : List (Step S E))
      → is_static as' ≡ true
      → is_static bs ≡ true
      → is_static (as' ++ bs) ≡ true
  unfolding is_static
  is_static-append [] bs h k = k
  is_static-append (plain_step f ∷ as') bs h k = is_static-append as' bs h k
  is_static-append (middleware_step m ∷ as') bs h k = is_static-append as' bs h k
  is_static-append (func_step f ∷ as') bs h k = absurd (cc)

  execute_steps-static :
      (as' : List (Step S E)) (b : Step S E) (bs : List (Step S E)) (s : S)
      → is_static (as' ++ b ∷ bs) ≡ true
      → execute_steps (as' ++ b ∷ bs) s ≡ link (as' ++ b ∷ bs) s
  unfolding execute_steps
  execute_steps-static [] b bs s h = linked-link _ s ∙ ap (λ xs. link xs s) (computed-static s _ h)
  execute_steps-static (a ∷ as') b bs s h =
      linked-link _ s ∙ ap (λ xs. link xs s) (computed-static s _ h)

  execute_steps-append :
      (as' bs : List (Step S E)) (s : S)
      → is_static as' ≡ true
      → is_static bs ≡ true
      → bs ≢ []
      → execute_steps (as' ++ bs) s ≡ enclose as' (execute_steps bs) s
  execute_steps-append as' [] s h k n = absurd (n refl)
  execute_steps-append as' (b ∷ bs) s h k n =
      execute_steps-static as' b bs s (is_static-append as' (b ∷ bs) h k)
      ∙ link-append as' b bs s
      ∙ ap (λ next. enclose as' next s) (fun_ext (λ s'. sym (execute_steps-static [] b bs s' k)))

  -- A pipeline that stands in front of other actions runs its steps around them: a middleware in
  -- it takes as its next action what stands behind it there and all that stands behind the
  -- pipeline. It holds where no pipelineFunc is among the steps and another action stands
  -- behind.
  pub execute_pipeline-pipeline :
      (as' bs : Actions S E) (s : S)
      → is_static (flatten as') ≡ true
      → is_static (flatten bs) ≡ true
      → flatten bs ≢ []
      → execute_pipeline (cons (pipeline as') bs) s ≡ enclose (flatten as') (execute_pipeline bs) s
  unfolding execute_pipeline flatten flatten_action
  execute_pipeline-pipeline as' bs s h k n = execute_steps-append (flatten as') (flatten bs) s h k n
