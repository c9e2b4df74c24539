-- ===== src/Actions/Flow/Visits.antt =====
-- context.go: what the orders of `bubble` and `tunnel` have to do with each other.
use joe_cli.Actions.Pipelines.Linked.{then_next-return}
use joe_cli.Actions.Flow.{bubble, tunnel, visit, visit_backward}
use mathlib.Core.Path.{fun_ext}
use mathlib.Core.List.{reverse, reverse-cons}
use joe_cli.Common.{List, [], ap, map, none, refl, some, sym, ◌++◌, ◌∙◌, ◌∷◌, ◌≡◌}
use joe_cli.Actions.{Effect, Ran, panics, returns}
use joe_cli.Actions.Pipelines.{then_next}

module _ {S E : Type 0} where
  -- Effects one after the other, up to the first error.
  pub in_turn : List (Effect S E) → Effect S E
  in_turn [] s = returns none s
  in_turn (f ∷ fs) s = then_next (f s) (in_turn fs)

  then_next_assoc :
      (o : Ran S E) (f g : Effect S E)
      → then_next (then_next o f) g ≡ then_next o (λ s. then_next (f s) g)
  unfolding then_next
  then_next_assoc (returns none s) f g = refl
  then_next_assoc (returns (some e) s) f g = refl
  then_next_assoc panics f g = refl

  in_turn-append :
      (fs gs : List (Effect S E)) (s : S)
      → in_turn (fs ++ gs) s ≡ then_next (in_turn fs s) (in_turn gs)
  unfolding in_turn then_next
  in_turn-append [] gs s = refl
  in_turn-append (f ∷ fs) gs s =
      ap (then_next (f s)) (fun_ext (in_turn-append fs gs))
      ∙ sym (then_next_assoc (f s) (in_turn fs) (in_turn gs))

module _ {S E C : Type 0} (self anc : C → Effect S E) where
  -- What a lineage runs: that of the first context, and those of its ancestors.
  pub effects : List C → List (Effect S E)
  effects [] = []
  effects (c ∷ cs) = self c ∷ map anc cs

  visit-in_turn : (cs : List C) (s : S) → visit anc cs s ≡ in_turn (map anc cs) s
  unfolding visit in_turn
  visit-in_turn [] s = refl
  visit-in_turn (c ∷ cs) s = ap (then_next (anc c s)) (fun_ext (visit-in_turn cs))

  pub bubble-in_turn : (cs : List C) (s : S) → bubble self anc cs s ≡ in_turn (effects cs) s
  unfolding bubble effects in_turn
  bubble-in_turn [] s = refl
  bubble-in_turn (c ∷ cs) s = ap (then_next (self c s)) (fun_ext (visit-in_turn cs))

  in_turn-one : (f : Effect S E) → in_turn (f ∷ []) ≡ f
  unfolding in_turn
  in_turn-one f = fun_ext (λ s. then_next-return (f s))

  -- one more effect at the front of a list is one at the end of the reversed list
  in_turn-reverse :
      (f : Effect S E) (fs : List (Effect S E)) (s : S)
      → in_turn (reverse (f ∷ fs)) s ≡ then_next (in_turn (reverse fs) s) f
  in_turn-reverse f fs s =
      ap (λ gs. in_turn gs s) (reverse-cons f fs)
      ∙ in_turn-append (reverse fs) (f ∷ []) s
      ∙ ap (then_next (in_turn (reverse fs) s)) (in_turn-one f)

  visit_backward-in_turn :
      (cs : List C) (s : S) → visit_backward anc cs s ≡ in_turn (reverse (map anc cs)) s
  unfolding visit_backward in_turn
  visit_backward-in_turn [] s = refl
  visit_backward-in_turn (c ∷ cs) s =
      ap (λ o. then_next o (anc c)) (visit_backward-in_turn cs s)
      ∙ sym (in_turn-reverse (anc c) (map anc cs) s)

  tunnel-in_turn :
      (cs : List C) (s : S) → tunnel (some self) anc cs s ≡ in_turn (reverse (effects cs)) s
  unfolding tunnel effects in_turn
  tunnel-in_turn [] s = refl
  tunnel-in_turn (c ∷ cs) s =
      ap (λ o. then_next o (self c)) (visit_backward-in_turn cs s)
      ∙ sym (in_turn-reverse (self c) (map anc cs) s)

  -- For any lineage, bubble runs the action of the context and then those of its ancestors up to
  -- the root, and tunnel runs the same in the reverse order, each up to the first error.
  pub bubble-tunnel :
      (cs : List C) (s : S)
      → (bubble self anc cs s ≡ in_turn (effects cs) s)
        × (tunnel (some self) anc cs s ≡ in_turn (reverse (effects cs)) s)
  bubble-tunnel cs s = (bubble-in_turn cs s, tunnel-in_turn cs s)
