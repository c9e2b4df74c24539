-- ===== src/States/Applies.antt =====
-- set.go: `ApplyTo` on results.
use joe_cli.Common.{
  All, AllValues, AllValues-insert, AllValues-lookup, AllValues-map, List, Map, Option, Text, [],
  arith, insert, lookup, maybe_cases, none, refl, some, ℕ, ◌∷◌, ◌≡◌, ◌≢◌,
}
use joe_cli.Errors.{Error}
use joe_cli.Binding.{Binding}
use joe_cli.Parse.Loop.{finished, raw_parse}
use joe_cli.Parse.Faithful.{raw_parse-IsFaithful}
use joe_cli.Results.{BindingResult, occurrences}
use joe_cli.Results.Shape.{IsLabelled, IsWellFormed, occurrences-IsLabelled}
use joe_cli.Values.{Setting, set_panics, set_to}
use joe_cli.Values.Many.{Returns}
use joe_cli.States.{
  Applied, State, Store, and_next, and_then, applied, apply_names, apply_occurrences,
  apply_panicked, apply_refused, apply_to, set_occurrence,
}
use joe_cli.States.Types.{KeepsKinds, KeepsKinds-trans}
use joe_cli.States.Steps.{StateFits, StateFits-kept, StepFits, set_occurrence-StepFits}

-- What does not panic leaves a state with a default that fits.
abbrev pub AppliesTo : Store → Applied (State × Store) → Type 0
AppliesTo h (applied s) = StateFits s.1 s.0 × KeepsKinds h s.1
AppliesTo h (apply_refused e s) = Unit
AppliesTo h apply_panicked = ⊥

AppliesTo-kept :
    (h i : Store) (a : Applied (State × Store)) → KeepsKinds h i → AppliesTo i a → AppliesTo h a
AppliesTo-kept h i (applied s) k f = (f.0, KeepsKinds-trans h i s.1 k f.1)
AppliesTo-kept h i (apply_refused e s) k f = f
AppliesTo-kept h i apply_panicked k f = f

and_then-AppliesTo :
    (h : Store) (go_on : State × Store → Applied (State × Store)) (r : Setting (State × Store))
    → ((s : State × Store) → StateFits s.1 s.0 → AppliesTo s.1 (go_on s))
    → Returns (StepFits h) r
    → AppliesTo h (and_then go_on r)
and_then-AppliesTo h go_on (set_to none s) k f = AppliesTo-kept h s.1 (go_on s) f.1 (k s f.0)
and_then-AppliesTo h go_on (set_to (some e) s) k f = tt
and_then-AppliesTo h go_on set_panics k f = f

apply_occurrences-AppliesTo :
    (vs : List (List Text)) (s : State × Store)
    → All IsLabelled vs
    → StateFits s.1 s.0
    → AppliesTo s.1 (apply_occurrences vs s)
unfolding apply_occurrences
apply_occurrences-AppliesTo [] s l f = (f, λ q v e. (v, e, refl))
apply_occurrences-AppliesTo ([] ∷ vs) s l f = absurd l.0
apply_occurrences-AppliesTo ((label ∷ values) ∷ vs) (s, h) l f =
    and_then-AppliesTo h (apply_occurrences vs) (set_occurrence values s h)
      (λ s' f'. apply_occurrences-AppliesTo vs s' l.1 f') (set_occurrence-StepFits values s h f)

-- Each option has a default that fits.
abbrev pub AllFit : Map State × Store → Type 0
AllFit t = AllValues (StateFits t.1) t.0

and_next-ne-panicked :
    (name : Text) (t : Map State) (h : Store)
    (rest : Map State × Store → Applied (Map State × Store)) (a : Applied (State × Store))
    → AllFit (t, h)
    → AppliesTo h a
    → ((u : Map State × Store) → AllFit u → rest u ≢ apply_panicked)
    → and_next (λ s. insert name s t) rest a ≢ apply_panicked
and_next-ne-panicked name t h rest (applied (s, i)) all f k =
    k (insert name s t, i)
      (AllValues-insert (StateFits i) name s t f.0
        (AllValues-map (StateFits h) (StateFits i) (λ x g. StateFits-kept h i x f.1 g) t all))
and_next-ne-panicked name t h rest (apply_refused e (s, i)) all f k = λ p. ground arith
and_next-ne-panicked name t h rest apply_panicked all f k = absurd f

apply_names-ne-panicked :
    (m : BindingResult) (names : List Text) (t : Map State × Store)
    → IsWellFormed m
    → AllFit t
    → apply_names m names t ≢ apply_panicked
unfolding apply_names
apply_names-ne-panicked m [] t h all = λ p. ground arith
apply_names-ne-panicked m (name ∷ names) (t, st) h all =
    maybe_cases (λ a. a ≢ apply_panicked) (lookup name t) _ _
      (λ _. apply_names-ne-panicked m names (t, st) h all)
      (λ s e.
        and_next-ne-panicked name t st (apply_names m names) _ all
          (apply_occurrences-AppliesTo (occurrences m name) (s, st)
            (occurrences-IsLabelled m name h) (AllValues-lookup (StateFits st) name t s all e))
          (λ u g. apply_names-ne-panicked m names u h g))

-- Applying what RawParse returns, beside an error or not, to the states of options does not
-- panic, where each option, and its original value with EachOccurrence, points to a value, of
-- the type of its default if there is one: each occurrence has a label to drop, and no type
-- assertion fails.
pub apply_to-raw_parse :
    (arguments : List Text) (b : Binding) (flags : ℕ) (m : BindingResult) (e : Option Error)
    (t : Map State × Store)
    → raw_parse arguments b flags ≡ finished m e
    → AllFit t
    → apply_to (some m) t ≢ apply_panicked
unfolding apply_to
apply_to-raw_parse arguments b flags m e t h all =
    apply_names-ne-panicked m m.names t (raw_parse-IsFaithful arguments b flags m e h).well_formed
      all
