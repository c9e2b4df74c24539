-- ===== src/States/Steps.antt =====
-- set.go: `SetOccurrence` of both binding states, where the defaults have the types of the values.
use mathlib.Core.Path.{subst}
use joe_cli.Common.{
  Bool, List, Option, Text, [], false, get_elem?, get_elem?-append, get_elem?-last, if◌then◌else◌,
  lt-get_elem?, maybe, not, refl, some, some_cancel, sym, true, ◌∙◌, ◌∷◌, ◌≡◌,
}
use joe_cli.Values.{Setting, Value, ValueError, set_panics, set_to, text_value, zero_of}
use joe_cli.Values.Writes.{Fits, kind_of, zero_of_lem}
use joe_cli.Values.Many.{Returns}
use joe_cli.States.{
  Direct, Multi, State, Store, and_actual, as_multi, clone_zero, counted, direct, direct_set, grown,
  is_empty, multi, multi_set, renew, set_clone, set_occurrence, with_direct,
}
use joe_cli.States.Cells.{IsStoreWrite}
use joe_cli.States.Types.{
  FitsAt, FitsAt-kept, IsFitting, IsFitting-kept, IsOccurrence, IsOccurrence-KeepsKinds, KeepsKinds,
  KeepsKinds-trans, Returns-map, direct_set-IsStoreWrite, occurred, set_clone-IsOccurrence,
}

pub grown-KeepsKinds : (h : Store) (z : Value) → KeepsKinds h (grown h z)
grown-KeepsKinds h z q v e =
    (v, get_elem?-append h.cells (z ∷ []) q (lt-get_elem? h.cells q e) ∙ e, refl)

-- the zero that the clone begins with
abbrev pub clone_of : Multi → Store → Value
clone_of m h = maybe (get_elem? h.cells m.initial.value) (text_value []) zero_of

pub kind_of-clone_of :
    (m : Multi) (h : Store) (v : Value)
    → get_elem? h.cells m.initial.value ≡ some v
    → kind_of (clone_of m h) ≡ kind_of v
kind_of-clone_of m h v e = rw e (zero_of_lem v).0

pub clone_zero-IsFitting :
    (m : Multi) (h : Store) → IsFitting m h → IsFitting (clone_zero m h).0 (clone_zero m h).1
unfolding clone_zero
clone_zero-IsFitting m h f =
    let (v, e, fits) = f.initial_fits in
    let z = clone_of m h in
    record {
      initial_fits = (
        z,
        get_elem?-last h.cells z,
        subst (Fits m.initial.optional_value) (sym (kind_of-clone_of m h v e)) fits,
      );
      actual_fits = λ p q.
          FitsAt-kept m.initial.optional_value p h (grown h z) (grown-KeepsKinds h z)
            (f.actual_fits p q);
    }

-- The first occurrence keeps the pointer to the original value.
abbrev pub keeping : Multi → Multi
keeping m = record m { actual = some m.initial.value }

pub keeping-IsFitting : (m : Multi) (h : Store) → IsFitting m h → IsFitting (keeping m) h
keeping-IsFitting m h f = record {
  initial_fits = f.initial_fits;
  actual_fits =
      λ p e. subst (λ i. FitsAt h i m.initial.optional_value) (some_cancel e) f.initial_fits;
}

clone_zero-KeepsKinds : (m : Multi) (h : Store) → KeepsKinds h (clone_zero m h).1
unfolding clone_zero
clone_zero-KeepsKinds m h = grown-KeepsKinds h (clone_of m h)

Ready : Store → Multi × Store → Type 0
Ready h s = IsFitting s.0 s.1 × KeepsKinds h s.1

choose-Ready :
    (first merge : Bool) (h : Store) (x y z : Multi × Store)
    → Ready h x
    → Ready h y
    → Ready h z
    → Ready h (if first then x else if not merge then y else z)
choose-Ready true merge h x y z a b c = a
choose-Ready false true h x y z a b c = c
choose-Ready false false h x y z a b c = b

renew-IsFitting :
    (m : Multi) (h : Store)
    → IsFitting m h
    → IsFitting (renew m h).0 (renew m h).1 × KeepsKinds h (renew m h).1
unfolding renew Ready
renew-IsFitting m h f =
    choose-Ready (is_empty m.all) m.initial.flags.merge h _ _ _
      (
        clone_zero-IsFitting (keeping m) h (keeping-IsFitting m h f),
        clone_zero-KeepsKinds (keeping m) h,
      )
      (clone_zero-IsFitting m h f, clone_zero-KeepsKinds m h) (f, λ q v at_q. (v, at_q, refl))

multi_set-IsFitting :
    (values : List Text) (m : Multi) (h : Store)
    → IsFitting m h
    → Returns (λ e s. IsFitting s.0 s.1 × KeepsKinds h s.1) (multi_set values m h)
unfolding multi_set
multi_set-IsFitting values m h f =
    let (g, k) = renew-IsFitting m h f in
    let n = renew m h in
    let (v, at_v, fits) = g.initial_fits in
    Returns-map (λ e s. (s.0 ≡ occurred n.0) × IsOccurrence values v n.0 n.1 s.1)
      (λ e s. IsFitting s.0 s.1 × KeepsKinds h s.1) (and_actual values (set_clone values n))
      (λ e s o.
        let l = IsOccurrence-KeepsKinds values v n.0 n.1 s.1 o.1 in
        (
          subst (λ x. IsFitting x s.1) (sym o.0)
              (occurred-IsFitting n.0 s.1 (IsFitting-kept n.0 n.1 s.1 l g)),
          KeepsKinds-trans h n.1 s.1 k l,
        ))
      (set_clone-IsOccurrence values n.0 n.1 v g at_v fits)
  where
    occurred-IsFitting : (x : Multi) (i : Store) → IsFitting x i → IsFitting (occurred x) i
    occurred-IsFitting x i g = record { initial_fits = g.initial_fits; actual_fits = g.actual_fits }

-- The default of an option has the type of its value.
abbrev pub StateFits : Store → State → Type 0
StateFits h (direct d) = FitsAt h d.value d.optional_value
StateFits h (multi m) = IsFitting m h

pub StateFits-kept : (h h' : Store) (s : State) → KeepsKinds h h' → StateFits h s → StateFits h' s
StateFits-kept h h' (direct d) k f = FitsAt-kept d.optional_value d.value h h' k f
StateFits-kept h h' (multi m) k f = IsFitting-kept m h h' k f

abbrev pub StepFits : Store → Option ValueError → State × Store → Type 0
StepFits h e s = StateFits s.1 s.0 × KeepsKinds h s.1

with_direct-StepFits :
    (d : Direct) (h : Store) (r : Setting Store)
    → FitsAt h d.value d.optional_value
    → Returns (λ e i. IsStoreWrite d.optional_value d.value h i) r
    → Returns (StepFits h) (with_direct (counted d) r)
with_direct-StepFits d h (set_to e i) f w =
    (FitsAt-kept d.optional_value d.value h i w.kinds f, w.kinds)
with_direct-StepFits d h set_panics f w = absurd w

as_multi-StepFits :
    (h : Store) (r : Setting (Multi × Store))
    → Returns (λ e s. IsFitting s.0 s.1 × KeepsKinds h s.1) r
    → Returns (StepFits h) (as_multi r)
as_multi-StepFits h (set_to e s) w = w
as_multi-StepFits h set_panics w = absurd w

-- An occurrence does not panic, and the default of the option fits behind it too.
pub set_occurrence-StepFits :
    (values : List Text) (s : State) (h : Store)
    → StateFits h s
    → Returns (StepFits h) (set_occurrence values s h)
unfolding set_occurrence
set_occurrence-StepFits values (direct d) h f =
    with_direct-StepFits d h (direct_set d values h) f (direct_set-IsStoreWrite d values h f)
set_occurrence-StepFits values (multi m) h f =
    as_multi-StepFits h (multi_set values m h) (multi_set-IsFitting values m h f)
