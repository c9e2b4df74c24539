-- ===== src/States/Separate.antt =====
-- set.go: `SetOccurrence` of `multiBindingState` without merging, on the occurrences before it.
use joe_cli.States.Occurred.{
  IsSeparate, keeping-IsSeparate, occurrence-IsSeparate, occurrence-occurrence_values,
}
use mathlib.Core.Path.{subst}
use joe_cli.Values.Many.{Returns}
use joe_cli.States.Steps.{
  clone_of, clone_zero-IsFitting, keeping, keeping-IsFitting, kind_of-clone_of,
}
use joe_cli.States.Types.{
  IsFitting, IsOccurrence, Returns-map, fresh, occurred, set_clone-IsOccurrence,
}
use joe_cli.Common.{
  Bool, List, Text, [], ap, arith, false, get_elem?, get_elem?-last, if◌then◌else◌, length,
  lt-get_elem?, maybe, not, refl, some, sym, true, ℕ, ◌++◌, ◌<◌, ◌∷◌, ◌≡◌,
}
use joe_cli.Values.{Value, text_value, zero_of}
use joe_cli.Values.Writes.{Fits, HasRef, IsUnshared, zero_of_lem}
use joe_cli.States.{
  Multi, Store, and_actual, clone_zero, is_empty, multi_set, occurrence_values, renew, set_clone,
}
use joe_cli.States.Cells.{IsApart}

-- what `renew` comes to for an option that does not merge
choose :
    (P : Multi × Store → Type 0) (first merge : Bool) (x y z : Multi × Store)
    → merge ≡ false
    → (first ≡ true → P x)
    → P y
    → P (if first then x else if not merge then y else z)
choose P true merge x y z e a b = a refl
choose P false false x y z e a b = b
choose P false true x y z e a b = absurd (ground (arith, e))

module _ (values : List Text) (m : Multi) (h : Store) (plain : m.initial.flags.merge ≡ false) where
  -- what holds behind an occurrence of a clone of either kind
  multi_set_cases :
      (P : Multi → Store → Type 0)
      → (is_empty m.all ≡ true
          → Returns
              (λ e s. P s.0 s.1)
              (and_actual values (set_clone values (clone_zero (keeping m) h))))
      → Returns (λ e s. P s.0 s.1) (and_actual values (set_clone values (clone_zero m h)))
      → Returns (λ e s. P s.0 s.1) (multi_set values m h)
  unfolding multi_set renew
  multi_set_cases P a b =
      choose (λ s. Returns (λ e t. P t.0 t.1) (and_actual values (set_clone values s)))
        (is_empty m.all) m.initial.flags.merge _ _ _ plain a b

cloned :
    (values : List Text) (m : Multi) (h : Store)
    → IsFitting m h
    → Returns
        (λ e s.
          (s.0 ≡ occurred (clone_zero m h).0)
          × IsOccurrence values (clone_of m h) (clone_zero m h).0 (clone_zero m h).1 s.1)
        (and_actual values (set_clone values (clone_zero m h)))
unfolding clone_zero
cloned values m h f =
    let (v, e, fits) = f.initial_fits in
    set_clone-IsOccurrence values (clone_zero m h).0 (clone_zero m h).1 (clone_of m h)
      (clone_zero-IsFitting m h f) (get_elem?-last h.cells (clone_of m h))
      (subst (Fits m.initial.optional_value) (sym (kind_of-clone_of m h v e)) fits)

cloned-IsSeparate :
    (values : List Text) (m : Multi) (h : Store)
    → IsFitting m h
    → IsSeparate m h
    → Returns (λ e s. IsSeparate s.0 s.1) (and_actual values (set_clone values (clone_zero m h)))
cloned-IsSeparate values m h f s =
    Returns-map
      (λ e t.
        (t.0 ≡ occurred (clone_zero m h).0)
        × IsOccurrence values (clone_of m h) (clone_zero m h).0 (clone_zero m h).1 t.1)
      (λ e t. IsSeparate t.0 t.1) _
      (λ e t o.
        subst (λ n. IsSeparate n t.1) (sym o.0)
          (occurrence-IsSeparate values (clone_of m h) m h t.1 s o.1))
      (cloned values m h f)

inside_fitting : (m : Multi) (h : Store) → IsFitting m h → m.initial.value < length h.cells
inside_fitting m h f = let (v, e, fits) = f.initial_fits in lt-get_elem? h.cells m.initial.value e

-- SetOccurrence of an option with EachOccurrence that does not merge does not panic and keeps
-- the occurrences apart: they point into the store, and the original value is none of theirs. It
-- holds where the option and its original value point to values, of the type of the default if
-- there is one.
pub multi_set-IsSeparate :
    (values : List Text) (m : Multi) (h : Store)
    → m.initial.flags.merge ≡ false
    → IsFitting m h
    → IsSeparate m h
    → Returns (λ e s. IsSeparate s.0 s.1) (multi_set values m h)
multi_set-IsSeparate values m h plain f s =
    multi_set_cases values m h plain IsSeparate
      (λ e.
        cloned-IsSeparate values (keeping m) h (keeping-IsFitting m h f)
          (keeping-IsSeparate m h e (inside_fitting m h f) s))
      (cloned-IsSeparate values m h f s)

-- One more occurrence, which shows what the words make of the zero of the value.
pub Added : List Text → Multi → Store → Value → Multi → Store → Type 0
Added values m h v n i =
    (occurrence_values i n.all
      ≡ occurrence_values h m.all ++ fresh m.initial values (zero_of v) h.maps ∷ [])
    × IsApart i

cloned-Added :
    (values : List Text) (m : Multi) (h : Store) (v : Value)
    → get_elem? h.cells m.initial.value ≡ some v
    → IsFitting m h
    → IsSeparate m h
    → IsUnshared m.initial.optional_value
    → IsApart h
    → Returns
        (λ e s. Added values m h v s.0 s.1)
        (and_actual values (set_clone values (clone_zero m h)))
unfolding Added
cloned-Added values m h v here f s u a =
    let zero_here : clone_of m h ≡ zero_of v = ap (λ o. maybe o (text_value []) zero_of) here in
    Returns-map
      (λ e t.
        (t.0 ≡ occurred (clone_zero m h).0)
        × IsOccurrence values (clone_of m h) (clone_zero m h).0 (clone_zero m h).1 t.1)
      (λ e t. Added values m h v t.0 t.1) _
      (λ e t o.
        subst (λ n. Added values m h v n t.1) (sym o.0)
          (subst
            (λ z.
              (occurrence_values t.1 (occurred (clone_zero m h).0).all
                ≡ occurrence_values h m.all ++ fresh m.initial values z h.maps ∷ [])
              × IsApart t.1)
            zero_here
            (occurrence-occurrence_values values m h t.1 s u a
              (subst (λ z. (r : ℕ) → ¬ (HasRef z r)) (sym zero_here) (zero_of_lem v).1) o.1)))
      (cloned values m h f)

-- Without merging, an occurrence of an option with EachOccurrence does not panic and adds one
-- value to those of the occurrences before it, which show what they did: the new value is what
-- its words make of the zero of the type. It holds with an error too, where the option and its
-- original value point to values, of the type of the default if there is one; the occurrences
-- are apart from the original value; the default is no map and no slice; and no two values share
-- a map. No two share one behind the occurrence either.
pub multi_set-occurrences :
    (values : List Text) (m : Multi) (h : Store) (v : Value)
    → m.initial.flags.merge ≡ false
    → get_elem? h.cells m.initial.value ≡ some v
    → IsFitting m h
    → IsSeparate m h
    → IsUnshared m.initial.optional_value
    → IsApart h
    → Returns (λ e s. Added values m h v s.0 s.1) (multi_set values m h)
unfolding Added
multi_set-occurrences values m h v plain here f s u a =
    multi_set_cases values m h plain (Added values m h v)
      (λ e.
        cloned-Added values (keeping m) h v here (keeping-IsFitting m h f)
          (keeping-IsSeparate m h e (inside_fitting m h f) s) u a)
      (cloned-Added values m h v here f s u a)
