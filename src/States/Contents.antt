-- ===== src/States/Contents.antt =====
-- set.go: `OccurrenceValues`, what it shows in stores that share contents, and the pointers of its states.
use mathlib.Core.Path.{subst}
use joe_cli.States.Cells.{IsApart, RefAt}
use joe_cli.Values.Writes.{HasRef}
use joe_cli.Common.{
  All, Bool-cases, List, [], ap, arith, get_elem?, get_elem?-append, get_elem?-last, inl, inr,
  length, length-append, lt-get_elem?, ltb, maybe, none, refl, some, some_cancel, sym, true, ℕ,
  ◌++◌, ◌<◌, ◌∙◌, ◌∷◌, ◌≡◌, ◌≢◌, ◌≤◌,
}
use joe_cli.States.{
  Direct, Store, Value, content, grown, is_empty, map_value, occurrence_values, show_value,
}

-- The states of the list point elsewhere.
abbrev pub Apart : ℕ → List Direct → Type 0
Apart p ds = All (λ (d : Direct). p ≢ d.value) ds

-- They point into the store.
abbrev pub Inside : Store → List Direct → Type 0
Inside h ds = All (λ (d : Direct). d.value < length h.cells) ds

pub Inside-grow :
    (h g : Store) (ds : List Direct) → length h.cells ≤ length g.cells → Inside h ds → Inside g ds
Inside-grow h g [] l a = tt
Inside-grow h g (d ∷ ds) l a = (omega (arith, l, a.0), Inside-grow h g ds l a.1)

-- The end of the store is apart from all that points into it.
pub Inside-Apart : (h : Store) (ds : List Direct) → Inside h ds → Apart (length h.cells) ds
Inside-Apart h [] a = tt
Inside-Apart h (d ∷ ds) a = (λ p. omega (arith, a.0, p), Inside-Apart h ds a.1)

pub occurrence_values-append :
    (h : Store) (ds : List Direct) (d : Direct)
    → occurrence_values h (ds ++ d ∷ []) ≡ occurrence_values h ds ++ content h d.value ∷ []
unfolding occurrence_values
occurrence_values-append h [] d = refl
occurrence_values-append h (e ∷ ds) d =
    ap (λ r. content h e.value ∷ r) (occurrence_values-append h ds d)

-- Occurrences with the same contents show the same.
pub occurrence_values-same :
    (p : ℕ) (h i : Store) (ds : List Direct)
    → Apart p ds
    → ((q : ℕ) → p ≢ q → content i q ≡ content h q)
    → occurrence_values i ds ≡ occurrence_values h ds
unfolding occurrence_values
occurrence_values-same p h i [] a same = refl
occurrence_values-same p h i (d ∷ ds) a same =
    ap (λ o. o ∷ occurrence_values i ds) (same d.value a.0)
    ∙ ap (λ r. content h d.value ∷ r) (occurrence_values-same p h i ds a.1 same)

content-grown :
    (h : Store) (z : Value) (q : ℕ) → q < length h.cells → content (grown h z) q ≡ content h q
content-grown h z q l =
    ap (λ o. maybe o none (λ v. some (show_value h.maps v))) (get_elem?-append h.cells (z ∷ []) q l)

pub occurrence_values-grown :
    (h : Store) (z : Value) (ds : List Direct)
    → Inside h ds
    → occurrence_values (grown h z) ds ≡ occurrence_values h ds
unfolding occurrence_values
occurrence_values-grown h z [] a = refl
occurrence_values-grown h z (d ∷ ds) a =
    ap (λ o. o ∷ occurrence_values (grown h z) ds) (content-grown h z d.value a.0)
    ∙ ap (λ r. content h d.value ∷ r) (occurrence_values-grown h z ds a.1)

-- a new cell without a reference
RefAt-grown :
    (h : Store) (z : Value)
    → ((r : ℕ) → ¬ (HasRef z r))
    → (q r : ℕ) → RefAt (grown h z) q r
    → RefAt h q r
RefAt-grown h z bare q r e = elim (Bool-cases (ltb q (length h.cells))) [
  | inl l ↦ sym (get_elem?-append h.cells (z ∷ []) q (ground (arith, l))) ∙ e
  | inr l ↦
      absurd (bare r (some_cancel (sym (get_elem?-last h.cells z) ∙ at_end (ground (arith, l)))))
]
  where
    at_end :
        length h.cells ≤ q
        → get_elem? (h.cells ++ z ∷ []) (length h.cells) ≡ some (map_value (some r))
    at_end l =
        subst (λ i. get_elem? (h.cells ++ z ∷ []) i ≡ some (map_value (some r)))
          (omega (arith, l, lt-get_elem? (h.cells ++ z ∷ []) q e, length-append h.cells (z ∷ []))) e

pub grown-IsApart :
    (h : Store) (z : Value) → ((r : ℕ) → ¬ (HasRef z r)) → IsApart h → IsApart (grown h z)
grown-IsApart h z bare a = record {
  inside_maps = λ p r e. a.inside_maps p r (RefAt-grown h z bare p r e);
  only_one =
      λ p q r e f. a.only_one p q r (RefAt-grown h z bare p r e) (RefAt-grown h z bare q r f);
}

pub Inside-append :
    (h : Store) (ds : List Direct) (d : Direct)
    → Inside h ds
    → d.value < length h.cells
    → Inside h (ds ++ d ∷ [])
Inside-append h [] d a l = (l, tt)
Inside-append h (e ∷ ds) d a l = (a.0, Inside-append h ds d a.1 l)

pub Apart-append :
    (p : ℕ) (ds : List Direct) (d : Direct) → Apart p ds → p ≢ d.value → Apart p (ds ++ d ∷ [])
Apart-append p [] d a n = (n, tt)
Apart-append p (e ∷ ds) d a n = (a.0, Apart-append p ds d a.1 n)

pub is_empty-Apart : (p : ℕ) (ds : List Direct) → is_empty ds ≡ true → Apart p ds
is_empty-Apart p [] e = tt
is_empty-Apart p (d ∷ ds) e = absurd (ground arith)
