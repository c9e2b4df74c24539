-- ===== src/States/Occurred.antt =====
-- set.go: an occurrence of `multiBindingState` from a new cell: its pointers and what the states show.
use mathlib.Core.Path.{subst}
use joe_cli.States.Cells.{IsApart}
use joe_cli.States.Contents.{
  is_empty-Apart, Apart, Apart-append, Inside, Inside-Apart, Inside-append, Inside-grow,
  grown-IsApart, occurrence_values-append, occurrence_values-grown, occurrence_values-same,
}
use joe_cli.States.Types.{IsActualWrite, IsOccurrence, fresh, occurred}
use joe_cli.Values.Writes.{HasRef, IsUnshared}
use joe_cli.States.Steps.{clone_of, keeping}
use joe_cli.Common.{
  List, Text, [], ap, arith, inl, inr, length, length-append, refl, some, some_cancel, sym, true, ℕ,
  ◌++◌, ◌+◌, ◌<◌, ◌∙◌, ◌∷◌, ◌≡◌,
}
use joe_cli.States.{
  Direct, Maps, Multi, Store, Value, clone_zero, content, counted, direct_value, grown, is_empty,
  occurrence_values,
}

-- The occurrences point into the store, and the original value is none of theirs.
pub record IsSeparate (m : Multi) (h : Store) : Type 0 where
  pub inside : Inside h m.all
  pub actual_apart : (p : ℕ) → m.actual ≡ some p → (p < length h.cells) × Apart p m.all

-- The first occurrence keeps the original value.
pub keeping-IsSeparate :
    (m : Multi) (h : Store)
    → is_empty m.all ≡ true
    → m.initial.value < length h.cells
    → IsSeparate m h
    → IsSeparate (keeping m) h
keeping-IsSeparate m h e l s = record {
  inside = s.inside;
  actual_apart =
      λ p q. (subst (λ i. i < length h.cells) (some_cancel q) l, is_empty-Apart p m.all e);
}

IsActualWrite-length :
    (m : Multi) (h h' : Store) → IsActualWrite m h h' → length h'.cells ≡ length h.cells
IsActualWrite-length m h h' (inl same) = ap (λ i. length i.cells) same
IsActualWrite-length m h h' (inr (p, e, write)) = write.same_length

-- The occurrence has a cell of its own.
pub occurrence-IsSeparate :
    (values : List Text) (v : Value) (m : Multi) (h h' : Store)
    → IsSeparate m h
    → IsOccurrence values v (clone_zero m h).0 (clone_zero m h).1 h'
    → IsSeparate (occurred (clone_zero m h).0) h'
unfolding clone_zero
occurrence-IsSeparate values v m h h' s o =
    let longer : length h'.cells ≡ length h.cells + 1 =
      IsActualWrite-length (clone_zero m h).0 o.between h' o.actual_write
      ∙ o.cloned_write.same_length
      ∙ length-append h.cells (clone_of m h ∷ []) in
    record {
      inside =
          Inside-append h' m.all (counted (clone_zero m h).0.initial)
            (Inside-grow h h' m.all (omega (arith, longer)) s.inside) (omega (arith, longer));
      actual_apart = λ p e.
          let (l, a) = s.actual_apart p e in
          (
            omega (arith, longer, l),
            Apart-append p m.all (counted (clone_zero m h).0.initial) a (λ q. omega (arith, l, q)),
          );
    }

-- A later write of the original value leaves what the occurrences show.
actual-occurrence_values :
    (m : Multi) (h h' : Store) (ds : List Direct)
    → IsUnshared m.initial.optional_value
    → IsApart h
    → ((p : ℕ) → m.actual ≡ some p → Apart p ds)
    → IsActualWrite m h h'
    → (occurrence_values h' ds ≡ occurrence_values h ds) × IsApart h'
actual-occurrence_values m h h' ds u a apart (inl same) =
    (ap (λ i. occurrence_values i ds) same, subst IsApart (sym same) a)
actual-occurrence_values m h h' ds u a apart (inr (p, e, write)) =
    (occurrence_values-same p h h' ds (apart p e) (write.others u a), write.apart u a)

fresh-clone_zero :
    (m : Multi) (h : Store) (values : List Text) (v : Value) (maps : Maps)
    → fresh (clone_zero m h).0.initial values v maps ≡ fresh m.initial values v maps
unfolding fresh direct_value clone_zero
fresh-clone_zero m h values v maps = refl

-- Behind an occurrence the clone shows what the words make of the zero, and the others what they did.
pub occurrence-occurrence_values :
    (values : List Text) (m : Multi) (h h' : Store)
    → IsSeparate m h
    → IsUnshared m.initial.optional_value
    → IsApart h
    → ((r : ℕ) → ¬ (HasRef (clone_of m h) r))
    → IsOccurrence values (clone_of m h) (clone_zero m h).0 (clone_zero m h).1 h'
    → (occurrence_values h' (occurred (clone_zero m h).0).all
        ≡ occurrence_values h m.all ++ fresh m.initial values (clone_of m h) h.maps ∷ [])
      × IsApart h'
unfolding clone_zero
occurrence-occurrence_values values m h h' s u a bare o =
    let z = clone_of m h in
    let n = (clone_zero m h).0 in
    let d = counted n.initial in
    let separate = occurrence-IsSeparate values z m h h' s o in
    let grown_apart = grown-IsApart h z bare a in
    let last =
      actual-occurrence_values n o.between h' (m.all ++ d ∷ []) u
        (o.cloned_write.apart u grown_apart) (λ p e. (separate.actual_apart p e).1)
        o.actual_write in
    (
      last.0
          ∙ occurrence_values-append o.between m.all d
          ∙ ap (λ l. l ++ content o.between d.value ∷ [])
              (occurrence_values-same (length h.cells) (grown h z) o.between m.all
                  (Inside-Apart h m.all s.inside) (o.cloned_write.others u grown_apart)
                ∙ occurrence_values-grown h z m.all s.inside)
          ∙ ap (λ c. occurrence_values h m.all ++ c ∷ [])
              (o.cloned_shows ∙ fresh-clone_zero m h values z h.maps),
      last.1,
    )
