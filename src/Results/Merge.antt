-- ===== src/Results/Merge.antt =====
-- What `AppendOutput` and `MergeBindingResults` do to the occurrences of each name.
use joe_cli.Results.Shape.{IsWellFormed}
use joe_cli.Results.{
  BindingResult, adopt_args, append_all, append_output, bindings_of, first_output,
  merge_binding_results, merge_into, merge_names, new_binding_result, next_output, occurrences,
}
use joe_cli.Common.{
  All, Bool-cases, Distinct, List, Option, Text, [], append-nil, append_assoc, arith, elem, false,
  if◌then◌else◌, inl, inr, lookup, lookup-insert, lookup-none_iff, maybe_cases, none, refl, some,
  sym, text_eq, text_eq_iff, ◌++◌, ◌∙◌, ◌∷◌, ◌≡◌,
}

-- appendOutput adds the occurrence behind those of its name, and leaves the occurrences of any
-- other name.
pub occurrences-append_output :
    (m : BindingResult) (name k : Text) (occur : List Text)
    → occurrences (append_output m name occur) k
      ≡ (if text_eq name k then occurrences m k ++ occur ∷ [] else occurrences m k)
unfolding occurrences append_output
occurrences-append_output m name k occur =
    maybe_cases
      (λ r.
        occurrences r k
        ≡ (if text_eq name k then occurrences m k ++ occur ∷ [] else occurrences m k))
      (lookup name m.bindings) (first_output m name occur) (next_output m name occur)
      (λ e. ground (arith, e, text_eq_iff name k, lookup-insert name k (occur ∷ []) m.bindings))
      (λ v e.
        ground (arith, e, text_eq_iff name k, lookup-insert name k (v ++ occur ∷ []) m.bindings))

occurrences-append_all :
    (merged : BindingResult) (name k : Text) (occurs : List (List Text))
    → occurrences (append_all merged name occurs) k
      ≡ (if text_eq name k then occurrences merged k ++ occurs else occurrences merged k)
unfolding append_all
occurrences-append_all merged name k [] = ground (arith, append-nil (occurrences merged k))
occurrences-append_all merged name k (o ∷ occurs) = ground (
  arith,
  occurrences-append_all (append_output merged name o) name k occurs,
  occurrences-append_output merged name k o,
  append_assoc (occurrences merged k) (o ∷ []) occurs,
)

occurrences-merge_names :
    (merged m : BindingResult) (names : List Text) (k : Text)
    → Distinct names
    → occurrences (merge_names merged m names) k
      ≡ (if elem k names then occurrences merged k ++ occurrences m k else occurrences merged k)
unfolding merge_names elem
occurrences-merge_names merged m [] k d = refl
occurrences-merge_names merged m (n ∷ names) k d = ground (
  arith,
  occurrences-merge_names (append_all merged n (occurrences m n)) m names k d.1,
  occurrences-append_all merged n k (occurrences m n),
  text_eq_iff n k,
  text_eq_iff k n,
  d.0,
)

-- a name that is not listed has no occurrences
occurrences-unlisted :
    (m : BindingResult) (k : Text) → IsWellFormed m → elem k m.names ≡ false → occurrences m k ≡ []
unfolding occurrences
occurrences-unlisted m k h e = rw ((lookup-none_iff k m.bindings).1 (rw h.listed e))

occurrences-adopt_args :
    (merged m : BindingResult) (k : Text)
    → occurrences (adopt_args merged m) k ≡ occurrences merged k
unfolding occurrences
occurrences-adopt_args merged m k = ground arith

occurrences-merged :
    (merged m : BindingResult) (k : Text)
    → IsWellFormed m
    → occurrences (merge_names (adopt_args merged m) m m.names) k
      ≡ occurrences merged k ++ occurrences m k
occurrences-merged merged m k h = elim (Bool-cases (elem k m.names)) [
  | inl e ↦ rw (occurrences-merge_names _ m m.names k h.distinct, e, occurrences-adopt_args)
  | inr e ↦ rw (
    occurrences-merge_names _ m m.names k h.distinct,
    e,
    occurrences-adopt_args,
    occurrences-unlisted m k h e,
    append-nil,
  )
]

-- A result that may be nil is well formed.
abbrev pub IsWellFormedOrNil : Option BindingResult → Type 0
IsWellFormedOrNil none = Unit
IsWellFormedOrNil (some m) = IsWellFormed m

-- the occurrences of a name in each of the results, in their order
pub occurrences_in : List (Option BindingResult) → Text → List (List Text)
occurrences_in [] k = []
occurrences_in (m ∷ results) k = bindings_of m k ++ occurrences_in results k

occurrences-merge_into :
    (merged : BindingResult) (results : List (Option BindingResult)) (k : Text)
    → All IsWellFormedOrNil results
    → occurrences (merge_into merged results) k ≡ occurrences merged k ++ occurrences_in results k
unfolding merge_into bindings_of occurrences_in
occurrences-merge_into merged [] k h = sym (append-nil (occurrences merged k))
occurrences-merge_into merged (none ∷ results) k h = occurrences-merge_into merged results k h.1
occurrences-merge_into merged (some m ∷ results) k h = rw (
  occurrences-merge_into (merge_names (adopt_args merged m) m m.names) results k h.1,
  occurrences-merged merged m k h.0,
  append_assoc,
)

-- The merge of results that are nil or well formed has for each name the occurrences of the first
-- result, then those of the second, and so on.
pub merge_binding_results-occurrences :
    (results : List (Option BindingResult)) (k : Text)
    → All IsWellFormedOrNil results
    → occurrences (merge_binding_results results) k ≡ occurrences_in results k
unfolding merge_binding_results new_binding_result occurrences_in lookup
merge_binding_results-occurrences results k h =
    occurrences-merge_into _ results k h ∙ unfold occurrences in refl
