-- ===== src/Results/Shape.antt =====
-- set.go: well-formed results, as `appendOutput` builds them, and the loop of `lookup` over them.
use joe_cli.Results.{BindingResult, append_output, collect, new_binding_result, occurrences}
use joe_cli.Common.{
  All, All-append, AllValues, AllValues-insert, AllValues-lookup, Bool, Distinct, Distinct-append,
  List, Option, Text, [], false, keys, keys-insert, lookup, lookup-none_iff, maybe_cases, refl,
  some, true, ◌++◌, ◌∷◌, ◌≡◌,
}

-- An occurrence begins with the name by which the option was called.
abbrev pub IsLabelled : List Text → Type 0
IsLabelled [] = ⊥
IsLabelled (_ ∷ _) = Unit

pub record IsWellFormed (m : BindingResult) : Type 0 where
  pub listed : keys m.bindings ≡ m.names
  pub distinct : Distinct m.names
  pub labelled : AllValues (All IsLabelled) m.bindings

pub new_binding_result-IsWellFormed :
    (args : Option (List Text)) → IsWellFormed (new_binding_result args)
unfolding new_binding_result
new_binding_result-IsWellFormed args = record { listed = refl; distinct = tt; labelled = tt }

-- appendOutput of an occurrence with a label keeps a result well formed: its names are the keys
-- of its bindings in order, each once, and each occurrence has a label.
pub append_output-IsWellFormed :
    (m : BindingResult) (name label : Text) (values : List Text)
    → IsWellFormed m
    → IsWellFormed (append_output m name (label ∷ values))
unfolding append_output
append_output-IsWellFormed m name label values h =
    maybe_cases IsWellFormed (lookup name m.bindings) _ _
      (λ e. record {
        listed = rw (keys-insert, e, h.listed);
        distinct =
            Distinct-append m.names name h.distinct
              (rw h.listed at ((lookup-none_iff name m.bindings).0 e));
        labelled = AllValues-insert (All IsLabelled) name _ m.bindings (tt, tt) h.labelled;
      })
      (λ v e. record {
        listed = rw (keys-insert, e) h.listed;
        distinct = h.distinct;
        labelled =
            AllValues-insert (All IsLabelled) name _ m.bindings
              (All-append IsLabelled v _
                (AllValues-lookup (All IsLabelled) name m.bindings v h.labelled e) (tt, tt))
              h.labelled;
      })

-- Reading every occurrence, with or without its label, does not panic.
pub collect_total :
    (occurs : Bool) (vs : List (List Text))
    → All IsLabelled vs
    → (res : List Text) × (collect occurs vs ≡ some res)
unfolding collect
collect_total occurs [] h = ([], refl)
collect_total false (v ∷ vs) h = let (res, e) = collect_total false vs h.1 in (v ++ res, rw e)
collect_total true ([] ∷ vs) h = absurd h.0
collect_total true ((l ∷ v) ∷ vs) h = let (res, e) = collect_total true vs h.1 in (v ++ res, rw e)

pub occurrences-IsLabelled :
    (m : BindingResult) (name : Text) → IsWellFormed m → All IsLabelled (occurrences m name)
unfolding occurrences
occurrences-IsLabelled m name h =
    maybe_cases (All IsLabelled) (lookup name m.bindings) _ _ (λ _. tt)
      (λ v e. AllValues-lookup (All IsLabelled) name m.bindings v h.labelled e)
