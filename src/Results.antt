-- ===== src/Results.antt =====
-- set.go: `BindingResult`, the occurrences that a parse has recorded.
pub mod Shape
pub mod Merge
use joe_cli.Common.{
  Bool, List, Map, Option, Text, [], false, insert, lookup, maybe, none, some, true, ◌++◌, ◌∷◌,
}

-- The nil slice of args is `none`.
pub record BindingResult : Type 0 where
  pub args : Option (List Text)
  pub bindings : Map (List (List Text))
  pub names : List Text

unfoldable pub new_binding_result : Option (List Text) → BindingResult
new_binding_result args = record { args = args; bindings = []; names = [] }

-- a name that has no occurrence so far, and one that has the occurrences `e`
abbrev pub first_output : BindingResult → Text → List Text → BindingResult
first_output m name occur = record m {
  bindings = insert name (occur ∷ []) m.bindings;
  names = m.names ++ name ∷ [];
}

abbrev pub next_output : BindingResult → Text → List Text → List (List Text) → BindingResult
next_output m name occur e = record m { bindings = insert name (e ++ occur ∷ []) m.bindings }

unfoldable pub append_output : BindingResult → Text → List Text → BindingResult
append_output m name occur =
    maybe (lookup name m.bindings) (first_output m name occur) (next_output m name occur)

-- `m.bindings[name]`: a missing key reads as nil
unfoldable pub occurrences : BindingResult → Text → List (List Text)
occurrences m name = maybe (lookup name m.bindings) [] (λ e. e)

-- `Bindings` of a result that may be nil
unfoldable pub bindings_of : Option BindingResult → Text → List (List Text)
bindings_of none name = []
bindings_of (some m) name = occurrences m name

-- The loop of `lookup`. `v[1:]` of an empty occurrence is a panic, `none`.
unfoldable pub collect : Bool → List (List Text) → Option (List Text)
collect occurs [] = some []
collect false (v ∷ vs) = elim (collect false vs) [ none ↦ none | some res ↦ some (v ++ res) ]
collect true ([] ∷ vs) = none
collect true ((_ ∷ v) ∷ vs) = elim (collect true vs) [ none ↦ none | some res ↦ some (v ++ res) ]

-- `Raw` and `RawOccurrences`
unfoldable pub raw : Option BindingResult → Text → Option (List Text)
raw none name = some []
raw (some m) name = collect false (occurrences m name)

unfoldable pub raw_occurrences : Option BindingResult → Text → Option (List Text)
raw_occurrences none name = some []
raw_occurrences (some m) name = collect true (occurrences m name)

-- the inner loop of `MergeBindingResults`
unfoldable pub append_all : BindingResult → Text → List (List Text) → BindingResult
append_all merged name [] = merged
append_all merged name (occur ∷ occurs) = append_all (append_output merged name occur) name occurs

unfoldable pub merge_names : BindingResult → BindingResult → List Text → BindingResult
merge_names merged m [] = merged
merge_names merged m (name ∷ names) =
    merge_names (append_all merged name (occurrences m name)) m names

abbrev pub adopt_args : BindingResult → BindingResult → BindingResult
adopt_args merged m = elim merged.args [ none ↦ record merged { args = m.args } | some _ ↦ merged ]

unfoldable pub merge_into : BindingResult → List (Option BindingResult) → BindingResult
merge_into merged [] = merged
merge_into merged (none ∷ results) = merge_into merged results
merge_into merged (some m ∷ results) =
    merge_into (merge_names (adopt_args merged m) m m.names) results

-- `MergeBindingResults`, where a nil pointer is `none`
unfoldable pub merge_binding_results : List (Option BindingResult) → BindingResult
merge_binding_results results = merge_into (new_binding_result none) results
