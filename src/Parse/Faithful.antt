-- ===== src/Parse/Faithful.antt =====
-- The results of `RawParse` (set.go): their shape, the names in them, and how they are read.
use joe_cli.Common.{
  All, All-append, List, Option, Text, [], false, lookup, maybe_cases, refl, some, true, ℕ, ◌++◌,
  ◌∷◌, ◌≡◌,
}
use joe_cli.Errors.{Error}
use joe_cli.Binding.{Binding}
use joe_cli.Results.{
  BindingResult, append_output, bindings_of, collect, new_binding_result, occurrences, raw,
  raw_occurrences,
}
use joe_cli.Results.Shape.{
  IsLabelled, IsWellFormed, append_output-IsWellFormed, new_binding_result-IsWellFormed,
  occurrences-IsLabelled,
}
use joe_cli.Parse.Loop.{finished, raw_parse}
use joe_cli.Parse.Keeps.Kept.{IsBindable}
use joe_cli.Parse.Keeps.{raw_parse-Keeps}

-- A result of a parse of `arguments`: it holds the arguments, it is well formed, and each name is
-- one that the binding gives.
pub record IsFaithful (arguments : List Text) (b : Binding) (m : BindingResult) : Type 0 where
  pub given : m.args ≡ some arguments
  pub well_formed : IsWellFormed m
  pub bindable : All (IsBindable b) m.names

append_output-IsFaithful :
    (arguments : List Text) (b : Binding) (m : BindingResult) (name label : Text)
    (values : List Text)
    → IsBindable b name
    → IsFaithful arguments b m
    → IsFaithful arguments b (append_output m name (label ∷ values))
append_output-IsFaithful arguments b m name label values n h = record {
  given =
      unfold append_output in
      maybe_cases (λ (r : BindingResult). r.args ≡ some arguments) (lookup name m.bindings) _ _
        (λ _. h.given) (λ _ _. h.given);
  well_formed = append_output-IsWellFormed m name label values h.well_formed;
  bindable =
      unfold append_output in
      maybe_cases (λ (r : BindingResult). All (IsBindable b) r.names) (lookup name m.bindings) _ _
        (λ _. All-append (IsBindable b) m.names _ h.bindable (n, tt)) (λ _ _. h.bindable);
}

-- Whatever `RawParse` returns, beside an error or not: the result holds the input args as they were
-- given; its names are those of its bindings, in the order in which they were first bound, each
-- once; each occurrence begins with a label; and each name is that of a positional arg, or what an
-- alias resolves to, or the numeric option.
pub raw_parse-IsFaithful :
    (arguments : List Text) (b : Binding) (flags : ℕ) (m : BindingResult) (e : Option Error)
    → raw_parse arguments b flags ≡ finished m e
    → IsFaithful arguments b m
raw_parse-IsFaithful arguments b flags m e h = rw h at (
    raw_parse-Keeps b (IsFaithful arguments b) (append_output-IsFaithful arguments b) arguments
      flags
      (record {
        given = unfold new_binding_result in refl;
        well_formed = new_binding_result-IsWellFormed (some arguments);
        bindable = unfold new_binding_result in tt;
      }))

-- Each occurrence without its label.
pub unlabelled : List (List Text) → List (List Text)
unlabelled [] = []
unlabelled ([] ∷ vs) = [] ∷ unlabelled vs
unlabelled ((_ ∷ v) ∷ vs) = v ∷ unlabelled vs

pub joined : List (List Text) → List Text
joined [] = []
joined (v ∷ vs) = v ++ joined vs

collect-false : (vs : List (List Text)) → collect false vs ≡ some (joined vs)
unfolding collect joined
collect-false [] = refl
collect-false (v ∷ vs) = rw (collect-false vs)

collect-true :
    (vs : List (List Text)) → All IsLabelled vs → collect true vs ≡ some (joined (unlabelled vs))
unfolding collect joined unlabelled
collect-true [] h = refl
collect-true ([] ∷ vs) h = absurd h.0
collect-true ((l ∷ v) ∷ vs) h = rw (collect-true vs h.1)

-- Reading any name of a result of `RawParse` does not panic: `Raw` gives its occurrences end to end,
-- and `RawOccurrences` gives them so with the label of each left out.
pub raw-raw_parse :
    (arguments : List Text) (b : Binding) (flags : ℕ) (m : BindingResult) (e : Option Error)
    (name : Text)
    → raw_parse arguments b flags ≡ finished m e
    → (raw (some m) name ≡ some (joined (bindings_of (some m) name)))
      × (raw_occurrences (some m) name ≡ some (joined (unlabelled (bindings_of (some m) name))))
unfolding raw raw_occurrences bindings_of
raw-raw_parse arguments b flags m e name h =
    let f = raw_parse-IsFaithful arguments b flags m e h in
    (
      collect-false (occurrences m name),
      collect-true (occurrences m name) (occurrences-IsLabelled m name f.well_formed),
    )
