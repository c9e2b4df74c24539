-- ===== src/Support/Regions/Parts.antt =====
-- support.go: the searches for the prefix and the suffix of a map text.
use joe_cli.Support.Maps.{has_equals, split_prefix, split_suffix, suffix_from}
use mathlib.Core.Path.{subst}
use joe_cli.Common.{
  All, Bool-cases, List, Text, [], ap, arith, false, inl, inr, refl, ◌++◌, ◌∷◌, ◌≡◌,
}

-- the field has no equal sign
abbrev pub Plain : Text → Type 0
Plain f = has_equals f ≡ false

pub split_prefix_lem : (fs : List Text) → (split_prefix fs).0 ++ (split_prefix fs).1 ≡ fs
unfolding split_prefix
split_prefix_lem [] = refl
split_prefix_lem (f ∷ fs) = ground (arith, split_prefix_lem fs)

pub split_prefix-Plain : (fs : List Text) → All Plain (split_prefix fs).0
unfolding split_prefix
split_prefix-Plain [] = tt
split_prefix-Plain (f ∷ fs) = ground (arith, split_prefix-Plain fs)

suffix_from_lem :
    (f : Text) (fs : List Text) (p : List Text × List Text)
    → p.0 ++ p.1 ≡ fs
    → (suffix_from f fs p).0 ++ (suffix_from f fs p).1 ≡ f ∷ fs
unfolding suffix_from
suffix_from_lem f fs ([], after) h = ground arith
suffix_from_lem f fs (g ∷ gs, after) h = ap (λ x. f ∷ x) h

pub split_suffix_lem : (fs : List Text) → (split_suffix fs).0 ++ (split_suffix fs).1 ≡ fs
unfolding split_suffix
split_suffix_lem [] = refl
split_suffix_lem (f ∷ fs) = suffix_from_lem f fs (split_suffix fs) (split_suffix_lem fs)

suffix_from-Plain :
    (f : Text) (fs : List Text) (p : List Text × List Text)
    → p.0 ++ p.1 ≡ fs
    → All Plain p.1
    → All Plain (suffix_from f fs p).1
unfolding suffix_from
suffix_from-Plain f fs ([], after) e h = elim (Bool-cases (has_equals f)) [
  | inl q ↦ rw q (subst (All Plain) e h)
  | inr q ↦ rw q (q, subst (All Plain) e h)
]
suffix_from-Plain f fs (g ∷ gs, after) e h = h

pub split_suffix-Plain : (fs : List Text) → All Plain (split_suffix fs).1
unfolding split_suffix
split_suffix-Plain [] = tt
split_suffix-Plain (f ∷ fs) =
    suffix_from-Plain f fs (split_suffix fs) (split_suffix_lem fs) (split_suffix-Plain fs)
