-- ===== src/Support/Regions/Split.antt =====
-- support.go: `splitFields` without a limit, and the text that its fields join to.
use joe_cli.Support.Maps.{joined_on}
use mathlib.Core.List.{foldl}
use joe_cli.Support.Fields.{Scan, scan_end, scan_rune, scan_start, split_fields}
use joe_cli.Common.{
  List, Text, [], append-nil, append_assoc, arith, negsuc, refl, sym, ℕ, ◌++◌, ◌∙◌, ◌∷◌, ◌≡◌,
}

joined_on-grow :
    (sep : ℕ) (fs : List Text) (buf more : Text)
    → joined_on sep (fs ++ (buf ++ more) ∷ []) ≡ joined_on sep (fs ++ buf ∷ []) ++ more
unfolding joined_on
joined_on-grow sep [] buf more = refl
joined_on-grow sep (f ∷ []) buf more = sym (append_assoc f (sep ∷ buf) more)
joined_on-grow sep (f ∷ g ∷ fs) buf more =
    rw (joined_on-grow sep (g ∷ fs) buf more) (sym (append_assoc f _ more))

joined_on-close :
    (sep : ℕ) (fs : List Text) (buf : Text)
    → joined_on sep ((fs ++ buf ∷ []) ++ [] ∷ []) ≡ joined_on sep (fs ++ buf ∷ []) ++ sep ∷ []
unfolding joined_on
joined_on-close sep [] buf = refl
joined_on-close sep (f ∷ []) buf = sym (append_assoc f (sep ∷ buf) (sep ∷ []))
joined_on-close sep (f ∷ g ∷ fs) buf =
    rw (joined_on-close sep (g ∷ fs) buf) (sym (append_assoc f _ (sep ∷ [])))

-- a round of the loop without a limit adds its rune to what the fields join to
joined_on-scan_rune :
    (sep : ℕ) (s : Scan) (r : ℕ)
    → joined_on sep (scan_end (scan_rune sep (negsuc 0) s r)) ≡ joined_on sep (scan_end s) ++ r ∷ []
unfolding scan_rune
joined_on-scan_rune sep s r =
    ground (arith, joined_on-grow sep s.fields s.buf (r ∷ []), joined_on-close sep s.fields s.buf)

joined_on-foldl :
    (sep : ℕ) (s : Scan) (text : Text)
    → joined_on sep (scan_end (foldl (scan_rune sep (negsuc 0)) s text))
      ≡ joined_on sep (scan_end s) ++ text
joined_on-foldl sep s [] = sym (append-nil _)
joined_on-foldl sep s (r ∷ text) =
    rw (joined_on-foldl sep (scan_rune sep (negsuc 0) s r) text, joined_on-scan_rune, append_assoc)

-- Without a limit, the fields joined on the separator are the text, whatever is quoted or escaped.
pub joined_on-split_fields :
    (text : Text) (sep : ℕ) → joined_on sep (split_fields text sep (negsuc 0)) ≡ text
unfolding split_fields
joined_on-split_fields [] sep = unfold joined_on in refl
joined_on-split_fields (c ∷ text) sep =
    joined_on-foldl sep scan_start (c ∷ text) ∙ unfold joined_on in refl
