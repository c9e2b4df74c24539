-- ===== src/Support/Fields.antt =====
-- support.go: `splitFields` and `SplitList`.
use mathlib.Core.List.{foldl}
use joe_cli.Common.{
  Bool, List, Option, Text, [], eqb_ℤ, false, if◌then◌else◌, leb, length, none, not, pos, some,
  true, ℕ, ℤ, ◌&&◌, ◌++◌, ◌==◌, ◌||◌, ◌∷◌,
}

-- the variables of the loop
pub record Scan : Type 0 where
  pub fields : List Text
  pub buf : Text
  pub quote : ℕ
  pub escaped : Bool

abbrev pub scan_start : Scan
scan_start = record { fields = []; buf = []; quote = 0; escaped = false }

-- One round of the loop. The `break` at the limit leaves the `switch` only, so the round ends with
-- the separator neither written nor acted on.
unfoldable pub scan_rune : ℕ → ℤ → Scan → ℕ → Scan
scan_rune sep n s r =
    let written = s.buf ++ r ∷ [] in
    if s.escaped
    then record s { buf = written; escaped = false }
    else if r == 92
    then record s { buf = written; escaped = true }
    else if not (s.quote == 0)
    then record s { buf = written; quote = if r == s.quote then 0 else s.quote }
    else if r == 39 || r == 34
    then record s { buf = written; quote = r }
    else if r == sep
    then if eqb_ℤ (pos (length s.fields)) n
      then s
      else record s { fields = s.fields ++ s.buf ∷ []; buf = [] }
    else record s { buf = written }

abbrev pub scan_end : Scan → List Text
scan_end s = s.fields ++ s.buf ∷ []

unfoldable pub split_fields : Text → ℕ → ℤ → List Text
unfolding scan_rune
split_fields [] sep n = []
split_fields s sep n = scan_end (foldl (scan_rune sep n) scan_start s)

-- `unicode.IsSpace` of an ASCII byte
abbrev pub is_space : ℕ → Bool
is_space c = leb 9 c && leb c 13 || c == 32

unfoldable pub trim_left : Text → Text
trim_left [] = []
trim_left (c ∷ s) = let rest = trim_left s in if is_space c then rest else c ∷ s

unfoldable pub trim_right : Text → Text
trim_right [] = []
trim_right (c ∷ s) = elim (trim_right s) [
  | [] ↦ if is_space c then [] else c ∷ []
  | d ∷ t ↦ c ∷ d ∷ t
]

-- `SplitList`; `none` is the panic on a separator that is not one rune
unfoldable pub split_list : Text → Text → ℤ → Option (List Text)
unfolding split_fields trim_left trim_right
split_list s (sep ∷ []) n = some (split_fields (trim_right (trim_left s)) sep n)
split_list s _ n = none
