-- ===== src/Commands/Suggest.antt =====
-- command.go: `levenshtein` and `suggestCommandNames`.
pub mod Distance
pub mod Ordered
use joe_cli.Common.{
  Bool, List, Text, [], false, if◌then◌else◌, leb, length, ltb, map, true, ℕ, ◌&&◌, ◌+◌, ◌/◌, ◌==◌,
  ◌||◌, ◌∷◌,
}
use joe_cli.Commands.Order.{at}

abbrev pub min : ℕ → ℕ → ℕ
min a b = if ltb b a then b else a

-- The inner loop: `curr[1:]` from `prev` and the value to the left of it.
unfoldable pub next_row : ℕ → ℕ → List ℕ → Text → List ℕ
next_row x left (diagonal ∷ above ∷ prev) (y ∷ b) =
    let here = min (min (above + 1) (left + 1)) (diagonal + (if x == y then 0 else 1)) in
    here ∷ next_row x here (above ∷ prev) b
next_row x left _ _ = []

-- The outer loop: `prev` behind the runes of the first text, the row `i` and those after it.
unfoldable pub fill_rows : ℕ → List ℕ → Text → Text → List ℕ
fill_rows i prev [] b = prev
fill_rows i prev (x ∷ a) b = fill_rows (i + 1) (i ∷ next_row x i prev b) a b

unfoldable pub first_row : ℕ → Text → List ℕ
first_row j [] = j ∷ []
first_row j (y ∷ b) = j ∷ first_row (j + 1) b

unfoldable pub levenshtein : Text → Text → ℕ
levenshtein a b = at 0 (fill_rows 1 (first_row 0 b) a b) (length b)

-- `cmp.Compare(s, t) < 0` of texts
unfoldable pub ltb_text : Text → Text → Bool
ltb_text [] [] = false
ltb_text [] (d ∷ t) = true
ltb_text (c ∷ s) [] = false
ltb_text (c ∷ s) (d ∷ t) = ltb c d || (c == d && ltb_text s t)

pub record Scored : Type 0 where
  pub name : Text
  pub dist : ℕ

abbrev pub ltb_scored : Scored → Scored → Bool
ltb_scored x y = ltb x.dist y.dist || (x.dist == y.dist && ltb_text x.name y.name)

-- the candidates within the threshold
unfoldable pub scored_within : ℕ → Text → List Text → List Scored
scored_within threshold name [] = []
scored_within threshold name (c ∷ cs) =
    let rest = scored_within threshold name cs in
    let dist = levenshtein name c in
    if leb dist threshold then record { name = c; dist = dist } ∷ rest else rest

-- `slices.SortFunc`; equal elements are the same, so any sort gives this list
unfoldable pub insert_scored : Scored → List Scored → List Scored
insert_scored x [] = x ∷ []
insert_scored x (y ∷ ys) =
    let rest = insert_scored x ys in if ltb_scored y x then y ∷ rest else x ∷ y ∷ ys

unfoldable pub sort_scored : List Scored → List Scored
sort_scored [] = []
sort_scored (x ∷ xs) = insert_scored x (sort_scored xs)

unfoldable pub suggest_command_names : Text → List Text → List Text
suggest_command_names [] candidates = []
suggest_command_names (c ∷ name) candidates =
    map (λ s. s.name)
      (sort_scored (scored_within (length (c ∷ name) / 2 + 1) (c ∷ name) candidates))
