-- ===== src/Commands/Suggest/Distance.antt =====
-- command.go: `levenshtein` against the recursive definition of the edit distance.
use mathlib.Core.List.{reverse, reverse_aux}
use joe_cli.Common.{
  List, Text, [], ap, arith, if◌then◌else◌, length, refl, suc, sym, ℕ, ◌+◌, ◌==◌, ◌∙◌, ◌∷◌, ◌≡◌,
}
use joe_cli.Commands.Suggest.{fill_rows, first_row, levenshtein, min, next_row}
use joe_cli.Commands.Order.{at}

-- The edit distance of two texts that are read from their first byte: to drop a byte, to insert one, or
-- to replace one costs 1.
unfoldable pub distance : Text → Text → ℕ
distance [] b = length b
distance (x ∷ a) [] = suc (length a)
distance (x ∷ a) (y ∷ b) =
    min (min (distance a (y ∷ b) + 1) (distance (x ∷ a) b + 1))
      (distance a b + (if x == y then 0 else 1))

-- The row of a reversed text: its distances to the beginnings of the other.
unfoldable row_of : Text → Text → Text → List ℕ
row_of a before [] = distance a before ∷ []
row_of a before (y ∷ b) = distance a before ∷ row_of a (y ∷ before) b

row_below :
    (x : ℕ) (a before b : Text)
    → row_of (x ∷ a) before b
      ≡ distance (x ∷ a) before ∷ next_row x (distance (x ∷ a) before) (row_of a before b) b
unfolding row_of next_row distance
row_below x a before [] = refl
row_below x a before (y ∷ []) = refl
row_below x a before (y ∷ z ∷ b) =
    ap (λ r. distance (x ∷ a) before ∷ r) (row_below x a (y ∷ before) (z ∷ b))

add_one : (n : ℕ) → n + 1 ≡ suc n
add_one n = omega arith

first_row_lem : (before b : Text) → first_row (length before) b ≡ row_of [] before b
unfolding row_of first_row distance
first_row_lem before [] = refl
first_row_lem before (y ∷ b) =
    ap (λ r. length before ∷ r)
      (ap (λ n. first_row n b) (add_one (length before)) ∙ first_row_lem (y ∷ before) b)

distance-nil : (a : Text) → distance a [] ≡ length a
unfolding distance
distance-nil [] = refl
distance-nil (x ∷ a) = refl

rows_lem :
    (seen a b : Text)
    → fill_rows (length seen + 1) (row_of seen [] b) a b ≡ row_of (reverse_aux a seen) [] b
unfolding fill_rows distance row_of
rows_lem seen [] b = refl
rows_lem seen (x ∷ a) b =
    ap (λ r. fill_rows (length seen + 1 + 1) r a b)
      (ap (λ n. n ∷ next_row x n (row_of seen [] b) b) (add_one (length seen))
        ∙ sym (row_below x seen [] b))
    ∙ ap (λ n. fill_rows (n + 1) (row_of (x ∷ seen) [] b) a b) (add_one (length seen))
    ∙ rows_lem (x ∷ seen) a b

at-row_of :
    (a before b : Text) → at 0 (row_of a before b) (length b) ≡ distance a (reverse_aux b before)
unfolding row_of
at-row_of a before [] = refl
at-row_of a before (y ∷ b) = at-row_of a (y ∷ before) b

-- The table that levenshtein fills row by row ends with the edit distance of the two texts, here
-- as the recursion on their last runes defines it.
pub levenshtein-distance : (a b : Text) → levenshtein a b ≡ distance (reverse a) (reverse b)
unfolding levenshtein
levenshtein-distance a b =
    ap (λ r. at 0 (fill_rows 1 r a b) (length b)) (first_row_lem [] b)
    ∙ ap (λ r. at 0 r (length b)) (rows_lem [] a b)
    ∙ at-row_of (reverse a) [] b
