-- ===== src/Commands/Order/Counts.antt =====
-- How often an index occurs in a list of indices.
use mathlib.Core.Path.{subst}
use joe_cli.Common.{
  ==_iff, Bool, Bool-cases, List, [], ap, arith, false, if◌then◌else◌, inl, inr, length, ltb, refl,
  set, suc, sym, zero, ℕ, ◌&&◌, ◌++◌, ◌+◌, ◌<◌, ◌==◌, ◌||◌, ◌∙◌, ◌∷◌, ◌≡◌, ◌≤◌,
}
use joe_cli.Commands.Order.{at, has, indices_where, remove_at}

abbrev pub occ : ℕ → List ℕ → ℕ
occ d [] = 0
occ d (x ∷ xs) = (if x == d then 1 else 0) + occ d xs

pub occ-append : (d : ℕ) (xs ys : List ℕ) → occ d (xs ++ ys) ≡ occ d xs + occ d ys
occ-append d [] ys = omega arith
occ-append d (x ∷ xs) ys = omega (arith, occ-append d xs ys)

pub has-occ : (d : ℕ) (xs : List ℕ) → has d xs ≡ ltb 0 (occ d xs)
has-occ d [] = refl
has-occ d (x ∷ xs) = ground (arith, has-occ d xs)

pub has-append : (d : ℕ) (xs ys : List ℕ) → has d (xs ++ ys) ≡ (has d xs || has d ys)
has-append d [] ys = refl
has-append d (x ∷ xs) ys = ground (arith, has-append d xs ys)

module _ {ℓ} {A : Type ℓ} (z : A) where
  pub at-set :
      (xs : List A) (i j : ℕ) (v : A)
      → i < length xs
      → at z (set xs i v) j ≡ (if i == j then v else at z xs j)
  at-set [] i j v h = elim h [ ]
  at-set (x ∷ xs) zero zero v h = refl
  at-set (x ∷ xs) zero (suc j) v h = ground arith
  at-set (x ∷ xs) (suc i) zero v h = ground arith
  at-set (x ∷ xs) (suc i) (suc j) v h = ground (arith, at-set xs i j v)

  pub at-beyond : (xs : List A) (i : ℕ) → length xs ≤ i → at z xs i ≡ z
  at-beyond [] i h = refl
  at-beyond (x ∷ xs) zero h = absurd (omega arith)
  at-beyond (x ∷ xs) (suc i) h = at-beyond xs i (omega arith)

pub occ-remove_at :
    (d : ℕ) (xs : List ℕ) (i : ℕ)
    → i < length xs
    → occ d (remove_at xs i) + (if at 0 xs i == d then 1 else 0) ≡ occ d xs
unfolding remove_at
occ-remove_at d [] i h = elim h [ ]
occ-remove_at d (x ∷ xs) zero h = omega arith
occ-remove_at d (x ∷ xs) (suc i) h = omega (arith, occ-remove_at d xs i (omega arith))

-- the occurrences of the indices below `n`
total : ℕ → List ℕ → ℕ
total zero xs = 0
total (suc n) xs = total n xs + occ n xs

total-nil : (n : ℕ) → total n [] ≡ 0
unfolding total
total-nil zero = refl
total-nil (suc n) = omega (arith, total-nil n)

total-cons : (n x : ℕ) (xs : List ℕ) → total n (x ∷ xs) ≡ total n xs + (if ltb x n then 1 else 0)
unfolding total
total-cons zero x xs = ground arith
total-cons (suc n) x xs = ground (arith, total-cons n x xs)

-- Where every element is below `n`.
abbrev pub Below : ℕ → List ℕ → Type 0
Below n xs = (d : ℕ) → 0 < occ d xs → d < n

length-total : (n : ℕ) (xs : List ℕ) → Below n xs → length xs ≡ total n xs
length-total n [] h = omega (arith, total-nil n)
length-total n (x ∷ xs) h =
    ground (arith, total-cons n x xs, length-total n xs (λ d p. h d (ground arith)), h x)

total-le : (n : ℕ) (xs : List ℕ) → ((d : ℕ) → occ d xs ≤ 1) → total n xs ≤ n
unfolding total
total-le zero xs h = omega arith
total-le (suc n) xs h = omega (arith, total-le n xs h, h n)

total-eq : (n : ℕ) (xs : List ℕ) → ((d : ℕ) → d < n → occ d xs ≡ 1) → total n xs ≡ n
unfolding total
total-eq zero xs h = refl
total-eq (suc n) xs h = omega (arith, total-eq n xs (λ d p. h d (omega arith)), h n (omega arith))

pub length-le-bound : (n : ℕ) (xs : List ℕ) → Below n xs → ((d : ℕ) → occ d xs ≤ 1) → length xs ≤ n
length-le-bound n xs b h = omega (arith, length-total n xs b, total-le n xs h)

pub length-eq-bound :
    (n : ℕ) (xs : List ℕ) → Below n xs → ((d : ℕ) → d < n → occ d xs ≡ 1) → length xs ≡ n
length-eq-bound n xs b h = omega (arith, length-total n xs b, total-eq n xs h)

total-missing : (n : ℕ) (xs : List ℕ) → total n xs < n → (d : ℕ) × (d < n) × (occ d xs ≡ 0)
unfolding total
total-missing zero xs h = elim h [ ]
total-missing (suc n) xs h = elim (Bool-cases (occ n xs == 0)) [
  | inl e ↦ (n, omega arith, ground (arith, e))
  | inr e ↦ let (d, p, q) = total-missing n xs (ground (arith, h, e)) in (d, omega (arith, p), q)
]

-- An index is missing from a list that is shorter than the bound.
pub missing :
    (n : ℕ) (xs : List ℕ) → Below n xs → length xs < n → (d : ℕ) × (d < n) × (has d xs ≡ false)
missing n xs b l =
    let (d, p, q) = total-missing n xs (omega (arith, l, length-total n xs b)) in
    (d, p, ground (arith, q, has-occ d xs))

total-full :
    (n d : ℕ) (xs : List ℕ) → ((d : ℕ) → occ d xs ≤ 1) → n ≤ total n xs → d < n → 0 < occ d xs
unfolding total
total-full zero d xs h l p = elim p [ ]
total-full (suc n) d xs h l p = elim (Bool-cases (d == n)) [
  | inl e ↦
      subst (λ (k : ℕ). 0 < occ k xs) (sym ((==_iff d n).0 e)) (omega (arith, l, total-le n xs h))
  | inr e ↦ total-full n d xs h (omega (arith, l, h n)) (ground (arith, e))
]

-- No index is missing from a list that is as long as the bound.
pub full-occ :
    (n d : ℕ) (xs : List ℕ)
    → Below n xs
    → ((d : ℕ) → occ d xs ≤ 1)
    → length xs ≡ n
    → d < n
    → 0 < occ d xs
full-occ n d xs b h l p = total-full n d xs h (omega (arith, l, length-total n xs b)) p

occ-indices_before :
    (p : ℕ → Bool) (d i : ℕ) (rs : List ℕ) → d < i → occ d (indices_where p i rs) ≡ 0
unfolding indices_where
occ-indices_before p d i [] h = refl
occ-indices_before p d i (r ∷ rs) h = elim (Bool-cases (p r)) [
  | inl e ↦ rw e (ground (arith, occ-indices_before p d (i + 1) rs (omega arith)))
  | inr e ↦ rw e (occ-indices_before p d (i + 1) rs (omega arith))
]

occ-indices_from :
    (p : ℕ → Bool) (i k : ℕ) (rs : List ℕ)
    → occ (i + k) (indices_where p i rs) ≡ (if ltb k (length rs) && p (at 0 rs k) then 1 else 0)
unfolding indices_where
occ-indices_from p i k [] = ground arith
occ-indices_from p i zero (r ∷ rs) =
    let none_later = occ-indices_before p (i + 0) (i + 1) rs (omega arith) in
    elim (Bool-cases (p r)) [
      | inl e ↦ rw e (ground (arith, none_later))
      | inr e ↦ rw e (ground (arith, none_later))
    ]
occ-indices_from p i (suc k) (r ∷ rs) =
    let later : occ (i + suc k) (indices_where p (i + 1) rs) ≡ _ =
      ap (λ (n : ℕ). occ n (indices_where p (i + 1) rs)) (omega arith)
      ∙ occ-indices_from p (i + 1) k rs in
    elim (Bool-cases (p r)) [
      | inl e ↦ rw e (ground (arith, later))
      | inr e ↦ rw e (later ∙ ground arith)
    ]

pub occ-indices_where :
    (p : ℕ → Bool) (d : ℕ) (rs : List ℕ)
    → occ d (indices_where p 0 rs) ≡ (if ltb d (length rs) && p (at 0 rs d) then 1 else 0)
occ-indices_where p d rs =
    ap (λ (n : ℕ). occ n (indices_where p 0 rs)) (omega arith) ∙ occ-indices_from p 0 d rs
