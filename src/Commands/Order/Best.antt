-- ===== src/Commands/Order/Best.antt =====
-- The choice among the available flags, and the release of the dependents of the flag that was taken.
use mathlib.Core.Path.{subst}
use joe_cli.Commands.Order.Counts.{occ, occ-remove_at}
use joe_cli.Common.{
  ==_iff, All, All-append, Bool, Bool-cases, List, [], append-nil, append_assoc, arith, eqb_ℤ,
  false, if◌then◌else◌, inl, inr, length, length-append, ltb, negsuc, pos, refl, sym, true, ℕ, ℤ,
  ◌&&◌, ◌++◌, ◌+◌, ◌<◌, ◌==◌, ◌||◌, ◌∙◌, ◌∷◌, ◌≡◌,
}
use joe_cli.Commands.Order.{OrderedFlag, at, best_from, better, class_at, ltb_ℤ, remove_at}

pub better_trans :
    (flags : List OrderedFlag) (x y z : ℕ)
    → better flags x y ≡ false
    → better flags y z ≡ false
    → better flags x z ≡ false
unfolding better
better_trans flags x y z p q =
    lexicographic (class_at flags x) (class_at flags y) (class_at flags z) p q
  where
    lexicographic :
        (a b c : ℤ)
        → (ltb_ℤ a b || (eqb_ℤ a b && ltb x y)) ≡ false
        → (ltb_ℤ b c || (eqb_ℤ b c && ltb y z)) ≡ false
        → (ltb_ℤ a c || (eqb_ℤ a c && ltb x z)) ≡ false
    lexicographic (pos a) (pos b) (pos c) p q = ground arith
    lexicographic (pos a) (pos b) (negsuc c) p q = refl
    lexicographic (pos a) (negsuc b) (pos c) p q = absurd (cc)
    lexicographic (pos a) (negsuc b) (negsuc c) p q = refl
    lexicographic (negsuc a) (pos b) c p q = absurd (cc)
    lexicographic (negsuc a) (negsuc b) (pos c) p q = absurd (cc)
    lexicographic (negsuc a) (negsuc b) (negsuc c) p q = ground arith

-- Of two flags that differ one is better.
pub better-total :
    (flags : List OrderedFlag) (x y : ℕ)
    → better flags x y ≡ false
    → better flags y x ≡ false
    → x ≡ y
unfolding better
better-total flags x y p q = antisymmetric (class_at flags x) (class_at flags y) p q
  where
    antisymmetric :
        (a b : ℤ)
        → (ltb_ℤ a b || (eqb_ℤ a b && ltb x y)) ≡ false
        → (ltb_ℤ b a || (eqb_ℤ b a && ltb y x)) ≡ false
        → x ≡ y
    antisymmetric (pos a) (pos b) p q = ground arith
    antisymmetric (pos a) (negsuc b) p q = absurd (cc)
    antisymmetric (negsuc a) (pos b) p q = absurd (cc)
    antisymmetric (negsuc a) (negsuc b) p q = ground arith

better_irrefl : (flags : List OrderedFlag) (x : ℕ) → better flags x x ≡ false
unfolding better
better_irrefl flags x = irreflexive (class_at flags x)
  where
    irreflexive : (a : ℤ) → (ltb_ℤ a a || (eqb_ℤ a a && ltb x x)) ≡ false
    irreflexive (pos a) = ground arith
    irreflexive (negsuc a) = ground arith

better-asym :
    (flags : List OrderedFlag) (x y : ℕ) → better flags x y ≡ true → better flags y x ≡ false
unfolding better
better-asym flags x y p = asymmetric (class_at flags x) (class_at flags y) p
  where
    asymmetric :
        (a b : ℤ)
        → (ltb_ℤ a b || (eqb_ℤ a b && ltb x y)) ≡ true
        → (ltb_ℤ b a || (eqb_ℤ b a && ltb y x)) ≡ false
    asymmetric (pos a) (pos b) p = ground arith
    asymmetric (pos a) (negsuc b) p = absurd (cc)
    asymmetric (negsuc a) (pos b) p = refl
    asymmetric (negsuc a) (negsuc b) p = ground arith

-- None of the flags is better than `x`.
abbrev pub NoneBetter : List OrderedFlag → ℕ → List ℕ → Type 0
NoneBetter flags x = All (λ i. better flags i x ≡ false)

at-append : (xs ys : List ℕ) (y : ℕ) → at 0 (xs ++ y ∷ ys) (length xs) ≡ y
at-append [] ys y = refl
at-append (x ∷ xs) ys y = at-append xs ys y

better-NoneBetter :
    (flags : List OrderedFlag) (x y : ℕ) (is : List ℕ)
    → better flags y x ≡ true
    → NoneBetter flags x is
    → NoneBetter flags y is
better-NoneBetter flags x y [] p h = tt
better-NoneBetter flags x y (i ∷ is) p h =
    (better_trans flags i x y h.0 (better-asym flags y x p), better-NoneBetter flags x y is p h.1)

record IsBest (flags : List OrderedFlag) (available : List ℕ) (best : ℕ) : Type 0 where
  inside : best < length available
  first : NoneBetter flags (at 0 available best) available

best_from-IsBest :
    (flags : List OrderedFlag) (available before is : List ℕ) (best k : ℕ)
    → available ≡ before ++ is
    → length before ≡ k + 1
    → best < length before
    → NoneBetter flags (at 0 available best) before
    → IsBest flags available (best_from flags available best k is)
unfolding best_from
best_from-IsBest flags available before [] best k q e l h =
    subst
      (λ xs.
        (best < length xs) × NoneBetter flags (at 0 available best) xs
        → IsBest flags available best)
      (q ∙ append-nil before) (λ g. record { inside = g.0; first = g.1 }) (l, h)
best_from-IsBest flags available before (i ∷ is) best k q e l h =
    let i_at : at 0 available (k + 1) ≡ i = rw (← e) (rw q (at-append before is i)) in
    let longer = length-append before (i ∷ []) in
    elim (Bool-cases (better flags i (at 0 available best))) [
      | inl b ↦ rw b (
          best_from-IsBest flags available (before ++ i ∷ []) is (k + 1) (k + 1)
            (q ∙ sym (append_assoc before (i ∷ []) is)) (omega (arith, e, longer))
            (omega (arith, e, longer))
            (rw i_at (
              All-append (λ j. better flags j i ≡ false) before (i ∷ [])
                (better-NoneBetter flags (at 0 available best) i before b h)
                (better_irrefl flags i, tt))))
      | inr b ↦ rw b (
          best_from-IsBest flags available (before ++ i ∷ []) is best (k + 1)
            (q ∙ sym (append_assoc before (i ∷ []) is)) (omega (arith, e, longer))
            (omega (arith, l, longer))
            (All-append (λ j. better flags j (at 0 available best) ≡ false) before (i ∷ []) h
              (b, tt)))
    ]

All-occ :
    (P : ℕ → Bool) (x : ℕ) (xs : List ℕ) → All (λ i. P i ≡ false) xs → 0 < occ x xs → P x ≡ false
All-occ P x [] h o = elim o [ ]
All-occ P x (y ∷ xs) h o = elim (Bool-cases (y == x)) [
  | inl e ↦ subst (λ (z : ℕ). P z ≡ false) ((==_iff y x).0 e) h.0
  | inr e ↦ All-occ P x xs h.1 (ground (arith, e))
]

-- The flag that the loop chooses is one of those available, and none of them is better.
module _ (flags : List OrderedFlag) (a : ℕ) (as' : List ℕ) where
  unfoldable pub chosen : ℕ
  chosen = at 0 (a ∷ as') (best_from flags (a ∷ as') 0 0 as')

  best : IsBest flags (a ∷ as') (best_from flags (a ∷ as') 0 0 as')
  best =
      best_from-IsBest flags (a ∷ as') (a ∷ []) as' 0 0 refl refl (omega arith)
        (better_irrefl flags a, tt)

  pub occ-chosen :
      (d : ℕ)
      → occ d (remove_at (a ∷ as') (best_from flags (a ∷ as') 0 0 as'))
          + (if chosen == d then 1 else 0)
        ≡ occ d (a ∷ as')
  unfolding chosen
  occ-chosen d = occ-remove_at d (a ∷ as') _ best.inside

  pub chosen-available : 0 < occ chosen (a ∷ as')
  chosen-available = ground (arith, occ-chosen chosen)

  pub better-chosen : (y : ℕ) → 0 < occ y (a ∷ as') → better flags y chosen ≡ false
  unfolding chosen
  better-chosen y o = All-occ (λ z. better flags z chosen) y (a ∷ as') best.first o
