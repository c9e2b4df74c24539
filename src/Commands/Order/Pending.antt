-- ===== src/Commands/Order/Pending.antt =====
-- The dependencies of a flag that are not yet placed, as the dependents of the others list them.
use joe_cli.Common.{
  Bool-cases, List, [], ap, arith, false, if◌then◌else◌, inl, inr, leb, length, ltb, not, refl, set,
  suc, true, zero, ℕ, ◌&&◌, ◌++◌, ◌+◌, ◌-◌, ◌<◌, ◌==◌, ◌∷◌, ◌≡◌,
}
use joe_cli.Commands.Order.{at, has}
use joe_cli.Commands.Order.Counts.{has-append, has-occ, occ, occ-append}

-- The rows are the dependents of the flags from `i` on.
unfoldable pub pending : ℕ → List ℕ → ℕ → List (List ℕ) → ℕ
pending d res i [] = 0
pending d res i (row ∷ rows) = (if has i res then 0 else occ d row) + pending d res (i + 1) rows

unfoldable pub row_at : List (List ℕ) → ℕ → ℕ → List ℕ
row_at rows i j = if leb i j then at [] rows (j - i) else []

pub row_at-here :
    (row : List ℕ) (rows : List (List ℕ)) (i j : ℕ) → i == j ≡ true → row_at (row ∷ rows) i j ≡ row
unfolding row_at
row_at-here row rows i j e =
    let p : j - i ≡ 0 = ground (arith, e) in
    let q : leb i j ≡ true = ground (arith, e) in rw (q, p) refl

pub row_at-past : (rows : List (List ℕ)) (i j : ℕ) → i == j ≡ true → row_at rows (i + 1) j ≡ []
unfolding row_at
row_at-past rows i j e = let q : leb (i + 1) j ≡ false = ground (arith, e) in rw q refl

pub row_at-there :
    (row : List ℕ) (rows : List (List ℕ)) (i j : ℕ)
    → i == j ≡ false
    → row_at (row ∷ rows) i j ≡ row_at rows (i + 1) j
unfolding row_at
row_at-there row rows i j e = elim (Bool-cases (ltb i j)) [
  | inl l ↦
      let p : j - i ≡ suc (j - (i + 1)) = ground (arith, l) in
      let q : leb i j ≡ true = ground (arith, l) in
      let r : leb (i + 1) j ≡ true = ground (arith, l) in rw (q, r, p) refl
  | inr l ↦
      let q : leb i j ≡ false = ground (arith, l, e) in
      let r : leb (i + 1) j ≡ false = ground (arith, l, e) in rw (q, r) refl
]

has-equal : (i j : ℕ) (xs : List ℕ) → i == j ≡ true → has i xs ≡ has j xs
has-equal i j xs e = ap (λ (n : ℕ). has n xs) (ground (arith, e))

pub row_at-nil : (i j : ℕ) → row_at [] i j ≡ []
unfolding row_at
row_at-nil i j = ground arith

pending-from :
    (d : ℕ) (res : List ℕ) (next i : ℕ) (rows : List (List ℕ))
    → has next res ≡ false
    → pending d (res ++ next ∷ []) i rows + occ d (row_at rows i next) ≡ pending d res i rows
unfolding pending
pending-from d res next i [] h = ground (arith, row_at-nil i next)
pending-from d res next i (row ∷ rows) h = elim (Bool-cases (i == next)) [
  | inl e ↦ rw (row_at-here row rows i next e) (
      ground (
        arith,
        e,
        h,
        has-append i res (next ∷ []),
        has-equal i next res e,
        ap (occ d) (row_at-past rows i next e),
        pending-from d res next (i + 1) rows h,
      ))
  | inr e ↦
      rw (row_at-there row rows i next e)
        (ground (arith, e, h, has-append i res (next ∷ []), pending-from d res next (i + 1) rows h))
]

-- Placing a flag takes its share from what is pending.
pub pending-append :
    (d : ℕ) (res : List ℕ) (next : ℕ) (rows : List (List ℕ))
    → has next res ≡ false
    → pending d (res ++ next ∷ []) 0 rows + occ d (at [] rows next) ≡ pending d res 0 rows
unfolding row_at
pending-append d res next rows h = ground (arith, pending-from d res next 0 rows h)

placed-from :
    (d : ℕ) (res : List ℕ) (i j : ℕ) (rows : List (List ℕ))
    → pending d res i rows ≡ 0
    → has d (row_at rows i j) ≡ true
    → has j res ≡ true
unfolding pending
placed-from d res i j [] e h = absurd (ground (arith, h, row_at-nil i j))
placed-from d res i j (row ∷ rows) e h = elim (Bool-cases (i == j)) [
  | inl q ↦
      ground (arith, e, rw (row_at-here row rows i j q) at h, has-occ d row, has-equal i j res q)
  | inr q ↦
      placed-from d res (i + 1) j rows (ground (arith, e)) (rw (row_at-there row rows i j q) at h)
]

-- With nothing pending, whatever lists the flag is placed.
pub placed-of :
    (d : ℕ) (res : List ℕ) (j : ℕ) (rows : List (List ℕ))
    → pending d res 0 rows ≡ 0
    → has d (at [] rows j) ≡ true
    → has j res ≡ true
unfolding row_at
placed-of d res j rows e h = placed-from d res 0 j rows e (ground (arith, h))

still-listed :
    (row : List ℕ) (rows : List (List ℕ)) (d i j : ℕ)
    → has d (row_at rows (i + 1) j) ≡ true
    → has d (row_at (row ∷ rows) i j) ≡ true
still-listed row rows d i j p = elim (Bool-cases (i == j)) [
  | inl e ↦ absurd (ground (arith, rw (row_at-past rows i j e) at p))
  | inr e ↦ rw (row_at-there row rows i j e) p
]

blocking-from :
    (d : ℕ) (res : List ℕ) (i : ℕ) (rows : List (List ℕ))
    → 0 < pending d res i rows
    → (j : ℕ) × (has d (row_at rows i j) ≡ true) × (has j res ≡ false)
unfolding pending
blocking-from d res i [] h = elim h [ ]
blocking-from d res i (row ∷ rows) h = elim (Bool-cases (has d row && not (has i res))) [
  | inl e ↦ (i, rw (row_at-here row rows i i (ground arith)) (ground (arith, e)), ground (arith, e))
  | inr e ↦
      let (j, p, q) = blocking-from d res (i + 1) rows (ground (arith, e, h, has-occ d row)) in
      (j, still-listed row rows d i j p, q)
]

-- With something pending, a flag that is not placed lists it.
pub blocking-of :
    (d : ℕ) (res : List ℕ) (rows : List (List ℕ))
    → 0 < pending d res 0 rows
    → (j : ℕ) × (has d (at [] rows j) ≡ true) × (has j res ≡ false)
unfolding row_at
blocking-of d res rows h = let (j, p, q) = blocking-from d res 0 rows h in (j, ground (arith, p), q)

-- an index at the end of a row adds one
pending-set_from :
    (d x i : ℕ) (rows : List (List ℕ)) (j : ℕ)
    → j < length rows
    → pending d [] i (set rows j (at [] rows j ++ x ∷ []))
      ≡ pending d [] i rows + (if x == d then 1 else 0)
unfolding pending
pending-set_from d x i [] j h = elim h [ ]
pending-set_from d x i (row ∷ rows) zero h = ground (arith, occ-append d row (x ∷ []))
pending-set_from d x i (row ∷ rows) (suc j) h =
    ground (arith, pending-set_from d x (i + 1) rows j (omega arith))

pub pending-set :
    (d x : ℕ) (rows : List (List ℕ)) (j : ℕ)
    → j < length rows
    → pending d [] 0 (set rows j (at [] rows j ++ x ∷ []))
      ≡ pending d [] 0 rows + (if x == d then 1 else 0)
pending-set d x rows j h = pending-set_from d x 0 rows j h
