-- ===== src/Commands/Order/Inv.antt =====
-- The loop of `topoSortFlags`: what holds of its variables at the head of each round.
use joe_cli.Commands.Order.Best.{chosen, chosen-available, occ-chosen}
use joe_cli.Commands.Order.Pending.{pending, pending-append}
use joe_cli.Common.{
  ==_iff, Bool, Bool-cases, List, [], ap, arith, false, if◌then◌else◌, inl, inr, length, length-set,
  ltb, refl, set, suc, true, zero, ℕ, ◌&&◌, ◌++◌, ◌+◌, ◌-◌, ◌<◌, ◌==◌, ◌∙◌, ◌∷◌, ◌≡◌, ◌≤◌,
}
use joe_cli.Commands.Order.{OrderedFlag, at, best_from, has, release, remove_at}
use joe_cli.Commands.Order.Counts.{at-set, has-occ, occ, occ-append}

-- What the release of the dependents `ds` leaves, for the flag `d`.
record Released (ds remaining available : List ℕ) (d : ℕ) : Type 0 where
  counts : at 0 (release ds remaining available).0 d + occ d ds ≡ at 0 remaining d
  becomes :
      occ d (release ds remaining available).1
      ≡ occ d available
        + (if ltb 0 (occ d ds) && at 0 (release ds remaining available).0 d == 0 then 1 else 0)

length-release :
    (ds remaining available : List ℕ) → length (release ds remaining available).0 ≡ length remaining
unfolding release
length-release [] remaining available = refl
length-release (d ∷ ds) remaining available = length-release ds _ _ ∙ length-set remaining d _

pub at-pos : (xs : List ℕ) (i : ℕ) → 0 < at 0 xs i → i < length xs
at-pos [] i h = elim h [ ]
at-pos (x ∷ xs) zero h = omega arith
at-pos (x ∷ xs) (suc i) h = omega (arith, at-pos xs i h)

-- the count of one dependent `e` behind its release
at-decrement :
    (e : ℕ) (remaining : List ℕ) (d : ℕ)
    → 0 < at 0 remaining e
    → at 0 (set remaining e (at 0 remaining e - 1)) d + (if e == d then 1 else 0) ≡ at 0 remaining d
at-decrement e remaining d p =
    let q = at-set 0 remaining e d (at 0 remaining e - 1) (at-pos remaining e p) in
    elim (Bool-cases (e == d)) [
      | inl r ↦ ground (arith, r, q, ap (at 0 remaining) ((==_iff e d).0 r), p)
      | inr r ↦ ground (arith, r, q)
    ]

occ-when :
    (d e : ℕ) (b : Bool) (available : List ℕ)
    → occ d (if b then available ++ e ∷ [] else available)
      ≡ occ d available + (if b && e == d then 1 else 0)
occ-when d e true available = occ-append d available (e ∷ []) ∙ ground arith
occ-when d e false available = ground arith

release-Released :
    (ds remaining available : List ℕ)
    → ((d : ℕ) → occ d ds ≤ at 0 remaining d)
    → (d : ℕ) → Released ds remaining available d
unfolding release
release-Released [] remaining available h d = record { counts = omega arith; becomes = omega arith }
release-Released (e ∷ ds) remaining available h d =
    let p : 0 < at 0 remaining e = ground (arith, h e) in
    let left = at 0 remaining e - 1 in
    let ih =
      release-Released ds (set remaining e left)
        (if left == 0 then available ++ e ∷ [] else available)
        (λ k. omega (arith, h k, at-decrement e remaining k p)) d in
    record {
      counts = omega (arith, ih.counts, at-decrement e remaining d p);
      becomes =
          ih.becomes
          ∙ ground (
            arith,
            ih.counts,
            at-decrement e remaining d p,
            occ-when d e (left == 0) available,
            at-equal e remaining d,
          );
    }
  where
    at-equal :
        (e : ℕ) (remaining : List ℕ) (d : ℕ) → e == d ≡ true → at 0 remaining e ≡ at 0 remaining d
    at-equal e remaining d r = ap (at 0 remaining) ((==_iff e d).0 r)

-- At the head of a round: each flag counts the dependencies that are not placed, and it is available
-- or placed, once, exactly if there are none.
pub record Inv (n : ℕ) (rows : List (List ℕ)) (remaining available res : List ℕ) : Type 0 where
  pub sized : length remaining ≡ n
  pub counted : (d : ℕ) → at 0 remaining d ≡ pending d res 0 rows
  pub split :
      (d : ℕ) → occ d available + occ d res ≡ (if ltb d n && at 0 remaining d == 0 then 1 else 0)

module _ (n : ℕ) (rows : List (List ℕ)) (remaining available res : List ℕ) where
  pub Inv-available :
      (d : ℕ)
      → Inv n rows remaining available res
      → 0 < occ d available
      → (d < n) × (pending d res 0 rows ≡ 0) × (has d res ≡ false)
  Inv-available d v o = ground (arith, v.split d, v.counted d, has-occ d res)

  pub Inv-once : (d : ℕ) → Inv n rows remaining available res → occ d available + occ d res ≤ 1
  Inv-once d v = ground (arith, v.split d)

  pub Inv-Below :
      (d : ℕ) → Inv n rows remaining available res → 0 < occ d available + occ d res → d < n
  Inv-Below d v o = ground (arith, v.split d)

-- a round keeps it so
module _ (n : ℕ) (flags : List OrderedFlag) (rows : List (List ℕ)) (remaining : List ℕ) where
  abbrev pub played : ℕ → List ℕ → List ℕ × List ℕ
  played a as' =
      release (at [] rows (chosen flags a as')) remaining
        (remove_at (a ∷ as') (best_from flags (a ∷ as') 0 0 as'))

  pub played-Inv :
      (a : ℕ) (as' res : List ℕ)
      → Inv n rows remaining (a ∷ as') res
      → Inv n rows (played a as').0 (played a as').1 (res ++ chosen flags a as' ∷ [])
  played-Inv a as' res v =
      let next = chosen flags a as' in
      let new =
        Inv-available n rows remaining (a ∷ as') res next v (chosen-available flags a as') in
      let share = λ (d : ℕ). pending-append d res next rows new.2 in
      let after =
        release-Released (at [] rows next) remaining
          (remove_at (a ∷ as') (best_from flags (a ∷ as') 0 0 as'))
          (λ d. omega (arith, share d, v.counted d)) in
      record {
        sized = length-release (at [] rows next) remaining _ ∙ v.sized;
        counted = λ d. omega (arith, (after d).counts, share d, v.counted d);
        split = λ d. ground (
          arith,
          (after d).counts,
          (after d).becomes,
          occ-chosen flags a as' d,
          occ-append d res (next ∷ []),
          v.split d,
          at-pos remaining d,
          v.sized,
        );
      }
