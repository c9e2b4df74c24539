-- ===== src/Commands/Order/Cycles.antt =====
-- `topoSortFlags` where the dependencies form a cycle, and where they do not.
use joe_cli.Commands.Order.Inv.{Inv-Below}
use joe_cli.Common.{
  All, Bool-cases, List, [], ap, arith, false, if◌then◌else◌, inl, inr, length, ltb, not, refl, suc,
  sym, true, zero, ℕ, ◌&&◌, ◌<◌, ◌∙◌, ◌∷◌, ◌≡◌,
}
use joe_cli.Commands.Order.{
  OrderedFlag, at, blocked_of, conclude, cyclic, graph_of, has, indices_where, ordered,
  topo_sort_flags,
}
use joe_cli.Commands.Order.Counts.{Below, has-occ, length-eq-bound, missing, occ, occ-indices_where}
use joe_cli.Commands.Order.Pending.{blocking-of}
use joe_cli.Commands.Order.Links.{IsInRange, graph_of-has}
use joe_cli.Commands.Order.Refines.{Sorting, topo_sort_flags-Sorting}

-- The dependencies have no cycle: each flag stands higher than those it depends on.
abbrev pub IsAcyclic : List (List ℕ) → (ℕ → ℕ) → Type 0
IsAcyclic deps height = (x j : ℕ) → has j (at [] deps x) ≡ true → height j < height x

module _ (flags : List OrderedFlag) (deps : List (List ℕ)) (r : IsInRange (length flags) deps)
    (o : Sorting flags deps) where
  -- a flag that is not placed waits for another that is not placed
  waits :
      (x : ℕ)
      → x < length flags
      → has x o.res ≡ false
      → (j : ℕ) × (j < length flags) × (has j (at [] deps x) ≡ true) × (has j o.res ≡ false)
  waits x l h =
      let g = graph_of flags deps in
      let (j, p, q) =
        blocking-of x o.res g.dependents
          (ground (arith, h, l, has-occ x o.res, o.ends.inv.counted x, o.ends.inv.split x)) in
      let e = graph_of-has flags deps x j r in
      (j, in_range deps x j r.on_flags (sym e ∙ p), sym e ∙ p, q)
    where
      below :
          (js : List ℕ) (j : ℕ)
          → All (λ k. k < length flags) js
          → has j js ≡ true
          → j < length flags
      below [] j h e = absurd (ground arith)
      below (k ∷ js) j h e = ground (arith, h.0, below js j h.1)

      in_range :
          (deps : List (List ℕ)) (x j : ℕ)
          → All (All (λ k. k < length flags)) deps
          → has j (at [] deps x) ≡ true
          → j < length flags
      in_range [] x j h e = absurd (ground arith)
      in_range (js ∷ deps) zero j h e = below js j h.0 e
      in_range (js ∷ deps) (suc x) j h e = in_range deps x j h.1 e

  acyclic-placed :
      (height : ℕ → ℕ)
      → IsAcyclic deps height
      → (n x : ℕ) → height x < n
      → x < length flags
      → has x o.res ≡ true
  acyclic-placed height a zero x h l = elim h [ ]
  acyclic-placed height a (suc n) x h l = elim (Bool-cases (has x o.res)) [
    | inl e ↦ e
    | inr e ↦
        let (j, p, q, m) = waits x l e in
        absurd (ground (arith, m, acyclic-placed height a n j (omega (arith, a x j q)) p))
  ]

  -- an unplaced flag has a count left
  blocked_iff :
      (x : ℕ) → has x (blocked_of o.remaining) ≡ (ltb x (length flags) && not (has x o.res))
  unfolding blocked_of
  blocked_iff x = ground (
    arith,
    has-occ x (indices_where (λ k. ltb 0 k) 0 o.remaining),
    occ-indices_where (λ k. ltb 0 k) x o.remaining,
    o.ends.inv.sized,
    o.ends.inv.split x,
    has-occ x o.res,
  )

  placed-Below : Below (length flags) o.res
  placed-Below d p =
      Inv-Below (length flags) (graph_of flags deps).dependents o.remaining [] o.res d o.ends.inv
        (omega arith)

-- Where topoSortFlags reports a cycle, some flag is named, and each flag that is named depends
-- on one that is named. It holds where the dependencies are indices of flags.
pub topo_sort_flags-cyclic :
    (flags : List OrderedFlag) (deps : List (List ℕ)) (names : List ℕ)
    → IsInRange (length flags) deps
    → topo_sort_flags flags deps ≡ cyclic names
    → ((x : ℕ) × (has x names ≡ true))
      × ((x : ℕ)
          → has x names ≡ true
          → (x < length flags) × ((j : ℕ) × (has j (at [] deps x) ≡ true) × (has j names ≡ true)))
unfolding conclude
topo_sort_flags-cyclic flags deps names r e =
    elim (Bool-cases (ltb (length o.res) (length flags))) [
      | inl t ↦
          let q : blocked_of o.remaining ≡ names = ground (arith, o.runs, e, t) in
          let named = λ (x : ℕ). sym (ap (has x) q) ∙ blocked_iff flags deps r o x in
          let (d, l, m) =
            missing (length flags) o.res (placed-Below flags deps r o) (ground (arith, t)) in
          (
            (d, ground (arith, named d, l, m)),
            λ x h.
                let l = named x in
                let (j, i, p, k) =
                  waits flags deps r o x (ground (arith, h, l)) (ground (arith, h, l)) in
                (ground (arith, h, l), (j, p, ground (arith, named j, i, k))),
          )
      | inr t ↦ absurd (ground (arith, o.runs, e, t))
    ]
  where
    o : Sorting flags deps
    o = topo_sort_flags-Sorting flags deps r

-- Where each flag can be given a height above those of the flags that it depends on,
-- topoSortFlags gives an order, in which each flag stands once. It holds where the dependencies
-- are indices of flags.
pub topo_sort_flags-IsAcyclic :
    (flags : List OrderedFlag) (deps : List (List ℕ)) (height : ℕ → ℕ)
    → IsInRange (length flags) deps
    → IsAcyclic deps height
    → (order : List ℕ) × (topo_sort_flags flags deps ≡ ordered order)
      × ((x : ℕ) → occ x order ≡ (if ltb x (length flags) then 1 else 0))
unfolding conclude
topo_sort_flags-IsAcyclic flags deps height r a =
    let t : ltb (length o.res) (length flags) ≡ false = ground (
      arith,
      length-eq-bound (length flags) o.res (placed-Below flags deps r o)
          (λ x l. ground (arith, placed_once x, l)),
    ) in
    (o.res, o.runs ∙ rw t refl, placed_once)
  where
    o : Sorting flags deps
    o = topo_sort_flags-Sorting flags deps r

    placed_once : (x : ℕ) → occ x o.res ≡ (if ltb x (length flags) then 1 else 0)
    placed_once x = ground (
      arith,
      acyclic-placed flags deps r o height a (suc (height x)) x (omega arith),
      has-occ x o.res,
      o.ends.inv.split x,
    )
