-- ===== src/Commands/Order/Refines.antt =====
-- `topoSortFlags` against the order that the flags should have.
use mathlib.Core.Path.{subst}
use joe_cli.Commands.Order.Links.{IsCounted, IsInRange, graph_of-IsCounted, graph_of-has}
use joe_cli.Common.{
  Bool-cases, List, [], ap, arith, false, if◌then◌else◌, inl, inr, length, length-append, ltb, refl,
  some, suc, sym, true, zero, ℕ, ◌++◌, ◌+◌, ◌<◌, ◌==◌, ◌↔◌, ◌∙◌, ◌∷◌, ◌≡◌, ◌≢◌, ◌≤◌,
}
use joe_cli.Commands.Order.{
  Graph, OrderedFlag, at, available_of, conclude, graph_of, has, kahn, ordered, out_of_fuel,
  topo_sort_flags,
}
use joe_cli.Commands.Order.Counts.{full-occ, has-occ, length-le-bound, occ, occ-indices_where}
use joe_cli.Commands.Order.Pending.{blocking-of, pending, placed-of}
use joe_cli.Commands.Order.Best.{better-chosen, chosen, chosen-available}
use joe_cli.Commands.Order.Inv.{Inv, Inv-Below, Inv-available, Inv-once, played, played-Inv}
use joe_cli.Commands.Order.Greedy.{Begins, Greedy, Greedy-Begins, IsReady, place, start}

-- What the loop comes to.
pub record Ends (flags : List OrderedFlag) (deps rows : List (List ℕ)) (r : List ℕ × List ℕ)
    : Type 0 where
  pub greedy : Greedy flags deps r.0
  pub inv : Inv (length flags) rows r.1 [] r.0

module _ (flags : List OrderedFlag) (deps rows : List (List ℕ))
    (link : (x k : ℕ) → has x (at [] rows k) ≡ has k (at [] deps x)) where
  available-IsReady :
      (remaining available res : List ℕ) (x : ℕ)
      → Inv (length flags) rows remaining available res
      → 0 < occ x available
      → IsReady flags deps res x
  available-IsReady remaining available res x v o =
      let (p, q, r) = Inv-available (length flags) rows remaining available res x v o in
      record { inside = p; unplaced = r; met = λ j h. placed-of x res j rows q (link x j ∙ h) }

  pending-met :
      (res : List ℕ) (x : ℕ)
      → ((j : ℕ) → has j (at [] deps x) ≡ true → has j res ≡ true)
      → pending x res 0 rows ≡ 0
  pending-met res x h = elim (Bool-cases (pending x res 0 rows == 0)) [
    | inl e ↦ ground (arith, e)
    | inr e ↦
        let (j, p, q) = blocking-of x res rows (ground (arith, e)) in
        absurd (ground (arith, h j (sym (link x j) ∙ p), q))
  ]

  IsReady-available :
      (remaining available res : List ℕ) (x : ℕ)
      → Inv (length flags) rows remaining available res
      → IsReady flags deps res x
      → 0 < occ x available
  IsReady-available remaining available res x v h =
      ground (
        arith,
        v.split x,
        v.counted x,
        pending-met res x h.met,
        h.inside,
        h.unplaced,
        has-occ x res,
      )

  placed-le :
      (remaining available res : List ℕ)
      → Inv (length flags) rows remaining available res
      → length res ≤ length flags
  placed-le remaining available res v =
      length-le-bound (length flags) res
        (λ d o. Inv-Below (length flags) rows remaining available res d v (omega arith))
        (λ d. omega (arith, Inv-once (length flags) rows remaining available res d v))

  kahn-Ends :
      (fuel : ℕ) (remaining available res : List ℕ)
      → length flags < fuel + length res
      → Greedy flags deps res
      → Inv (length flags) rows remaining available res
      → (r : List ℕ × List ℕ) × (kahn flags rows fuel remaining available res ≡ some r)
        × Ends flags deps rows r
  unfolding kahn chosen
  kahn-Ends zero remaining available res f g v =
      absurd (omega (arith, placed-le remaining available res v))
  kahn-Ends (suc fuel) remaining [] res f g v =
      ((res, remaining), refl, record { greedy = g; inv = v })
  kahn-Ends (suc fuel) remaining (a ∷ as') res f g v =
      let next = chosen flags a as' in
      let r = played (length flags) flags rows remaining a as' in
      kahn-Ends fuel r.0 r.1 (res ++ next ∷ []) (omega (arith, length-append res (next ∷ [])))
        (place g (available-IsReady remaining (a ∷ as') res next v (chosen-available flags a as'))
          (λ y h. better-chosen flags a as' y (IsReady-available remaining (a ∷ as') res y v h))
          refl)
        (played-Inv (length flags) flags rows remaining a as' res v)

start-Inv :
    (n : ℕ) (g : Graph)
    → IsCounted n g
    → Inv n g.dependents g.remaining (available_of g.remaining) []
unfolding available_of
start-Inv n g h = record {
  sized = h.sized;
  counted = h.counted;
  split = λ d. ground (arith, occ-indices_where (λ r. r == 0) d g.remaining, h.sized);
}

-- What the loop makes of the flags and their dependencies.
pub record Sorting (flags : List OrderedFlag) (deps : List (List ℕ)) : Type 0 where
  pub res : List ℕ
  pub remaining : List ℕ
  pub runs : topo_sort_flags flags deps ≡ conclude flags res remaining
  pub ends : Ends flags deps (graph_of flags deps).dependents (res, remaining)

pub topo_sort_flags-Sorting :
    (flags : List OrderedFlag) (deps : List (List ℕ))
    → IsInRange (length flags) deps
    → Sorting flags deps
unfolding topo_sort_flags
topo_sort_flags-Sorting flags deps r =
    let g = graph_of flags deps in
    let (out, e, ends) =
      kahn-Ends flags deps g.dependents (λ x k. graph_of-has flags deps x k r) (suc (length flags))
        g.remaining (available_of g.remaining) [] (omega arith) start
        (start-Inv (length flags) g (graph_of-IsCounted flags deps r)) in
    record { res = out.0; remaining = out.1; runs = rw e refl; ends = ends }

-- Sorting the flags ends, whatever their dependencies, also where these form a cycle.
pub topo_sort_flags-ne-out_of_fuel :
    (flags : List OrderedFlag) (deps : List (List ℕ))
    → IsInRange (length flags) deps
    → topo_sort_flags flags deps ≢ out_of_fuel
unfolding conclude
topo_sort_flags-ne-out_of_fuel flags deps r e =
    let o = topo_sort_flags-Sorting flags deps r in
    elim (Bool-cases (ltb (length o.res) (length flags))) [
      | inl t ↦ absurd (ground (arith, o.runs, e, t))
      | inr t ↦ absurd (ground (arith, o.runs, e, t))
    ]

-- once no flag is available, none can stand behind those placed
stuck :
    (flags : List OrderedFlag) (deps : List (List ℕ)) (remaining res : List ℕ) (x : ℕ)
    → IsInRange (length flags) deps
    → Inv (length flags) (graph_of flags deps).dependents remaining [] res
    → IsReady flags deps res x
    → ⊥
stuck flags deps remaining res x r v h =
    let g = graph_of flags deps in
    absurd (
      omega (
        arith,
        IsReady-available flags deps g.dependents (λ y k. graph_of-has flags deps y k r) remaining
            [] res x v h,
      ))

ordered_cancel : (xs ys : List ℕ) → ordered xs ≡ ordered ys → xs ≡ ys
ordered_cancel xs ys e = cc

-- topoSortFlags gives an order exactly if that has as many flags as there are and at each place
-- stands the best flag, by class and then by index, among those that do not stand before it
-- while all their dependencies do. It holds where the dependencies are indices of flags.
pub topo_sort_flags-Greedy_iff :
    (flags : List OrderedFlag) (deps : List (List ℕ)) (order : List ℕ)
    → IsInRange (length flags) deps
    → (topo_sort_flags flags deps ≡ ordered order)
      ↔ (Greedy flags deps order × (length order ≡ length flags))
unfolding conclude
topo_sort_flags-Greedy_iff flags deps order r = (forth, back)
  where
    o : Sorting flags deps
    o = topo_sort_flags-Sorting flags deps r

    short : length o.res ≤ length flags
    short =
        placed-le flags deps _ (λ x k. graph_of-has flags deps x k r) o.remaining [] o.res
          o.ends.inv

    forth :
        topo_sort_flags flags deps ≡ ordered order
        → Greedy flags deps order × (length order ≡ length flags)
    forth e = elim (Bool-cases (ltb (length o.res) (length flags))) [
      | inl t ↦ absurd (ground (arith, o.runs, e, t))
      | inr t ↦
          let q : o.res ≡ order = ground (arith, o.runs, e, t) in
          (subst (Greedy flags deps) q o.ends.greedy, ground (arith, short, t, ap length q))
    ]

    meets :
        Begins flags deps o.res order
        → length order ≡ length flags
        → topo_sort_flags flags deps ≡ ordered order
    meets (inl q) l =
        let t : ltb (length o.res) (length flags) ≡ false = ground (arith, ap length q, l) in
        o.runs ∙ rw t (ap ordered q)
    meets (inr (s, (x, ready))) l = absurd (stuck flags deps o.remaining o.res x r o.ends.inv ready)

    back :
        Greedy flags deps order × (length order ≡ length flags)
        → topo_sort_flags flags deps ≡ ordered order
    back h =
        meets (Greedy-Begins flags deps o.res order o.ends.greedy h.0 (omega (arith, short, h.1)))
          h.1

-- each flag stands once in the order
pub occ-topo_sort_flags :
    (flags : List OrderedFlag) (deps : List (List ℕ)) (order : List ℕ)
    → IsInRange (length flags) deps
    → topo_sort_flags flags deps ≡ ordered order
    → (x : ℕ) → occ x order ≡ (if ltb x (length flags) then 1 else 0)
unfolding conclude
occ-topo_sort_flags flags deps order r e x = elim (Bool-cases (ltb (length o.res) (length flags))) [
  | inl t ↦ absurd (ground (arith, o.runs, e, t))
  | inr t ↦
      let q : o.res ≡ order = ground (arith, o.runs, e, t) in
      let below = λ (d : ℕ). Inv-Below (length flags) rows o.remaining [] o.res d o.ends.inv in
      let once = λ (d : ℕ). Inv-once (length flags) rows o.remaining [] o.res d o.ends.inv in
      ground (
        arith,
        ap (occ x) q,
        once x,
        below x,
        full-occ (length flags) x o.res (λ d p. below d (omega arith)) (λ d. omega (arith, once d))
            (ground (arith, placed-le flags deps rows link o.remaining [] o.res o.ends.inv, t)),
      )
]
  where
    o : Sorting flags deps
    o = topo_sort_flags-Sorting flags deps r

    rows : List (List ℕ)
    rows = (graph_of flags deps).dependents

    link : (x k : ℕ) → has x (at [] rows k) ≡ has k (at [] deps x)
    link x k = graph_of-has flags deps x k r
