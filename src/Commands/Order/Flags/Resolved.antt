-- ===== src/Commands/Order/Flags/Resolved.antt =====
-- command.go: the order that `orderFlags` gives to the flags, and the names that they depend on.
use joe_cli.Commands.Order.Links.{IsInRange}
use joe_cli.Commands.Order.Refines.{
  occ-topo_sort_flags, topo_sort_flags-Greedy_iff, topo_sort_flags-ne-out_of_fuel,
}
use joe_cli.Commands.Order.Flags.Names.{ReadsAll, read_flags-ReadsAll}
use mathlib.Core.Path.{subst}
use joe_cli.Common.{
  Bool, Bool-cases, List, Text, [], ap, arith, elem, false, get_elem?, if◌then◌else◌, inl, inr,
  length, lt-get_elem?, ltb, refl, some, true, ℕ, ◌++◌, ◌==◌, ◌∷◌, ◌≡◌, ◌≢◌,
}
use joe_cli.Commands.Order.{OrderedFlag, Sorted, at, has, ordered, out_of_fuel, topo_sort_flags}
use joe_cli.Commands.Order.Counts.{has-append, has-occ, occ}
use joe_cli.Commands.Order.Greedy.{Greedy, place, start}
use joe_cli.Commands.Order.Flags.{
  DependencyError, Scope, any_ordering, as_defined, failed, find_flag_by_name, order_flags,
  read_flags, sorted,
}

-- what stands before the first `x`
pub before : ℕ → List ℕ → List ℕ
before x [] = []
before x (y ∷ ys) = let rest = before x ys in if y == x then [] else y ∷ rest

before-append : (x : ℕ) (xs ys : List ℕ) → has x xs ≡ true → before x (xs ++ ys) ≡ before x xs
unfolding before
before-append x [] ys h = absurd (ground arith)
before-append x (z ∷ xs) ys h = elim (Bool-cases (z == x)) [
  | inl e ↦ rw e refl
  | inr e ↦ rw e (ap (λ ws. z ∷ ws) (before-append x xs ys (ground (arith, h, e))))
]

before-snoc : (x : ℕ) (xs : List ℕ) → has x xs ≡ false → before x (xs ++ x ∷ []) ≡ xs
unfolding before
before-snoc x [] h = let e : x == x ≡ true = ground arith in rw e refl
before-snoc x (z ∷ xs) h = elim (Bool-cases (z == x)) [
  | inl e ↦ absurd (ground (arith, h, e))
  | inr e ↦ rw e (ap (λ ws. z ∷ ws) (before-snoc x xs (ground (arith, h, e))))
]

Greedy-before :
    (flags : List OrderedFlag) (deps : List (List ℕ)) (order : List ℕ) (i j : ℕ)
    → Greedy flags deps order
    → has i order ≡ true
    → has j (at [] deps i) ≡ true
    → has j (before i order) ≡ true
Greedy-before flags deps order i j start h d = absurd (ground arith)
Greedy-before flags deps order i j (place {res = res} {x = x} g r m e) h d =
    elim (Bool-cases (has i res)) [
      | inl p ↦ rw (e, before-append i res (x ∷ []) p) (Greedy-before flags deps res i j g p d)
      | inr p ↦
          let q : x ≡ i = ground (arith, h, p, has-append i res (x ∷ []), ap (has i) e) in
          subst (λ (k : ℕ). has j (at [] deps k) ≡ true → has j (before k order) ≡ true) q
            (λ d'. rw (e, before-snoc x res r.unplaced) (r.met j d')) d
    ]

-- what the call comes to where it sorts
sorts :
    (scope : Scope) (s : Sorted)
    → order_flags scope ≡ sorted s
    → ((read_flags scope 0 scope.flags).0 ≡ [])
      × (topo_sort_flags scope.flags (read_flags scope 0 scope.flags).1 ≡ s)
unfolding order_flags
sorts scope s e = branches (read_flags scope 0 scope.flags).0 (any_ordering scope.flags) _ s e
  where
    branches :
        (errs : List DependencyError) (any : Bool) (t s : Sorted)
        → (if ltb 0 (length errs) then failed errs else if any then sorted t else as_defined)
          ≡ sorted s
        → (errs ≡ []) × (t ≡ s)
    branches [] true t s e = (refl, cc)
    branches [] false t s e = absurd (ground arith)
    branches (x ∷ errs) any t s e = absurd (ground arith)

ReadsAll-IsInRange :
    (scope : Scope) (deps : List (List ℕ))
    → ReadsAll scope scope.flags deps
    → IsInRange (length scope.flags) deps
ReadsAll-IsInRange scope deps h = record { of_flags = omega (arith, h.sized); on_flags = h.inside }

-- Ordering the flags of a command ends, whatever the flags, the names that they depend on, the
-- args and the flags of the ancestors: the loop does not run out of its rounds.
pub order_flags-ne-out_of_fuel : (scope : Scope) → order_flags scope ≢ sorted out_of_fuel
order_flags-ne-out_of_fuel scope e =
    let (p, q) = sorts scope out_of_fuel e in
    let all = read_flags-ReadsAll scope 0 scope.flags p in
    topo_sort_flags-ne-out_of_fuel scope.flags _ (ReadsAll-IsInRange scope _ all) q

-- Where orderFlags sorts the flags of a command without an error, each of them stands in the
-- order, once, and each name that a flag depends on and that finds a flag of the command finds
-- one that stands before it.
pub order_flags-before :
    (scope : Scope) (order : List ℕ)
    → order_flags scope ≡ sorted (ordered order)
    → ((x : ℕ) → occ x order ≡ (if ltb x (length scope.flags) then 1 else 0))
      × ((i : ℕ) (f : OrderedFlag) (name : Text) (j : ℕ)
          → get_elem? scope.flags i ≡ some f
          → elem name f.depends_on ≡ true
          → find_flag_by_name scope.flags name ≡ some j
          → has j (before i order) ≡ true)
order_flags-before scope order e =
    let (p, q) = sorts scope (ordered order) e in
    let deps = (read_flags scope 0 scope.flags).1 in
    let all = read_flags-ReadsAll scope 0 scope.flags p in
    let r = ReadsAll-IsInRange scope deps all in
    let once = occ-topo_sort_flags scope.flags deps order r q in
    let greedy = (topo_sort_flags-Greedy_iff scope.flags deps order r).0 q in
    (
      once,
      λ i f name j g n k.
          Greedy-before scope.flags deps order i j greedy.0
            (ground (arith, once i, has-occ i order, lt-get_elem? scope.flags i g))
            ((all.each i f g).finds name j n k),
    )
