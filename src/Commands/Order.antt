-- ===== src/Commands/Order.antt =====
-- command.go: `orderFlags` and `topoSortFlags`, which put the flags of a command into the order in which
-- they run, with orderClass of option.go, findFlagByName of flag.go and findArgByName of arg.go.
-- A flag is the index at which the command defines it.
pub mod Counts
pub mod Pending
pub mod Links
pub mod Best
pub mod Inv
pub mod Greedy
pub mod Refines
pub mod Cycles
pub mod Flags
use joe_cli.Common.{
  Bool, List, Option, Text, [], eqb_ℤ, false, if◌then◌else◌, length, ltb, maybe, negsuc, none, pos,
  set, some, suc, true, zero, ℕ, ℤ, ◌&&◌, ◌++◌, ◌+◌, ◌-◌, ◌==◌, ◌||◌, ◌∷◌,
}

pub record OrderedFlag : Type 0 where
  pub name : Text
  pub aliases : List Text
  pub order_first : Bool
  pub order_last : Bool
  pub depends_on : List Text

-- `cmp.Compare(a, b) < 0`
abbrev pub ltb_ℤ : ℤ → ℤ → Bool
ltb_ℤ (pos a) (pos b) = ltb a b
ltb_ℤ (pos a) (negsuc b) = false
ltb_ℤ (negsuc a) (pos b) = true
ltb_ℤ (negsuc a) (negsuc b) = ltb b a

unfoldable pub order_class : OrderedFlag → ℤ
order_class f = if f.order_first then negsuc 0 else if f.order_last then pos 1 else pos 0

-- The element at an index that is in range.
abbrev pub at {ℓ} : {A : Type ℓ} → A → List A → ℕ → A
at d [] i = d
at d (x ∷ xs) zero = x
at d (x ∷ xs) (suc i) = at d xs i

unfoldable pub class_at : List OrderedFlag → ℕ → ℤ
class_at [] i = pos 0
class_at (f ∷ fs) zero = order_class f
class_at (f ∷ fs) (suc i) = class_at fs i

unfoldable pub better : List OrderedFlag → ℕ → ℕ → Bool
better flags x y =
    ltb_ℤ (class_at flags x) (class_at flags y)
    || (eqb_ℤ (class_at flags x) (class_at flags y) && ltb x y)

-- `slices.Contains`
abbrev pub has : ℕ → List ℕ → Bool
has i [] = false
has i (x ∷ xs) = x == i || has i xs

-- `remaining` and `dependents`
pub record Graph : Type 0 where
  pub remaining : List ℕ
  pub dependents : List (List ℕ)

-- the body of the loop over the dependencies of `i`
unfoldable pub depend : ℕ → ℕ → Graph → Graph
depend i j g = if has i (at [] g.dependents j) then g else record {
  remaining = set g.remaining i (at 0 g.remaining i + 1);
  dependents = set g.dependents j (at [] g.dependents j ++ i ∷ []);
}

unfoldable pub depend_all : ℕ → List ℕ → Graph → Graph
depend_all i [] g = g
depend_all i (j ∷ js) g = depend_all i js (depend i j g)

unfoldable pub depend_from : ℕ → List (List ℕ) → Graph → Graph
depend_from i [] g = g
depend_from i (js ∷ deps) g = depend_from (i + 1) deps (depend_all i js g)

-- `make([]T, n)`
unfoldable pub zeros {ℓ} : {A : Type ℓ} → A → List OrderedFlag → List A
zeros z [] = []
zeros z (f ∷ fs) = z ∷ zeros z fs

unfoldable pub graph_of : List OrderedFlag → List (List ℕ) → Graph
graph_of flags deps =
    depend_from 0 deps (record { remaining = zeros 0 flags; dependents = zeros [] flags })

-- The loops that collect the flags whose count passes a test, from the index `i`: those that fill
-- `available`, and `names` of the error.
unfoldable pub indices_where : (ℕ → Bool) → ℕ → List ℕ → List ℕ
indices_where p i [] = []
indices_where p i (r ∷ rs) = let rest = indices_where p (i + 1) rs in if p r then i ∷ rest else rest

unfoldable pub available_of : List ℕ → List ℕ
available_of remaining = indices_where (λ r. r == 0) 0 remaining

unfoldable pub blocked_of : List ℕ → List ℕ
blocked_of remaining = indices_where (λ r. ltb 0 r) 0 remaining

-- The loop over `available[1:]`: the index of the best flag, so far `best`.
unfoldable pub best_from : List OrderedFlag → List ℕ → ℕ → ℕ → List ℕ → ℕ
best_from flags available best k [] = best
best_from flags available best k (i ∷ is) =
    best_from flags available (if better flags i (at 0 available best) then k + 1 else best) (k + 1)
      is

-- `slices.Delete(xs, i, i+1)`
unfoldable pub remove_at : List ℕ → ℕ → List ℕ
remove_at [] i = []
remove_at (x ∷ xs) zero = xs
remove_at (x ∷ xs) (suc i) = x ∷ remove_at xs i

-- The loop over the dependents of the flag that was taken: `remaining` and `available` behind it.
-- Each of them counts what is left of its dependencies, the flag among them.
unfoldable pub release : List ℕ → List ℕ → List ℕ → List ℕ × List ℕ
release [] remaining available = (remaining, available)
release (d ∷ ds) remaining available =
    let left = at 0 remaining d - 1 in
    release ds (set remaining d left) (if left == 0 then available ++ d ∷ [] else available)

-- The loop while flags are available: `res` and `remaining` behind it, or nothing where the fuel
-- ends.
unfoldable pub kahn :
    List OrderedFlag → List (List ℕ) → ℕ → List ℕ → List ℕ → List ℕ → Option (List ℕ × List ℕ)
kahn flags dependents zero remaining available res = none
kahn flags dependents (suc fuel) remaining [] res = some (res, remaining)
kahn flags dependents (suc fuel) remaining (a ∷ as') res =
    let best = best_from flags (a ∷ as') 0 0 as' in
    let next = at 0 (a ∷ as') best in
    let (remaining', available) =
      release (at [] dependents next) remaining (remove_at (a ∷ as') best) in
    kahn flags dependents fuel remaining' available (res ++ next ∷ [])

pub data Sorted : Type 0 where
  ordered : List ℕ → Sorted
  -- the flags that the error names
  cyclic : List ℕ → Sorted
  out_of_fuel : Sorted

unfoldable pub conclude : List OrderedFlag → List ℕ → List ℕ → Sorted
conclude flags res remaining =
    if ltb (length res) (length flags) then cyclic (blocked_of remaining) else ordered res

-- Each round adds a flag to `res`, and one more round ends the loop.
unfoldable pub topo_sort_flags : List OrderedFlag → List (List ℕ) → Sorted
topo_sort_flags flags deps =
    let g = graph_of flags deps in
    maybe (kahn flags g.dependents (suc (length flags)) g.remaining (available_of g.remaining) [])
      out_of_fuel (λ r. conclude flags r.0 r.1)
