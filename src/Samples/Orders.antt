-- ===== src/Samples/Orders.antt =====
-- The theorems on the order of the flags, at concrete flags.
use joe_cli.Common.{
  Bool, List, Text, [], arith, codes, elem, false, get_elem?, if◌then◌else◌, length, ltb, refl,
  some, suc, true, zero, ℕ, ◌<◌, ◌==◌, ◌↔◌, ◌∷◌, ◌≡◌, ◌≢◌,
}
use joe_cli.Commands.Order.{
  OrderedFlag, at, available_of, best_from, better, blocked_of, class_at, conclude, cyclic, depend,
  depend_all, depend_from, graph_of, has, indices_where, kahn, order_class, ordered, out_of_fuel,
  release, remove_at, topo_sort_flags, zeros,
}
use joe_cli.Commands.Order.Counts.{occ}
use joe_cli.Commands.Order.Links.{IsInRange}
use joe_cli.Commands.Order.Greedy.{Greedy}
use joe_cli.Commands.Order.Refines.{topo_sort_flags-Greedy_iff}
use joe_cli.Commands.Order.Cycles.{IsAcyclic, topo_sort_flags-IsAcyclic, topo_sort_flags-cyclic}
use joe_cli.Commands.Order.Flags.{
  Scope, any_ordering, does_not_exist, failed, find_flag, find_flag_by_name, found_flag, has_arg,
  must_be_named, no_flag, order_flags, read_flags, read_names, sorted, trim_dashes, trim_prefix,
  trim_suffix, upon_arg, upon_itself,
}
use joe_cli.Commands.Order.Flags.Resolved.{before, order_flags-before, order_flags-ne-out_of_fuel}

abbrev flag_of : Text → Bool → Bool → List Text → OrderedFlag
flag_of name first last deps = record {
  name = name;
  aliases = [];
  order_first = first;
  order_last = last;
  depends_on = deps;
}

abbrev sample_flags : List OrderedFlag
sample_flags =
    flag_of (codes "last") false true (codes "--plain" ∷ [])
    ∷ flag_of (codes "other") false false []
    ∷ flag_of (codes "first") true false (codes "plain" ∷ [])
    ∷ flag_of (codes "plain") false false []
    ∷ []

abbrev sample_deps : List (List ℕ)
sample_deps = (3 ∷ []) ∷ [] ∷ (3 ∷ []) ∷ [] ∷ []

abbrev circular : List (List ℕ)
circular = (3 ∷ []) ∷ [] ∷ (3 ∷ 1 ∷ []) ∷ (2 ∷ []) ∷ []

abbrev sample_scope : Scope
sample_scope = record { flags = sample_flags; args = codes "arg" ∷ []; ancestor = λ name. false }

abbrev sample_order : List ℕ
sample_order = 1 ∷ 3 ∷ 2 ∷ 0 ∷ []

sample-IsInRange : IsInRange 4 sample_deps
sample-IsInRange = record { of_flags = omega arith; on_flags = omega arith }

circular-IsInRange : IsInRange 4 circular
circular-IsInRange = record { of_flags = omega arith; on_flags = omega arith }

sample_ordered : topo_sort_flags sample_flags sample_deps ≡ ordered sample_order
unfolding topo_sort_flags kahn available_of indices_where graph_of depend_from depend_all depend
    zeros release best_from better class_at order_class remove_at conclude blocked_of
sample_ordered = refl

circular_found : topo_sort_flags sample_flags circular ≡ cyclic (0 ∷ 2 ∷ 3 ∷ [])
unfolding topo_sort_flags kahn available_of indices_where graph_of depend_from depend_all depend
    zeros release best_from better class_at order_class remove_at conclude blocked_of
circular_found = refl

sample_sorted : order_flags sample_scope ≡ sorted (ordered sample_order)
unfolding order_flags read_flags read_names trim_dashes find_flag_by_name find_flag elem found_flag
    no_flag has_arg trim_suffix trim_prefix any_ordering topo_sort_flags kahn available_of
    indices_where graph_of depend_from depend_all depend zeros release best_from better class_at
    order_class remove_at conclude blocked_of
sample_sorted = refl

-- a dependency on an arg, and one on nothing
bad_dependencies :
    order_flags (record {
      flags =
          flag_of
            (codes "a")
            false
            false
            (codes "<arg>" ∷ codes "none" ∷ codes "--" ∷ codes "-a" ∷ [])
          ∷ [];
      args = codes "arg" ∷ [];
      ancestor = λ name. false;
    })
    ≡ failed (
        upon_arg (codes "a") (codes "<arg>")
        ∷ does_not_exist (codes "a") (codes "none")
        ∷ must_be_named (codes "a")
        ∷ upon_itself (codes "a")
        ∷ [])
unfolding order_flags read_flags read_names trim_dashes find_flag_by_name find_flag elem found_flag
    no_flag has_arg trim_suffix trim_prefix any_ordering
bad_dependencies = refl

topo_sort_flags-Greedy_iff_example :
    (topo_sort_flags sample_flags sample_deps ≡ ordered sample_order)
    ↔ (Greedy sample_flags sample_deps sample_order × (length sample_order ≡ length sample_flags))
topo_sort_flags-Greedy_iff_example =
    topo_sort_flags-Greedy_iff sample_flags sample_deps sample_order sample-IsInRange

order_flags-ne-out_of_fuel_example : order_flags sample_scope ≢ sorted out_of_fuel
order_flags-ne-out_of_fuel_example = order_flags-ne-out_of_fuel sample_scope

order_flags-before_example :
    ((x : ℕ) → occ x sample_order ≡ (if ltb x (length sample_flags) then 1 else 0))
    × ((i : ℕ) (f : OrderedFlag) (name : Text) (j : ℕ)
        → get_elem? sample_flags i ≡ some f
        → elem name f.depends_on ≡ true
        → find_flag_by_name sample_flags name ≡ some j
        → has j (before i sample_order) ≡ true)
order_flags-before_example = order_flags-before sample_scope sample_order sample_sorted

-- `plain` is below those that depend on it
abbrev sample_height : ℕ → ℕ
sample_height x = if x == 3 then 0 else 1

sample_deps-IsAcyclic : IsAcyclic sample_deps sample_height
sample_deps-IsAcyclic zero j h = ground (arith, h)
sample_deps-IsAcyclic (suc zero) j h = absurd (ground (arith, h))
sample_deps-IsAcyclic (suc (suc zero)) j h = ground (arith, h)
sample_deps-IsAcyclic (suc (suc (suc zero))) j h = absurd (ground (arith, h))
sample_deps-IsAcyclic (suc (suc (suc (suc x)))) j h = absurd (ground (arith, h))

topo_sort_flags-IsAcyclic_example :
    (order : List ℕ) × (topo_sort_flags sample_flags sample_deps ≡ ordered order)
    × ((x : ℕ) → occ x order ≡ (if ltb x (length sample_flags) then 1 else 0))
topo_sort_flags-IsAcyclic_example =
    topo_sort_flags-IsAcyclic sample_flags sample_deps sample_height sample-IsInRange
      sample_deps-IsAcyclic

topo_sort_flags-cyclic_example :
    ((x : ℕ) × (has x (0 ∷ 2 ∷ 3 ∷ []) ≡ true))
    × ((x : ℕ)
        → has x (0 ∷ 2 ∷ 3 ∷ []) ≡ true
        → (x < length sample_flags)
          × ((j : ℕ) × (has j (at [] circular x) ≡ true) × (has j (0 ∷ 2 ∷ 3 ∷ []) ≡ true)))
topo_sort_flags-cyclic_example =
    topo_sort_flags-cyclic sample_flags circular (0 ∷ 2 ∷ 3 ∷ []) circular-IsInRange circular_found
