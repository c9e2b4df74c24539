-- ===== src/Commands/Order/Links.antt =====
-- The graph that `topoSortFlags` makes of the dependencies.
use mathlib.Core.Path.{subst}
use joe_cli.Common.{
  ==_iff, All, Bool-cases, List, [], ap, arith, if◌then◌else◌, inl, inr, length, length-set, refl,
  set, suc, sym, true, zero, ℕ, ◌&&◌, ◌++◌, ◌+◌, ◌<◌, ◌==◌, ◌||◌, ◌∙◌, ◌∷◌, ◌≡◌, ◌≤◌,
}
use joe_cli.Commands.Order.{
  Graph, OrderedFlag, at, depend, depend_all, depend_from, graph_of, has, zeros,
}
use joe_cli.Commands.Order.Counts.{at-set, has-append}
use joe_cli.Commands.Order.Pending.{
  pending, pending-set, row_at, row_at-here, row_at-nil, row_at-past, row_at-there,
}

-- The dependencies name flags, and are those of flags.
pub record IsInRange (n : ℕ) (deps : List (List ℕ)) : Type 0 where
  pub of_flags : length deps ≤ n
  pub on_flags : All (All (λ j. j < n)) deps

-- Each flag counts how often the dependents list it.
pub record IsCounted (n : ℕ) (g : Graph) : Type 0 where
  pub sized : length g.remaining ≡ n
  pub rows : length g.dependents ≡ n
  pub counted : (d : ℕ) → at 0 g.remaining d ≡ pending d [] 0 g.dependents

bump_at :
    (f : ℕ → ℕ) (i d : ℕ) → (if i == d then f i + 1 else f d) ≡ f d + (if i == d then 1 else 0)
bump_at f i d = elim (Bool-cases (i == d)) [
  | inl e ↦ rw e (ap (λ (k : ℕ). f k + 1) ((==_iff i d).0 e))
  | inr e ↦ rw e (omega arith)
]

depend-IsCounted :
    (n i j : ℕ) (g : Graph) → i < n → j < n → IsCounted n g → IsCounted n (depend i j g)
unfolding depend
depend-IsCounted n i j g p q h = elim (Bool-cases (has i (at [] g.dependents j))) [
  | inl e ↦ rw e h
  | inr e ↦ rw e (record {
    sized = length-set g.remaining i _ ∙ h.sized;
    rows = length-set g.dependents j _ ∙ h.rows;
    counted = λ d.
        at-set 0 g.remaining i d (at 0 g.remaining i + 1) (omega (arith, h.sized))
        ∙ bump_at (at 0 g.remaining) i d
        ∙ omega (arith, h.counted d, pending-set d i g.dependents j (omega (arith, h.rows)));
  })
]

depend_all-IsCounted :
    (n i : ℕ) (js : List ℕ) (g : Graph)
    → i < n
    → All (λ j. j < n) js
    → IsCounted n g
    → IsCounted n (depend_all i js g)
unfolding depend_all
depend_all-IsCounted n i [] g p q h = h
depend_all-IsCounted n i (j ∷ js) g p q h =
    depend_all-IsCounted n i js (depend i j g) p q.1 (depend-IsCounted n i j g p q.0 h)

depend_from-IsCounted :
    (n i : ℕ) (deps : List (List ℕ)) (g : Graph)
    → i + length deps ≤ n
    → All (All (λ j. j < n)) deps
    → IsCounted n g
    → IsCounted n (depend_from i deps g)
unfolding depend_from
depend_from-IsCounted n i [] g p q h = h
depend_from-IsCounted n i (js ∷ deps) g p q h =
    depend_from-IsCounted n (i + 1) deps (depend_all i js g) (omega arith) q.1
      (depend_all-IsCounted n i js g (omega arith) q.0 h)

length-zeros {ℓ} :
    {A : Type ℓ} (z : A) (flags : List OrderedFlag) → length (zeros z flags) ≡ length flags
unfolding zeros
length-zeros z [] = refl
length-zeros z (f ∷ fs) = ap suc (length-zeros z fs)

at-zeros {ℓ} : {A : Type ℓ} (z : A) (flags : List OrderedFlag) (i : ℕ) → at z (zeros z flags) i ≡ z
unfolding zeros
at-zeros z [] i = refl
at-zeros z (f ∷ fs) zero = refl
at-zeros z (f ∷ fs) (suc i) = at-zeros z fs i

pending-zeros : (d i : ℕ) (flags : List OrderedFlag) → pending d [] i (zeros [] flags) ≡ 0
unfolding zeros pending
pending-zeros d i [] = refl
pending-zeros d i (f ∷ fs) = omega (arith, pending-zeros d (i + 1) fs)

zeros-IsCounted :
    (flags : List OrderedFlag)
    → IsCounted (length flags) (record { remaining = zeros 0 flags; dependents = zeros [] flags })
zeros-IsCounted flags = record {
  sized = length-zeros 0 flags;
  rows = length-zeros [] flags;
  counted = λ d. at-zeros 0 flags d ∙ sym (pending-zeros d 0 flags);
}

pub graph_of-IsCounted :
    (flags : List OrderedFlag) (deps : List (List ℕ))
    → IsInRange (length flags) deps
    → IsCounted (length flags) (graph_of flags deps)
unfolding graph_of
graph_of-IsCounted flags deps r =
    depend_from-IsCounted (length flags) 0 deps _ (omega (arith, r.of_flags)) r.on_flags
      (zeros-IsCounted flags)

-- Which flags a row lists.
has-set :
    (rows : List (List ℕ)) (i j x k : ℕ)
    → j < length rows
    → has x (at [] (set rows j (at [] rows j ++ i ∷ [])) k)
      ≡ (has x (at [] rows k) || (i == x && j == k))
has-set rows i j x k h =
    ap (has x) (at-set [] rows j k (at [] rows j ++ i ∷ []) h) ∙ elim (Bool-cases (j == k)) [
      | inl e ↦
          rw e (rw (sym ((==_iff j k).0 e)) (has-append x (at [] rows j) (i ∷ []) ∙ ground arith))
      | inr e ↦ rw e (ground arith)
    ]

depend-has :
    (n i j : ℕ) (g : Graph) (x k : ℕ)
    → j < n
    → IsCounted n g
    → has x (at [] (depend i j g).dependents k)
      ≡ (has x (at [] g.dependents k) || (i == x && j == k))
unfolding depend
depend-has n i j g x k q h = elim (Bool-cases (has i (at [] g.dependents j))) [
  | inl e ↦ rw e (absorbed (at [] g.dependents) i j x k e)
  | inr e ↦ rw e (has-set g.dependents i j x k (omega (arith, h.rows)))
]
  where
    absorbed :
        (f : ℕ → List ℕ) (i j x k : ℕ)
        → has i (f j) ≡ true
        → has x (f k) ≡ (has x (f k) || (i == x && j == k))
    absorbed f i j x k e = elim (Bool-cases (i == x && j == k)) [
      | inl c ↦
          let p : i ≡ x = ground (arith, c) in
          let q : j ≡ k = ground (arith, c) in
          let r : has x (f k) ≡ true =
            subst (λ (y : ℕ). has y (f k) ≡ true) p (subst (λ (y : ℕ). has i (f y) ≡ true) q e) in
          ground (arith, r)
      | inr c ↦ ground (arith, c)
    ]

depend_all-has :
    (n i : ℕ) (js : List ℕ) (g : Graph) (x k : ℕ)
    → i < n
    → All (λ j. j < n) js
    → IsCounted n g
    → has x (at [] (depend_all i js g).dependents k)
      ≡ (has x (at [] g.dependents k) || (i == x && has k js))
unfolding depend_all
depend_all-has n i [] g x k p q h = ground arith
depend_all-has n i (j ∷ js) g x k p q h = ground (
  arith,
  depend_all-has n i js (depend i j g) x k p q.1 (depend-IsCounted n i j g p q.0 h),
  depend-has n i j g x k q.0 h,
)

depend_from-has :
    (n i : ℕ) (deps : List (List ℕ)) (g : Graph) (x k : ℕ)
    → i + length deps ≤ n
    → All (All (λ j. j < n)) deps
    → IsCounted n g
    → has x (at [] (depend_from i deps g).dependents k)
      ≡ (has x (at [] g.dependents k) || has k (row_at deps i x))
unfolding depend_from
depend_from-has n i [] g x k p q h = ground (arith, ap (has k) (row_at-nil i x))
depend_from-has n i (js ∷ deps) g x k p q h =
    let p' : i < n = omega arith in
    let one = depend_all-has n i js g x k p' q.0 h in
    let more =
      depend_from-has n (i + 1) deps (depend_all i js g) x k (omega arith) q.1
        (depend_all-IsCounted n i js g p' q.0 h) in
    elim (Bool-cases (i == x)) [
      | inl e ↦
          rw (row_at-here js deps i x e)
            (ground (arith, e, one, more, ap (has k) (row_at-past deps i x e)))
      | inr e ↦ rw (row_at-there js deps i x e) (ground (arith, e, one, more))
    ]

-- A flag is listed with the dependents of another exactly if it names that one.
pub graph_of-has :
    (flags : List OrderedFlag) (deps : List (List ℕ)) (x k : ℕ)
    → IsInRange (length flags) deps
    → has x (at [] (graph_of flags deps).dependents k) ≡ has k (at [] deps x)
unfolding graph_of row_at
graph_of-has flags deps x k r = ground (
  arith,
  depend_from-has (length flags) 0 deps
      (record { remaining = zeros 0 flags; dependents = zeros [] flags }) x k
      (omega (arith, r.of_flags)) r.on_flags (zeros-IsCounted flags),
  ap (has x) (at-zeros [] flags k),
)
