-- ===== src/Commands/Order/Flags/Names.antt =====
-- command.go: the names that `orderFlags` reads, and the flags that it finds by them.
use mathlib.Core.Path.{subst}
use joe_cli.Common.{
  All, Bool-cases, List, Option, Text, [], ap, arith, elem, get_elem?, inl, inr, length, maybe,
  none, refl, some, some_cancel, suc, sym, text_eq, text_eq_sound, true, zero, ℕ, ◌++◌, ◌+◌, ◌<◌,
  ◌==◌, ◌∙◌, ◌∷◌, ◌≡◌,
}
use joe_cli.Commands.Order.{OrderedFlag, at, has}
use joe_cli.Commands.Order.Flags.{
  DependencyError, Scope, find_flag, find_flag_by_name, found_flag, has_name, no_flag, read_flags,
  read_names, trim_dashes,
}

trim_idempotent : (s : Text) → trim_dashes (trim_dashes s) ≡ trim_dashes s
unfolding trim_dashes
trim_idempotent [] = refl
trim_idempotent (c ∷ s) = elim (Bool-cases (c == b'-')) [
  | inl e ↦ rw e (trim_idempotent s)
  | inr e ↦ rw (e, e) refl
]

find-trimmed :
    (flags : List OrderedFlag) (name : Text)
    → find_flag_by_name flags (trim_dashes name) ≡ find_flag_by_name flags name
unfolding find_flag_by_name
find-trimmed flags name = ap (find_flag flags 0) (trim_idempotent name)

find_flag-lt :
    (fs : List OrderedFlag) (i : ℕ) (name : Text) (j : ℕ)
    → find_flag fs i name ≡ some j
    → j < i + length fs
unfolding find_flag
find_flag-lt [] i name j h = absurd (ground arith)
find_flag-lt (f ∷ fs) i name j h = elim (Bool-cases (has_name f name)) [
  | inl e ↦ ground (arith, rw e at h)
  | inr e ↦ omega (arith, find_flag-lt fs (i + 1) name j (rw e at h))
]

module _ (scope : Scope) where
  -- What a list of names is read into: flags of the command, and each flag that a name finds.
  pub record Reads (names : List Text) (deps : List ℕ) : Type 0 where
    pub bounded : All (λ j. j < length scope.flags) deps
    pub finds :
        (name : Text) (j : ℕ)
        → elem name names ≡ true
        → find_flag_by_name scope.flags name ≡ some j
        → has j deps ≡ true

  no_flag-deps :
      (self name : Text) (errs : List DependencyError) (deps : List ℕ)
      → (no_flag scope self name (errs, deps)).0 ≡ []
      → (errs ≡ []) × ((no_flag scope self name (errs, deps)).1 ≡ deps)
  unfolding no_flag
  no_flag-deps self name errs deps e = ground arith

  -- one more name, where it is read without an error
  add-Reads :
      (self : Text) (i : ℕ) (name : Text) (names : List Text) (errs : List DependencyError)
      (deps : List ℕ) (o : Option ℕ)
      → find_flag_by_name scope.flags name ≡ o
      → (maybe o
          (no_flag scope self (trim_dashes name) (errs, deps))
          (λ index. found_flag self i index (errs, deps))).0
        ≡ []
      → (errs ≡ [] → Reads names deps)
      → Reads
          (name ∷ names)
          (maybe o
            (no_flag scope self (trim_dashes name) (errs, deps))
            (λ index. found_flag self i index (errs, deps))).1
  unfolding found_flag find_flag_by_name elem
  add-Reads self i name names errs deps none f e r =
      let (p, q) = no_flag-deps self (trim_dashes name) errs deps e in
      let old = r p in
      rw q (record {
        bounded = old.bounded;
        finds = λ n j h g. elim (Bool-cases (text_eq name n)) [
          | inl t ↦
              absurd
                (ground (arith, f, g, ap (find_flag_by_name scope.flags) (text_eq_sound name n t)))
          | inr t ↦ old.finds n j (ground (arith, h, t)) g
        ];
      })
  add-Reads self i name names errs deps (some index) f e r = elim (Bool-cases (index == i)) [
    | inl t ↦ absurd (ground (arith, rw t at e))
    | inr t ↦
        let old = r (rw t at e) in
        rw t (record {
          bounded =
              (omega (arith, find_flag-lt scope.flags 0 (trim_dashes name) index f), old.bounded);
          finds = λ n j h g. elim (Bool-cases (text_eq name n)) [
            | inl u ↦
                let same = ap (find_flag_by_name scope.flags) (text_eq_sound name n u) in
                ground (arith, some_cancel (sym f ∙ same ∙ g))
            | inr u ↦ ground (arith, old.finds n j (ground (arith, h, u)) g)
          ];
        })
  ]

  pub read_names-Reads :
      (self : Text) (i : ℕ) (names : List Text)
      → (read_names scope self i names).0 ≡ []
      → Reads names (read_names scope self i names).1
  unfolding read_names elem
  read_names-Reads self i [] e = record {
    bounded = tt;
    finds = λ name j h f. absurd (ground (arith, h));
  }
  read_names-Reads self i (name ∷ names) e = elim (Bool-cases (text_eq (trim_dashes name) [])) [
    | inl t ↦ absurd (ground (arith, rw t at e))
    | inr t ↦
        let e' = rw (t, find-trimmed scope.flags name) at e in
        rw (t, find-trimmed scope.flags name)
          (add-Reads self i name names _ _ _ refl e' (read_names-Reads self i names))
  ]

  empty_parts : (xs ys : List DependencyError) → xs ++ ys ≡ [] → (xs ≡ []) × (ys ≡ [])
  empty_parts [] ys h = (refl, h)
  empty_parts (x ∷ xs) ys h = absurd (ground arith)

  -- What the flags from `i` on are read into.
  pub record ReadsAll (fs : List OrderedFlag) (deps : List (List ℕ)) : Type 0 where
    pub sized : length deps ≡ length fs
    pub inside : All (All (λ j. j < length scope.flags)) deps
    pub each :
        (x : ℕ) (f : OrderedFlag) → get_elem? fs x ≡ some f → Reads f.depends_on (at [] deps x)

  pub read_flags-ReadsAll :
      (i : ℕ) (fs : List OrderedFlag)
      → (read_flags scope i fs).0 ≡ []
      → ReadsAll fs (read_flags scope i fs).1
  unfolding read_flags
  read_flags-ReadsAll i [] e = record {
    sized = refl;
    inside = tt;
    each = λ x f g. absurd (ground (arith, g));
  }
  read_flags-ReadsAll i (f ∷ fs) e =
      let (here, later) = empty_parts _ _ e in
      let first = read_names-Reads f.name i f.depends_on here in
      let rest = read_flags-ReadsAll (i + 1) fs later in
      record {
        sized = ap suc rest.sized;
        inside = (first.bounded, rest.inside);
        each = λ x g q.
            each_of f fs x g (read_names scope f.name i f.depends_on).1 _ first rest.each q;
      }
    where
      each_of :
          (f : OrderedFlag) (fs : List OrderedFlag) (x : ℕ) (g : OrderedFlag) (d : List ℕ)
          (ds : List (List ℕ))
          → Reads f.depends_on d
          → ((x : ℕ) (f : OrderedFlag) → get_elem? fs x ≡ some f → Reads f.depends_on (at [] ds x))
          → get_elem? (f ∷ fs) x ≡ some g
          → Reads g.depends_on (at [] (d ∷ ds) x)
      each_of f fs zero g d ds here later q = subst (λ h. Reads h.depends_on d) (some_cancel q) here
      each_of f fs (suc x) g d ds here later q = later x g q
