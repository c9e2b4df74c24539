-- ===== src/Commands/Order/Greedy.antt =====
-- What the order of the flags of a command should be: at each place the best flag among those whose
-- dependencies stand before it.
use mathlib.Core.Path.{subst}
use joe_cli.Common.{
  Bool-cases, List, [], ap, arith, false, inl, inr, leb, length, length-append, refl, sym, true, ℕ,
  ◌++◌, ◌+◌, ◌<◌, ◌∙◌, ◌∷◌, ◌≡◌, ◌≤◌, ◌⊎◌,
}
use joe_cli.Commands.Order.Best.{better-total}
use joe_cli.Commands.Order.{OrderedFlag, at, better, has}

module _ (flags : List OrderedFlag) (deps : List (List ℕ)) where
  -- The flag can stand behind those of `res`.
  pub record IsReady (res : List ℕ) (x : ℕ) : Type 0 where
    pub inside : x < length flags
    pub unplaced : has x res ≡ false
    pub met : (j : ℕ) → has j (at [] deps x) ≡ true → has j res ≡ true

  pub data Greedy : List ℕ → Type 0 where
    start : Greedy []
    place :
        {res order : List ℕ} {x : ℕ}
        → Greedy res
        → IsReady res x
        → ((y : ℕ) → IsReady res y → better flags y x ≡ false)
        → order ≡ res ++ x ∷ []
        → Greedy order

  length-snoc : (xs zs : List ℕ) (x : ℕ) → xs ≡ zs ++ x ∷ [] → length xs ≡ length zs + 1
  length-snoc xs zs x e = ap length e ∙ length-append zs (x ∷ [])

  -- Of two such orders the shorter is the beginning of the longer: they are equal, or a flag can
  -- stand behind the first.
  abbrev pub Begins : List ℕ → List ℕ → Type 0
  Begins xs ys = (xs ≡ ys) ⊎ ((length xs < length ys) × ((x : ℕ) × IsReady xs x))

  longer-Begins :
      (xs ys zs : List ℕ) (x : ℕ) → IsReady zs x → ys ≡ zs ++ x ∷ [] → Begins xs zs → Begins xs ys
  longer-Begins xs ys zs x r e (inl q) =
      inr (
        omega (arith, length-snoc ys zs x e, ap length q),
        (x, subst (λ ws. IsReady ws x) (sym q) r),
      )
  longer-Begins xs ys zs x r e (inr (l, ready)) =
      inr (omega (arith, length-snoc ys zs x e, l), ready)

  same_place :
      (xs ys ws zs : List ℕ) (w x : ℕ)
      → IsReady ws w
      → IsReady zs x
      → ((y : ℕ) → IsReady ws y → better flags y w ≡ false)
      → ((y : ℕ) → IsReady zs y → better flags y x ≡ false)
      → xs ≡ ws ++ w ∷ []
      → ys ≡ zs ++ x ∷ []
      → length ws ≡ length zs
      → Begins ws zs
      → xs ≡ ys
  same_place xs ys ws zs w x r r' m m' e e' l (inl q) =
      let same : w ≡ x =
        better-total flags w x (m' w (subst (λ vs. IsReady vs w) q r))
          (m x (subst (λ vs. IsReady vs x) (sym q) r')) in
      e ∙ ap (λ vs. vs ++ w ∷ []) q ∙ ap (λ (v : ℕ). zs ++ v ∷ []) same ∙ sym e'
  same_place xs ys ws zs w x r r' m m' e e' l (inr (s, ready)) = absurd (omega (arith, l, s))

  pub Greedy-Begins :
      (xs ys : List ℕ) → Greedy xs → Greedy ys → length xs ≤ length ys → Begins xs ys
  Greedy-Begins xs ys start start l = inl refl
  Greedy-Begins xs ys (place {res = ws} {x = w} g r m e) start l =
      absurd (omega (arith, length-snoc xs ws w e, l))
  Greedy-Begins xs ys start (place {res = zs} {x = x} h r m e) l =
      longer-Begins xs ys zs x r e (Greedy-Begins xs zs start h (omega arith))
  Greedy-Begins xs ys (place {res = ws} {x = w} g r m e) (place {res = zs} {x = x} h r' m' e') l =
      elim (Bool-cases (leb (length xs) (length zs))) [
        | inl c ↦
            longer-Begins xs ys zs x r' e'
              (Greedy-Begins xs zs (place g r m e) h (ground (arith, c)))
        | inr c ↦
            let same : length ws ≡ length zs =
              ground (arith, c, l, length-snoc xs ws w e, length-snoc ys zs x e') in
            inl (
              same_place xs ys ws zs w x r r' m m' e e' same
                (Greedy-Begins ws zs g h (omega (arith, same))))
      ]
