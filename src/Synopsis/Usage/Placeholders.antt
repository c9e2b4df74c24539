-- ===== src/Synopsis/Usage/Placeholders.antt =====
-- internal/synopsis/placeholder.go: the placeholders of a usage text.
use joe_cli.Common.{
  Bool, Bool-cases, Distinct, List, Text, [], ap, arith, elem, false, inl, inr, negsuc, not, pos,
  refl, text_eq, text_eq_iff, text_eq_sound, true, ℤ, ◌&&◌, ◌||◌, ◌∙◌, ◌∷◌, ◌≡◌,
}
use joe_cli.Commands.Order.{ltb_ℤ}
use joe_cli.Synopsis.Usage.{
  UsageExpr, first_placeholders, insert_placeholder, literal, names_of_placeholders, placeholder,
  placeholder_names, sort_placeholders,
}

-- the names of all placeholders, and their names without those in `seen`
abbrev pub used_names : List UsageExpr → List Text
used_names [] = []
used_names (literal t ∷ exprs) = used_names exprs
used_names (placeholder name p ∷ exprs) = name ∷ used_names exprs

-- By position: none stands behind one with a greater position.
abbrev pub InPositions : List (Text × ℤ) → Type 0
InPositions [] = Unit
InPositions (x ∷ []) = Unit
InPositions (x ∷ y ∷ ys) = (ltb_ℤ y.1 x.1 ≡ false) × InPositions (y ∷ ys)

and_true : (b : Bool) → (b && true) ≡ b
and_true true = refl
and_true false = refl

elem-same : (m n : Text) (seen : List Text) → text_eq m n ≡ true → elem m seen ≡ elem n seen
elem-same m n seen same = ap (λ t. elem t seen) (text_eq_sound m n same)

elem-first_placeholders :
    (n : Text) (seen : List Text) (exprs : List UsageExpr)
    → elem n (names_of_placeholders (first_placeholders seen exprs))
      ≡ (elem n (used_names exprs) && not (elem n seen))
unfolding first_placeholders elem
elem-first_placeholders n seen [] = refl
elem-first_placeholders n seen (literal t ∷ exprs) = elem-first_placeholders n seen exprs
elem-first_placeholders n seen (placeholder name p ∷ exprs) = elim (Bool-cases (elem name seen)) [
  | inl e ↦ rw e (ground (arith, e, elem-first_placeholders n seen exprs, elem-same name n seen))
  | inr e ↦
      rw e (ground (arith, e, elem-first_placeholders n (name ∷ seen) exprs, elem-same name n seen))
]

Distinct-first_placeholders :
    (seen : List Text) (exprs : List UsageExpr)
    → Distinct (names_of_placeholders (first_placeholders seen exprs))
unfolding first_placeholders elem
Distinct-first_placeholders seen [] = tt
Distinct-first_placeholders seen (literal t ∷ exprs) = Distinct-first_placeholders seen exprs
Distinct-first_placeholders seen (placeholder name p ∷ exprs) = elim (Bool-cases (elem name seen)) [
  | inl e ↦ rw e (Distinct-first_placeholders seen exprs)
  | inr e ↦ rw e (
    ground (arith, elem-first_placeholders name (name ∷ seen) exprs, text_eq_iff name name),
    Distinct-first_placeholders (name ∷ seen) exprs,
  )
]

elem-insert_placeholder :
    (n : Text) (x : Text × ℤ) (ys : List (Text × ℤ))
    → elem n (names_of_placeholders (insert_placeholder x ys))
      ≡ (text_eq x.0 n || elem n (names_of_placeholders ys))
unfolding insert_placeholder elem
elem-insert_placeholder n x [] = refl
elem-insert_placeholder n x (y ∷ ys) = ground (arith, elem-insert_placeholder n x ys)

Distinct-insert_placeholder :
    (x : Text × ℤ) (ys : List (Text × ℤ))
    → elem x.0 (names_of_placeholders ys) ≡ false
    → Distinct (names_of_placeholders ys)
    → Distinct (names_of_placeholders (insert_placeholder x ys))
unfolding insert_placeholder elem
Distinct-insert_placeholder x [] new_one d = (refl, tt)
Distinct-insert_placeholder x (y ∷ ys) new_one d = elim (Bool-cases (ltb_ℤ y.1 x.1)) [
  | inl e ↦ rw e (
    ground (
      arith,
      d,
      new_one,
      elem-insert_placeholder y.0 x ys,
      text_eq_iff x.0 y.0,
      text_eq_iff y.0 x.0,
    ),
    Distinct-insert_placeholder x ys (ground (arith, new_one)) d.1,
  )
  | inr e ↦ rw e (new_one, d)
]

-- sorted, the placeholders are the same
elem-sort_placeholders :
    (n : Text) (xs : List (Text × ℤ))
    → elem n (names_of_placeholders (sort_placeholders xs)) ≡ elem n (names_of_placeholders xs)
unfolding sort_placeholders elem
elem-sort_placeholders n [] = refl
elem-sort_placeholders n (x ∷ xs) =
    elem-insert_placeholder n x (sort_placeholders xs)
    ∙ ap (λ b. text_eq x.0 n || b) (elem-sort_placeholders n xs)

Distinct-sort_placeholders :
    (xs : List (Text × ℤ))
    → Distinct (names_of_placeholders xs)
    → Distinct (names_of_placeholders (sort_placeholders xs))
unfolding sort_placeholders
Distinct-sort_placeholders [] d = tt
Distinct-sort_placeholders (x ∷ xs) d =
    Distinct-insert_placeholder x (sort_placeholders xs) (elem-sort_placeholders x.0 xs ∙ d.0)
      (Distinct-sort_placeholders xs d.1)

ltb_ℤ-asym : (a b : ℤ) → ltb_ℤ a b ≡ true → ltb_ℤ b a ≡ false
ltb_ℤ-asym (pos a) (pos b) h = ground arith
ltb_ℤ-asym (pos a) (negsuc b) h = ground arith
ltb_ℤ-asym (negsuc a) (pos b) h = ground arith
ltb_ℤ-asym (negsuc a) (negsuc b) h = ground arith

insert_placeholder-InPositions :
    (x : Text × ℤ) (ys : List (Text × ℤ)) → InPositions ys → InPositions (insert_placeholder x ys)
unfolding insert_placeholder
insert_placeholder-InPositions x [] o = tt
insert_placeholder-InPositions x (y ∷ []) o = elim (Bool-cases (ltb_ℤ y.1 x.1)) [
  | inl e ↦ rw e (ltb_ℤ-asym y.1 x.1 e, tt)
  | inr e ↦ rw e (e, tt)
]
insert_placeholder-InPositions x (y ∷ z ∷ ys) o = elim (Bool-cases (ltb_ℤ y.1 x.1)) [
  | inl e ↦ elim (Bool-cases (ltb_ℤ z.1 x.1)) [
    | inl e' ↦ ground (arith, o, e, e', insert_placeholder-InPositions x (z ∷ ys) o.1)
    | inr e' ↦ rw (e, e') (ltb_ℤ-asym y.1 x.1 e, (e', o.1))
  ]
  | inr e ↦ rw e (e, o)
]

sort_placeholders-InPositions : (xs : List (Text × ℤ)) → InPositions (sort_placeholders xs)
unfolding sort_placeholders
sort_placeholders-InPositions [] = tt
sort_placeholders-InPositions (x ∷ xs) =
    insert_placeholder-InPositions x (sort_placeholders xs) (sort_placeholders-InPositions xs)

-- The names that Placeholders lists are those of the placeholders of the text, each once, and
-- the placeholders stand by their positions.
pub placeholder_names_lem :
    (exprs : List UsageExpr)
    → Distinct (placeholder_names exprs)
      × ((n : Text) → elem n (placeholder_names exprs) ≡ elem n (used_names exprs))
      × InPositions (sort_placeholders (first_placeholders [] exprs))
unfolding placeholder_names elem
placeholder_names_lem exprs = (
  Distinct-sort_placeholders _ (Distinct-first_placeholders [] exprs),
  λ n.
      elem-sort_placeholders n (first_placeholders [] exprs)
      ∙ elem-first_placeholders n [] exprs
      ∙ and_true _,
  sort_placeholders-InPositions (first_placeholders [] exprs),
)
