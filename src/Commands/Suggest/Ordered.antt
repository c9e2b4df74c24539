-- ===== src/Commands/Suggest/Ordered.antt =====
-- command.go: what `suggestCommandNames` keeps of the candidates, and in which order.
use joe_cli.Common.{
  Bool, Bool-cases, List, Text, [], arith, false, if◌then◌else◌, inl, inr, leb, length, ltb, refl,
  text_eq, text_eq_sound, times, true, ℕ, ◌&&◌, ◌+◌, ◌/◌, ◌==◌, ◌||◌, ◌∙◌, ◌∷◌, ◌≡◌,
}
use joe_cli.Commands.Suggest.{
  Scored, insert_scored, levenshtein, ltb_scored, ltb_text, scored_within, sort_scored,
  suggest_command_names,
}

abbrev names_scored : List Scored → List Text
names_scored [] = []
names_scored (x ∷ xs) = x.name ∷ names_scored xs

-- The more similar stand before the less similar, and the equally similar by name.
abbrev pub InOrderScored : List Scored → Type 0
InOrderScored [] = Unit
InOrderScored (x ∷ []) = Unit
InOrderScored (x ∷ y ∷ ys) = (ltb_scored y x ≡ false) × InOrderScored (y ∷ ys)

-- each with the distance that it has from the name
abbrev pub AllScored : Text → List Scored → Type 0
AllScored name [] = Unit
AllScored name (x ∷ xs) = (x.dist ≡ levenshtein name x.name) × AllScored name xs

times-insert_scored :
    (n : Text) (x : Scored) (ys : List Scored)
    → times n (names_scored (insert_scored x ys))
      ≡ (if text_eq x.name n then 1 else 0) + times n (names_scored ys)
unfolding insert_scored
times-insert_scored n x [] = refl
times-insert_scored n x (y ∷ ys) = elim (Bool-cases (ltb_scored y x)) [
  | inl e ↦ rw e (omega (arith, times-insert_scored n x ys))
  | inr e ↦ rw e refl
]

times-sort_scored :
    (n : Text) (xs : List Scored)
    → times n (names_scored (sort_scored xs)) ≡ times n (names_scored xs)
unfolding sort_scored
times-sort_scored n [] = refl
times-sort_scored n (x ∷ xs) =
    omega (arith, times-insert_scored n x (sort_scored xs), times-sort_scored n xs)

plus_zero : (b : Bool) (k : ℕ) → (if b then k else 0) ≡ (if b then 0 + k else 0)
plus_zero true k = omega arith
plus_zero false k = refl

drop_zero : (b : Bool) (m k : ℕ) → m ≡ (if b then k else 0) → 0 + m ≡ (if b then 0 + k else 0)
drop_zero b m k e = omega (arith, e, plus_zero b k)

-- another text, near or far, changes nothing
skip_other :
    (threshold : ℕ) (name n c : Text) (cs : List Text)
    → text_eq c n ≡ false
    → times n (names_scored (scored_within threshold name cs))
      ≡ (if leb (levenshtein name n) threshold then times n cs else 0)
    → times n (names_scored (scored_within threshold name (c ∷ cs)))
      ≡ (if leb (levenshtein name n) threshold then times n (c ∷ cs) else 0)
unfolding scored_within
skip_other threshold name n c cs other rest =
    elim (Bool-cases (leb (levenshtein name c) threshold)) [
      | inl near ↦ rw (near, other) (drop_zero (leb (levenshtein name n) threshold) _ _ rest)
      | inr far ↦
          rw (far, other) (rest ∙ plus_zero (leb (levenshtein name n) threshold) (times n cs))
    ]

times-scored_within :
    (threshold : ℕ) (name n : Text) (cs : List Text)
    → times n (names_scored (scored_within threshold name cs))
      ≡ (if leb (levenshtein name n) threshold then times n cs else 0)
unfolding scored_within
times-scored_within threshold name n [] = elim (Bool-cases (leb (levenshtein name n) threshold)) [
  | inl e ↦ rw e refl
  | inr e ↦ rw e refl
]
times-scored_within threshold name n (c ∷ cs) =
    let rest = times-scored_within threshold name n cs in
    elim (Bool-cases (text_eq c n)) [
      | inl same ↦
          rw (text_eq_sound c n same) (elim (Bool-cases (leb (levenshtein name n) threshold)) [
            | inl near ↦ rw near (omega (arith, rw near at rest))
            | inr far ↦ rw far (rw far at rest)
          ])
      | inr other ↦ skip_other threshold name n c cs other rest
    ]

ltb_text-asym : (s t : Text) → ltb_text s t ≡ true → ltb_text t s ≡ false
unfolding ltb_text
ltb_text-asym [] [] h = ground arith
ltb_text-asym [] (d ∷ t) h = refl
ltb_text-asym (c ∷ s) [] h = ground arith
ltb_text-asym (c ∷ s) (d ∷ t) h = ground (arith, ltb_text-asym s t)

ltb_scored-asym : (x y : Scored) → ltb_scored x y ≡ true → ltb_scored y x ≡ false
ltb_scored-asym x y h = ground (arith, ltb_text-asym x.name y.name)

insert_scored-InOrderScored :
    (x : Scored) (ys : List Scored) → InOrderScored ys → InOrderScored (insert_scored x ys)
unfolding insert_scored
insert_scored-InOrderScored x [] o = tt
insert_scored-InOrderScored x (y ∷ []) o = elim (Bool-cases (ltb_scored y x)) [
  | inl e ↦ rw e (ltb_scored-asym y x e, tt)
  | inr e ↦ rw e (e, tt)
]
insert_scored-InOrderScored x (y ∷ z ∷ ys) o = elim (Bool-cases (ltb_scored y x)) [
  | inl e ↦ elim (Bool-cases (ltb_scored z x)) [
    | inl e' ↦ rw (e, e') (o.0, rw e' at (insert_scored-InOrderScored x (z ∷ ys) o.1))
    | inr e' ↦ rw (e, e') (ltb_scored-asym y x e, (e', o.1))
  ]
  | inr e ↦ rw e (e, o)
]

sort_scored-InOrderScored : (xs : List Scored) → InOrderScored (sort_scored xs)
unfolding sort_scored
sort_scored-InOrderScored [] = tt
sort_scored-InOrderScored (x ∷ xs) =
    insert_scored-InOrderScored x (sort_scored xs) (sort_scored-InOrderScored xs)

scored_within-AllScored :
    (threshold : ℕ) (name : Text) (cs : List Text)
    → AllScored name (scored_within threshold name cs)
unfolding scored_within
scored_within-AllScored threshold name [] = tt
scored_within-AllScored threshold name (c ∷ cs) =
    elim (Bool-cases (leb (levenshtein name c) threshold)) [
      | inl near ↦ rw near (refl, scored_within-AllScored threshold name cs)
      | inr far ↦ rw far (scored_within-AllScored threshold name cs)
    ]

insert_scored-AllScored :
    (name : Text) (x : Scored) (ys : List Scored)
    → (x.dist ≡ levenshtein name x.name)
    → AllScored name ys
    → AllScored name (insert_scored x ys)
unfolding insert_scored
insert_scored-AllScored name x [] e a = (e, tt)
insert_scored-AllScored name x (y ∷ ys) e a = elim (Bool-cases (ltb_scored y x)) [
  | inl before ↦ rw before (a.0, insert_scored-AllScored name x ys e a.1)
  | inr behind ↦ rw behind (e, a)
]

sort_scored-AllScored :
    (name : Text) (xs : List Scored) → AllScored name xs → AllScored name (sort_scored xs)
unfolding sort_scored
sort_scored-AllScored name [] a = tt
sort_scored-AllScored name (x ∷ xs) a =
    insert_scored-AllScored name x (sort_scored xs) a.0 (sort_scored-AllScored name xs a.1)

-- `s` is nearer to the name than `t`, or as near and less
abbrev pub is_nearer : Text → Text → Text → Bool
is_nearer name s t =
    ltb (levenshtein name s) (levenshtein name t)
    || (levenshtein name s == levenshtein name t && ltb_text s t)

abbrev pub IsByDistance : Text → List Text → Type 0
IsByDistance name [] = Unit
IsByDistance name (s ∷ []) = Unit
IsByDistance name (s ∷ t ∷ ts) = (is_nearer name t s ≡ false) × IsByDistance name (t ∷ ts)

by_distance :
    (name : Text) (xs : List Scored)
    → AllScored name xs
    → InOrderScored xs
    → IsByDistance name (names_scored xs)
by_distance name [] a o = tt
by_distance name (x ∷ []) a o = tt
by_distance name (x ∷ y ∷ ys) a o = (rw (a.0, a.1.0) at o.0, by_distance name (y ∷ ys) a.1 o.1)

-- The suggestions for a name that is not empty are the candidates whose edit distance from it is
-- at most half its length plus one, each as often as it is a candidate; and of two that follow
-- each other, the second is not nearer to the name, nor as near and less.
pub suggest_command_names-IsByDistance :
    (c : ℕ) (name : Text) (candidates : List Text)
    → ((n : Text)
        → times n (suggest_command_names (c ∷ name) candidates) ≡ (
            if leb (levenshtein (c ∷ name) n) (length (c ∷ name) / 2 + 1)
            then times n candidates
            else 0))
      × IsByDistance (c ∷ name) (suggest_command_names (c ∷ name) candidates)
unfolding suggest_command_names
suggest_command_names-IsByDistance c name candidates =
    let threshold = length (c ∷ name) / 2 + 1 in
    let scored = scored_within threshold (c ∷ name) candidates in
    (
      λ n. times-sort_scored n scored ∙ times-scored_within threshold (c ∷ name) n candidates,
      by_distance (c ∷ name) (sort_scored scored)
          (sort_scored-AllScored (c ∷ name) scored
            (scored_within-AllScored threshold (c ∷ name) candidates))
          (sort_scored-InOrderScored scored),
    )
