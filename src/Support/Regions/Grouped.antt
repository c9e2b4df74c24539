-- ===== src/Support/Regions/Grouped.antt =====
-- support.go: the pairs of a map text with the fields that belong to their values.
use joe_cli.Support.Maps.{
  Regions, extend_last, group_kvps, has_equals, joined_on, split_prefix, split_suffix, suffix_from,
}
use joe_cli.Common.{
  Bool-cases, List, Text, [], ap, append-nil, append_assoc, arith, inl, inr, refl, sym, true, ◌++◌,
  ◌∷◌, ◌≡◌, ◌≢◌,
}

-- the fields, each behind a comma
pub led : List Text → Text
led [] = []
led (f ∷ fs) = b',' ∷ (f ++ led fs)

pub led-append : (fs gs : List Text) → led (fs ++ gs) ≡ led fs ++ led gs
unfolding led
led-append [] gs = refl
led-append (f ∷ fs) gs = rw (led-append fs gs, append_assoc)

pub led-joined_on : (f : Text) (fs : List Text) → led (f ∷ fs) ≡ b',' ∷ joined_on b',' (f ∷ fs)
unfolding led joined_on
led-joined_on f [] = ap (λ x. b',' ∷ x) (append-nil f)
led-joined_on f (g ∷ fs) = ap (λ x. b',' ∷ (f ++ x)) (led-joined_on g fs)

pub joined_on-led : (fs : List Text) (text : Text) → led fs ≡ b',' ∷ text → joined_on b',' fs ≡ text
unfolding led
joined_on-led [] text h = absurd (ground arith)
joined_on-led (f ∷ fs) text h = ground (arith, led-joined_on f fs)

extend_last_ne : (kvps : List Text) (field : Text) → kvps ≢ [] → extend_last kvps field ≢ []
extend_last_ne [] field h = h
extend_last_ne (k ∷ []) field h = λ p. ground arith
extend_last_ne (k ∷ l ∷ ks) field h = λ p. ground arith

led-extend_last :
    (kvps : List Text) (field : Text)
    → kvps ≢ []
    → led (extend_last kvps field) ≡ led kvps ++ b',' ∷ field
unfolding led
led-extend_last [] field h = absurd (h refl)
led-extend_last (k ∷ []) field h = rw (append-nil, append-nil) refl
led-extend_last (k ∷ l ∷ ks) field h =
    ap (λ x. b',' ∷ x)
      (rw (led-extend_last (l ∷ ks) field (λ p. ground arith)) (sym (append_assoc k _ _)))

pub snoc_ne : (kvps : List Text) (field : Text) → kvps ++ field ∷ [] ≢ []
snoc_ne [] field = λ p. ground arith
snoc_ne (k ∷ ks) field = λ p. ground arith

led-group_kvps :
    (kvps fields : List Text) → kvps ≢ [] → led (group_kvps kvps fields) ≡ led kvps ++ led fields
unfolding group_kvps led
led-group_kvps kvps [] h = sym (append-nil (led kvps))
led-group_kvps kvps (f ∷ fs) h = elim (Bool-cases (has_equals f)) [
  | inl q ↦
      rw (
        q,
        led-group_kvps (kvps ++ f ∷ []) fs (snoc_ne kvps f),
        led-append,
        append_assoc,
        append-nil,
      )
  | inr q ↦ rw (
    q,
    led-group_kvps (extend_last kvps f) fs (extend_last_ne kvps f h),
    led-extend_last kvps f h,
    append_assoc,
  )
]

-- the first field, if any, has an equal sign
abbrev pub Begins : List Text → Type 0
Begins [] = Unit
Begins (f ∷ fs) = has_equals f ≡ true

pub split_prefix-Begins : (fs : List Text) → Begins (split_prefix fs).1
unfolding split_prefix
split_prefix-Begins [] = tt
split_prefix-Begins (f ∷ fs) = ground (arith, split_prefix-Begins fs)

suffix_from-Begins :
    (f : Text) (fs : List Text) (p : List Text × List Text)
    → has_equals f ≡ true
    → Begins (suffix_from f fs p).0
unfolding suffix_from
suffix_from-Begins f fs ([], after) h = rw h h
suffix_from-Begins f fs (g ∷ gs, after) h = h

pub split_suffix-Begins : (fs : List Text) → Begins fs → Begins (split_suffix fs).0
unfolding split_suffix
split_suffix-Begins [] h = tt
split_suffix-Begins (f ∷ fs) h = suffix_from-Begins f fs (split_suffix fs) h

pub led-grouped : (grouped : List Text) → Begins grouped → led (group_kvps [] grouped) ≡ led grouped
unfolding group_kvps led
led-grouped [] h = refl
led-grouped (f ∷ fs) h = rw (h, led-group_kvps (f ∷ []) fs (λ p. ground arith), append-nil)

-- the fields of the regions in their order
abbrev pub all_fields : Regions → List Text
all_fields r = r.prefix ++ r.kvps ++ r.suffix

pub led-one : (f : Text) → led (f ∷ []) ≡ b',' ∷ f
unfolding led
led-one f = ap (λ x. b',' ∷ x) (append-nil f)
