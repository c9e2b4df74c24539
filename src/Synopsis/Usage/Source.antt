-- ===== src/Synopsis/Usage/Source.antt =====
-- internal/synopsis/placeholder.go: the segments of a usage text against the text.
use mathlib.Core.Path.{subst}
use joe_cli.Common.{
  Bool-cases, List, Text, [], ap, append_assoc, arith, inl, inr, length, maybe-some, maybe_cases,
  none, refl, some, some_cancel, suc, sym, true, zero, ℕ, ◌++◌, ◌+◌, ◌==◌, ◌∙◌, ◌∷◌, ◌≡◌, ◌≤◌,
}
use joe_cli.Synopsis.Usage.{
  Segment, key, match_key, plain_segment, plain_text, segments, until_close,
}

-- A segment as the text has it.
abbrev pub written : Segment → Text
written (key k) = b'{' ∷ k ++ b'}' ∷ []
written (plain_text t) = t

abbrev pub source_of_usage : List Segment → Text
source_of_usage [] = []
source_of_usage (x ∷ xs) = written x ++ source_of_usage xs

written-plain_segment :
    (t : Text) (xs : List Segment) → source_of_usage (plain_segment t xs) ≡ t ++ source_of_usage xs
written-plain_segment [] xs = refl
written-plain_segment (c ∷ t) xs = refl

eqb_true : (c d : ℕ) → (c == d) ≡ true → c ≡ d
eqb_true c d same = ground (arith, same)

until_close-some : (s k behind : Text) → until_close s ≡ some (k, behind) → s ≡ k ++ b'}' ∷ behind
unfolding until_close
until_close-some [] k behind found = absurd (ground arith)
until_close-some (c ∷ s) k behind found = elim (Bool-cases (c == b'}')) [
  | inl closes ↦
      let h : ([], s) ≡ (k, behind) = some_cancel (rw closes at found) in
      rw (← ap (λ x. x.0) h, ← ap (λ x. x.1) h) (ap (λ d. d ∷ s) (eqb_true c b'}' closes))
  | inr inside ↦ elim (Bool-cases (c == 10)) [
    | inl line ↦ absurd (ground (arith, rw (inside, line) at found))
    | inr same_line ↦
        let (r, e, h) = maybe-some (until_close s) _ (rw (inside, same_line) at found) in
        let h' : (c ∷ r.0, r.1) ≡ (k, behind) = some_cancel h in
        rw (← ap (λ x. x.0) h', ← ap (λ x. x.1) h') (ap (λ t. c ∷ t) (until_close-some s r.0 r.1 e))
  ]
]

match_key-some :
    (s k behind : Text) → match_key s ≡ some (k, behind) → s ≡ b'{' ∷ k ++ b'}' ∷ behind
unfolding match_key
match_key-some [] k behind found = absurd (ground arith)
match_key-some (c ∷ []) k behind found = absurd (ground arith)
match_key-some (c ∷ d ∷ s) k behind found = elim (Bool-cases (c == b'{')) [
  | inr other ↦ absurd (ground (arith, rw other at found))
  | inl opens ↦ elim (Bool-cases (d == 10)) [
    | inl line ↦ absurd (ground (arith, rw (opens, line) at found))
    | inr same_line ↦
        let (r, e, h) = maybe-some (until_close s) _ (rw (opens, same_line) at found) in
        let h' : (d ∷ r.0, r.1) ≡ (k, behind) = some_cancel h in
        rw (← ap (λ x. x.0) h', ← ap (λ x. x.1) h')
          (ap (λ b. b ∷ d ∷ s) (eqb_true c b'{' opens)
            ∙ ap (λ t. b'{' ∷ d ∷ t) (until_close-some s r.0 r.1 e))
  ]
]

append_nil : (a : Text) → a ++ [] ≡ a
append_nil [] = refl
append_nil (x ∷ a) = ap (λ t. x ∷ t) (append_nil a)

segments-source :
    (fuel : ℕ) (before s : Text) → source_of_usage (segments fuel before s) ≡ before ++ s
unfolding segments
segments-source zero before [] = written-plain_segment before []
segments-source (suc fuel) before [] = written-plain_segment before []
segments-source zero before (c ∷ s) = written-plain_segment (before ++ c ∷ s) [] ∙ append_nil _
segments-source (suc fuel) before (c ∷ s) =
    maybe_cases (λ r. source_of_usage r ≡ before ++ c ∷ s) (match_key (c ∷ s)) _ _
      (λ _. segments-source fuel (before ++ c ∷ []) s ∙ append_assoc before (c ∷ []) s)
      (λ x here.
        written-plain_segment before _
        ∙ ap (λ t. before ++ t)
            (ap (λ t. (b'{' ∷ x.0 ++ b'}' ∷ []) ++ t) (segments-source fuel [] x.1)
              ∙ append_assoc (b'{' ∷ x.0) (b'}' ∷ []) x.1
              ∙ sym (match_key-some (c ∷ s) x.0 x.1 here)))

-- No match begins in the text `t`, with `r` behind it.
abbrev pub Unmatched : Text → Text → Type 0
Unmatched [] r = Unit
Unmatched (c ∷ t) r = (match_key (c ∷ t ++ r) ≡ none) × Unmatched t r

-- that of each segment that is not a key
abbrev pub AllUnmatched : List Segment → Type 0
AllUnmatched [] = Unit
AllUnmatched (key k ∷ xs) = AllUnmatched xs
AllUnmatched (plain_text t ∷ xs) = Unmatched t (source_of_usage xs) × AllUnmatched xs

Unmatched-snoc :
    (before : Text) (c : ℕ) (s : Text)
    → Unmatched before (c ∷ s)
    → match_key (c ∷ s) ≡ none
    → Unmatched (before ++ c ∷ []) s
Unmatched-snoc [] c s u none_here = (none_here, tt)
Unmatched-snoc (b ∷ before) c s u none_here = (
  ap (λ t. match_key (b ∷ t)) (append_assoc before (c ∷ []) s) ∙ u.0,
  Unmatched-snoc before c s u.1 none_here,
)

plain_segment-AllUnmatched :
    (t : Text) (xs : List Segment)
    → Unmatched t (source_of_usage xs)
    → AllUnmatched xs
    → AllUnmatched (plain_segment t xs)
plain_segment-AllUnmatched [] xs u rest = rest
plain_segment-AllUnmatched (c ∷ t) xs u rest = (u, rest)

length-behind : (k behind : Text) → length behind + 1 ≤ length (k ++ b'}' ∷ behind)
length-behind [] behind = omega arith
length-behind (c ∷ k) behind = omega (arith, length-behind k behind)

shorter :
    (c : ℕ) (s k behind : Text) → match_key (c ∷ s) ≡ some (k, behind) → length behind ≤ length s
shorter c s k behind found =
    omega (arith, ap length (match_key-some (c ∷ s) k behind found), length-behind k behind)

segments-AllUnmatched :
    (fuel : ℕ) (before s : Text)
    → length s ≤ fuel
    → Unmatched before s
    → AllUnmatched (segments fuel before s)
unfolding segments
segments-AllUnmatched zero before [] room u = plain_segment-AllUnmatched before [] u tt
segments-AllUnmatched (suc fuel) before [] room u = plain_segment-AllUnmatched before [] u tt
segments-AllUnmatched zero before (c ∷ s) room u = absurd (omega arith)
segments-AllUnmatched (suc fuel) before (c ∷ s) room u =
    maybe_cases AllUnmatched (match_key (c ∷ s)) _ _
      (λ none_here.
        segments-AllUnmatched fuel (before ++ c ∷ []) s (omega arith)
          (Unmatched-snoc before c s u none_here))
      (λ x here.
        plain_segment-AllUnmatched before _
          (subst (Unmatched before)
            (match_key-some (c ∷ s) x.0 x.1 here
              ∙ sym (
                  ap (λ t. (b'{' ∷ x.0 ++ b'}' ∷ []) ++ t) (segments-source fuel [] x.1)
                  ∙ append_assoc (b'{' ∷ x.0) (b'}' ∷ []) x.1))
            u)
          (segments-AllUnmatched fuel [] x.1 (omega (arith, shorter c s x.0 x.1 here)) tt))

-- The segments that ParseUsage cuts a text into, written with the braces of the keys, are the
-- text, and in no segment between the keys does a match of the pattern begin.
pub segments-IsCut :
    (text : Text)
    → (source_of_usage (segments (length text) [] text) ≡ text)
      × AllUnmatched (segments (length text) [] text)
segments-IsCut text = (
  segments-source (length text) [] text,
  segments-AllUnmatched (length text) [] text (omega arith) tt,
)
