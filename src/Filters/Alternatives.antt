-- ===== src/Filters/Alternatives.antt =====
-- filter.go: the alternatives of a pattern.
use joe_cli.Common.{
  Bool, List, Text, [], ap, arith, false, length, refl, sym, true, ℕ, ◌++◌, ◌==◌, ◌||◌, ◌∙◌, ◌∷◌,
  ◌≡◌, ◌≤◌,
}
use joe_cli.Filters.{
  Filter, FilterContext, any_filter, any_of, cast_universe_filter, new_context_path_expr,
  pattern_filter, trim_space,
}
use joe_cli.Extensions.Expander.Compile.{split_at, split_on}

-- the alternatives of a pattern, in their order
filters_of : List Text → List Filter
filters_of [] = []
filters_of (expr ∷ exprs) = new_context_path_expr (trim_space expr) ∷ filters_of exprs

filters_of-append : (xs ys : List Text) → filters_of (xs ++ ys) ≡ filters_of xs ++ filters_of ys
unfolding filters_of
filters_of-append [] ys = refl
filters_of-append (x ∷ xs) ys =
    ap (λ fs. new_context_path_expr (trim_space x) ∷ fs) (filters_of-append xs ys)

split_at-filled : (b : Bool) (c : ℕ) (fields : List Text) → 1 ≤ length (split_at b c fields)
unfolding split_at
split_at-filled true c fields = omega arith
split_at-filled false c [] = omega arith
split_at-filled false c (f ∷ fields) = omega arith

split_on-filled : (sep : ℕ) (s : Text) → 1 ≤ length (split_on sep s)
unfolding split_on
split_on-filled sep [] = omega arith
split_on-filled sep (c ∷ s) = split_at-filled (c == sep) c (split_on sep s)

split_at-append :
    (b : Bool) (c : ℕ) (xs ys : List Text)
    → 1 ≤ length xs
    → split_at b c (xs ++ ys) ≡ split_at b c xs ++ ys
unfolding split_at
split_at-append true c xs ys filled = refl
split_at-append false c [] ys filled = absurd (omega arith)
split_at-append false c (x ∷ xs) ys filled = refl

eq_self : (n : ℕ) → (n == n) ≡ true
eq_self n = ground arith

split_on-append :
    (sep : ℕ) (p q : Text) → split_on sep (p ++ sep ∷ q) ≡ split_on sep p ++ split_on sep q
unfolding split_on split_at
split_on-append sep [] q = rw (eq_self sep) refl
split_on-append sep (c ∷ p) q =
    ap (split_at (c == sep) c) (split_on-append sep p q)
    ∙ split_at-append (c == sep) c (split_on sep p) (split_on sep q) (split_on-filled sep p)

any_filter-append :
    (fs gs : List Filter) (c : FilterContext)
    → any_filter (fs ++ gs) c ≡ (any_filter fs c || any_filter gs c)
unfolding any_filter
any_filter-append [] gs c = refl
any_filter-append (f ∷ fs) gs c = ground (arith, any_filter-append fs gs c)

pattern_filter-any_filter :
    (exprs : List Text) (c : FilterContext)
    → 1 ≤ length exprs
    → any_of (filters_of exprs) c ≡ any_filter (filters_of exprs) c
unfolding cast_universe_filter any_filter filters_of
pattern_filter-any_filter [] c filled = absurd (omega arith)
pattern_filter-any_filter (x ∷ []) c filled = ground arith
pattern_filter-any_filter (x ∷ y ∷ exprs) c filled = refl

pattern_filter-alternatives :
    (p : Text) (c : FilterContext)
    → pattern_filter p c ≡ any_filter (filters_of (split_on b',' p)) c
unfolding pattern_filter filters_of
pattern_filter-alternatives p c =
    pattern_filter-any_filter (split_on b',' p) c (split_on-filled b',' p)

-- A comma in a context pattern is an alternative: for any two patterns, the filter of both with
-- a comma between them matches exactly the contexts that one of the two matches, whatever else
-- is in them.
pub pattern_filter-comma :
    (p q : Text) (c : FilterContext)
    → pattern_filter (p ++ b',' ∷ q) c ≡ (pattern_filter p c || pattern_filter q c)
pattern_filter-comma p q c =
    pattern_filter-alternatives (p ++ b',' ∷ q) c
    ∙ ap (λ exprs. any_filter (filters_of exprs) c) (split_on-append b',' p q)
    ∙ ap (λ fs. any_filter fs c) (filters_of-append (split_on b',' p) (split_on b',' q))
    ∙ any_filter-append (filters_of (split_on b',' p)) (filters_of (split_on b',' q)) c
    ∙ ap (λ b. b || any_filter (filters_of (split_on b',' q)) c)
        (sym (pattern_filter-alternatives p c))
    ∙ ap (λ b. pattern_filter p c || b) (sym (pattern_filter-alternatives q c))
