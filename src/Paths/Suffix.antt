-- ===== src/Paths/Suffix.antt =====
-- context.go: which names of a path its patterns look at.
use mathlib.Core.Path.{subst}
use mathlib.Core.List.{reverse, reverse-append, reverse-cons}
use joe_cli.Common.{
  Bool, List, Text, [], ap, arith, codes, length, length-append, refl, sym, text_eq, text_eq_refl,
  text_eq_sound, true, ◌&&◌, ◌++◌, ◌∙◌, ◌∷◌, ◌≡◌, ◌≤◌,
}
use joe_cli.Paths.{
  match_arg, match_backward, match_command, match_expr, match_field, match_flag, match_parts,
}

-- The pattern of a kind is of the kind.
of_its_kind : (kind : Text → Bool) (n k : Text) → kind k ≡ true → text_eq n k ≡ true → kind n ≡ true
of_its_kind kind n k h e = subst (λ m. kind m ≡ true) (sym (text_eq_sound n k e)) h

stars : match_command (codes "*") ≡ true
unfolding match_command match_flag match_arg match_expr
stars = refl

flag_dashes : (match_flag (codes "-") ≡ true) × (match_flag (codes "--") ≡ true)
unfolding match_flag
flag_dashes = (refl, refl)

brackets : (match_arg (codes "<>") ≡ true) × (match_expr (codes "<->") ≡ true)
unfolding match_arg match_expr
brackets = (refl, refl)

-- A name is matched by itself, whatever it looks like.
match_field_self : (n : Text) → match_field n n ≡ true
unfolding match_field
match_field_self n = ground (
  arith,
  text_eq_refl n,
  of_its_kind match_command n (codes "*") stars,
  of_its_kind match_flag n (codes "-") flag_dashes.0,
  of_its_kind match_flag n (codes "--") flag_dashes.1,
  of_its_kind match_arg n (codes "<>") brackets.0,
  of_its_kind match_expr n (codes "<->") brackets.1,
)

match_backward_self : (ns more : List Text) → match_backward ns (ns ++ more) ≡ true
unfolding match_backward
match_backward_self [] more = refl
match_backward_self (n ∷ ns) more = rw (match_field_self n) (match_backward_self ns more)

match_backward-append :
    (ps fs more : List Text)
    → length ps ≤ length fs
    → match_backward ps (fs ++ more) ≡ match_backward ps fs
unfolding match_backward
match_backward-append [] fs more h = refl
match_backward-append (p ∷ ps) [] more h = absurd (omega (arith, h))
match_backward-append (p ∷ ps) (f ∷ fs) more h =
    ap (λ b. match_field p f && b) (match_backward-append ps fs more (omega (arith, h)))

length-reverse : (xs : List Text) → length (reverse xs) ≡ length xs
length-reverse [] = refl
length-reverse (x ∷ xs) =
    ap length (reverse-cons x xs)
    ∙ length-append (reverse xs) (x ∷ [])
    ∙ omega (arith, length-reverse xs)

-- A pattern with no more parts than a path has names matches it below any ancestors exactly if
-- it matches the path; and the names of a path, taken as a pattern, match the path below any
-- ancestors.
pub match_parts-append :
    (parts ancestors path : List Text)
    → length parts ≤ length path
    → (match_parts parts (ancestors ++ path) ≡ match_parts parts path)
      × (match_parts path (ancestors ++ path) ≡ true)
unfolding match_parts
match_parts-append parts ancestors path h = (
  ap (match_backward (reverse parts)) (reverse-append ancestors path)
      ∙ match_backward-append (reverse parts) (reverse path) (reverse ancestors)
          (omega (arith, h, length-reverse parts, length-reverse path)),
  ap (match_backward (reverse path)) (reverse-append ancestors path)
      ∙ match_backward_self (reverse path) (reverse ancestors),
)
