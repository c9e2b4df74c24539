-- ===== src/Common/Texts.antt =====
-- Go strings as the list of their bytes. Texts are taken to be ASCII, where a byte is a rune.
use Prim.Native.Nat.{ℕ, ◌+◌}
use Prim.Native.Char.{code}
use Prim.Native.String.{String}
use mathlib.Core.Path.{◌≡◌, refl}
use mathlib.Core.Bool.{Bool, true, false, ◌&&◌, ◌||◌}
use mathlib.Core.Logic.{◌↔◌}
use mathlib.Core.List.{List, [], ◌∷◌, ◌++◌}
use native.Mathlib.Omega.{arith}
use joe_cli.Common.Tests.{◌==◌, if◌then◌else◌}

abbrev pub Text : Type 0
Text = List ℕ

abbrev pub codes : String → Text
codes String.[] = []
codes (String.◌∷◌ c s) = code c ∷ codes s

-- The Go comparison `s == t` of two strings.
abbrev pub text_eq : Text → Text → Bool
text_eq [] [] = true
text_eq (c ∷ s) (d ∷ t) = c == d && text_eq s t
text_eq _ _ = false

pub text_eq_sound : (s t : Text) → text_eq s t ≡ true → s ≡ t
text_eq_sound [] [] h = refl
text_eq_sound [] (d ∷ t) h = ground arith
text_eq_sound (c ∷ s) [] h = ground arith
text_eq_sound (c ∷ s) (d ∷ t) h = ground (arith, text_eq_sound s t)

pub text_eq_refl : (s : Text) → text_eq s s ≡ true
text_eq_refl [] = refl
text_eq_refl (c ∷ s) = ground (arith, text_eq_refl s)

pub text_eq_iff : (s t : Text) → (text_eq s t ≡ true) ↔ (s ≡ t)
text_eq_iff s t = (text_eq_sound s t, λ e. rw e (text_eq_refl t))

-- `strings.Cut(s, sep)` for a separator of one byte: what is before, what is after, whether found.
abbrev pub cut : ℕ → Text → Text × Text × Bool
cut sep [] = ([], [], false)
cut sep (c ∷ s) =
    let (before, after, found) = cut sep s in
    if c == sep then ([], s, true) else (c ∷ before, after, found)

unfoldable pub elem : Text → List Text → Bool
elem s [] = false
elem s (t ∷ ts) = text_eq t s || elem s ts

-- No text stands twice in the list.
abbrev pub Distinct : List Text → Type 0
Distinct [] = Unit
Distinct (t ∷ ts) = (elem t ts ≡ false) × Distinct ts

pub elem-append :
    (n : Text) (ns : List Text) (k : Text) → elem n (ns ++ k ∷ []) ≡ (elem n ns || text_eq k n)
unfolding elem
elem-append n [] k = ground arith
elem-append n (j ∷ ns) k = ground (arith, elem-append n ns k)

pub Distinct-append :
    (ns : List Text) (k : Text) → Distinct ns → elem k ns ≡ false → Distinct (ns ++ k ∷ [])
unfolding elem
Distinct-append [] k d h = (refl, tt)
Distinct-append (n ∷ ns) k d h =
    ground (arith, Distinct-append ns k d.1, elem-append n ns k, text_eq_iff k n, text_eq_iff n k)

-- How often a text stands in a list.
abbrev pub times : Text → List Text → ℕ
times n [] = 0
times n (t ∷ ts) = (if text_eq t n then 1 else 0) + times n ts

pub times-append : (n : Text) (xs ys : List Text) → times n (xs ++ ys) ≡ times n xs + times n ys
times-append n [] ys = omega arith
times-append n (x ∷ xs) ys = omega (arith, times-append n xs ys)
