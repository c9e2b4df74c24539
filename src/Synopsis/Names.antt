-- ===== src/Synopsis/Names.antt =====
-- internal/synopsis/synopsis.go: the names of a flag and of an operator of an expression.
use joe_cli.Common.{
  List, Option, Text, [], arith, if◌then◌else◌, length, none, refl, some, text_eq, times,
  times-append, ℕ, ◌++◌, ◌+◌, ◌∷◌, ◌≡◌, ◌≤◌,
}
use joe_cli.Errors.{option_name}

pub record CanonicalNames : Type 0 where
  pub long : List Text
  pub short : List ℕ

-- one of the names, ahead of those that are sorted
unfoldable pub add_canonical : Text → CanonicalNames → CanonicalNames
add_canonical (c ∷ []) names = record names { short = c ∷ names.short }
add_canonical name names = record names { long = name ∷ names.long }

unfoldable pub canonical_names_of : List Text → CanonicalNames
canonical_names_of [] = record { long = []; short = [] }
canonical_names_of (name ∷ names) = add_canonical name (canonical_names_of names)

unfoldable pub canonical_names : Text → List Text → CanonicalNames
canonical_names name aliases = canonical_names_of (name ∷ aliases)

-- The fields of a Flag that hold its names.
pub record FlagNames : Type 0 where
  pub short : Text
  pub shorts : List ℕ
  pub long : Text
  pub primary : Text
  pub names : List Text
  pub alternate_names : List Text

unfoldable pub long_name : List Text → Text
long_name [] = []
long_name (s ∷ _) = s

unfoldable pub short_name : List ℕ → Text
short_name [] = []
short_name (c ∷ _) = c ∷ []

abbrev pub short_options_of : List ℕ → List Text
short_options_of [] = []
short_options_of (c ∷ cs) = (b'-' ∷ c ∷ []) ∷ short_options_of cs

abbrev pub long_options_of : List Text → List Text
long_options_of [] = []
long_options_of (s ∷ ss) = option_name s ∷ long_options_of ss

abbrev pub flag_names : List Text → List ℕ → Text → List Text → List Text → FlagNames
flag_names long short primary names alternates = record {
  short = short_name short;
  shorts = short;
  long = long_name long;
  primary = primary;
  names = names;
  alternate_names = alternates;
}

-- `withLongAndShort`; with no name at all, `short[0]` is a panic
unfoldable pub with_long_and_short : List Text → List ℕ → Option FlagNames
with_long_and_short [] [] = none
with_long_and_short [] (c ∷ short) = some (
    flag_names [] (c ∷ short) (option_name (c ∷ [])) ((b'-' ∷ c ∷ []) ∷ [])
      (short_options_of short))
with_long_and_short (s ∷ long) [] =
    some (flag_names (s ∷ long) [] (option_name s) (option_name s ∷ []) (long_options_of long))
with_long_and_short (s ∷ long) (c ∷ short) = some (
    flag_names (s ∷ long) (c ∷ short) (option_name s) ((b'-' ∷ c ∷ []) ∷ option_name s ∷ [])
      (short_options_of short ++ long_options_of long))

-- the names that `NewFlag` gives a flag
unfoldable pub new_flag_names : Text → List Text → Option FlagNames
new_flag_names primary aliases =
    let names = canonical_names primary aliases in with_long_and_short names.long names.short

-- One name more is one option more.
times-add_canonical :
    (n name : Text) (p : CanonicalNames)
    → times n (short_options_of (add_canonical name p).short)
        + times n (long_options_of (add_canonical name p).long)
      ≡ (if text_eq (option_name name) n then 1 else 0)
        + (times n (short_options_of p.short) + times n (long_options_of p.long))
unfolding add_canonical
times-add_canonical n [] p = omega arith
times-add_canonical n (c ∷ []) p = omega arith
times-add_canonical n (c ∷ d ∷ s) p = omega arith

times-canonical_names_of :
    (n : Text) (names : List Text)
    → times n (short_options_of (canonical_names_of names).short)
        + times n (long_options_of (canonical_names_of names).long)
      ≡ times n (long_options_of names)
unfolding canonical_names_of
times-canonical_names_of n [] = refl
times-canonical_names_of n (name ∷ names) =
    omega (
      arith,
      times-add_canonical n name (canonical_names_of names),
      times-canonical_names_of n names,
    )

-- what the names of a flag show
abbrev pub Shows : Option FlagNames → List Text → Type 0
Shows none options = ⊥
Shows (some f) options = (n : Text) → times n (f.names ++ f.alternate_names) ≡ times n options

with_long_and_short-Shows :
    (long : List Text) (short : List ℕ) (options : List Text)
    → ((n : Text)
        → times n (short_options_of short) + times n (long_options_of long) ≡ times n options)
    → 1 ≤ length long + length short
    → Shows (with_long_and_short long short) options
unfolding with_long_and_short
with_long_and_short-Shows [] [] options same filled = absurd (omega arith)
with_long_and_short-Shows [] (c ∷ short) options same filled = λ n. omega (arith, same n)
with_long_and_short-Shows (s ∷ long) [] options same filled = λ n. omega (arith, same n)
with_long_and_short-Shows (s ∷ long) (c ∷ short) options same filled =
    λ n. omega (arith, same n, times-append n (short_options_of short) (long_options_of long))

canonical-filled :
    (name : Text) (p : CanonicalNames)
    → 1 ≤ length (add_canonical name p).long + length (add_canonical name p).short
unfolding add_canonical
canonical-filled [] p = omega arith
canonical-filled (c ∷ []) p = omega arith
canonical-filled (c ∷ d ∷ s) p = omega arith

-- Naming a flag does not panic, and each option stands among its names and its alternate names
-- as often as the name and the aliases give it.
pub new_flag_names-Shows :
    (name : Text) (aliases : List Text)
    → Shows (new_flag_names name aliases) (long_options_of (name ∷ aliases))
unfolding new_flag_names canonical_names canonical_names_of
new_flag_names-Shows name aliases =
    with_long_and_short-Shows _ _ _ (λ n. times-canonical_names_of n (name ∷ aliases))
      (canonical-filled name (canonical_names_of aliases))
