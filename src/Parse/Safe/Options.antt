-- ===== src/Parse/Safe/Options.antt =====
-- The panics of `RawParse` in the part that reads options.
use joe_cli.Counters.{Counter, has_dash}
use joe_cli.Results.{BindingResult}
use mathlib.Core.Path.{subst}
use joe_cli.Common.{
  All, Bool, List, Option, Text, [], arith, cut, false, if◌then◌else◌, maybe_cases, none, refl,
  some, text_eq, text_eq_iff, true, ℕ, ◌∷◌, ◌≡◌,
}
use joe_cli.Binding.{Binding, IsLawful}
use joe_cli.Parse.Words.{Exit, Machine, args_only, dashes}
use joe_cli.Parse.Options.{
  Letter, after_letter, known_letter, known_long, leaves, letter, letter_alone, letter_end,
  letter_refused, letter_value, letter_value_of, letters, long_option, long_value, next_letter,
  read_flag, read_option, resolve_letter, short_options, unknown_letter, unknown_long,
}
use joe_cli.Parse.Safe.Guards.{ExitSafe, LetterSafe, MachineSafe, NotDash, take_args-TakenSafe}

module _ (b : Binding) (lawful : IsLawful b) where
  long_option-Safe :
      (flags : ℕ) (text : Text) (args : List Text) (m : Machine)
      → MachineSafe args m
      → ExitSafe (long_option b flags text args m)
  unfolding long_option unknown_long known_long long_value
  long_option-Safe flags text args m h =
      let (name, value, has_value) = cut b'=' text in
      maybe_cases ExitSafe (b.resolve_alias name) _ _ (λ _. ground arith)
        (λ flag _. ground (arith, take_args-TakenSafe flag (b.lookup_option flag) args h.0))

  letter_end-Safe :
      (short flag : Text) (args : List Text) (m : Machine) (c : Counter)
      → b.lookup_option flag ≡ some c
      → MachineSafe args m
      → LetterSafe (letter_end b short flag args m)
  unfolding letter_end letter_alone
  letter_end-Safe short flag args m c k h =
      ground (arith, take_args-TakenSafe flag (b.lookup_option flag) args h.0)

  letter_value_of-Safe :
      (o : Option Counter) (short flag value : Text) (args : List Text) (m : Machine) (c : Counter)
      → o ≡ some c
      → MachineSafe args m
      → LetterSafe (letter_value_of o short flag value args m)
  unfolding letter_value_of letter_value letter_refused
  letter_value_of-Safe none short flag value args m c k h = absurd (ground arith)
  letter_value_of-Safe (some opt) short flag value args m c k h = ground arith

  known_letter-Safe :
      (short flag value : Text) (args : List Text) (m : Machine) (c : Counter)
      → b.lookup_option flag ≡ some c
      → MachineSafe args m
      → LetterSafe (known_letter b short flag value args m)
  unfolding known_letter
  known_letter-Safe short flag [] args m c k h = letter_end-Safe short flag args m c k h
  known_letter-Safe short flag (d ∷ value) args m c k h =
      letter_value_of-Safe (b.lookup_option flag) short flag (d ∷ value) args m c k h

  resolve_letter-known :
      (first : Bool) (arg : Text) (c : ℕ) (flag : Text) (looks_numeric : Bool)
      → resolve_letter b first arg c ≡ some (flag, looks_numeric)
      → (t : Counter) × (b.lookup_option flag ≡ some t)
  unfolding resolve_letter
  resolve_letter-known first arg c flag looks_numeric e = at_alias (b.resolve_alias (c ∷ [])) refl
    where
      numeric_known :
          b.numeric ≡ flag
          → text_eq b.numeric [] ≡ false
          → (t : Counter) × (b.lookup_option flag ≡ some t)
      numeric_known q n =
          subst (λ f. (t : Counter) × (b.lookup_option f ≡ some t)) q
            (lawful.counts (λ z. ground (arith, text_eq_iff b.numeric [])))

      at_alias :
          (o : Option Text)
          → b.resolve_alias (c ∷ []) ≡ o
          → (t : Counter) × (b.lookup_option flag ≡ some t)
      at_alias none q = numeric_known (ground arith) (ground arith)
      at_alias (some r) q = lawful.resolves (c ∷ []) flag (ground arith)

  letter-Safe :
      (flags : ℕ) (first : Bool) (arg : Text) (c : ℕ) (behind : Text) (args : List Text)
      (m : Machine)
      → NotDash (b'-' ∷ arg)
      → MachineSafe args m
      → LetterSafe (letter b flags first arg c behind args m)
  unfolding letter unknown_letter
  letter-Safe flags first arg c behind args m d h =
      maybe_cases LetterSafe (resolve_letter b first arg c) _ _ (λ _. ground arith)
        (λ (flag, looks_numeric) e.
          let (t, k) = resolve_letter-known first arg c flag looks_numeric e in
          known_letter-Safe _ flag _ args m t k h)

  after_letter-Safe :
      (l : Letter) (go_on : List Text → BindingResult → Exit)
      → LetterSafe l
      → ((rest : List Text) (out : BindingResult) → All NotDash rest → ExitSafe (go_on rest out))
      → ExitSafe (after_letter l go_on)
  after_letter-Safe (leaves e) go_on h k = h
  after_letter-Safe (next_letter rest out) go_on h k = k rest out h

  letters-Safe :
      (flags : ℕ) (first : Bool) (arg text : Text) (args : List Text) (m : Machine)
      → NotDash (b'-' ∷ arg)
      → MachineSafe args m
      → ExitSafe (letters b flags first arg text args m)
  unfolding letters
  letters-Safe flags first arg [] args m d h = h
  letters-Safe flags first arg (c ∷ behind) args m d h =
      after_letter-Safe _ _ (letter-Safe flags first arg c behind args m d h) λ rest out k.
        letters-Safe flags false arg behind rest (record m { out = out }) d
          (k, record { paired = h.1.paired })

  read_option-Safe :
      (flags : ℕ) (arg : Text) (args : List Text) (m : Machine)
      → has_dash arg ≡ true
      → NotDash arg
      → MachineSafe args m
      → ExitSafe (read_option b flags arg args m)
  unfolding read_option short_options has_dash
  read_option-Safe flags [] args m p d h = absurd (ground arith)
  read_option-Safe flags (c ∷ []) args m p d h = absurd (ground arith)
  read_option-Safe flags (d' ∷ c ∷ text) args m p d h = ground (
    arith,
    long_option-Safe flags text args m h,
    letters-Safe flags true (c ∷ text) (c ∷ text) args m refl h,
  )

  pub read_flag-Safe :
      (flags : ℕ) (arg : Text) (args : List Text) (m : Machine)
      → has_dash arg ≡ true
      → NotDash arg
      → MachineSafe args m
      → ExitSafe (read_flag b flags arg args m)
  unfolding read_flag
  read_flag-Safe flags arg args m p d h =
      let m' = record m { state = if text_eq arg dashes then args_only else m.state } in
      let h' : MachineSafe args m' = (h.0, record { paired = h.1.paired }) in
      ground (arith, read_option-Safe flags arg args m' p d h')
