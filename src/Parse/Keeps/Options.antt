-- ===== src/Parse/Keeps/Options.antt =====
-- Predicates on the result, in the part of `RawParse` that reads options.
use joe_cli.Counters.{Counter, done}
use joe_cli.Parse.Words.{Exit, Machine, args_only, dashes}
use joe_cli.Parse.Options.{
  Letter, after_letter, known_letter, known_long, leaves, letter, letter_alone, letter_end,
  letter_refused, letter_value, letter_value_of, letters, long_option, long_value, next_letter,
  read_flag, read_option, resolve_letter, short_options, unknown_letter, unknown_long,
}
use joe_cli.Parse.Keeps.Kept.{ExitKeeps, IsBindable, LetterKeeps, MachineKeeps, aliased, by_number}
use joe_cli.Results.{BindingResult, append_output}
use joe_cli.Errors.{Error, end_of_arguments, plain, signal}
use joe_cli.Binding.{Binding}
use joe_cli.Positional.{Taken, failed, instance_take, on_taken, take_args, taken}
use joe_cli.Common.{
  Bool, Bool-cases, List, Option, Text, [], arith, cut, false, if◌then◌else◌, inl, inr, maybe_cases,
  none, refl, some, text_eq, true, ℕ, ◌∷◌, ◌≡◌,
}

on_taken-Keeps {ℓ} :
    {B : Type ℓ} (Q : B → Type 0) (t : Taken) (ok : List Text → List Text → B) (fail : Error → B)
    → ((outputs rest : List Text) → Q (ok outputs rest))
    → ((e : Error) → Q (fail e))
    → Q (on_taken t ok fail)
on_taken-Keeps Q (taken outputs rest) ok fail h k = h outputs rest
on_taken-Keeps Q (failed e) ok fail h k = k e

module _ (b : Binding) (P : BindingResult → Type 0)
    (record_keeps : (m : BindingResult) (name label : Text) (values : List Text)
      → IsBindable b name
      → P m
      → P (append_output m name (label ∷ values))) where
  long_value-Keeps :
      (name flag value : Text) (has_value : Bool) (args : List Text) (m : Machine)
      → IsBindable b flag
      → MachineKeeps b P m
      → ExitKeeps b P (long_value b name flag value has_value args m)
  unfolding long_value
  long_value-Keeps name flag value true args m f h = (record_keeps m.out flag _ _ f h.0, h.1)
  long_value-Keeps name flag value false args m f h =
      on_taken-Keeps (ExitKeeps b P) (take_args flag (b.lookup_option flag) args) _ _
        (λ outputs rest. (record_keeps m.out flag _ outputs f h.0, h.1)) (λ e. h.0)

  long_option-Keeps :
      (flags : ℕ) (text : Text) (args : List Text) (m : Machine)
      → MachineKeeps b P m
      → ExitKeeps b P (long_option b flags text args m)
  unfolding long_option unknown_long known_long
  long_option-Keeps flags text args m h =
      let (name, value, has_value) = cut b'=' text in
      maybe_cases (ExitKeeps b P) (b.resolve_alias name) _ _ (λ _. ground arith)
        (λ flag e.
          ground (arith, long_value-Keeps name flag value has_value args m (aliased name e) h))

  letter_refused-Keeps :
      (short flag : Text) (args : List Text) (m : Machine) (e : Error)
      → IsBindable b flag
      → P m.out
      → LetterKeeps b P (letter_refused short flag args m e)
  unfolding letter_refused
  letter_refused-Keeps short flag args m (plain (signal end_of_arguments)) f h =
      record_keeps m.out flag short ([] ∷ []) f h
  letter_refused-Keeps short flag args m e f h = h

  letter_value_of-Keeps :
      (o : Option Counter) (short flag value : Text) (args : List Text) (m : Machine)
      → IsBindable b flag
      → MachineKeeps b P m
      → LetterKeeps b P (letter_value_of o short flag value args m)
  unfolding letter_value_of letter_value
  letter_value_of-Keeps none short flag value args m f h = tt
  letter_value_of-Keeps (some opt) short flag value args m f h =
      maybe_cases (LetterKeeps b P) (instance_take value false opt) _ _
        (λ _. (record_keeps m.out flag short (value ∷ []) f h.0, h.1))
        (λ e _. ground (arith, letter_refused-Keeps short flag args m e f h.0))

  letter_alone-Keeps :
      (o : Option Counter) (short flag : Text) (args : List Text) (m : Machine)
      → IsBindable b flag
      → MachineKeeps b P m
      → LetterKeeps b P (letter_alone o short flag args m)
  unfolding letter_alone
  letter_alone-Keeps none short flag args m f h = tt
  letter_alone-Keeps (some opt) short flag args m f h =
      let kept = record_keeps m.out flag short ([] ∷ []) f h.0 in
      maybe_cases (LetterKeeps b P) (done opt) _ _ (λ _. kept) (λ e _. kept)

  letter_end-Keeps :
      (short flag : Text) (args : List Text) (m : Machine)
      → IsBindable b flag
      → MachineKeeps b P m
      → LetterKeeps b P (letter_end b short flag args m)
  unfolding letter_end
  letter_end-Keeps short flag args m f h = elim (Bool-cases (b.behavior_flags flag)) [
    | inl e ↦ rw e (letter_alone-Keeps (b.lookup_option flag) short flag args m f h)
    | inr e ↦ rw e (
        on_taken-Keeps (LetterKeeps b P) (take_args flag (b.lookup_option flag) args) _ _
          (λ outputs rest. record_keeps m.out flag short outputs f h.0) (λ e. h.0))
  ]

  known_letter-Keeps :
      (short flag value : Text) (args : List Text) (m : Machine)
      → IsBindable b flag
      → MachineKeeps b P m
      → LetterKeeps b P (known_letter b short flag value args m)
  unfolding known_letter
  known_letter-Keeps short flag [] args m f h = letter_end-Keeps short flag args m f h
  known_letter-Keeps short flag (d ∷ value) args m f h =
      letter_value_of-Keeps (b.lookup_option flag) short flag (d ∷ value) args m f h

  resolve_letter-IsBindable :
      (first : Bool) (arg : Text) (c : ℕ) (flag : Text) (looks_numeric : Bool)
      → resolve_letter b first arg c ≡ some (flag, looks_numeric)
      → IsBindable b flag
  unfolding resolve_letter
  resolve_letter-IsBindable first arg c flag looks_numeric e =
      at_alias (b.resolve_alias (c ∷ [])) refl
    where
      at_alias : (o : Option Text) → b.resolve_alias (c ∷ []) ≡ o → IsBindable b flag
      at_alias none q = by_number (ground arith)
      at_alias (some r) q = aliased (c ∷ []) (ground arith)

  letter-Keeps :
      (flags : ℕ) (first : Bool) (arg : Text) (c : ℕ) (behind : Text) (args : List Text)
      (m : Machine)
      → MachineKeeps b P m
      → LetterKeeps b P (letter b flags first arg c behind args m)
  unfolding letter unknown_letter
  letter-Keeps flags first arg c behind args m h =
      maybe_cases (LetterKeeps b P) (resolve_letter b first arg c) _ _ (λ _. ground arith)
        (λ (flag, looks_numeric) e.
          known_letter-Keeps _ flag _ args m
            (resolve_letter-IsBindable first arg c flag looks_numeric e) h)

  after_letter-Keeps :
      (l : Letter) (go_on : List Text → BindingResult → Exit)
      → LetterKeeps b P l
      → ((rest : List Text) (out : BindingResult) → P out → ExitKeeps b P (go_on rest out))
      → ExitKeeps b P (after_letter l go_on)
  after_letter-Keeps (leaves e) go_on h k = h
  after_letter-Keeps (next_letter rest out) go_on h k = k rest out h

  letters-Keeps :
      (flags : ℕ) (first : Bool) (arg text : Text) (args : List Text) (m : Machine)
      → MachineKeeps b P m
      → ExitKeeps b P (letters b flags first arg text args m)
  unfolding letters
  letters-Keeps flags first arg [] args m h = h
  letters-Keeps flags first arg (c ∷ behind) args m h =
      after_letter-Keeps _ _ (letter-Keeps flags first arg c behind args m h)
        λ rest out k. letters-Keeps flags false arg behind rest (record m { out = out }) (k, h.1)

  read_option-Keeps :
      (flags : ℕ) (arg : Text) (args : List Text) (m : Machine)
      → MachineKeeps b P m
      → ExitKeeps b P (read_option b flags arg args m)
  unfolding read_option short_options
  read_option-Keeps flags (d ∷ c ∷ text) args m h = ground (
    arith,
    long_option-Keeps flags text args m h,
    letters-Keeps flags true (c ∷ text) (c ∷ text) args m h,
  )
  read_option-Keeps flags _ args m h = tt

  pub read_flag-Keeps :
      (flags : ℕ) (arg : Text) (args : List Text) (m : Machine)
      → MachineKeeps b P m
      → ExitKeeps b P (read_flag b flags arg args m)
  unfolding read_flag
  read_flag-Keeps flags arg args m h =
      let m' = record m { state = if text_eq arg dashes then args_only else m.state } in
      ground (arith, read_option-Keeps flags arg args m' h)
