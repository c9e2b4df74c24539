-- ===== src/Common/Options.antt =====
-- A value that may be missing: what to do in either case, and the rule to reason about it.
use mathlib.Core.Path.{◌≡◌, refl}
use mathlib.Core.Option.{Option, none, some}

module _ {ℓ κ} {A : Type ℓ} {B : Type κ} where
  abbrev pub maybe : Option A → B → (A → B) → B
  maybe none n s = n
  maybe (some a) n s = s a

module _ {ℓ κ ι} {A : Type ℓ} {B : Type κ} where
  pub maybe_cases :
      (P : B → Type ι) (o : Option A) (n : B) (s : A → B)
      → (o ≡ none → P n)
      → ((a : A) → o ≡ some a → P (s a))
      → P (maybe o n s)
  maybe_cases P none n s hn hs = hn refl
  maybe_cases P (some a) n s hn hs = hs a refl

module _ {ℓ κ} {A : Type ℓ} {B : Type κ} where
  -- A chain that succeeds has passed its first step.
  pub maybe-some :
      (o : Option A) (f : A → Option B) {b : B}
      → maybe o none f ≡ some b
      → (a : A) × (o ≡ some a) × (f a ≡ some b)
  maybe-some none f h = cc
  maybe-some (some a) f h = (a, refl, h)

pub some_cancel {ℓ} : {A : Type ℓ} {a b : A} → some a ≡ some b → a ≡ b
some_cancel h = cc
