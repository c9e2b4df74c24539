-- ===== src/Common/Maps.antt =====
-- A Go map with string keys as an association list with one entry for a key.
use mathlib.Core.Path.{◌≡◌, refl, sym, ap, subst}
use mathlib.Core.Logic.{◌↔◌, inl, inr}
use mathlib.Core.Bool.{false}
use mathlib.Core.Option.{Option, none, some}
use mathlib.Core.List.{List, [], ◌∷◌, ◌++◌}
use native.Mathlib.Omega.{arith}
use joe_cli.Common.Tests.{if◌then◌else◌, Bool-cases}
use joe_cli.Common.Options.{maybe, some_cancel}
use joe_cli.Common.Texts.{Text, text_eq, text_eq_iff, text_eq_sound, elem}

abbrev pub Map {ℓ} : Type ℓ → Type ℓ
Map V = List (Text × V)

module _ {ℓ} {V : Type ℓ} where
  unfoldable pub lookup : Text → Map V → Option V
  lookup k [] = none
  lookup k ((j, v) ∷ m) = if text_eq j k then some v else lookup k m

  unfoldable pub insert : Text → V → Map V → Map V
  insert k v [] = (k, v) ∷ []
  insert k v ((j, w) ∷ m) = if text_eq j k then (k, v) ∷ m else (j, w) ∷ insert k v m

  pub lookup-insert :
      (k j : Text) (v : V) (m : Map V)
      → lookup j (insert k v m) ≡ (if text_eq k j then some v else lookup j m)
  unfolding lookup insert
  lookup-insert k j v [] = refl
  lookup-insert k j v ((i, w) ∷ m) =
      ground (arith, text_eq_iff k j, text_eq_iff i k, text_eq_iff i j, lookup-insert k j v m)

module _ {ℓ} {V : Type ℓ} where
  abbrev pub keys : Map V → List Text
  keys [] = []
  keys ((k, v) ∷ m) = k ∷ keys m

  -- A new key is put at the end, and the order of the others stays.
  pub keys-insert :
      (k : Text) (v : V) (m : Map V)
      → keys (insert k v m) ≡ maybe (lookup k m) (keys m ++ k ∷ []) (λ _. keys m)
  unfolding lookup insert
  keys-insert k v [] = refl
  keys-insert k v ((j, w) ∷ m) = elim (Bool-cases (text_eq j k)) [
    | inl e ↦ rw e (ap (λ x. x ∷ keys m) (sym (text_eq_sound j k e)))
    | inr e ↦ rw e (tail-keys (lookup k m) (keys-insert k v m))
  ]
    where
      tail-keys :
          (o : Option V)
          → keys (insert k v m) ≡ maybe o (keys m ++ k ∷ []) (λ _. keys m)
          → j ∷ keys (insert k v m) ≡ maybe o (j ∷ (keys m ++ k ∷ [])) (λ _. j ∷ keys m)
      tail-keys none h = ap (λ x. j ∷ x) h
      tail-keys (some w') h = ap (λ x. j ∷ x) h

  pub lookup-none_iff : (k : Text) (m : Map V) → (lookup k m ≡ none) ↔ (elem k (keys m) ≡ false)
  unfolding lookup elem
  lookup-none_iff k m = (forth m, back m)
    where
      forth : (m : Map V) → lookup k m ≡ none → elem k (keys m) ≡ false
      forth [] h = refl
      forth ((j, w) ∷ m) h = ground (arith, forth m)

      back : (m : Map V) → elem k (keys m) ≡ false → lookup k m ≡ none
      back [] h = refl
      back ((j, w) ∷ m) h = ground (arith, back m)

module _ {ℓ κ} {V : Type ℓ} where
  abbrev pub AllValues : (V → Type κ) → Map V → Type κ
  AllValues P [] = Unit
  AllValues P ((k, v) ∷ m) = P v × AllValues P m

  pub AllValues-insert :
      (P : V → Type κ) (k : Text) (v : V) (m : Map V)
      → P v
      → AllValues P m
      → AllValues P (insert k v m)
  unfolding insert
  AllValues-insert P k v [] hv h = (hv, tt)
  AllValues-insert P k v ((j, w) ∷ m) hv h = elim (Bool-cases (text_eq j k)) [
    | inl e ↦ rw e (hv, h.1)
    | inr e ↦ rw e (h.0, AllValues-insert P k v m hv h.1)
  ]

  pub AllValues-lookup :
      (P : V → Type κ) (k : Text) (m : Map V) (v : V) → AllValues P m → lookup k m ≡ some v → P v
  unfolding lookup
  AllValues-lookup P k [] v h e = absurd (ground arith)
  AllValues-lookup P k ((j, w) ∷ m) v h e = elim (Bool-cases (text_eq j k)) [
    | inl q ↦ subst P (some_cancel (rw q at e)) h.0
    | inr q ↦ AllValues-lookup P k m v h.1 (rw q at e)
  ]

pub AllValues-map {ℓ κ} :
    {V : Type ℓ} (P Q : V → Type κ)
    → ((v : V) → P v → Q v)
    → (m : Map V) → AllValues P m
    → AllValues Q m
AllValues-map P Q f [] h = tt
AllValues-map P Q f ((k, v) ∷ m) h = (f v h.0, AllValues-map P Q f m h.1)
