-- ===== src/Values/Many.antt =====
-- value.go and flag.go: what `optionSetMany` and the conventions of an occurrence keep.
use mathlib.Core.Path.{subst}
use joe_cli.Common.{
  Bool, Bool-cases, List, Option, Text, [], arith, false, if◌then◌else◌, inl, inr, maybe, none,
  refl, some, sym, true, ◌∷◌, ◌≡◌,
}
use joe_cli.Values.{
  AnyValue, Maps, Setting, Value, ValueError, ValueFlags, apply_conventions, bool_value, list_value,
  map_value, new_map, option_reset, option_set, option_set_many, other_type, reset_first,
  reset_later, set_direct, set_next, set_optional, set_panics, set_to, text_value, typed_value,
}
use joe_cli.Values.Writes.{
  Fits, IsWrite, IsWrite-trans, kept-IsWrite, kind_of, new_map-IsLocal, same_maps, set_core-IsWrite,
  set_reset-IsWrite,
}

-- What a write comes to where it does not panic.
abbrev pub Returns {ℓ} : {A : Type ℓ} → (Option ValueError → A → Type 0) → Setting A → Type 0
Returns P (set_to e a) = P e a
Returns P set_panics = ⊥

abbrev pub Writes : Option AnyValue → Value → Maps → Setting (Value × Maps) → Type 0
Writes d v maps = Returns (λ e w. IsWrite d v maps w.0 w.1)

set_direct-IsWrite :
    (v w : Value) (maps : Maps)
    → kind_of w ≡ kind_of v
    → Writes
        (some (typed_value w))
        v
        maps
        (maybe (set_direct v (typed_value w)) set_panics (λ x. set_to none (x, maps)))
unfolding set_direct
set_direct-IsWrite (bool_value b) (bool_value c) maps k = record {
  same_kind = refl;
  local = λ u i. same_maps _ _ maps (λ r e. ground arith);
}
set_direct-IsWrite (text_value b) (text_value c) maps k = record {
  same_kind = refl;
  local = λ u i. same_maps _ _ maps (λ r e. ground arith);
}
set_direct-IsWrite (list_value b) (list_value c) maps k = record {
  same_kind = refl;
  local = λ u i. absurd u;
}
set_direct-IsWrite (map_value b) (map_value c) maps k = record {
  same_kind = refl;
  local = λ u i. absurd u;
}
set_direct-IsWrite v w maps k = absurd (omega (arith, k))

set_optional-IsWrite :
    (v : Value) (d : Option AnyValue) (maps : Maps)
    → Fits d (kind_of v)
    → Writes d v maps (set_optional v d maps)
unfolding set_optional
set_optional-IsWrite v none maps fits = set_reset-IsWrite none v maps
set_optional-IsWrite v (some (typed_value w)) maps fits = set_direct-IsWrite v w maps fits
set_optional-IsWrite v (some other_type) maps fits = absurd fits

option_set-IsWrite :
    (v : Value) (flags : ValueFlags) (d : Option AnyValue) (arg : Text) (maps : Maps)
    → Fits d (kind_of v)
    → Writes d v maps (option_set v flags d arg maps)
unfolding option_set
option_set-IsWrite v flags d [] maps fits = elim (Bool-cases flags.optional) [
  | inl e ↦ rw e (set_optional-IsWrite v d maps fits)
  | inr e ↦ rw e (set_core-IsWrite d v flags.disable_splitting [] maps)
]
option_set-IsWrite v flags d (c ∷ arg) maps fits =
    set_core-IsWrite d v flags.disable_splitting (c ∷ arg) maps

-- a write behind another
pub behind-IsWrite :
    (d : Option AnyValue) (v w : Value) (maps maps' : Maps) (r : Setting (Value × Maps))
    → IsWrite d v maps w maps'
    → Writes d w maps' r
    → Writes d v maps r
behind-IsWrite d v w maps maps' (set_to e x) a b = IsWrite-trans a b
behind-IsWrite d v w maps maps' set_panics a b = absurd b

set_next-IsWrite :
    (d : Option AnyValue) (v : Value) (maps : Maps) (rest : Value → Maps → Setting (Value × Maps))
    (r : Setting (Value × Maps))
    → Fits d (kind_of v)
    → Writes d v maps r
    → ((w : Value) (maps' : Maps) → Fits d (kind_of w) → Writes d w maps' (rest w maps'))
    → Writes d v maps (set_next rest r)
unfolding set_next
set_next-IsWrite d v maps rest (set_to (some e) x) fits h k = h
set_next-IsWrite d v maps rest (set_to none (w, maps')) fits h k =
    behind-IsWrite d v w maps maps' (rest w maps') h
      (k w maps' (subst (Fits d) (sym h.same_kind) fits))
set_next-IsWrite d v maps rest set_panics fits h k = absurd h

pub option_set_many-IsWrite :
    (flags : ValueFlags) (d : Option AnyValue) (values : List Text) (v : Value) (maps : Maps)
    → Fits d (kind_of v)
    → Writes d v maps (option_set_many flags d values v maps)
unfolding option_set_many
option_set_many-IsWrite flags d [] v maps fits = kept-IsWrite d v maps
option_set_many-IsWrite flags d (w ∷ ws) v maps fits =
    set_next-IsWrite d v maps (option_set_many flags d ws) (option_set v flags d w maps) fits
      (option_set-IsWrite v flags d w maps fits)
      (λ x maps' f. option_set_many-IsWrite flags d ws x maps' f)

reset_first-IsWrite :
    (d : Option AnyValue) (v : Value) (maps : Maps)
    → IsWrite d v maps (reset_first v maps).0 (reset_first v maps).1
unfolding reset_first new_map
reset_first-IsWrite d (bool_value b) maps = kept-IsWrite d (bool_value b) maps
reset_first-IsWrite d (text_value s) maps = record {
  same_kind = refl;
  local = λ u i. same_maps _ _ maps (λ r e. ground arith);
}
reset_first-IsWrite d (list_value l) maps = record {
  same_kind = refl;
  local = λ u i. same_maps _ _ maps (λ r e. ground arith);
}
reset_first-IsWrite d (map_value q) maps = record {
  same_kind = refl;
  local = λ u i. new_map-IsLocal _ [] maps;
}

reset_later-IsWrite :
    (d : Option AnyValue) (v : Value) (maps : Maps)
    → IsWrite d v maps (reset_later v maps).0 (reset_later v maps).1
unfolding reset_later
reset_later-IsWrite d (bool_value b) maps = kept-IsWrite d (bool_value b) maps
reset_later-IsWrite d (text_value s) maps = record {
  same_kind = refl;
  local = λ u i. same_maps _ _ maps (λ r e. ground arith);
}
reset_later-IsWrite d (list_value l) maps = kept-IsWrite d (list_value l) maps
reset_later-IsWrite d (map_value q) maps = kept-IsWrite d (map_value q) maps

pub apply_conventions-IsWrite :
    (flags : ValueFlags) (first_occur : Bool) (d : Option AnyValue) (v : Value) (maps : Maps)
    → IsWrite d v maps
        (apply_conventions flags first_occur v maps).0
        (apply_conventions flags first_occur v maps).1
unfolding apply_conventions
apply_conventions-IsWrite flags first_occur d v maps = elim (Bool-cases flags.merge) [
  | inl e ↦ rw e (kept-IsWrite d v maps)
  | inr e ↦ rw e (either first_occur)
]
  where
    either :
        (b : Bool)
        → IsWrite d v maps
            (if b then reset_first v maps else reset_later v maps).0
            (if b then reset_first v maps else reset_later v maps).1
    either true = reset_first-IsWrite d v maps
    either false = reset_later-IsWrite d v maps

pub option_reset-IsWrite :
    (flags : ValueFlags) (d : Option AnyValue) (v : Value) (maps : Maps)
    → IsWrite d v maps (option_reset flags v maps).0 (option_reset flags v maps).1
unfolding option_reset
option_reset-IsWrite flags d v maps = apply_conventions-IsWrite _ true d v maps
