-- ===== src/Values/Writes.antt =====
-- value.go and flag.go: what a write to a value keeps: the type of the value, and the maps of others.
use joe_cli.Common.{
  Bool, Map, Option, Text, [], ap, arith, get_elem?, get_elem?-append, get_elem?-set_other, inl,
  inr, length, length-append, length-set, none, refl, some, ℕ, ◌<◌, ◌∙◌, ◌∷◌, ◌≡◌, ◌≤◌, ◌⊎◌,
}
use joe_cli.Values.{
  AnyValue, Maps, Value, bool_value, list_value, map_at, map_value, new_map, other_type, parse_bool,
  set_bool, set_core, set_reset, text_value, typed_value, write_map, zero_of,
}

-- the types of values
abbrev pub kind_of : Value → ℕ
kind_of (bool_value b) = 0
kind_of (text_value s) = 1
kind_of (list_value l) = 2
kind_of (map_value r) = 3

-- The default, if there is one, has the type.
abbrev pub Fits : Option AnyValue → ℕ → Type 0
Fits none k = Unit
Fits (some other_type) k = ⊥
Fits (some (typed_value w)) k = kind_of w ≡ k

-- The default is no map and no slice, which two values could share.
abbrev pub IsUnshared : Option AnyValue → Type 0
IsUnshared (some (typed_value (list_value l))) = ⊥
IsUnshared (some (typed_value (map_value r))) = ⊥
IsUnshared d = Unit

abbrev pub HasRef : Value → ℕ → Type 0
HasRef v r = v ≡ map_value (some r)

-- A write leaves the maps that the value does not refer to, and the value refers then to the map that it
-- referred to before, or to a new one.
pub record IsLocal (v : Value) (maps : Maps) (w : Value) (maps' : Maps) : Type 0 where
  pub grows : length maps ≤ length maps'
  pub keeps : (r : ℕ) → r < length maps → ¬ (HasRef v r) → get_elem? maps' r ≡ get_elem? maps r
  pub refs : (r : ℕ) → HasRef w r → (r < length maps') × ((HasRef v r) ⊎ (length maps ≤ r))

abbrev pub InRange : Value → Maps → Type 0
InRange v maps = (r : ℕ) → HasRef v r → r < length maps

pub record IsWrite (d : Option AnyValue) (v : Value) (maps : Maps) (w : Value) (maps' : Maps)
    : Type 0 where
  pub same_kind : kind_of w ≡ kind_of v
  pub local : IsUnshared d → InRange v maps → IsLocal v maps w maps'

-- no reference at all
pub same_maps : (v w : Value) (maps : Maps) → ((r : ℕ) → ¬ (HasRef w r)) → IsLocal v maps w maps
same_maps v w maps none_there = record {
  grows = omega arith;
  keeps = λ r l n. refl;
  refs = λ r e. absurd (none_there r e);
}

untouched : (v : Value) (maps : Maps) → InRange v maps → IsLocal v maps v maps
untouched v maps inside = record {
  grows = omega arith;
  keeps = λ r l n. refl;
  refs = λ r e. (inside r e, inl e);
}

pub same_ref : (q r : ℕ) → map_value (some q) ≡ map_value (some r) → q ≡ r
same_ref q r e = cc

-- a new map at the end
pub new_map-IsLocal :
    (v : Value) (m : Map Text) (maps : Maps) → IsLocal v maps (new_map m maps).0 (new_map m maps).1
unfolding new_map
new_map-IsLocal v m maps = record {
  grows = omega (arith, length-append maps (m ∷ []));
  keeps = λ r l n. get_elem?-append maps (m ∷ []) r l;
  refs = λ r e. (
    omega (arith, length-append maps (m ∷ []), same_ref _ r e),
    inr (omega (arith, same_ref _ r e)),
  );
}

write_map-IsLocal :
    (f : Map Text → Map Text) (q : Option ℕ) (maps : Maps)
    → InRange (map_value q) maps
    → IsLocal (map_value q) maps (write_map f q maps).0 (write_map f q maps).1
unfolding write_map
write_map-IsLocal f none maps inside = new_map-IsLocal (map_value none) (f []) maps
write_map-IsLocal f (some q) maps inside = record {
  grows = omega (arith, length-set maps q (f (map_at maps q)));
  keeps = λ r l n.
      get_elem?-set_other maps q r (f (map_at maps q)) (λ e. n (ap (λ i. map_value (some i)) e));
  refs = λ r e. (omega (arith, length-set maps q (f (map_at maps q)), inside r e), inl e);
}

kind_of-write_map :
    (f : Map Text → Map Text) (q : Option ℕ) (maps : Maps) → kind_of (write_map f q maps).0 ≡ 3
unfolding write_map new_map
kind_of-write_map f none maps = refl
kind_of-write_map f (some q) maps = refl

-- Two writes one after the other.
IsLocal-trans :
    {v w x : Value} {maps maps' maps'' : Maps}
    → IsLocal v maps w maps'
    → IsLocal w maps' x maps''
    → IsLocal v maps x maps''
IsLocal-trans {v} {w} {x} {maps} {maps'} {maps''} a b = record {
  grows = omega (arith, a.grows, b.grows);
  keeps = λ r l n.
      b.keeps r (omega (arith, l, a.grows)) (λ e. new_or_old r l n (a.refs r e).1) ∙ a.keeps r l n;
  refs = λ r e. ((b.refs r e).0, earlier r (b.refs r e).1);
}
  where
    new_or_old : (r : ℕ) → r < length maps → ¬ (HasRef v r) → (HasRef v r) ⊎ (length maps ≤ r) → ⊥
    new_or_old r l n (inl e) = n e
    new_or_old r l n (inr k) = omega (arith, l, k)

    earlier : (r : ℕ) → (HasRef w r) ⊎ (length maps' ≤ r) → (HasRef v r) ⊎ (length maps ≤ r)
    earlier r (inl e) = (a.refs r e).1
    earlier r (inr k) = inr (omega (arith, k, a.grows))

pub IsWrite-trans :
    {d : Option AnyValue} {v w x : Value} {maps maps' maps'' : Maps}
    → IsWrite d v maps w maps'
    → IsWrite d w maps' x maps''
    → IsWrite d v maps x maps''
IsWrite-trans a b = record {
  same_kind = b.same_kind ∙ a.same_kind;
  local = λ u inside.
      let first = a.local u inside in IsLocal-trans first (b.local u (λ r e. (first.refs r e).0));
}

pub kept-IsWrite : (d : Option AnyValue) (v : Value) (maps : Maps) → IsWrite d v maps v maps
kept-IsWrite d v maps = record { same_kind = refl; local = λ u inside. untouched v maps inside }

set_bool-IsWrite :
    (d : Option AnyValue) (b : Bool) (value : Text) (r : Option Bool) (maps : Maps)
    → IsWrite d (bool_value b) maps (set_bool value r).1 maps
unfolding set_bool
set_bool-IsWrite d b value none maps = record {
  same_kind = refl;
  local = λ u i. same_maps _ _ maps (λ r e. ground arith);
}
set_bool-IsWrite d b value (some c) maps = record {
  same_kind = refl;
  local = λ u i. same_maps _ _ maps (λ r e. ground arith);
}

pub set_core-IsWrite :
    (d : Option AnyValue) (v : Value) (disable : Bool) (value : Text) (maps : Maps)
    → IsWrite d v maps (set_core v disable value maps).1 (set_core v disable value maps).2
unfolding set_core
set_core-IsWrite d (bool_value b) disable value maps =
    set_bool-IsWrite d b value (parse_bool value) maps
set_core-IsWrite d (text_value s) disable value maps = record {
  same_kind = refl;
  local = λ u i. same_maps _ _ maps (λ r e. ground arith);
}
set_core-IsWrite d (list_value l) disable value maps = record {
  same_kind = refl;
  local = λ u i. same_maps _ _ maps (λ r e. ground arith);
}
set_core-IsWrite d (map_value q) disable value maps = record {
  same_kind = kind_of-write_map _ q maps;
  local = λ u i. write_map-IsLocal _ q maps i;
}

pub set_reset-IsWrite :
    (d : Option AnyValue) (v : Value) (maps : Maps)
    → IsWrite d v maps (set_reset v maps).0 (set_reset v maps).1
unfolding set_reset new_map
set_reset-IsWrite d (bool_value b) maps = record {
  same_kind = refl;
  local = λ u i. same_maps _ _ maps (λ r e. ground arith);
}
set_reset-IsWrite d (text_value s) maps = record {
  same_kind = refl;
  local = λ u i. same_maps _ _ maps (λ r e. ground arith);
}
set_reset-IsWrite d (list_value l) maps = record {
  same_kind = refl;
  local = λ u i. same_maps _ _ maps (λ r e. ground arith);
}
set_reset-IsWrite d (map_value q) maps = record {
  same_kind = refl;
  local = λ u i. new_map-IsLocal _ [] maps;
}

pub zero_of_lem :
    (v : Value) → (kind_of (zero_of v) ≡ kind_of v) × ((r : ℕ) → ¬ (HasRef (zero_of v) r))
unfolding zero_of
zero_of_lem (bool_value b) = (refl, λ r e. ground arith)
zero_of_lem (text_value s) = (refl, λ r e. ground arith)
zero_of_lem (list_value l) = (refl, λ r e. ground arith)
zero_of_lem (map_value q) = (refl, λ r e. ground arith)
