-- ===== src/States/Types.antt =====
-- set.go: binding states whose defaults have the types of their values; an occurrence does not panic then.
use mathlib.Core.Path.{subst}
use joe_cli.Common.{
  List, Option, Text, [], ap, get_elem?, get_elem?-set, inl, inr, lt-get_elem?, maybe, maybe_cases,
  none, refl, some, sym, ℕ, ◌++◌, ◌==◌, ◌∙◌, ◌∷◌, ◌≡◌, ◌⊎◌,
}
use joe_cli.Values.{
  AnyValue, Maps, Setting, Value, ValueError, apply_conventions, option_reset, option_set_many,
  set_panics, set_to,
}
use joe_cli.Values.Writes.{Fits, kind_of}
use joe_cli.Values.Many.{
  Returns, Writes, apply_conventions-IsWrite, behind-IsWrite, option_reset-IsWrite,
  option_set_many-IsWrite,
}
use joe_cli.States.{
  Direct, Multi, Shown, Store, and_actual, content, counted, direct_set, direct_value, put_reset,
  reset_clone, set_actual, set_clone, show_value, stored_at, update, with_multi,
}
use joe_cli.States.Cells.{
  IsStoreWrite, IsStoreWrite-trans, put_cell-IsStoreWrite, update-IsStoreWrite,
}

-- The pointer leads to a value, and the default has its type.
abbrev pub FitsAt : Store → ℕ → Option AnyValue → Type 0
FitsAt h p d = (v : Value) × (get_elem? h.cells p ≡ some v) × Fits d (kind_of v)

abbrev pub KeepsKinds : Store → Store → Type 0
KeepsKinds h h' =
    (q : ℕ) (v : Value)
    → get_elem? h.cells q ≡ some v
    → (w : Value) × (get_elem? h'.cells q ≡ some w) × (kind_of w ≡ kind_of v)

pub FitsAt-kept :
    (d : Option AnyValue) (p : ℕ) (h h' : Store) → KeepsKinds h h' → FitsAt h p d → FitsAt h' p d
FitsAt-kept d p h h' k (v, e, f) =
    let (w, e', same) = k p v e in (w, e', subst (Fits d) (sym same) f)

pub KeepsKinds-trans : (h i j : Store) → KeepsKinds h i → KeepsKinds i j → KeepsKinds h j
KeepsKinds-trans h i j a b q v e =
    let (w, f, k) = a q v e in let (x, g, l) = b q w f in (x, g, l ∙ k)

pub Returns-map :
    {A : Type 0} (P Q : Option ValueError → A → Type 0) (r : Setting A)
    → ((e : Option ValueError) (a : A) → P e a → Q e a)
    → Returns P r
    → Returns Q r
Returns-map P Q (set_to e a) f h = f e a h
Returns-map P Q set_panics f h = absurd h

pub direct_value-IsWrite :
    (d : Direct) (values : List Text) (v : Value) (maps : Maps)
    → Fits d.optional_value (kind_of v)
    → Writes d.optional_value v maps (direct_value d values v maps)
unfolding direct_value
direct_value-IsWrite d values v maps fits =
    let first =
      apply_conventions-IsWrite d.flags ((counted d).count == 1) d.optional_value v maps in
    let w = apply_conventions d.flags ((counted d).count == 1) v maps in
    behind-IsWrite d.optional_value v w.0 maps w.1 _ first (
      option_set_many-IsWrite d.flags d.optional_value values w.0 w.1
        (subst (Fits d.optional_value) (sym first.same_kind) fits))

pub direct_set-IsStoreWrite :
    (d : Direct) (values : List Text) (h : Store)
    → FitsAt h d.value d.optional_value
    → Returns (λ e h'. IsStoreWrite d.optional_value d.value h h') (direct_set d values h)
unfolding direct_set
direct_set-IsStoreWrite d values h (v, e, f) =
    update-IsStoreWrite d.optional_value (direct_value d values) d.value h v e
      (direct_value-IsWrite d values v h.maps f)

-- what the value of a write shows
abbrev pub shown_of : Setting (Value × Maps) → Option Shown
shown_of (set_to e (v, maps)) = some (show_value maps v)
shown_of set_panics = none

-- What the words of an occurrence make of a value, in a store with the maps.
unfoldable pub fresh : Direct → List Text → Value → Maps → Option Shown
fresh d values v maps =
    let (w, maps') = option_reset d.flags v maps in shown_of (direct_value d values w maps')

stored_at-shown :
    (d : Option AnyValue) (h : Store) (p : ℕ) (v : Value) (r : Setting (Value × Maps))
    → get_elem? h.cells p ≡ some v
    → Writes d v h.maps r
    → Returns (λ e h'. IsStoreWrite d p h h' × (content h' p ≡ shown_of r)) (stored_at h p r)
stored_at-shown d h p v (set_to e (w, maps)) here write = (
  put_cell-IsStoreWrite h p v w maps here d write,
  ap (λ o. maybe o none (λ x. some (show_value maps x)))
      (get_elem?-set h.cells p w (lt-get_elem? h.cells p here)),
)
stored_at-shown d h p v set_panics here write = absurd write

direct_set-shown :
    (d : Direct) (values : List Text) (h : Store) (v : Value)
    → get_elem? h.cells d.value ≡ some v
    → Fits d.optional_value (kind_of v)
    → Returns
        (λ e h'.
          IsStoreWrite d.optional_value d.value h h'
          × (content h' d.value ≡ shown_of (direct_value d values v h.maps)))
        (direct_set d values h)
unfolding direct_set update
direct_set-shown d values h v e f = rw e (
    stored_at-shown d.optional_value h d.value v (direct_value d values v h.maps) e
      (direct_value-IsWrite d values v h.maps f))

-- The clone is reset, and then written by the words.
pub IsCloneWrite : Direct → List Text → Value → Store → Store → Type 0
IsCloneWrite d values v h h' =
    IsStoreWrite d.optional_value d.value h h' × (content h' d.value ≡ fresh d values v h.maps)

pub clone-IsCloneWrite :
    (d : Direct) (values : List Text) (h : Store) (v : Value)
    → get_elem? h.cells d.value ≡ some v
    → Fits d.optional_value (kind_of v)
    → Returns (λ e h'. IsCloneWrite d values v h h') (direct_set d values (reset_clone d h))
unfolding IsCloneWrite reset_clone fresh
clone-IsCloneWrite d values h v e f =
    let x = option_reset d.flags v h.maps in
    let first = option_reset-IsWrite d.flags d.optional_value v h.maps in
    let reset = put_reset h d.value x in
    let write = put_cell-IsStoreWrite h d.value v x.0 x.1 e d.optional_value first in
    rw e (
      Returns-map
        (λ err h'.
          IsStoreWrite d.optional_value d.value reset h'
          × (content h' d.value ≡ shown_of (direct_value d values x.0 x.1)))
        (λ err h'.
          IsStoreWrite d.optional_value d.value h h'
          × (content h' d.value ≡ shown_of (direct_value d values x.0 x.1)))
        (direct_set d values reset) (λ err h' w. (IsStoreWrite-trans write w.0, w.1))
        (direct_set-shown d values reset x.0
          (get_elem?-set h.cells d.value x.0 (lt-get_elem? h.cells d.value e))
          (subst (Fits d.optional_value) (sym first.same_kind) f)))

-- The default has the type of the value of the option, and of the original value.
pub record IsFitting (m : Multi) (h : Store) : Type 0 where
  pub initial_fits : FitsAt h m.initial.value m.initial.optional_value
  pub actual_fits : (p : ℕ) → m.actual ≡ some p → FitsAt h p m.initial.optional_value

pub IsFitting-kept : (m : Multi) (h h' : Store) → KeepsKinds h h' → IsFitting m h → IsFitting m h'
IsFitting-kept m h h' k f = record {
  initial_fits = FitsAt-kept m.initial.optional_value m.initial.value h h' k f.initial_fits;
  actual_fits = λ p e. FitsAt-kept m.initial.optional_value p h h' k (f.actual_fits p e);
}

-- The original value is written, or nothing is.
abbrev pub IsActualWrite : Multi → Store → Store → Type 0
IsActualWrite m h h' =
    (h' ≡ h) ⊎ ((p : ℕ) × (m.actual ≡ some p) × IsStoreWrite m.initial.optional_value p h h')

pub set_actual-IsActualWrite :
    (values : List Text) (m : Multi) (h : Store)
    → ((p : ℕ) → m.actual ≡ some p → FitsAt h p m.initial.optional_value)
    → Returns (λ e h'. IsActualWrite m h h') (set_actual values m h)
unfolding set_actual
set_actual-IsActualWrite [] m h fits = inl refl
set_actual-IsActualWrite (w ∷ ws) m h fits =
    maybe_cases (Returns (λ e h'. IsActualWrite m h h')) m.actual _ _ (λ _. inl refl)
      (λ p e.
        let (v, at_p, f) = fits p e in
        Returns-map (λ err h'. IsStoreWrite m.initial.optional_value p h h')
          (λ err h'. IsActualWrite m h h') _ (λ err h' write. inr (p, e, write))
          (update-IsStoreWrite m.initial.optional_value
            (option_set_many m.initial.flags m.initial.optional_value (w ∷ ws)) p h v at_p
            (option_set_many-IsWrite m.initial.flags m.initial.optional_value (w ∷ ws) v h.maps f)))

-- what a multi state is behind an occurrence of its clone
abbrev pub occurred : Multi → Multi
occurred m = record m { all = m.all ++ counted m.initial ∷ [] }

-- The store of an occurrence: the clone is written, and then perhaps the original value.
pub record IsOccurrence (values : List Text) (v : Value) (m : Multi) (h h' : Store) : Type 0 where
  pub between : Store
  pub cloned_write : IsStoreWrite m.initial.optional_value m.initial.value h between
  pub cloned_shows : content between m.initial.value ≡ fresh m.initial values v h.maps
  pub actual_write : IsActualWrite m between h'

with_multi-IsOccurrence :
    (values : List Text) (v : Value) (m : Multi) (h i : Store) (r : Setting Store)
    → IsCloneWrite m.initial values v h i
    → Returns (λ e h'. IsActualWrite m i h') r
    → Returns
        (λ e s. (s.0 ≡ occurred m) × IsOccurrence values v m h s.1)
        (with_multi (occurred m) r)
unfolding IsCloneWrite
with_multi-IsOccurrence values v m h i (set_to e h') a b =
    (refl, record { between = i; cloned_write = a.0; cloned_shows = a.1; actual_write = b })
with_multi-IsOccurrence values v m h i set_panics a b = absurd b

and_actual-IsOccurrence :
    (values : List Text) (v : Value) (m : Multi) (h : Store) (r : Setting Store)
    → IsFitting m h
    → Returns (λ e i. IsCloneWrite m.initial values v h i) r
    → Returns
        (λ e s. (s.0 ≡ occurred m) × IsOccurrence values v m h s.1)
        (and_actual values (with_multi (occurred m) r))
unfolding and_actual IsCloneWrite
and_actual-IsOccurrence values v m h (set_to (some e) i) f a =
    (refl, record { between = i; cloned_write = a.0; cloned_shows = a.1; actual_write = inl refl })
and_actual-IsOccurrence values v m h (set_to none i) f a =
    with_multi-IsOccurrence values v m h i (set_actual values (occurred m) i) a (
      set_actual-IsActualWrite values (occurred m) i (IsFitting-kept m h i a.0.kinds f).actual_fits)
and_actual-IsOccurrence values v m h set_panics f a = absurd a

-- An occurrence from a multi state that is ready for it, whose clone points to `v`.
pub set_clone-IsOccurrence :
    (values : List Text) (m : Multi) (h : Store) (v : Value)
    → IsFitting m h
    → get_elem? h.cells m.initial.value ≡ some v
    → Fits m.initial.optional_value (kind_of v)
    → Returns
        (λ e s. (s.0 ≡ occurred m) × IsOccurrence values v m h s.1)
        (and_actual values (set_clone values (m, h)))
unfolding set_clone
set_clone-IsOccurrence values m h v f e fits =
    and_actual-IsOccurrence values v m h (direct_set m.initial values (reset_clone m.initial h)) f
      (clone-IsCloneWrite m.initial values h v e fits)

IsActualWrite-KeepsKinds : (m : Multi) (h h' : Store) → IsActualWrite m h h' → KeepsKinds h h'
IsActualWrite-KeepsKinds m h h' (inl same) = λ q v e. (v, rw same e, refl)
IsActualWrite-KeepsKinds m h h' (inr (p, e, write)) = write.kinds

pub IsOccurrence-KeepsKinds :
    (values : List Text) (v : Value) (m : Multi) (h h' : Store)
    → IsOccurrence values v m h h'
    → KeepsKinds h h'
IsOccurrence-KeepsKinds values v m h h' o =
    KeepsKinds-trans h o.between h' o.cloned_write.kinds
      (IsActualWrite-KeepsKinds m o.between h' o.actual_write)
