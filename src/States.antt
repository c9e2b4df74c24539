-- ===== src/States.antt =====
-- set.go: the binding states of options, over a store of the values that they point to, and `ApplyTo`.
pub mod Applies
pub mod Cells
pub mod Types
pub mod Steps
pub mod Contents
pub mod Occurred
pub mod Separate
use joe_cli.Results.{BindingResult, occurrences}
use joe_cli.Common.{
  Bool, List, Map, Option, Text, [], false, get_elem?, if◌then◌else◌, insert, length, lookup, maybe,
  none, not, set, some, true, ℕ, ◌++◌, ◌+◌, ◌==◌, ◌∷◌,
}
use joe_cli.Values.{
  AnyValue, Maps, Setting, Value, ValueError, ValueFlags, apply_conventions, map_at, map_value,
  option_reset, option_set_many, set_panics, set_to, text_value, zero_of,
}

-- The cells that pointers lead to, and the maps; a new cell is put at the end.
pub record Store : Type 0 where
  pub cells : List Value
  pub maps : Maps

abbrev pub put_cell : Store → ℕ → Value → Maps → Store
put_cell h p v maps = record { cells = set h.cells p v; maps = maps }

abbrev pub stored_at : Store → ℕ → Setting (Value × Maps) → Setting Store
stored_at h p (set_to e (v, maps)) = set_to e (put_cell h p v maps)
stored_at h p set_panics = set_panics

-- a write through the pointer
unfoldable pub update : (Value → Maps → Setting (Value × Maps)) → ℕ → Store → Setting Store
update f p h = maybe (get_elem? h.cells p) (set_to none h) (λ v. stored_at h p (f v h.maps))

-- `directBindingState`; `value` is a pointer
pub record Direct : Type 0 where
  pub value : ℕ
  pub optional_value : Option AnyValue
  pub flags : ValueFlags
  pub count : ℕ

-- `SetOccurrence` of `directBindingState`, on the state and on the value that it points to
abbrev pub counted : Direct → Direct
counted d = record d { count = d.count + 1 }

unfoldable pub direct_value : Direct → List Text → Value → Maps → Setting (Value × Maps)
direct_value d values v maps =
    let (w, maps') = apply_conventions d.flags ((counted d).count == 1) v maps in
    option_set_many d.flags d.optional_value values w maps'

unfoldable pub direct_set : Direct → List Text → Store → Setting Store
direct_set d values h = update (direct_value d values) d.value h

-- `multiBindingState`
pub record Multi : Type 0 where
  pub initial : Direct
  pub all : List Direct
  pub actual : Option ℕ

abbrev pub is_empty : List Direct → Bool
is_empty [] = true
is_empty (_ ∷ _) = false

-- `m.initial.value = valueCloneZero(m.initial.value)`: a new cell with the zero of the type
abbrev pub grown : Store → Value → Store
grown h v = record h { cells = h.cells ++ v ∷ [] }

unfoldable pub clone_zero : Multi → Store → Multi × Store
clone_zero m h = (
  record m { initial = record m.initial { value = length h.cells } },
  grown h (maybe (get_elem? h.cells m.initial.value) (text_value []) zero_of),
)

-- the part of `nextOccur` before the clone
unfoldable pub renew : Multi → Store → Multi × Store
renew m h =
    if is_empty m.all
    then clone_zero (record m { actual = some m.initial.value }) h
    else if not m.initial.flags.merge
    then clone_zero m h
    else (m, h)

-- `optionReset(clone.value, …)`
abbrev pub put_reset : Store → ℕ → Value × Maps → Store
put_reset h p (v, maps) = put_cell h p v maps

unfoldable pub reset_clone : Direct → Store → Store
reset_clone d h =
    maybe (get_elem? h.cells d.value) h (λ v. put_reset h d.value (option_reset d.flags v h.maps))

abbrev pub with_multi : Multi → Setting Store → Setting (Multi × Store)
with_multi m (set_to e h) = set_to e (m, h)
with_multi m set_panics = set_panics

-- `SetOccurrence` of the clone, which is the last of `all`
unfoldable pub set_clone : List Text → Multi × Store → Setting (Multi × Store)
set_clone values (m, h) =
    with_multi (record m { all = m.all ++ counted m.initial ∷ [] })
      (direct_set m.initial values (reset_clone m.initial h))

-- the second half of `SetOccurrence`: the original value is set too
unfoldable pub set_actual : List Text → Multi → Store → Setting Store
set_actual [] m h = set_to none h
set_actual (w ∷ ws) m h =
    maybe m.actual (set_to none h)
      λ p. update (option_set_many m.initial.flags m.initial.optional_value (w ∷ ws)) p h

unfoldable pub and_actual : List Text → Setting (Multi × Store) → Setting (Multi × Store)
and_actual values (set_to (some e) s) = set_to (some e) s
and_actual values (set_to none (m, h)) = with_multi m (set_actual values m h)
and_actual values set_panics = set_panics

-- `SetOccurrence` of `multiBindingState`
unfoldable pub multi_set : List Text → Multi → Store → Setting (Multi × Store)
multi_set values m h = and_actual values (set_clone values (renew m h))

-- what a value shows: a map is read through its reference, and the nil map like an empty one
pub data Shown : Type 0 where
  shown : Value → Shown
  shown_map : Map Text → Shown

abbrev pub show_value : Maps → Value → Shown
show_value maps (map_value none) = shown_map []
show_value maps (map_value (some r)) = shown_map (map_at maps r)
show_value maps v = shown v

abbrev pub content : Store → ℕ → Option Shown
content h p = maybe (get_elem? h.cells p) none (λ v. some (show_value h.maps v))

-- `OccurrenceValues` of `multiBindingState`, as what they show
unfoldable pub occurrence_values : Store → List Direct → List (Option Shown)
occurrence_values h [] = []
occurrence_values h (d ∷ ds) = content h d.value ∷ occurrence_values h ds

-- A `BindingState`: that of an option, and that of one with `EachOccurrence`, which `upgrade` makes.
pub data State : Type 0 where
  direct : Direct → State
  multi : Multi → State

abbrev pub with_direct : Direct → Setting Store → Setting (State × Store)
with_direct d (set_to e h) = set_to e (direct d, h)
with_direct d set_panics = set_panics

abbrev pub as_multi : Setting (Multi × Store) → Setting (State × Store)
as_multi (set_to e (m, h)) = set_to e (multi m, h)
as_multi set_panics = set_panics

unfoldable pub set_occurrence : List Text → State → Store → Setting (State × Store)
set_occurrence values (direct d) h = with_direct (counted d) (direct_set d values h)
set_occurrence values (multi m) h = as_multi (multi_set values m h)

-- `Occurrences` and `Seen`
unfoldable pub occurrence_count : State → ℕ
occurrence_count (direct d) = d.count
occurrence_count (multi m) = length m.all

unfoldable pub seen : State → Bool
seen s = not (occurrence_count s == 0)

-- What `rawApplyToOption` and `ApplyTo` come to; `values[1:]` of an empty occurrence is a panic, and
-- so is a default of another type.
pub data Applied (S : Type 0) : Type 0 where
  applied : S → Applied S
  apply_refused : ValueError → S → Applied S
  apply_panicked : Applied S

-- what follows a `SetOccurrence`
abbrev pub and_then :
    (State × Store → Applied (State × Store)) → Setting (State × Store) → Applied (State × Store)
and_then go_on (set_to none s) = go_on s
and_then go_on (set_to (some e) s) = apply_refused e s
and_then go_on set_panics = apply_panicked

-- `rawApplyToOption` of an option without a transform
unfoldable pub apply_occurrences : List (List Text) → State × Store → Applied (State × Store)
apply_occurrences [] s = applied s
apply_occurrences ([] ∷ vs) s = apply_panicked
apply_occurrences ((label ∷ values) ∷ vs) (s, h) =
    and_then (apply_occurrences vs) (set_occurrence values s h)

-- what `ApplyTo` does behind an option: its state is in the table
abbrev pub and_next :
    (State → Map State)
    → (Map State × Store → Applied (Map State × Store))
    → Applied (State × Store)
    → Applied (Map State × Store)
and_next put rest (applied (s, h)) = rest (put s, h)
and_next put rest (apply_refused e (s, h)) = apply_refused e (put s, h)
and_next put rest apply_panicked = apply_panicked

-- the loop of `ApplyTo` over the names, with the states of the options by their names
unfoldable pub apply_names :
    BindingResult → List Text → Map State × Store → Applied (Map State × Store)
apply_names m [] t = applied t
apply_names m (name ∷ names) (t, h) = maybe (lookup name t) (apply_names m names (t, h)) λ s.
    and_next (λ s'. insert name s' t) (apply_names m names)
      (apply_occurrences (occurrences m name) (s, h))

-- `ApplyTo`; a nil result has no names
unfoldable pub apply_to : Option BindingResult → Map State × Store → Applied (Map State × Store)
apply_to none t = applied t
apply_to (some m) t = apply_names m m.names t
