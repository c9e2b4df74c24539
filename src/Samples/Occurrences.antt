-- ===== src/Samples/Occurrences.antt =====
-- Occurrences of context_test.go: app -f 5 -f 10, with EachOccurrence, and of an optional value.
use joe_cli.Support.Unquote.{split_key_value}
use joe_cli.Common.{
  insert, List, Map, Option, Text, [], codes, false, get_elem?, none, refl, some, true, ◌∷◌, ◌≡◌,
}
use joe_cli.Values.{
  set_pair, AnyValue, Setting, Value, ValueFlags, apply_conventions, map_value, new_map,
  option_reset, option_set, option_set_many, other_type, reset_first, reset_later, set_core,
  set_direct, set_next, set_optional, set_panics, set_reset, set_to, spaced, text_value,
  typed_value, write_map, zero_of,
}
use joe_cli.States.{
  Direct, Multi, Shown, Store, and_actual, clone_zero, direct_set, direct_value, multi_set,
  occurrence_values, renew, reset_clone, set_actual, set_clone, shown, shown_map, update,
}

abbrev pub no_flags : ValueFlags
no_flags = record {
  merge = false;
  merge_explicitly_requested = false;
  disable_splitting = false;
  optional = false;
}

abbrev pub f_state : Direct
f_state = record { value = 0; optional_value = none; flags = no_flags; count = 0 }

abbrev pub f_multi : Multi
f_multi = record { initial = f_state; all = []; actual = none }

abbrev pub f_store : Store
f_store = record { cells = text_value [] ∷ []; maps = [] }

-- an occurrence behind another one
abbrev next_occurrence : List Text → Setting (Multi × Store) → Setting (Multi × Store)
next_occurrence values (set_to none (m, h)) = multi_set values m h
next_occurrence values (set_to (some e) s) = set_to (some e) s
next_occurrence values set_panics = set_panics

abbrev shows : Setting (Multi × Store) → List (Option Shown)
unfolding occurrence_values
shows (set_to e (m, h)) = occurrence_values h m.all
shows set_panics = []

abbrev first_cell : Setting (Multi × Store) → Option Value
first_cell (set_to e (m, h)) = get_elem? h.cells 0
first_cell set_panics = none

-- `multi_set`, with all that a run of it computes with
run_set : List Text → Multi → Store → Setting (Multi × Store)
unfolding update direct_value direct_set clone_zero renew reset_clone set_clone set_actual
    and_actual multi_set spaced set_core zero_of set_direct set_optional option_set set_next
    option_set_many apply_conventions option_reset reset_first reset_later write_map new_map
    set_reset
run_set = multi_set

-- the two occurrences
abbrev twice : Setting (Multi × Store)
twice = next_occurrence (codes "10" ∷ []) (multi_set (codes "5" ∷ []) f_multi f_store)

occurrences_in_twice :
    shows twice
    ≡ some (shown (text_value (codes "5"))) ∷ some (shown (text_value (codes "10"))) ∷ []
unfolding run_set occurrence_values
occurrences_in_twice = refl

-- The flag's own value has both.
original_in_twice : first_cell twice ≡ some (text_value (codes "5 10"))
unfolding run_set
original_in_twice = refl

-- an optional flag with EachOccurrence, whose default is the map at `0`
abbrev m_multi : Option AnyValue → Multi
m_multi default = record f_multi {
  initial = record f_state {
    optional_value = default;
    flags = record no_flags { optional = true; disable_splitting = true };
  };
}

abbrev default_shown : Map Text
default_shown = (codes "d", codes "1") ∷ []

abbrev m_store : Store
m_store = record { cells = map_value none ∷ []; maps = default_shown ∷ [] }

-- The default is stored as the reference that it is, in the clone and in the original value.
shared_default :
    shows (multi_set ([] ∷ []) (m_multi (some (typed_value (map_value (some 0))))) m_store)
    ≡ some (shown_map default_shown) ∷ []
unfolding run_set occurrence_values
shared_default = refl

-- `app -m --m=k=v`: the second occurrence writes the original value, and so the map of the first.
changed_default :
    shows (
      next_occurrence
        (codes "k=v" ∷ [])
        (multi_set ([] ∷ []) (m_multi (some (typed_value (map_value (some 0))))) m_store))
    ≡ some (shown_map ((codes "d", codes "1") ∷ (codes "k", codes "v") ∷ []))
      ∷ some (shown_map ((codes "k", codes "v") ∷ []))
      ∷ []
unfolding run_set occurrence_values set_pair insert split_key_value
changed_default = refl

-- A default of another type is a panic.
mistyped_default : multi_set ([] ∷ []) (m_multi (some other_type)) m_store ≡ set_panics
unfolding run_set
mistyped_default = refl
