-- ===== src/Values.antt =====
-- The values of flags and args: value.go (`setCore`, `setReset`, `optionReset` and the conventions of
-- an occurrence), flag.go (`optionSet`) and internal/support/support.go (`ParseBool`).
pub mod Writes
pub mod Many
use joe_cli.Common.{
  Bool, List, Map, Option, Text, [], codes, elem, false, get_elem?, if◌then◌else◌, insert, leb,
  length, maybe, negsuc, none, set, some, true, ℕ, ◌&&◌, ◌++◌, ◌+◌, ◌∷◌,
}
use joe_cli.Support.Unquote.{split_key_value, unescape_and_unquote}
use joe_cli.Support.Fields.{split_list}
use joe_cli.Support.Maps.{joined_on, parse_map}

-- The maps that there are. A map is a reference to one of them, its index; a new one is put at the end.
abbrev pub Maps : Type 0
Maps = List (Map Text)

-- What a flag's value points to, for the types *bool, *string, *[]string and *map[string]string. The
-- nil map is `none`. A slice stands for its elements.
pub data Value : Type 0 where
  bool_value : Bool → Value
  text_value : Text → Value
  list_value : List Text → Value
  map_value : Option ℕ → Value

-- A value that is not nil, as the default of an optional value: of one of the four types, or of another.
pub data AnyValue : Type 0 where
  typed_value : Value → AnyValue
  other_type : AnyValue

-- the error of `ParseBool`
pub data ValueError : Type 0 where
  invalid_bool : Text → ValueError

-- What a write comes to: it returns with or without an error, or panics.
pub data Setting {ℓ} (A : Type ℓ) : Type ℓ where
  set_to : Option ValueError → A → Setting A
  set_panics : Setting A

-- The internal flags of an option that its value depends on.
pub record ValueFlags : Type 0 where
  pub merge : Bool
  pub merge_explicitly_requested : Bool
  pub disable_splitting : Bool
  pub optional : Bool

-- `strings.ToLower` of ASCII
unfoldable pub to_lower : Text → Text
to_lower [] = []
to_lower (c ∷ s) = (if leb b'A' c && leb c b'Z' then c + 32 else c) ∷ to_lower s

abbrev pub true_words : List Text
true_words = [] ∷ codes "1" ∷ codes "true" ∷ codes "on" ∷ codes "t" ∷ []

abbrev pub false_words : List Text
false_words = codes "0" ∷ codes "false" ∷ codes "off" ∷ codes "f" ∷ []

unfoldable pub parse_bool : Text → Option Bool
parse_bool value =
    if elem (to_lower value) true_words
    then some true
    else if elem (to_lower value) false_words
    then some false
    else none

-- `Unescape`
unfoldable pub unescape_all : List Text → List Text
unescape_all [] = []
unescape_all (s ∷ ss) = unescape_and_unquote s ∷ unescape_all ss

-- `FlattenValues`
unfoldable pub flatten_values : Map (List Text) → Map Text
flatten_values [] = []
flatten_values ((k, v) ∷ m) = (k, joined_on b',' v) ∷ flatten_values m

-- `maps.Copy`
unfoldable pub copy_into : Map Text → Map Text → Map Text
copy_into m [] = m
copy_into m ((k, v) ∷ n) = copy_into (insert k v m) n

-- `values` of `setCore`
unfoldable pub list_of : Bool → Text → List Text
list_of disable value =
    if disable then value ∷ [] else maybe (split_list value (b',' ∷ []) (negsuc 0)) [] (λ fs. fs)

-- `s += " "` where there is text already, and the value behind it
unfoldable pub spaced : Text → Text → Text
spaced [] value = value
spaced (c ∷ s) value = (c ∷ s) ++ b' ' ∷ value

unfoldable pub set_pair : Map Text → Text × Text × Bool → Map Text
set_pair m (key, value, has_value) = insert key value m

-- A refused word leaves the value false: `*p, err = parseBool(value)`.
unfoldable pub set_bool : Text → Option Bool → Option ValueError × Value
set_bool value none = (some (invalid_bool value), bool_value false)
set_bool value (some b) = (none, bool_value b)

-- the map that a reference leads to
abbrev pub map_at : Maps → ℕ → Map Text
map_at maps r = maybe (get_elem? maps r) [] (λ m. m)

-- `map[string]string{}`
unfoldable pub new_map : Map Text → Maps → Value × Maps
new_map m maps = (map_value (some (length maps)), maps ++ m ∷ [])

-- a write into the map, and where it is nil into a new one
unfoldable pub write_map : (Map Text → Map Text) → Option ℕ → Maps → Value × Maps
write_map f none maps = new_map (f []) maps
write_map f (some r) maps = (map_value (some r), set maps r (f (map_at maps r)))

abbrev pub set_entries : Bool → Text → Map Text → Map Text
set_entries disable value m =
    if disable
    then set_pair m (split_key_value value)
    else copy_into m (flatten_values (parse_map value))

unfoldable pub set_core : Value → Bool → Text → Maps → Option ValueError × Value × Maps
set_core (bool_value b) disable value maps =
    let (e, v) = set_bool value (parse_bool value) in (e, v, maps)
set_core (text_value s) disable value maps = (none, text_value (spaced s value), maps)
set_core (list_value l) disable value maps =
    (none, list_value (l ++ unescape_all (list_of disable value)), maps)
set_core (map_value r) disable value maps =
    let (v, maps') = write_map (set_entries disable value) r maps in (none, v, maps')

-- `setReset`
unfoldable pub set_reset : Value → Maps → Value × Maps
set_reset (bool_value b) maps = (bool_value false, maps)
set_reset (text_value s) maps = (text_value [], maps)
set_reset (list_value l) maps = (list_value [], maps)
set_reset (map_value r) maps = new_map [] maps

-- `valueCloneZero`: the zero of the type
unfoldable pub zero_of : Value → Value
zero_of (bool_value b) = bool_value false
zero_of (text_value s) = text_value []
zero_of (list_value l) = list_value []
zero_of (map_value r) = map_value none

-- `setDirect`; `none` is the panic of its type assertion. A map is stored as the reference that it is.
unfoldable pub set_direct : Value → AnyValue → Option Value
set_direct (bool_value b) (typed_value (bool_value c)) = some (bool_value c)
set_direct (text_value s) (typed_value (text_value t)) = some (text_value t)
set_direct (list_value l) (typed_value (list_value k)) = some (list_value k)
set_direct (map_value r) (typed_value (map_value q)) = some (map_value q)
set_direct _ _ = none

-- `trySetOptional`, with its value: nil resets to the zero
unfoldable pub set_optional : Value → Option AnyValue → Maps → Setting (Value × Maps)
set_optional v none maps = set_to none (set_reset v maps)
set_optional v (some d) maps = maybe (set_direct v d) set_panics (λ w. set_to none (w, maps))

abbrev pub set_word : Value → ValueFlags → Text → Maps → Setting (Value × Maps)
set_word v flags arg maps =
    let (e, w, maps') = set_core v flags.disable_splitting arg maps in set_to e (w, maps')

-- `optionSet` of a string. An optional value given as the empty text is its default instead.
unfoldable pub option_set :
    Value → ValueFlags → Option AnyValue → Text → Maps → Setting (Value × Maps)
option_set v flags optional_value [] maps =
    if flags.optional then set_optional v optional_value maps else set_word v flags [] maps
option_set v flags optional_value (c ∷ arg) maps = set_word v flags (c ∷ arg) maps

-- `optionSetMany`: up to the first error
unfoldable pub set_next :
    (Value → Maps → Setting (Value × Maps)) → Setting (Value × Maps) → Setting (Value × Maps)
set_next rest (set_to (some e) v) = set_to (some e) v
set_next rest (set_to none (v, maps)) = rest v maps
set_next rest set_panics = set_panics

unfoldable pub option_set_many :
    ValueFlags → Option AnyValue → List Text → Value → Maps → Setting (Value × Maps)
option_set_many flags optional_value [] v maps = set_to none (v, maps)
option_set_many flags optional_value (arg ∷ args) v maps =
    set_next (option_set_many flags optional_value args)
      (option_set v flags optional_value arg maps)

-- what a reset of the first occurrence does to a value, and of a later one
unfoldable pub reset_first : Value → Maps → Value × Maps
reset_first (bool_value b) maps = (bool_value b, maps)
reset_first (text_value s) maps = (text_value [], maps)
reset_first (list_value l) maps = (list_value [], maps)
reset_first (map_value r) maps = new_map [] maps

unfoldable pub reset_later : Value → Maps → Value × Maps
reset_later (text_value s) maps = (text_value [], maps)
reset_later v maps = (v, maps)

-- `optionApplyValueConventions`
unfoldable pub apply_conventions : ValueFlags → Bool → Value → Maps → Value × Maps
apply_conventions flags first_occur v maps =
    if flags.merge
    then (v, maps)
    else if first_occur
    then reset_first v maps
    else reset_later v maps

-- `optionReset`: a merge that was not asked for explicitly does not count
unfoldable pub option_reset : ValueFlags → Value → Maps → Value × Maps
option_reset flags v maps =
    apply_conventions (record flags { merge = flags.merge && flags.merge_explicitly_requested })
      true v maps
