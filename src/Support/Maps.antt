-- ===== src/Support/Maps.antt =====
-- support.go: `splitMapRegions` and `ParseMap`.
use joe_cli.Common.{
  Bool, List, Map, Text, [], false, if◌then◌else◌, insert, lookup, negsuc, none, some, text_eq, ℕ,
  ◌++◌, ◌==◌, ◌||◌, ◌∷◌,
}
use joe_cli.Support.Fields.{split_fields}
use joe_cli.Support.Unquote.{split_key_value, unescape_and_unquote}

-- `strings.Contains(s, "=")`
unfoldable pub has_equals : Text → Bool
has_equals [] = false
has_equals (c ∷ s) = c == b'=' || has_equals s

-- `strings.Join` with a separator of one byte
unfoldable pub joined_on : ℕ → List Text → Text
joined_on sep [] = []
joined_on sep (f ∷ []) = f
joined_on sep (f ∷ g ∷ fs) = f ++ sep ∷ joined_on sep (g ∷ fs)

-- The first loop: the fields before the first that has an equal sign, and the fields from it on.
-- With no such field the loop ends with all of them as the prefix, and `tmpKVPs` is left whole.
unfoldable pub split_prefix : List Text → List Text × List Text
split_prefix [] = ([], [])
split_prefix (f ∷ fs) =
    let (prefix, rest) = split_prefix fs in
    if has_equals f then ([], f ∷ fs) else (f ∷ prefix, rest)

-- The fields up to the last that has an equal sign, and the fields behind it: `tmpKVPs[:si+1]` and
-- `tmpKVPs[si+1:]`, where `si` is -1 if there is none (then there is no suffix either).
unfoldable pub suffix_from : Text → List Text → List Text × List Text → List Text × List Text
suffix_from f fs ([], after) = if has_equals f then (f ∷ [], fs) else ([], f ∷ fs)
suffix_from f fs (g ∷ gs, after) = (f ∷ g ∷ gs, after)

unfoldable pub split_suffix : List Text → List Text × List Text
unfolding suffix_from
split_suffix [] = ([], [])
split_suffix (f ∷ fs) = suffix_from f fs (split_suffix fs)

-- `kvps[len(kvps)-1] += ("," + field)`. The write at index -1 of an empty slice would panic: the
-- first field has an equal sign, so it is not reached.
abbrev pub extend_last : List Text → Text → List Text
extend_last [] field = []
extend_last (k ∷ []) field = (k ++ b',' ∷ field) ∷ []
extend_last (k ∷ l ∷ ks) field = k ∷ extend_last (l ∷ ks) field

unfoldable pub group_kvps : List Text → List Text → List Text
group_kvps kvps [] = kvps
group_kvps kvps (field ∷ fs) =
    group_kvps (if has_equals field then kvps ++ field ∷ [] else extend_last kvps field) fs

pub record Regions : Type 0 where
  pub prefix : List Text
  pub kvps : List Text
  pub suffix : List Text

-- what stands behind the search for the suffix
unfoldable pub regions_of : List Text → List Text → List Text → Regions
unfolding group_kvps
regions_of [] (f ∷ []) suffix = record {
  prefix = [];
  kvps = joined_on b',' (f ∷ suffix) ∷ [];
  suffix = [];
}
regions_of prefix grouped suffix = record {
  prefix = prefix;
  kvps = group_kvps [] grouped;
  suffix = suffix;
}

unfoldable pub split_map_regions : Text → Regions
unfolding split_fields split_prefix split_suffix regions_of has_equals joined_on
split_map_regions s =
    let (prefix, rest) = split_prefix (split_fields s b',' (negsuc 0)) in
    let (grouped, suffix) = split_suffix rest in regions_of prefix grouped suffix

-- `stringListMap.Add`
unfoldable pub add : Text → Text → Map (List Text) → Map (List Text)
add key value m = insert key (elim (lookup key m) [ none ↦ [] | some vs ↦ vs ] ++ value ∷ []) m

unfoldable pub add_prefix : List Text → Map (List Text) → Map (List Text)
unfolding add
add_prefix [] m = m
add_prefix (field ∷ fs) m = add_prefix fs (add [] (unescape_and_unquote field) m)

abbrev pub add_kvp : Text → Map (List Text) → Map (List Text)
add_kvp field m =
    let (key, value, _) = split_key_value field in
    if text_eq key [] then add [] (unescape_and_unquote field) m else add key value m

unfoldable pub add_kvps : List Text → Map (List Text) → Map (List Text)
unfolding add
add_kvps [] m = m
add_kvps (field ∷ fs) m = add_kvps fs (add_kvp field m)

unfoldable pub add_suffix : List Text → Map (List Text) → Map (List Text)
unfolding add
add_suffix [] m = m
add_suffix (field ∷ fs) m = add_suffix fs (add field [] m)

-- `ParseMap`; the nil map is the empty one
unfoldable pub parse_map : Text → Map (List Text)
unfolding split_map_regions add_prefix add_kvps add_suffix split_key_value
parse_map text =
    let r = split_map_regions text in add_suffix r.suffix (add_kvps r.kvps (add_prefix r.prefix []))
