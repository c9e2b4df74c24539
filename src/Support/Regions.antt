-- ===== src/Support/Regions.antt =====
-- support.go: `splitMapRegions`, and the text that its regions join to.
pub mod Split
pub mod Parts
pub mod Grouped
use joe_cli.Support.Maps.{joined_on, regions_of, split_map_regions, split_prefix, split_suffix}
use mathlib.Core.List.{foldl}
use mathlib.Core.Path.{subst}
use joe_cli.Support.Fields.{split_fields}
use joe_cli.Common.{
  All, List, Text, [], ap, append_assoc, negsuc, refl, sym, ℕ, ◌++◌, ◌∙◌, ◌∷◌, ◌≡◌, ◌≢◌,
}
use joe_cli.Support.Regions.Split.{joined_on-split_fields}
use joe_cli.Support.Regions.Parts.{
  Plain, split_prefix-Plain, split_prefix_lem, split_suffix-Plain, split_suffix_lem,
}
use joe_cli.Support.Regions.Grouped.{
  Begins, all_fields, joined_on-led, led, led-append, led-grouped, led-joined_on, led-one, snoc_ne,
  split_prefix-Begins, split_suffix-Begins,
}

led-middle :
    (prefix ks ls suffix : List Text)
    → led ks ≡ led ls
    → led (prefix ++ ks ++ suffix) ≡ led (prefix ++ ls ++ suffix)
led-middle prefix ks ls suffix h =
    rw (led-append (prefix ++ ks) suffix, led-append prefix ks, h)
      (sym (led-append (prefix ++ ls) suffix ∙ ap (λ x. x ++ led suffix) (led-append prefix ls)))

led-regions_of :
    (prefix grouped suffix : List Text)
    → Begins grouped
    → led (all_fields (regions_of prefix grouped suffix)) ≡ led (prefix ++ grouped ++ suffix)
unfolding regions_of
led-regions_of [] [] suffix h = led-middle [] _ [] suffix (led-grouped [] h)
led-regions_of [] (f ∷ []) suffix h =
    led-one (joined_on b',' (f ∷ suffix)) ∙ sym (led-joined_on f suffix)
led-regions_of [] (f ∷ g ∷ gs) suffix h =
    led-middle [] _ (f ∷ g ∷ gs) suffix (led-grouped (f ∷ g ∷ gs) h)
led-regions_of (p ∷ prefix) grouped suffix h =
    led-middle (p ∷ prefix) _ grouped suffix (led-grouped grouped h)

regions_of-Plain :
    (prefix grouped suffix : List Text)
    → All Plain prefix
    → All Plain suffix
    → All Plain (regions_of prefix grouped suffix).prefix
      × All Plain (regions_of prefix grouped suffix).suffix
unfolding regions_of
regions_of-Plain [] [] suffix h k = (h, k)
regions_of-Plain [] (f ∷ []) suffix h k = (tt, tt)
regions_of-Plain [] (f ∷ g ∷ gs) suffix h k = (h, k)
regions_of-Plain (p ∷ prefix) grouped suffix h k = (h, k)

led-fields : (c : ℕ) (s : Text) → led (split_fields (c ∷ s) b',' (negsuc 0)) ≡ b',' ∷ c ∷ s
unfolding split_fields
led-fields c s = led-ne _ (snoc_ne _ _) ∙ ap (λ x. b',' ∷ x) (joined_on-split_fields (c ∷ s) b',')
  where
    led-ne : (fs : List Text) → fs ≢ [] → led fs ≡ b',' ∷ joined_on b',' fs
    led-ne [] h = absurd (h refl)
    led-ne (f ∷ fs) h = led-joined_on f fs

-- The regions of a text that is not empty, joined on commas in their order, are the text; and no
-- field of the prefix or the suffix has an equal sign.
pub split_map_regions_lem :
    (c : ℕ) (s : Text)
    → (joined_on b',' (all_fields (split_map_regions (c ∷ s))) ≡ c ∷ s)
      × All Plain (split_map_regions (c ∷ s)).prefix
      × All Plain (split_map_regions (c ∷ s)).suffix
unfolding split_map_regions
split_map_regions_lem c s =
    let fields = split_fields (c ∷ s) b',' (negsuc 0) in
    let (prefix, rest) = split_prefix fields in
    let (grouped, suffix) = split_suffix rest in
    let plain =
      regions_of-Plain prefix grouped suffix (split_prefix-Plain fields)
        (split_suffix-Plain rest) in
    (
      joined_on-led _ (c ∷ s) (
          led-regions_of prefix grouped suffix
            (split_suffix-Begins rest (split_prefix-Begins fields))
          ∙ ap led (
              append_assoc prefix grouped suffix
              ∙ ap (λ x. prefix ++ x) (split_suffix_lem rest)
              ∙ split_prefix_lem fields)
          ∙ led-fields c s),
      plain.0,
      plain.1,
    )
