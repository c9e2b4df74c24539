-- ===== src/Extensions/Expander/Scan.antt =====
-- pattern.go: `findAllSubmatchIndex`. The content is in an array, which may have spare bytes behind the
-- end of the content; they are zero. `none` is a slice out of the array, or the first byte of a start
-- that is empty.
use joe_cli.Common.{
  Bool, List, Option, Text, [], drop, false, if◌then◌else◌, length, ltb, maybe, none, some, suc,
  true, zero, ℕ, ◌&&◌, ◌++◌, ◌+◌, ◌-◌, ◌==◌, ◌∷◌,
}

-- where a submatch and its key begin and end
pub record Loc : Type 0 where
  pub from : ℕ
  pub to : ℕ
  pub key_from : ℕ
  pub key_to : ℕ

-- the start against the bytes from some index on
unfoldable pub same_bytes : Text → Text → Bool
same_bytes [] s = true
same_bytes (c ∷ cs) [] = c == 0 && same_bytes cs []
same_bytes (c ∷ cs) (d ∷ s) = c == d && same_bytes cs s

unfoldable pub equal_at : ℕ → Text → Text → Option Bool
equal_at spare start s =
    if ltb (length s + spare) (length start) then none else some (same_bytes start s)

-- the two tests at an index, at which the rest of the content is `c ∷ s`
unfoldable pub opens : ℕ → Text → ℕ → Text → Option Bool
opens spare [] c s = none
opens spare (b ∷ start) c s = if c == b then equal_at spare (b ∷ start) (c ∷ s) else some false

-- The inner loop: the index of the end, and `nested` behind it.
unfoldable pub find_end : Text → ℕ → ℕ → ℕ → Text → Option ℕ × ℕ
find_end start close j nested [] = (none, nested)
find_end start close j nested (c ∷ s) =
    let left = if c == close then nested - 1 else nested in
    let deeper = ltb (length start) (length (c ∷ s)) && same_bytes start (c ∷ s) in
    let rest = find_end start close (j + 1) (if deeper then left + 1 else left) s in
    if c == close && nested == 0 then (some j, nested) else rest

-- What a round of the outer loop yields, `nested` behind it, and how many indices it skips.
pub record Round : Type 0 where
  pub locs : List Loc
  pub nested : ℕ
  pub skip : ℕ

unfoldable pub submatch : ℕ → ℕ → ℕ → List Loc
submatch len_start i j =
    if i + len_start == j
    then []
    else record { from = i; to = j + 1; key_from = i + len_start; key_to = j } ∷ []

unfoldable pub round_at_start : Text → ℕ → ℕ → ℕ → Text → Round
round_at_start start close i nested s =
    let (found, nested') = find_end start close (i + length start) nested (drop (length start) s) in
    maybe found (record { locs = []; nested = nested'; skip = 0 })
      λ j. record { locs = submatch (length start) i j; nested = nested'; skip = j - i }

unfoldable pub round : ℕ → Text → ℕ → ℕ → ℕ → ℕ → Text → Option Round
round spare start close i nested c s = maybe (opens spare start c s) none λ b. some (
    if b
    then round_at_start start close i nested (c ∷ s)
    else record { locs = []; nested = nested; skip = 0 })

-- The outer loop, at the index `i`: the next `skip` indices are left out.
unfoldable pub scan : ℕ → Text → ℕ → ℕ → ℕ → ℕ → Text → Option (List Loc)
scan spare start close i nested skip [] = some []
scan spare start close i nested (suc skip) (c ∷ s) = scan spare start close (i + 1) nested skip s
scan spare start close i nested zero (c ∷ s) =
    maybe (round spare start close i nested c s) none λ r.
      maybe (scan spare start close (i + 1) r.nested r.skip s) none (λ locs. some (r.locs ++ locs))

unfoldable pub find_all_submatch_index : ℕ → Text → Text → ℕ → Option (List Loc)
find_all_submatch_index spare content start close = scan spare start close 0 0 0 content
