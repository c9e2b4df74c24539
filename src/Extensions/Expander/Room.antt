-- ===== src/Extensions/Expander/Room.antt =====
-- pattern.go: the slices that `findAllSubmatchIndex` takes of the content, and the room behind it.
use joe_cli.Common.{
  Bool, Bool-cases, List, Text, [], arith, false, if◌then◌else◌, inl, inr, length, ltb, maybe, none,
  refl, some, suc, true, zero, ℕ, ◌++◌, ◌+◌, ◌<◌, ◌==◌, ◌||◌, ◌∷◌, ◌≡◌, ◌≤◌,
}
use joe_cli.Extensions.Expander.{Expr}
use joe_cli.Extensions.Expander.Scan.{
  Loc, Round, equal_at, find_all_submatch_index, opens, round, round_at_start, same_bytes, scan,
}
use joe_cli.Extensions.Expander.Compile.{Options, compile, compile_pattern_core, with_metas}
use joe_cli.Extensions.Expander.Regions.{InOrder, find_all_submatch_index-Regions}

opens_total :
    (spare b : ℕ) (start : Text) (c : ℕ) (s : Text)
    → length start ≤ spare
    → (found : Bool) × (opens spare (b ∷ start) c s ≡ some found)
unfolding opens equal_at
opens_total spare b start c s l = elim (Bool-cases (c == b)) [
  | inl e ↦
      let q : ltb (length (c ∷ s) + spare) (length (b ∷ start)) ≡ false = ground (arith, l) in
      (same_bytes (b ∷ start) (c ∷ s), rw (e, q) refl)
  | inr e ↦ (false, rw e refl)
]

round_total :
    (spare b : ℕ) (start : Text) (close i nested c : ℕ) (s : Text)
    → length start ≤ spare
    → (r : Round) × (round spare (b ∷ start) close i nested c s ≡ some r)
unfolding round
round_total spare b start close i nested c s l =
    let (found, e) = opens_total spare b start c s l in
    (
      if found
          then round_at_start (b ∷ start) close i nested (c ∷ s)
          else record { locs = []; nested = nested; skip = 0 },
      rw e refl,
    )

scan_total :
    (spare b : ℕ) (start : Text) (close i nested skip : ℕ) (s : Text)
    → length start ≤ spare
    → (locs : List Loc) × (scan spare (b ∷ start) close i nested skip s ≡ some locs)
unfolding scan
scan_total spare b start close i nested skip [] l = ([], refl)
scan_total spare b start close i nested (suc skip) (c ∷ s) l =
    scan_total spare b start close (i + 1) nested skip s l
scan_total spare b start close i nested zero (c ∷ s) l =
    let (r, e) = round_total spare b start close i nested c s l in
    let (locs, e') = scan_total spare b start close (i + 1) r.nested r.skip s l in
    (r.locs ++ locs, rw (e, e') refl)

-- Where the start is not empty and the array has room for it behind the last byte, finding the
-- submatches does not panic, and they stand in the pattern in order, without overlap, each with
-- a key that is not empty.
pub find_all_submatch_index-InOrder :
    (spare : ℕ) (content : Text) (b : ℕ) (start : Text) (close : ℕ)
    → length start ≤ spare
    → (locs : List Loc) × (find_all_submatch_index spare content (b ∷ start) close ≡ some locs)
      × InOrder (length (b ∷ start)) (length content) 0 locs
unfolding find_all_submatch_index
find_all_submatch_index-InOrder spare content b start close l =
    let (locs, e) = scan_total spare b start close 0 0 0 content l in
    (locs, e, (find_all_submatch_index-Regions spare content (b ∷ start) close locs e).0)

-- whether a byte stands in the text
abbrev pub has_byte : ℕ → Text → Bool
has_byte b [] = false
has_byte b (c ∷ s) = c == b || has_byte b s

scan-last_start :
    (spare b : ℕ) (start : Text) (close i : ℕ) (s : Text)
    → spare < length start
    → has_byte b s ≡ false
    → scan spare (b ∷ start) close i 0 0 (s ++ b ∷ []) ≡ none
unfolding scan round opens equal_at
scan-last_start spare b start close i [] l h =
    let p : b == b ≡ true = ground arith in
    let q : ltb (length (b ∷ []) + spare) (length (b ∷ start)) ≡ true = ground (arith, l) in
    rw (p, q) refl
scan-last_start spare b start close i (c ∷ s) l h =
    let p : c == b ≡ false = ground (arith, h) in
    rw (p, scan-last_start spare b start close (i + 1) s l (ground (arith, h))) refl

-- A pattern that ends in the first byte of the start delimiter, which stands nowhere before,
-- does not compile but panics, where the array of the pattern has no room behind it for the rest
-- of the start.
pub compile-last_start :
    (spare : ℕ) (o : Options) (b : ℕ) (start s : Text)
    → o.start ≡ b ∷ start
    → spare < length start
    → has_byte b s ≡ false
    → compile spare o (s ++ b ∷ []) ≡ none
unfolding compile compile_pattern_core find_all_submatch_index
compile-last_start spare o b start s e l h = elim (Bool-cases (ltb 1 (length o.end_byte))) [
  | inl q ↦ rw q refl
  | inr q ↦ rw (q, e) (core o.end_byte _)
]
  where
    core :
        (close : Text) (new_expr : Text → Expr)
        → maybe
            (compile_pattern_core spare (s ++ b ∷ []) (b ∷ start) close new_expr)
            none
            (λ p. some (with_metas p o.metas))
          ≡ none
    core [] new_expr = refl
    core (close ∷ more) new_expr = rw (scan-last_start spare b start close 0 s l h) refl
