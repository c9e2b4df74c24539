-- ===== src/Extensions/Expander/Regions.antt =====
-- pattern.go: where the submatches of `findAllSubmatchIndex` stand in the content.
use mathlib.Core.Path.{subst}
use joe_cli.Common.{
  All, All-append, Bool, Bool-cases, List, Text, [], ap, arith, drop, drop-drop, false,
  if◌then◌else◌, inl, inr, length, length-drop, maybe-some, maybe_cases, refl, some, some_cancel,
  suc, sym, take, true, zero, ℕ, ◌&&◌, ◌++◌, ◌+◌, ◌-◌, ◌<◌, ◌==◌, ◌∙◌, ◌∷◌, ◌≡◌, ◌≤◌,
}
use joe_cli.Extensions.Expander.Scan.{
  Loc, Round, equal_at, find_all_submatch_index, find_end, opens, round, round_at_start, same_bytes,
  scan, submatch,
}

-- The submatches from the index `a` on are in order and inside, and each has a key.
abbrev pub InOrder : (len_start n a : ℕ) → List Loc → Type 0
InOrder len_start n a [] = a ≤ n
InOrder len_start n a (l ∷ ls) =
    (a ≤ l.from)
    × (l.key_from ≡ l.from + len_start)
    × (l.key_from < l.key_to)
    × (l.to ≡ l.key_to + 1)
    × InOrder len_start n l.to ls

-- The content from the submatch on is the start, the key, the end, and the content from its end on.
abbrev pub Framed : (start : Text) (close : ℕ) (content : Text) → Loc → Type 0
Framed start close content l =
    drop l.from content
    ≡ start ++ (take (l.key_to - l.key_from) (drop l.key_from content) ++ close ∷ drop l.to content)

InOrder-le :
    (len_start n a b : ℕ) (ls : List Loc)
    → a ≤ b
    → InOrder len_start n b ls
    → InOrder len_start n a ls
InOrder-le len_start n a b [] p h = omega (arith, p, h)
InOrder-le len_start n a b (l ∷ ls) p h = (omega (arith, p, h.0), h.1, h.2, h.3, h.4)

-- What the inner loop finds stands behind the start, and is the end.
find_end-Found :
    (start : Text) (close j nested : ℕ) (s : Text) (k : ℕ)
    → (find_end start close j nested s).0 ≡ some k
    → (j ≤ k) × (k < j + length s) × (s ≡ take (k - j) s ++ close ∷ drop (k + 1 - j) s)
unfolding find_end
find_end-Found start close j nested [] k h = absurd (ground (arith, h))
find_end-Found start close j nested (c ∷ s) k h = elim (Bool-cases (c == close && nested == 0)) [
  | inl e ↦
      let q : k ≡ j = sym (some_cancel (rw e at h)) in
      let p : k - j ≡ 0 = omega (arith, q) in
      let r : k + 1 - j ≡ 1 = omega (arith, q) in
      (omega (arith, q), omega (arith, q), rw (p, r) (ap (λ (d : ℕ). d ∷ s) (ground (arith, e))))
  | inr e ↦
      let (a, b, t) = find_end-Found start close (j + 1) _ s k (rw e at h) in
      let p : k - j ≡ suc (k - (j + 1)) = omega (arith, a) in
      let r : k + 1 - j ≡ suc (k + 1 - (j + 1)) = omega (arith, a) in
      (omega (arith, a), omega (arith, b), rw (p, r) (ap (λ u. c ∷ u) t))
]

same_bytes-append :
    (start s : Text)
    → same_bytes start s ≡ true
    → length start ≤ length s
    → s ≡ start ++ drop (length start) s
unfolding same_bytes
same_bytes-append [] s h l = refl
same_bytes-append (c ∷ cs) [] h l = absurd (omega (arith, l))
same_bytes-append (c ∷ cs) (d ∷ s) h l =
    let e : d ≡ c = ground (arith, h) in
    rw e (ap (λ t. c ∷ t) (same_bytes-append cs s (ground (arith, h)) (omega (arith, l))))

opens-same_bytes :
    (spare : ℕ) (start : Text) (c : ℕ) (s : Text)
    → opens spare start c s ≡ some true
    → same_bytes start (c ∷ s) ≡ true
unfolding opens equal_at
opens-same_bytes spare [] c s h = absurd (ground (arith, h))
opens-same_bytes spare (b ∷ start) c s h = ground (arith, h)

-- What a round leaves to the rounds behind it.
record Keeps (start : Text) (close : ℕ) (content : Text) (i : ℕ) (r : Round) : Type 0 where
  fits : i + 1 + r.skip ≤ length content
  region :
      (ls : List Loc)
      → InOrder (length start) (length content) (i + 1 + r.skip) ls
      → InOrder (length start) (length content) i (r.locs ++ ls)
  framed : All (Framed start close content) r.locs

module _ (start : Text) (close : ℕ) (content : Text) (i : ℕ) (c : ℕ) (s : Text)
    (here : drop i content ≡ c ∷ s) (size : i + length (c ∷ s) ≡ length content) where
  idle-Keeps :
      (nested : ℕ) → Keeps start close content i (record { locs = []; nested = nested; skip = 0 })
  idle-Keeps nested = record {
    fits = omega (arith, size);
    region = λ ls h. InOrder-le (length start) (length content) i (i + 1 + 0) ls (omega arith) h;
    framed = tt;
  }

  submatch-Framed :
      (j : ℕ)
      → same_bytes start (c ∷ s) ≡ true
      → i + length start ≤ j
      → j < i + length start + length (drop (length start) (c ∷ s))
      → drop (length start) (c ∷ s)
        ≡ take (j - (i + length start)) (drop (length start) (c ∷ s))
          ++ close ∷ drop (j + 1 - (i + length start)) (drop (length start) (c ∷ s))
      → Framed start close content
          (record { from = i; to = j + 1; key_from = i + length start; key_to = j })
  submatch-Framed j m a b t =
      let at_key : drop (length start) (c ∷ s) ≡ drop (i + length start) content =
        sym (ap (drop (length start)) here) ∙ drop-drop i (length start) content in
      let behind : drop (j + 1 - (i + length start)) (drop (length start) (c ∷ s))
          ≡ drop (j + 1) content =
        ap (drop (j + 1 - (i + length start))) at_key
        ∙ drop-drop (i + length start) (j + 1 - (i + length start)) content
        ∙ ap (λ (n : ℕ). drop n content) (omega (arith, a)) in
      let long : length start ≤ length (c ∷ s) =
        omega (arith, a, b, length-drop (length start) (c ∷ s)) in
      here
      ∙ same_bytes-append start (c ∷ s) m long
      ∙ ap (λ u. start ++ u)
          (t
            ∙ ap
                (λ u.
                  take (j - (i + length start)) u
                  ++ close ∷ drop (j + 1 - (i + length start)) (drop (length start) (c ∷ s)))
                at_key
            ∙ ap (λ u. take (j - (i + length start)) (drop (i + length start) content) ++ close ∷ u)
                behind)

  submatch-Keeps :
      (nested j : ℕ)
      → same_bytes start (c ∷ s) ≡ true
      → i + length start ≤ j
      → j < i + length start + length (drop (length start) (c ∷ s))
      → drop (length start) (c ∷ s)
        ≡ take (j - (i + length start)) (drop (length start) (c ∷ s))
          ++ close ∷ drop (j + 1 - (i + length start)) (drop (length start) (c ∷ s))
      → Keeps start close content i
          (record { locs = submatch (length start) i j; nested = nested; skip = j - i })
  unfolding submatch
  submatch-Keeps nested j m a b t =
      let rest = length-drop (length start) (c ∷ s) in
      let within : j < length content = omega (arith, b, rest, size) in
      elim (Bool-cases (i + length start == j)) [
        | inl e ↦ rw e (record {
          fits = omega (arith, a, within);
          region = λ ls h.
              InOrder-le (length start) (length content) i (i + 1 + (j - i)) ls (omega arith) h;
          framed = tt;
        })
        | inr e ↦
            let q : i + 1 + (j - i) ≡ j + 1 = omega (arith, a) in
            rw e (record {
              fits = omega (arith, a, within);
              region = λ ls h. (
                omega arith,
                refl,
                ground (arith, e, a),
                refl,
                InOrder-le (length start) (length content) (j + 1) (i + 1 + (j - i)) ls
                    (omega (arith, q)) h,
              );
              framed = (submatch-Framed j m a b t, tt);
            })
      ]

  round-Keeps :
      (spare nested : ℕ) (r : Round)
      → round spare start close i nested c s ≡ some r
      → Keeps start close content i r
  unfolding round round_at_start
  round-Keeps spare nested r h =
      let (b, opened, e) = maybe-some (opens spare start c s) _ h in
      subst (Keeps start close content i) (some_cancel e) (chosen b opened)
    where
      found :
          same_bytes start (c ∷ s) ≡ true
          → Keeps start close content i (round_at_start start close i nested (c ∷ s))
      found m =
          maybe_cases (Keeps start close content i)
            (find_end start close (i + length start) nested (drop (length start) (c ∷ s))).0 _ _
            (λ _. idle-Keeps _)
            (λ j q.
              let (a, b, t) = find_end-Found start close (i + length start) nested _ j q in
              submatch-Keeps _ j m a b t)

      chosen :
          (b : Bool)
          → opens spare start c s ≡ some b
          → Keeps start close content i (
              if b
              then round_at_start start close i nested (c ∷ s)
              else record { locs = []; nested = nested; skip = 0 })
      chosen true o = found (opens-same_bytes spare start c s o)
      chosen false o = idle-Keeps nested

scan-Regions :
    (spare : ℕ) (start : Text) (close : ℕ) (content : Text) (i nested skip : ℕ) (s : Text)
    (locs : List Loc)
    → drop i content ≡ s
    → i + length s ≡ length content
    → i + skip ≤ length content
    → scan spare start close i nested skip s ≡ some locs
    → InOrder (length start) (length content) (i + skip) locs
      × All (Framed start close content) locs
unfolding scan
scan-Regions spare start close content i nested skip [] locs e l f h =
    let q : locs ≡ [] = sym (some_cancel h) in rw q (f, tt)
scan-Regions spare start close content i nested (suc skip) (c ∷ s) locs e l f h =
    let (o, a) =
      scan-Regions spare start close content (i + 1) nested skip s locs
        (sym (drop-drop i 1 content) ∙ ap (drop 1) e) (omega (arith, l)) (omega (arith, f)) h in
    (
      InOrder-le (length start) (length content) (i + suc skip) (i + 1 + skip) locs (omega arith) o,
      a,
    )
scan-Regions spare start close content i nested zero (c ∷ s) locs e l f h =
    let (r, p, h') = maybe-some (round spare start close i nested c s) _ h in
    let (ls, p', h'') = maybe-some (scan spare start close (i + 1) r.nested r.skip s) _ h' in
    let k = round-Keeps start close content i c s e l spare nested r p in
    let (o, a) =
      scan-Regions spare start close content (i + 1) r.nested r.skip s ls
        (sym (drop-drop i 1 content) ∙ ap (drop 1) e) (omega (arith, l)) k.fits p' in
    rw (← some_cancel h'') (
      InOrder-le (length start) (length content) (i + 0) i (r.locs ++ ls) (omega arith)
          (k.region ls o),
      All-append (Framed start close content) r.locs ls k.framed a,
    )

pub find_all_submatch_index-Regions :
    (spare : ℕ) (content start : Text) (close : ℕ) (locs : List Loc)
    → find_all_submatch_index spare content start close ≡ some locs
    → InOrder (length start) (length content) 0 locs × All (Framed start close content) locs
unfolding find_all_submatch_index
find_all_submatch_index-Regions spare content start close locs h =
    let (o, a) =
      scan-Regions spare start close content 0 0 0 content locs refl (omega arith) (omega arith)
        h in
    (InOrder-le (length start) (length content) 0 (0 + 0) locs (omega arith) o, a)
