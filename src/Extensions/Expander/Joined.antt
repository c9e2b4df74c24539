-- ===== src/Extensions/Expander/Joined.antt =====
-- pattern.go: the parts that `compilePatternCore` cuts a pattern into, and the text of the pattern.
use joe_cli.Common.{
  All, Bool-cases, List, Text, [], ap, append-nil, append_assoc, arith, drop, drop-drop,
  drop-length-le, inl, inr, length, ltb, refl, some, sym, take, take-append-drop, ℕ, ◌++◌, ◌-◌, ◌∙◌,
  ◌∷◌, ◌≡◌, ◌≤◌,
}
use joe_cli.Extensions.Expander.Scan.{Loc, find_all_submatch_index}
use joe_cli.Extensions.Expander.Compile.{Part, key, parts_from, plain, plain_between}
use joe_cli.Extensions.Expander.Regions.{Framed, InOrder, find_all_submatch_index-Regions}

-- The parts end to end, each key between the start and the end.
pub source_of : Text → ℕ → List Part → Text
source_of start close [] = []
source_of start close (plain t ∷ ps) = t ++ source_of start close ps
source_of start close (key t ∷ ps) = start ++ (t ++ close ∷ source_of start close ps)

source_of-append :
    (start : Text) (close : ℕ) (ps qs : List Part)
    → source_of start close (ps ++ qs) ≡ source_of start close ps ++ source_of start close qs
unfolding source_of
source_of-append start close [] qs = refl
source_of-append start close (plain t ∷ ps) qs =
    ap (λ u. t ++ u) (source_of-append start close ps qs) ∙ sym (append_assoc t _ _)
source_of-append start close (key t ∷ ps) qs =
    ap (λ u. start ++ (t ++ close ∷ u)) (source_of-append start close ps qs)
    ∙ sym (append_assoc start _ _ ∙ ap (λ u. start ++ u) (append_assoc t _ _))

source_of-plain_between :
    (start : Text) (close a b : ℕ) (content : Text)
    → a ≤ b
    → source_of start close (plain_between a b content) ++ drop b content ≡ drop a content
unfolding source_of plain_between
source_of-plain_between start close a b content l = elim (Bool-cases (ltb a b)) [
  | inl e ↦
      let q : drop (b - a) (drop a content) ≡ drop b content =
        drop-drop a (b - a) content ∙ ap (λ (n : ℕ). drop n content) (omega (arith, l)) in
      rw e (
        ap (λ u. u ++ drop b content) (append-nil (take (b - a) (drop a content)))
        ∙ ap (λ u. take (b - a) (drop a content) ++ u) (sym q)
        ∙ take-append-drop (b - a) (drop a content))
  | inr e ↦ rw e (ap (λ (n : ℕ). drop n content) (ground (arith, e, l)))
]

source_of-parts_from :
    (start : Text) (close : ℕ) (content : Text) (index : ℕ) (locs : List Loc)
    → InOrder (length start) (length content) index locs
    → All (Framed start close content) locs
    → source_of start close (parts_from content index locs) ≡ drop index content
unfolding parts_from source_of
source_of-parts_from start close content index [] o a =
    sym (append-nil _)
    ∙ ap (λ u. source_of start close (plain_between index (length content) content) ++ u)
        (sym (drop-length-le (length content) content (omega arith)))
    ∙ source_of-plain_between start close index (length content) content o
source_of-parts_from start close content index (l ∷ ls) o a =
    source_of-append start close (plain_between index l.from content) _
    ∙ ap (λ u. source_of start close (plain_between index l.from content) ++ u)
        (ap (λ u. start ++ (take (l.key_to - l.key_from) (drop l.key_from content) ++ close ∷ u))
            (source_of-parts_from start close content l.to ls o.4 a.1)
          ∙ sym a.0)
    ∙ source_of-plain_between start close index l.from content o.0

-- The parts that a pattern is cut into, end to end and each key between the start and the end,
-- are the pattern, where finding the submatches does not panic.
pub source_of-find_all_submatch_index :
    (spare : ℕ) (content start : Text) (close : ℕ) (locs : List Loc)
    → find_all_submatch_index spare content start close ≡ some locs
    → source_of start close (parts_from content 0 locs) ≡ content
source_of-find_all_submatch_index spare content start close locs h =
    let (o, a) = find_all_submatch_index-Regions spare content start close locs h in
    source_of-parts_from start close content 0 locs o a
