-- ===== src/States/Cells.antt =====
-- Writes through a pointer, and the cells and maps that they leave alone.
use mathlib.Core.Path.{subst}
use joe_cli.Values.Many.{Returns, Writes}
use joe_cli.Common.{
  Bool-cases, Option, [], ap, arith, get_elem?, get_elem?-set, get_elem?-set_other, inl, inr,
  length, length-set, lt-get_elem?, maybe, none, refl, set, some, some_cancel, sym, ℕ, ◌<◌, ◌==◌,
  ◌∙◌, ◌≡◌, ◌≢◌, ◌≤◌, ◌⊎◌,
}
use joe_cli.Values.{
  AnyValue, Maps, Setting, Value, bool_value, list_value, map_value, set_panics, set_to, text_value,
}
use joe_cli.Values.Writes.{HasRef, IsLocal, IsUnshared, IsWrite, kind_of}
use joe_cli.States.{Store, content, put_cell, show_value, shown_map, stored_at, update}

-- The cell holds a reference to the map.
abbrev pub RefAt : Store → ℕ → ℕ → Type 0
RefAt h p r = get_elem? h.cells p ≡ some (map_value (some r))

-- No two cells refer to the same map, and none to a map that there is not.
pub record IsApart (h : Store) : Type 0 where
  pub inside_maps : (p r : ℕ) → RefAt h p r → r < length h.maps
  pub only_one : (p q r : ℕ) → RefAt h p r → RefAt h q r → p ≡ q

-- A write through `p` leaves the cells and their types, and where nothing is shared all that the other
-- cells show.
pub record IsStoreWrite (d : Option AnyValue) (p : ℕ) (h h' : Store) : Type 0 where
  pub same_length : length h'.cells ≡ length h.cells
  pub kinds :
      (q : ℕ) (v : Value)
      → get_elem? h.cells q ≡ some v
      → (w : Value) × (get_elem? h'.cells q ≡ some w) × (kind_of w ≡ kind_of v)
  pub apart : IsUnshared d → IsApart h → IsApart h'
  pub others : IsUnshared d → IsApart h → (q : ℕ) → p ≢ q → content h' q ≡ content h q

pub kept-IsStoreWrite : (d : Option AnyValue) (p : ℕ) (h : Store) → IsStoreWrite d p h h
kept-IsStoreWrite d p h = record {
  same_length = refl;
  kinds = λ q v e. (v, e, refl);
  apart = λ u a. a;
  others = λ u a q n. refl;
}

pub IsStoreWrite-trans :
    {d : Option AnyValue} {p : ℕ} {h i j : Store}
    → IsStoreWrite d p h i
    → IsStoreWrite d p i j
    → IsStoreWrite d p h j
IsStoreWrite-trans a b = record {
  same_length = b.same_length ∙ a.same_length;
  kinds = λ q v e. let (w, f, k) = a.kinds q v e in let (x, g, l) = b.kinds q w f in (x, g, l ∙ k);
  apart = λ u o. b.apart u (a.apart u o);
  others = λ u o q n. b.others u (a.apart u o) q n ∙ a.others u o q n;
}

at_or_not : (p q : ℕ) → (p ≡ q) ⊎ (p ≢ q)
at_or_not p q = elim (Bool-cases (p == q)) [
  | inl e ↦ inl (ground (arith, e))
  | inr e ↦ inr (λ f. ground (arith, e, f))
]

module _ (h : Store) (p : ℕ) (v w : Value) (maps : Maps) (here : get_elem? h.cells p ≡ some v) where
  get_elem?-put_cell : get_elem? (put_cell h p w maps).cells p ≡ some w
  get_elem?-put_cell = get_elem?-set h.cells p w (lt-get_elem? h.cells p here)

  -- a reference of the new store: it was in the old one, or is that of a new map
  Earlier : ℕ → ℕ → Type 0
  Earlier q r = (RefAt h q r) ⊎ ((p ≡ q) × (length h.maps ≤ r))

  Earlier-here : (r : ℕ) → (HasRef v r) ⊎ (length h.maps ≤ r) → Earlier p r
  unfolding Earlier
  Earlier-here r (inl e) = inl (here ∙ ap some e)
  Earlier-here r (inr l) = inr (refl, l)

  ref_here :
      IsLocal v h.maps w maps
      → (r : ℕ) → RefAt (put_cell h p w maps) p r
      → (r < length maps) × Earlier p r
  ref_here local r e =
      let (l, o) = local.refs r (some_cancel (sym get_elem?-put_cell ∙ e)) in (l, Earlier-here r o)

  ref_there :
      IsApart h
      → IsLocal v h.maps w maps
      → (q r : ℕ) → RefAt (put_cell h p w maps) q r
      → (r < length maps) × Earlier q r
  unfolding Earlier
  ref_there a local q r e = elim (at_or_not p q) [
    | inl same ↦
        subst (λ i. (r < length maps) × Earlier i r) same
          (ref_here local r (subst (λ i. RefAt (put_cell h p w maps) i r) (sym same) e))
    | inr other ↦
        let old : RefAt h q r = sym (get_elem?-set_other h.cells p q w other) ∙ e in
        (omega (arith, a.inside_maps q r old, local.grows), inl old)
  ]

  same_cell : IsApart h → (q i r : ℕ) → Earlier q r → Earlier i r → q ≡ i
  unfolding Earlier
  same_cell a q i r (inl e) (inl f) = a.only_one q i r e f
  same_cell a q i r (inl e) (inr f) = absurd (omega (arith, a.inside_maps q r e, f.1))
  same_cell a q i r (inr e) (inl f) = absurd (omega (arith, a.inside_maps i r f, e.1))
  same_cell a q i r (inr e) (inr f) = sym e.0 ∙ f.0

  put_cell-IsApart : IsApart h → IsLocal v h.maps w maps → IsApart (put_cell h p w maps)
  put_cell-IsApart a local = record {
    inside_maps = λ q r e. (ref_there a local q r e).0;
    only_one =
        λ q i r e f. same_cell a q i r (ref_there a local q r e).1 (ref_there a local i r f).1;
  }

  -- what another value shows
  show-kept :
      IsApart h
      → IsLocal v h.maps w maps
      → (q : ℕ) (x : Value) → p ≢ q
      → get_elem? h.cells q ≡ some x
      → show_value maps x ≡ show_value h.maps x
  show-kept a local q (bool_value b) n e = refl
  show-kept a local q (text_value s) n e = refl
  show-kept a local q (list_value l) n e = refl
  show-kept a local q (map_value none) n e = refl
  show-kept a local q (map_value (some r)) n e =
      ap (λ m. shown_map (maybe m [] (λ x. x)))
        (local.keeps r (a.inside_maps q r e) (λ f. n (a.only_one p q r (here ∙ ap some f) e)))

  content-put_cell :
      IsApart h
      → IsLocal v h.maps w maps
      → (q : ℕ) → p ≢ q
      → content (put_cell h p w maps) q ≡ content h q
  content-put_cell a local q n =
      rw (get_elem?-set_other h.cells p q w n) (shows (get_elem? h.cells q) refl)
    where
      shows :
          (o : Option Value)
          → get_elem? h.cells q ≡ o
          → maybe o none (λ x. some (show_value maps x))
            ≡ maybe o none (λ x. some (show_value h.maps x))
      shows none e = refl
      shows (some x) e = ap some (show-kept a local q x n e)

  pub put_cell-IsStoreWrite :
      (d : Option AnyValue) → IsWrite d v h.maps w maps → IsStoreWrite d p h (put_cell h p w maps)
  put_cell-IsStoreWrite d write = record {
    same_length = length-set h.cells p w;
    kinds = λ q x e. kinds_at q x e (at_or_not p q);
    apart = λ u a. put_cell-IsApart a (write.local u (λ r e. a.inside_maps p r (here ∙ ap some e)));
    others =
        λ u a. content-put_cell a (write.local u (λ r e. a.inside_maps p r (here ∙ ap some e)));
  }
    where
      kinds_at :
          (q : ℕ) (x : Value)
          → get_elem? h.cells q ≡ some x
          → (p ≡ q) ⊎ (p ≢ q)
          → (y : Value) × (get_elem? (set h.cells p w) q ≡ some y) × (kind_of y ≡ kind_of x)
      kinds_at q x e (inl same) = (
        w,
        subst (λ i. get_elem? (set h.cells p w) i ≡ some w) same get_elem?-put_cell,
        write.same_kind
            ∙ ap kind_of
                (some_cancel (sym here ∙ subst (λ i. get_elem? h.cells i ≡ some x) (sym same) e)),
      )
      kinds_at q x e (inr other) = (x, get_elem?-set_other h.cells p q w other ∙ e, refl)

stored_at-IsStoreWrite :
    (d : Option AnyValue) (h : Store) (p : ℕ) (v : Value) (r : Setting (Value × Maps))
    → get_elem? h.cells p ≡ some v
    → Writes d v h.maps r
    → Returns (λ e h'. IsStoreWrite d p h h') (stored_at h p r)
stored_at-IsStoreWrite d h p v (set_to e (w, maps)) here write =
    put_cell-IsStoreWrite h p v w maps here d write
stored_at-IsStoreWrite d h p v set_panics here write = absurd write

pub update-IsStoreWrite :
    (d : Option AnyValue) (f : Value → Maps → Setting (Value × Maps)) (p : ℕ) (h : Store)
    (v : Value)
    → get_elem? h.cells p ≡ some v
    → Writes d v h.maps (f v h.maps)
    → Returns (λ e h'. IsStoreWrite d p h h') (update f p h)
unfolding update
update-IsStoreWrite d f p h v here write =
    rw here (stored_at-IsStoreWrite d h p v (f v h.maps) here write)
