-- ===== src/Support/Names/Unique.antt =====
-- names.go: `ValidateNames` and `PromoteOptionalAliases`, by which names are among the names.
use joe_cli.Common.{
  All, All-append, Bool-cases, Distinct, Distinct-append, List, Text, [], arith, elem, false, inl,
  inr, refl, text_eq, text_eq_iff, true, ◌++◌, ◌||◌, ◌↔◌, ◌∷◌, ◌≡◌,
}
use joe_cli.Support.Names.{
  NameSet, alias_errors, is_valid_name, name_errors, promote_optional_aliases, validate_aliases,
  validate_names,
}

abbrev pub Valid : Text → Type 0
Valid a = is_valid_name a ≡ true

abbrev pub NewTo : NameSet → Text → Type 0
NewTo names a = elem a names ≡ false

-- Valid names, none of which is in the set, and none of which stands twice.
pub record AreNew (names : NameSet) (aliases : List Text) : Type 0 where
  pub valid : All Valid aliases
  pub unused : All (NewTo names) aliases
  pub distinct : Distinct aliases

NewTo-split :
    (names : NameSet) (a : Text) (aliases : List Text)
    → All (NewTo (a ∷ names)) aliases
    → (elem a aliases ≡ false) × All (NewTo names) aliases
unfolding elem
NewTo-split names a [] h = (refl, tt)
NewTo-split names a (b ∷ aliases) h =
    let (n, rest) = NewTo-split names a aliases h.1 in
    (ground (arith, n, h.0, text_eq_iff a b, text_eq_iff b a), (ground (arith, h.0), rest))

NewTo-join :
    (names : NameSet) (a : Text) (aliases : List Text)
    → elem a aliases ≡ false
    → All (NewTo names) aliases
    → All (NewTo (a ∷ names)) aliases
unfolding elem
NewTo-join names a [] e h = tt
NewTo-join names a (b ∷ aliases) e h = (
  ground (arith, e, h.0, text_eq_iff a b, text_eq_iff b a),
  NewTo-join names a aliases (ground (arith, e)) h.1,
)

no_errors :
    (names : NameSet) (aliases : List Text)
    → (validate_aliases names aliases).0 ≡ []
    → AreNew names aliases
unfolding validate_aliases alias_errors
no_errors names [] e = record { valid = tt; unused = tt; distinct = tt }
no_errors names (a ∷ aliases) e =
    let r = no_errors (a ∷ names) aliases (ground (arith, e)) in
    let (n, u) = NewTo-split names a aliases r.unused in
    record {
      valid = (ground (arith, e), r.valid);
      unused = (ground (arith, e), u);
      distinct = (n, r.distinct);
    }

all_new :
    (names : NameSet) (aliases : List Text)
    → AreNew names aliases
    → (validate_aliases names aliases).0 ≡ []
unfolding validate_aliases alias_errors
all_new names [] h = refl
all_new names (a ∷ aliases) h = ground (
  arith,
  h.valid.0,
  h.unused.0,
  all_new (a ∷ names) aliases (record {
    valid = h.valid.1;
    unused = NewTo-join names a aliases h.distinct.0 h.unused.1;
    distinct = h.distinct.1;
  }),
)

-- `ValidateNames` finds no error exactly if the name is valid and new to the names so far, and the
-- aliases are valid, new to the names so far, and differ from each other. (An alias may be the name.)
pub validate_names_iff :
    (names : NameSet) (name : Text) (aliases : List Text)
    → ((validate_names names name aliases).0 ≡ [])
      ↔ (Valid name × NewTo names name × AreNew names aliases)
unfolding validate_names name_errors
validate_names_iff names name aliases = (
  λ e. (ground (arith, e), ground (arith, e), no_errors names aliases (ground (arith, e))),
  λ h. ground (arith, h.0, h.1, all_new names aliases h.2),
)

names-validate_aliases :
    (names : NameSet) (aliases : List Text) (k : Text)
    → elem k (validate_aliases names aliases).1 ≡ (elem k aliases || elem k names)
unfolding validate_aliases elem
names-validate_aliases names [] k = refl
names-validate_aliases names (a ∷ aliases) k =
    ground (arith, names-validate_aliases (a ∷ names) aliases k)

-- Behind `ValidateNames`, errors or not, the map has the name, the aliases, and what it had before.
pub names-validate_names :
    (names : NameSet) (name : Text) (aliases : List Text) (k : Text)
    → elem k (validate_names names name aliases).1
      ≡ (text_eq name k || elem k aliases || elem k names)
unfolding validate_names elem
names-validate_names names name aliases k = ground (arith, names-validate_aliases names aliases k)

InSet-cons :
    (names : NameSet) (a : Text) (aliases : List Text)
    → All (λ k. elem k names ≡ true) aliases
    → All (λ k. elem k (a ∷ names) ≡ true) aliases
unfolding elem
InSet-cons names a [] h = tt
InSet-cons names a (b ∷ aliases) h = (ground (arith, h.0), InSet-cons names a aliases h.1)

not_among :
    (names : NameSet) (k : Text) (aliases : List Text)
    → elem k names ≡ false
    → All (λ a. elem a names ≡ true) aliases
    → elem k aliases ≡ false
unfolding elem
not_among names k [] e h = refl
not_among names k (a ∷ aliases) e h =
    ground (arith, e, h.0, text_eq_iff a k, not_among names k aliases e h.1)

-- `PromoteOptionalAliases` keeps aliases that are distinct and in the map so.
pub promote_optional_aliases-Distinct :
    (optional aliases : List Text) (names : NameSet)
    → Distinct aliases
    → All (λ a. elem a names ≡ true) aliases
    → Distinct (promote_optional_aliases optional aliases names).0
unfolding promote_optional_aliases
promote_optional_aliases-Distinct [] aliases names d h = d
promote_optional_aliases-Distinct (k ∷ optional) aliases names d h =
    elim (Bool-cases (elem k names)) [
      | inl e ↦ rw e (promote_optional_aliases-Distinct optional aliases names d h)
      | inr e ↦ rw e (
          promote_optional_aliases-Distinct optional (aliases ++ k ∷ []) (k ∷ names)
            (Distinct-append aliases k d (not_among names k aliases e h))
            (All-append _ aliases _ (InSet-cons names k aliases h)
              (unfold elem in (ground (arith, text_eq_iff k k), tt))))
    ]
