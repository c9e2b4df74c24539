-- ===== src/Binding/Consistent.antt =====
-- set.go: the law `IsLawful` and the tables of `bindingImpl`.
use joe_cli.Binding.Counted.{Counted, HasCounter, names-Counted, new_binding-Counted}
use joe_cli.Binding.Define.{names-define_aliases}
use joe_cli.Common.{
  All, AllValues, AllValues-insert, AllValues-lookup, AllValues-map, Bool, Bool-cases, List, Map,
  Text, [], arith, false, if◌then◌else◌, inl, inr, insert, lookup, lookup-insert, maybe_cases, refl,
  some, some_cancel, sym, text_eq, text_eq_iff, true, ◌∙◌, ◌∷◌, ◌≡◌, ◌≢◌, ◌⊎◌,
}
use joe_cli.Binding.{
  Arg, BindingImpl, Counter, Flag, IsLawful, Opt, arg_option, define_alias, define_aliases,
  define_arg, define_args, define_flag, define_flags, define_persistent, empty_binding, flag_option,
  is_short, lookup_option, new_binding, resolve_alias, resolve_in_tables, to_binding,
}

-- The name has an option in the binding.
abbrev Named : Map Opt → Text → Type 0
Named names k = (o : Opt) × (lookup k names ≡ some o)

Named-insert : (names : Map Opt) (n k : Text) (o : Opt) → Named names k → Named (insert n o names) k
Named-insert names n k o (p, e) = elim (Bool-cases (text_eq n k)) [
  | inl q ↦ (o, ground (arith, lookup-insert n k o names))
  | inr q ↦ (p, ground (arith, lookup-insert n k o names))
]

Named-self : (names : Map Opt) (n : Text) (o : Opt) → Named (insert n o names) n
Named-self names n o = (o, ground (arith, lookup-insert n n o names, text_eq_iff n n))

-- Both tables of aliases and the numeric option lead to names of options.
record IsConsistent (b : BindingImpl) : Type 0 where
  short : AllValues (Named b.names) b.short_options
  long : AllValues (Named b.names) b.long_options
  numeric_named : b.numeric ≢ [] → Named b.names b.numeric

-- The tables while the aliases of `name` are being defined.
abbrev Pending : Text → BindingImpl → Type 0
Pending name b =
    AllValues (λ r. (r ≡ name) ⊎ Named b.names r) b.short_options
    × AllValues (λ r. (r ≡ name) ⊎ Named b.names r) b.long_options

define_alias-Pending :
    (name alias : Text) (b : BindingImpl)
    → Pending name b
    → Pending name (define_alias name alias b)
unfolding define_alias
define_alias-Pending name alias b h = elim (Bool-cases (is_short alias)) [
  | inl e ↦ rw e (AllValues-insert _ alias name b.short_options (inl refl) h.0, h.1)
  | inr e ↦ rw e (h.0, AllValues-insert _ alias name b.long_options (inl refl) h.1)
]

define_aliases-Pending :
    (name : Text) (aliases : List Text) (b : BindingImpl)
    → Pending name b
    → Pending name (define_aliases name aliases b)
unfolding define_aliases
define_aliases-Pending name [] b h = h
define_aliases-Pending name (a ∷ aliases) b h =
    define_aliases-Pending name aliases _ (define_alias-Pending name a b h)

numeric-define_aliases :
    (name : Text) (aliases : List Text) (b : BindingImpl)
    → (define_aliases name aliases b).numeric ≡ b.numeric
unfolding define_aliases define_alias
numeric-define_aliases name [] b = refl
numeric-define_aliases name (a ∷ aliases) b =
    ground (arith, numeric-define_aliases name aliases (define_alias name a b))

settle :
    (names : Map Opt) (name r : Text) (o : Opt)
    → (r ≡ name) ⊎ Named names r
    → Named (insert name o names) r
settle names name r o (inl e) = rw e (Named-self names name o)
settle names name r o (inr k) = Named-insert names name r o k

-- The insertion of the option itself settles what its aliases were pending on.
settled-IsConsistent :
    (b : BindingImpl) (name : Text) (o : Opt) (numeric : Text)
    → Pending name b
    → (numeric ≢ [] → (numeric ≡ name) ⊎ Named b.names numeric)
    → IsConsistent (record b { numeric = numeric; names = insert name o b.names })
settled-IsConsistent b name o numeric h n = record {
  short = AllValues-map _ _ (λ r. settle b.names name r o) b.short_options h.0;
  long = AllValues-map _ _ (λ r. settle b.names name r o) b.long_options h.1;
  numeric_named = λ e. settle b.names name numeric o (n e);
}

numeric_choice :
    (choose : Bool) (name numeric numeric' : Text) (names names' : Map Opt)
    → numeric' ≡ numeric
    → names' ≡ names
    → (numeric ≢ [] → Named names numeric)
    → (if choose then name else numeric') ≢ []
    → ((if choose then name else numeric') ≡ name)
      ⊎ Named names' (if choose then name else numeric')
numeric_choice true name numeric numeric' names names' p q h n = inl refl
numeric_choice false name numeric numeric' names names' p q h n =
    inr (rw (p, q) (h (λ z. n (p ∙ z))))

define_flag-IsConsistent :
    (b : BindingImpl) (f : Flag) → IsConsistent b → IsConsistent (define_flag b f)
unfolding define_flag
define_flag-IsConsistent b f h = elim (Bool-cases (text_eq f.name [])) [
  | inl e ↦ rw e h
  | inr e ↦ rw e (
      settled-IsConsistent (define_aliases f.name f.aliases b) f.name (flag_option f) _
        (define_aliases-Pending f.name f.aliases b (
          AllValues-map _ _ (λ r k. inr k) b.short_options h.short,
          AllValues-map _ _ (λ r k. inr k) b.long_options h.long,
        ))
        (numeric_choice f.is_numeric f.name b.numeric _ b.names _
          (numeric-define_aliases f.name f.aliases b) (names-define_aliases f.name f.aliases b)
          h.numeric_named))
]

define_arg-IsConsistent :
    (b : BindingImpl) (a : Arg) → IsConsistent b → IsConsistent (define_arg b a)
unfolding define_arg
define_arg-IsConsistent b a h = record {
  short =
      AllValues-map _ _ (λ r k. Named-insert b.names a.name r (arg_option a) k) b.short_options
        h.short;
  long =
      AllValues-map _ _ (λ r k. Named-insert b.names a.name r (arg_option a) k) b.long_options
        h.long;
  numeric_named = λ e. Named-insert b.names a.name b.numeric (arg_option a) (h.numeric_named e);
}

define_flags-IsConsistent :
    (flags : List Flag) (b : BindingImpl) → IsConsistent b → IsConsistent (define_flags b flags)
unfolding define_flags
define_flags-IsConsistent [] b h = h
define_flags-IsConsistent (f ∷ flags) b h =
    define_flags-IsConsistent flags _ (define_flag-IsConsistent b f h)

define_persistent-IsConsistent :
    (flags : List Flag) (b : BindingImpl)
    → IsConsistent b
    → IsConsistent (define_persistent b flags)
unfolding define_persistent
define_persistent-IsConsistent [] b h = h
define_persistent-IsConsistent (f ∷ flags) b h = elim (Bool-cases f.non_persistent) [
  | inl e ↦ rw e (define_persistent-IsConsistent flags b h)
  | inr e ↦ rw e (define_persistent-IsConsistent flags _ (define_flag-IsConsistent b _ h))
]

define_args-IsConsistent :
    (args : List Arg) (b : BindingImpl) → IsConsistent b → IsConsistent (define_args b args)
unfolding define_args
define_args-IsConsistent [] b h = h
define_args-IsConsistent (a ∷ args) b h =
    define_args-IsConsistent args _ (define_arg-IsConsistent b a h)

new_binding-IsConsistent :
    (flags : List Flag) (args : List Arg) (parent : List Flag)
    → IsConsistent (new_binding flags args parent)
unfolding new_binding
new_binding-IsConsistent flags args parent = define_args-IsConsistent args _ (
    define_persistent-IsConsistent parent _ (
      define_flags-IsConsistent flags empty_binding
        (record { short = tt; long = tt; numeric_named = λ n. absurd (n refl) })))

lookup_option-Named :
    (b : BindingImpl) (k : Text)
    → names-Counted b
    → Named b.names k
    → (c : Counter) × (lookup_option b k ≡ some c)
unfolding lookup_option names-Counted
lookup_option-Named b k h (o, e) = rw e (AllValues-lookup Counted k b.names o h e)

resolve_in_tables-Named :
    (b : BindingImpl) (alias k : Text)
    → IsConsistent b
    → resolve_in_tables b alias ≡ some k
    → Named b.names k
unfolding resolve_in_tables
resolve_in_tables-Named b alias k h e = elim (Bool-cases (is_short alias)) [
  | inl q ↦ AllValues-lookup (Named b.names) alias b.short_options k h.short (rw q at e)
  | inr q ↦ AllValues-lookup (Named b.names) alias b.long_options k h.long (rw q at e)
]

resolve_alias-Named :
    (b : BindingImpl) (alias k : Text)
    → IsConsistent b
    → resolve_alias b alias ≡ some k
    → Named b.names k
unfolding resolve_alias
resolve_alias-Named b alias k h =
    maybe_cases (λ r. r ≡ some k → Named b.names k) (lookup alias b.names)
      (resolve_in_tables b alias) (λ o. some alias) (λ q. resolve_in_tables-Named b alias k h)
      (λ o q e. (o, q' alias k o q (some_cancel e)))
  where
    q' : (j i : Text) (o : Opt) → lookup j b.names ≡ some o → j ≡ i → lookup i b.names ≡ some o
    q' j i o q e = rw (sym e) q

-- The binding of flags, args and parent's flags is lawful, where ArgCount gives a counter for
-- each arg: each name that an alias resolves to, and that of the numeric option, has an option.
pub to_binding-IsLawful :
    (flags : List Flag) (args : List Arg) (parent : List Flag)
    → All HasCounter args
    → IsLawful (to_binding (new_binding flags args parent))
unfolding to_binding
to_binding-IsLawful flags args parent c =
    let b = new_binding flags args parent in
    let h = new_binding-IsConsistent flags args parent in
    let n = new_binding-Counted flags args parent c in
    record {
      resolves =
          λ alias name e. lookup_option-Named b name n (resolve_alias-Named b alias name h e);
      counts = λ e. lookup_option-Named b b.numeric n (h.numeric_named e);
    }
