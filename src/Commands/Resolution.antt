-- ===== src/Commands/Resolution.antt =====
-- How the names that `finalizeArgsAndFlags` reads resolve in the binding of the command (set.go).
use joe_cli.Common.{
  All, All-map, Bool-cases, List, Text, [], arith, elem, false, inl, inr, lookup, lookup-insert,
  refl, some, text_eq, text_eq_iff, text_eq_sound, true, ℕ, ◌++◌, ◌+◌, ◌||◌, ◌∙◌, ◌∷◌, ◌≡◌, ◌≢◌,
}
use joe_cli.Binding.{
  Arg, BindingImpl, Flag, arg_option, define_arg, define_args, define_flag, define_flags,
  define_persistent, empty_binding, new_binding, resolve_alias, resolve_in_tables,
}
use joe_cli.Binding.Define.{is_known, is_known-define_flag, resolve_alias-define_flag}
use joe_cli.Support.Names.{NameError, NameSet, validate_names}
use joe_cli.Support.Names.Unique.{NewTo, names-validate_names, validate_names_iff}
use joe_cli.Commands.{InitError, flag_errors, name_errors_of, validate_flags}

-- The word is the name of the flag or one of its aliases.
abbrev pub Calls : Text → Flag → Type 0
Calls a f = (text_eq f.name a || elem a f.aliases) ≡ true

-- Each name and alias of the flag resolves to the flag, and is not among the names.
abbrev pub Resolves : NameSet → BindingImpl → Flag → Type 0
Resolves names b f =
    (a : Text) → Calls a f → (resolve_alias b a ≡ some f.name) × (elem a names ≡ false)

-- The options of the binding are among the names.
abbrev Knows : NameSet → BindingImpl → Type 0
Knows names b = (k : Text) → is_known k b ≡ true → elem k names ≡ true

pub none_of : (es : List NameError) → name_errors_of es ≡ [] → es ≡ []
unfolding name_errors_of
none_of [] h = refl
none_of (x ∷ es) h = absurd (ground arith)

-- what the errors of a flag say about it
record Accepted (names : NameSet) (f : Flag) : Type 0 where
  named : f.name ≢ []
  new_name : elem f.name names ≡ false
  new_aliases : All (NewTo names) f.aliases

flag-Accepted :
    (names : NameSet) (i : ℕ) (f : Flag)
    → flag_errors i f.name (validate_names names f.name f.aliases).0 ≡ []
    → Accepted names f
unfolding flag_errors
flag-Accepted names i f e = elim (Bool-cases (text_eq f.name [])) [
  | inl q ↦ absurd (ground (arith, e, q))
  | inr q ↦
      let v = (validate_names_iff names f.name f.aliases).0 (none_of _ (rw q at e)) in
      record {
        named = λ p. ground (arith, q, p, text_eq_iff f.name []);
        new_name = v.1;
        new_aliases = v.2.unused;
      }
]

-- an alias of an accepted flag is not among the names
pub NewTo-elem :
    (names : NameSet) (k : Text) (aliases : List Text)
    → All (NewTo names) aliases
    → elem k aliases ≡ true
    → elem k names ≡ false
unfolding elem
NewTo-elem names k [] h e = absurd (ground arith)
NewTo-elem names k (a ∷ aliases) h e =
    ground (arith, h.0, text_eq_iff a k, NewTo-elem names k aliases h.1)

Calls-new :
    (names : NameSet) (f : Flag) (a : Text) → Accepted names f → Calls a f → elem a names ≡ false
Calls-new names f a h c =
    ground (arith, c, h.new_name, text_eq_iff f.name a, NewTo-elem names a f.aliases h.new_aliases)

resolve-called :
    (names : NameSet) (b : BindingImpl) (f : Flag) (a : Text)
    → Knows names b
    → Accepted names f
    → Calls a f
    → resolve_alias (define_flag b f) a ≡ some f.name
resolve-called names b f a k h c = ground (
  arith,
  c,
  resolve_alias-define_flag b f a h.named,
  text_eq_iff f.name a,
  Calls-new names f a h c,
  k a,
)

resolve-stays :
    (names : NameSet) (b : BindingImpl) (f : Flag) (a : Text)
    → Accepted names f
    → elem a names ≡ true
    → resolve_alias (define_flag b f) a ≡ resolve_alias b a
resolve-stays names b f a h e =
    ground (arith, e, resolve_alias-define_flag b f a h.named, Calls-new names f a h)

Knows-define_flag :
    (names : NameSet) (b : BindingImpl) (f : Flag)
    → Accepted names f
    → Knows names b
    → Knows (validate_names names f.name f.aliases).1 (define_flag b f)
Knows-define_flag names b f h k a e = ground (
  arith,
  e,
  is_known-define_flag b f a h.named,
  k a,
  names-validate_names names f.name f.aliases a,
)

empty_right : (xs ys : List InitError) → xs ++ ys ≡ [] → ys ≡ []
empty_right [] ys h = h
empty_right (x ∷ xs) ys h = absurd (ground arith)

rest_without_errors :
    (names : NameSet) (i : ℕ) (f : Flag) (fs : List Flag)
    → f.name ≢ []
    → (validate_flags names i (f ∷ fs)).0 ≡ []
    → (validate_flags (validate_names names f.name f.aliases).1 (i + 1) fs).0 ≡ []
unfolding validate_flags
rest_without_errors names i f fs n e = elim (Bool-cases (text_eq f.name [])) [
  | inl q ↦ absurd (n (text_eq_sound f.name [] q))
  | inr q ↦ empty_right _ _ (rw q at e)
]

-- What the flags of a list come to in the binding that they are defined in.
record Defined (names : NameSet) (b c : BindingImpl) (fs : List Flag) : Type 0 where
  stays : (a : Text) → elem a names ≡ true → resolve_alias c a ≡ resolve_alias b a
  resolves : All (Resolves names c) fs

define_flags-Defined :
    (names : NameSet) (i : ℕ) (b : BindingImpl) (fs : List Flag)
    → Knows names b
    → (validate_flags names i fs).0 ≡ []
    → Defined names b (define_flags b fs) fs
unfolding define_flags validate_flags
define_flags-Defined names i b [] k e = record { stays = λ a h. refl; resolves = tt }
define_flags-Defined names i b (f ∷ fs) k e =
    let h = flag-Accepted names i f (ground (arith, e)) in
    let names' = (validate_names names f.name f.aliases).1 in
    let d =
      define_flags-Defined names' (i + 1) (define_flag b f) fs (Knows-define_flag names b f h k)
        (rest_without_errors names i f fs h.named e) in
    record {
      stays = λ a q.
          d.stays a (ground (arith, q, names-validate_names names f.name f.aliases a))
          ∙ resolve-stays names b f a h q;
      resolves = (
        λ a c. (
          d.stays a (ground (arith, c, names-validate_names names f.name f.aliases a))
              ∙ resolve-called names b f a k h c,
          Calls-new names f a h c,
        ),
        All-map _ _
            (λ g r a c.
              ((r a c).0, ground (arith, (r a c).1, names-validate_names names f.name f.aliases a)))
            fs d.resolves,
      );
    }

resolve-define_arg :
    (names : NameSet) (b : BindingImpl) (g : Arg) (a : Text)
    → elem g.name names ≡ true
    → elem a names ≡ false
    → resolve_alias (define_arg b g) a ≡ resolve_alias b a
unfolding resolve_alias define_arg resolve_in_tables
resolve-define_arg names b g a e h =
    ground (arith, e, h, text_eq_iff g.name a, lookup-insert g.name a (arg_option g) b.names)

resolve-define_args :
    (names : NameSet) (b : BindingImpl) (args : List Arg) (a : Text)
    → All (λ (g : Arg). elem g.name names ≡ true) args
    → elem a names ≡ false
    → resolve_alias (define_args b args) a ≡ resolve_alias b a
unfolding define_args
resolve-define_args names b [] a e h = refl
resolve-define_args names b (g ∷ args) a e h =
    resolve-define_args names (define_arg b g) args a e.1 h ∙ resolve-define_arg names b g a e.0 h

-- Where the loop over the flags finds no error, from names that hold those of the args, each name and
-- each alias of each flag resolves to that flag in the binding of the flags and args, and is not among
-- the names that the loop began with.
pub new_binding-Resolves :
    (names : NameSet) (flags : List Flag) (args : List Arg)
    → (validate_flags names 0 flags).0 ≡ []
    → All (λ (g : Arg). elem g.name names ≡ true) args
    → All (Resolves names (new_binding flags args [])) flags
unfolding new_binding define_persistent is_known lookup
new_binding-Resolves names flags args e h =
    let b = define_flags empty_binding flags in
    All-map _ _ (λ f r a c. (resolve-define_args names b args a h (r a c).1 ∙ (r a c).0, (r a c).1))
      flags
      (define_flags-Defined names 0 empty_binding flags (λ k p. absurd (ground (arith, p)))
        e).resolves
