-- ===== src/Binding/Counted.antt =====
-- set.go: the counters of the options that `bindingImpl` holds.
use joe_cli.Common.{
  All, AllValues, AllValues-insert, AllValues-lookup, Bool-cases, List, Text, [], false, inl, inr,
  lookup, maybe_cases, refl, some, text_eq, ◌∷◌, ◌≡◌,
}
use joe_cli.Binding.{
  Arg, BindingImpl, Counter, Flag, Opt, actual_arg_counter, arg_arg_counter, arg_option, define_arg,
  define_args, define_flag, define_flags, define_persistent, empty_binding, flag_arg_counter,
  flag_option, lookup_panics, new_binding,
}
use joe_cli.Binding.Define.{names-define_aliases}

-- Each option of the binding has a counter.
abbrev pub HasCounter : Arg → Type 0
HasCounter a = (c : Counter) × (arg_arg_counter a ≡ some c)

abbrev pub Counted : Opt → Type 0
Counted o = (c : Counter) × (actual_arg_counter o ≡ some c)

unfoldable pub names-Counted : BindingImpl → Type 0
names-Counted b = AllValues Counted b.names

define_flag-Counted :
    (b : BindingImpl) (f : Flag) → names-Counted b → names-Counted (define_flag b f)
unfolding names-Counted define_flag actual_arg_counter
define_flag-Counted b f h = elim (Bool-cases (text_eq f.name [])) [
  | inl e ↦ rw e h
  | inr e ↦
      rw (e, names-define_aliases f.name f.aliases b)
        (AllValues-insert Counted f.name (flag_option f) b.names (flag_arg_counter f, refl) h)
]

define_flags-Counted :
    (flags : List Flag) (b : BindingImpl) → names-Counted b → names-Counted (define_flags b flags)
unfolding define_flags
define_flags-Counted [] b h = h
define_flags-Counted (f ∷ flags) b h = define_flags-Counted flags _ (define_flag-Counted b f h)

define_persistent-Counted :
    (flags : List Flag) (b : BindingImpl)
    → names-Counted b
    → names-Counted (define_persistent b flags)
unfolding define_persistent
define_persistent-Counted [] b h = h
define_persistent-Counted (f ∷ flags) b h = elim (Bool-cases f.non_persistent) [
  | inl e ↦ rw e (define_persistent-Counted flags b h)
  | inr e ↦ rw e (define_persistent-Counted flags _ (define_flag-Counted b _ h))
]

define_args-Counted :
    (args : List Arg) (b : BindingImpl)
    → All HasCounter args
    → names-Counted b
    → names-Counted (define_args b args)
unfolding define_args define_arg names-Counted actual_arg_counter
define_args-Counted [] b c h = h
define_args-Counted (a ∷ args) b c h =
    define_args-Counted args (define_arg b a) c.1
      (AllValues-insert Counted a.name (arg_option a) b.names c.0 h)

pub new_binding-Counted :
    (flags : List Flag) (args : List Arg) (parent : List Flag)
    → All HasCounter args
    → names-Counted (new_binding flags args parent)
unfolding new_binding names-Counted
new_binding-Counted flags args parent c =
    define_args-Counted args _ c
      (define_persistent-Counted parent _ (define_flags-Counted flags empty_binding tt))

-- No lookup in the binding panics.
pub lookup_panics-new_binding :
    (flags : List Flag) (args : List Arg) (parent : List Flag) (name : Text)
    → All HasCounter args
    → lookup_panics (new_binding flags args parent) name ≡ false
unfolding lookup_panics names-Counted
lookup_panics-new_binding flags args parent name c =
    let b = new_binding flags args parent in
    maybe_cases (λ r. r ≡ false) (lookup name b.names) _ _ (λ _. refl)
      (λ o e.
        let (t, k) =
          AllValues-lookup Counted name b.names o (new_binding-Counted flags args parent c) e in
        rw k refl)
