-- ===== src/Binding.antt =====
-- set.go: the interface `Binding` as the parser uses it, and its implementation `bindingImpl` over
-- flags (flag.go) and args (arg.go).
pub mod Define
pub mod Counted
pub mod Consistent
use joe_cli.Common.{
  Bool, List, Map, Option, Text, [], false, if◌then◌else◌, insert, lookup, maybe, none, not, pos,
  some, text_eq, true, ℤ, ◌++◌, ◌∷◌, ◌≡◌, ◌≢◌,
}
use joe_cli.Counters.{Counter, arg_count, default_counter, no_args, take_until_next_flag}

-- The part of the interface `Binding` that `RawParse` calls. `lookup_option` gives the counter that
-- a lookup makes: each lookup has a fresh one.
pub record Binding : Type 0 where
  pub lookup_option : Text → Option Counter
  pub resolve_alias : Text → Option Text
  pub positional_arg_names : List Text
  pub behavior_flags : Text → Bool
  pub numeric : Text

-- Each name that an alias resolves to, and that of the numeric option, has an option.
pub record IsLawful (b : Binding) : Type 0 where
  pub resolves :
      (alias name : Text)
      → b.resolve_alias alias ≡ some name
      → (c : Counter) × (b.lookup_option name ≡ some c)
  pub counts : b.numeric ≢ [] → (c : Counter) × (b.lookup_option b.numeric ≡ some c)

-- The dynamic type of a `Value`, as far as the choice of a counter reads it.
pub data ValueKind : Type 0 where
  string_list other_value : ValueKind
  provides_counter : Counter → ValueKind

-- `Arg.NArg`, by the cases of `ArgCount`: nil, an int, a counter, or an *Arg or *Flag, with the counter
-- that it has once it is initialized. A value of another type, and an option that is not initialized or
-- whose own counter panics, is a panic.
pub data NArg : Type 0 where
  no_narg : NArg
  narg_int : ℤ → NArg
  narg_counter : Counter → NArg
  narg_option : Option Counter → NArg
  narg_other : NArg

-- The fields of `Flag` and `Arg`, and the internal flags, that the binding reads.
pub record Flag : Type 0 where
  pub name : Text
  pub aliases : List Text
  pub value : ValueKind
  pub flag_only : Bool
  pub optional : Bool
  pub is_numeric : Bool
  pub non_persistent : Bool
  pub persistent : Bool

pub record Arg : Type 0 where
  pub name : Text
  pub narg : NArg
  pub value : ValueKind
  pub optional : Bool

pub data Opt : Type 0 where
  flag_option : Flag → Opt
  arg_option : Arg → Opt

unfoldable pub flag_arg_counter : Flag → Counter
unfolding arg_count no_args
flag_arg_counter f =
    let default = default_counter false (not f.optional) in
    if f.flag_only then no_args else elim f.value [
      | string_list ↦ if f.optional then default else arg_count (pos 1)
      | provides_counter c ↦ c
      | other_value ↦ default
    ]

-- `none` is a panic of `ArgCount`
unfoldable pub arg_arg_counter : Arg → Option Counter
unfolding arg_count
arg_arg_counter a = elim a.narg [
  | narg_int n ↦ some (arg_count n)
  | narg_counter c ↦ some c
  | narg_option counter ↦ counter
  | narg_other ↦ none
  | no_narg ↦ elim a.value [
    | string_list ↦ some (arg_count take_until_next_flag)
    | provides_counter c ↦ some c
    | other_value ↦ some (default_counter false false)
  ]
]

-- `actualArgCounter`, where it does not panic, and the internal flag `optional` of an option
unfoldable pub actual_arg_counter : Opt → Option Counter
unfolding flag_arg_counter arg_arg_counter
actual_arg_counter (flag_option f) = some (flag_arg_counter f)
actual_arg_counter (arg_option a) = arg_arg_counter a

unfoldable pub is_optional : Opt → Bool
is_optional (flag_option f) = f.optional
is_optional (arg_option a) = a.optional

pub record BindingImpl : Type 0 where
  pub short_options : Map Text
  pub long_options : Map Text
  pub positional_options : List Text
  pub names : Map Opt
  pub numeric : Text

abbrev pub empty_binding : BindingImpl
empty_binding = record {
  short_options = [];
  long_options = [];
  positional_options = [];
  names = [];
  numeric = [];
}

-- `len(s) == 1`
unfoldable pub is_short : Text → Bool
is_short (c ∷ []) = true
is_short _ = false

-- a round of the loop of `defineFlag` over the aliases, and the loop
unfoldable pub define_alias : Text → Text → BindingImpl → BindingImpl
define_alias name alias b =
    if is_short alias
    then record b { short_options = insert alias name b.short_options }
    else record b { long_options = insert alias name b.long_options }

unfoldable pub define_aliases : Text → List Text → BindingImpl → BindingImpl
define_aliases name [] b = b
define_aliases name (alias ∷ aliases) b = define_aliases name aliases (define_alias name alias b)

unfoldable pub define_flag : BindingImpl → Flag → BindingImpl
define_flag b f =
    if text_eq f.name []
    then b
    else let b' = define_aliases f.name f.aliases b in
      record b' {
        numeric = if f.is_numeric then f.name else b'.numeric;
        names = insert f.name (flag_option f) b'.names;
      }

unfoldable pub define_arg : BindingImpl → Arg → BindingImpl
define_arg b a = record b {
  names = insert a.name (arg_option a) b.names;
  positional_options = b.positional_options ++ a.name ∷ [];
}

unfoldable pub define_flags : BindingImpl → List Flag → BindingImpl
define_flags b [] = b
define_flags b (f ∷ fs) = define_flags (define_flag b f) fs

-- The flags of the parent, save those that do not persist. The source marks the flag persistent
-- after it has stored the pointer to it.
unfoldable pub define_persistent : BindingImpl → List Flag → BindingImpl
define_persistent b [] = b
define_persistent b (f ∷ fs) =
    define_persistent
      (if f.non_persistent then b else define_flag b (record f { persistent = true })) fs

unfoldable pub define_args : BindingImpl → List Arg → BindingImpl
define_args b [] = b
define_args b (a ∷ as') = define_args (define_arg b a) as'

-- `NewBinding`; a nil parent has no flags
unfoldable pub new_binding : List Flag → List Arg → List Flag → BindingImpl
new_binding flags args parent =
    define_args (define_persistent (define_flags empty_binding flags) parent) args

-- Whether `LookupOption` panics, for the counter of the option; and what it finds where it does not.
unfoldable pub lookup_panics : BindingImpl → Text → Bool
lookup_panics b name =
    maybe (lookup name b.names) false (λ o. maybe (actual_arg_counter o) true (λ c. false))

unfoldable pub lookup_option : BindingImpl → Text → Option Counter
lookup_option b name = maybe (lookup name b.names) none actual_arg_counter

-- the last two lines of `ResolveAlias`
unfoldable pub resolve_in_tables : BindingImpl → Text → Option Text
resolve_in_tables b name =
    if is_short name then lookup name b.short_options else lookup name b.long_options

unfoldable pub resolve_alias : BindingImpl → Text → Option Text
resolve_alias b name = maybe (lookup name b.names) (resolve_in_tables b name) (λ o. some name)

unfoldable pub behavior_flags : BindingImpl → Text → Bool
behavior_flags b name = maybe (lookup name b.names) false is_optional

-- `*bindingImpl` as a `Binding`, where no lookup panics
unfoldable pub to_binding : BindingImpl → Binding
to_binding b = record {
  lookup_option = lookup_option b;
  resolve_alias = resolve_alias b;
  positional_arg_names = b.positional_options;
  behavior_flags = behavior_flags b;
  numeric = b.numeric;
}
