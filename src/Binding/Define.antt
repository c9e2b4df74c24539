-- ===== src/Binding/Define.antt =====
-- set.go: `defineFlag` and `ResolveAlias`, the two tables of aliases read as one.
use joe_cli.Common.{
  Bool, List, Option, Text, [], arith, elem, false, if◌then◌else◌, lookup, lookup-insert, maybe,
  not, refl, some, text_eq, text_eq_iff, true, ◌&&◌, ◌||◌, ◌∙◌, ◌∷◌, ◌≡◌, ◌≢◌,
}
use joe_cli.Binding.{
  BindingImpl, Flag, define_alias, define_aliases, define_flag, flag_option, is_short,
  resolve_alias, resolve_in_tables,
}

names-define_alias :
    (name alias : Text) (b : BindingImpl) → (define_alias name alias b).names ≡ b.names
unfolding define_alias
names-define_alias name alias b = ground arith

pub names-define_aliases :
    (name : Text) (aliases : List Text) (b : BindingImpl)
    → (define_aliases name aliases b).names ≡ b.names
unfolding define_aliases
names-define_aliases name [] b = refl
names-define_aliases name (a ∷ aliases) b =
    names-define_aliases name aliases (define_alias name a b) ∙ names-define_alias name a b

-- the two tables of aliases read as one
table : Text → BindingImpl → Option Text
table k b = if is_short k then lookup k b.short_options else lookup k b.long_options

table-define_alias :
    (name alias k : Text) (b : BindingImpl)
    → table k (define_alias name alias b) ≡ (if text_eq alias k then some name else table k b)
unfolding table define_alias
table-define_alias name alias k b = ground (
  arith,
  lookup-insert alias k name b.short_options,
  lookup-insert alias k name b.long_options,
  text_eq_iff alias k,
)

table-define_aliases :
    (name : Text) (aliases : List Text) (k : Text) (b : BindingImpl)
    → table k (define_aliases name aliases b) ≡ (if elem k aliases then some name else table k b)
unfolding define_aliases elem
table-define_aliases name [] k b = refl
table-define_aliases name (a ∷ aliases) k b = ground (
  arith,
  table-define_aliases name aliases k (define_alias name a b),
  table-define_alias name a k b,
)

unfoldable pub is_known : Text → BindingImpl → Bool
is_known k b = maybe (lookup k b.names) false (λ _. true)

resolve_alias_lem :
    (b : BindingImpl) (k : Text) → resolve_alias b k ≡ (if is_known k b then some k else table k b)
unfolding resolve_alias resolve_in_tables is_known table
resolve_alias_lem b k = ground arith

pub is_known-define_flag :
    (b : BindingImpl) (f : Flag) (k : Text)
    → f.name ≢ []
    → is_known k (define_flag b f) ≡ (text_eq f.name k || is_known k b)
unfolding is_known define_flag
is_known-define_flag b f k h = ground (
  arith,
  text_eq_iff f.name [],
  names-define_aliases f.name f.aliases b,
  lookup-insert f.name k (flag_option f) (define_aliases f.name f.aliases b).names,
)

table-define_flag :
    (b : BindingImpl) (f : Flag) (k : Text)
    → f.name ≢ []
    → table k (define_flag b f) ≡ (if elem k f.aliases then some f.name else table k b)
unfolding define_flag table
table-define_flag b f k h =
    ground (arith, text_eq_iff f.name [], table-define_aliases f.name f.aliases k b)

-- After a flag with a name is defined, a name resolves to itself if it is that of the flag or was
-- that of an option before; else, if it is an alias of the flag, to the flag's name, whatever it
-- resolved to before; and else to what it resolved to before.
pub resolve_alias-define_flag :
    (b : BindingImpl) (f : Flag) (k : Text)
    → f.name ≢ []
    → resolve_alias (define_flag b f) k ≡ (
        if text_eq f.name k
        then some k
        else if elem k f.aliases && not (is_known k b)
        then some f.name
        else resolve_alias b k)
unfolding is_known
resolve_alias-define_flag b f k h = ground (
  arith,
  resolve_alias_lem (define_flag b f) k,
  resolve_alias_lem b k,
  is_known-define_flag b f k h,
  table-define_flag b f k h,
)
