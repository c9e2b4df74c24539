-- ===== src/Extensions/Expander/Format.antt =====
-- pattern.go: what a pattern expands to, the text of a pattern, and the names in it; expander.go: the
-- expanders that are made of others. The type `V` of values and how fmt and time write a value in a
-- format are parameters; a value that is nil is `none`.
use joe_cli.Common.{
  List, Map, Option, Text, [], codes, elem, if◌then◌else◌, lookup, maybe, none, not, some, text_eq,
  ℕ, ◌++◌, ◌==◌, ◌||◌, ◌∷◌,
}
use joe_cli.Extensions.Expander.{
  Expr, Pattern, cut_prefix, fallback_expr, format_expr, literal_expr, literal_value, nop_expr,
}

-- `fprintReprWS` with `nameOfWSToken`
unfoldable pub name_of_ws_token : ℕ → Text
name_of_ws_token c =
    if c == b' '
    then codes "space"
    else if c == 10
    then codes "newline"
    else if c == 9
    then codes "tab"
    else codes "empty"

unfoldable pub repr_ws : Text → Text → Text → Text
repr_ws start close [] = []
repr_ws start close (c ∷ ws) = start ++ (name_of_ws_token c ++ (close ++ repr_ws start close ws))

unfoldable pub name_and_format : Text → Text → Text
name_and_format name [] = name
name_and_format name (c ∷ format) = name ++ b':' ∷ c ∷ format

-- `fprintRepr`. It writes nothing for a literal that is a fallback, nor for a nopExpr.
unfoldable pub repr : Text → Text → Expr → Text
repr start close (fallback_expr name fallback ws) =
    start ++ (name ++ (b':' ∷ repr start close fallback ++ (close ++ repr_ws start close ws)))
repr start close (literal_expr text ws) = text ++ repr_ws start close ws
repr start close (format_expr name format ws) =
    start ++ (name_and_format name format ++ (close ++ repr_ws start close ws))
repr start close (nop_expr name) = []
repr start close (literal_value text) = []

unfoldable pub repr_all : Text → Text → List Expr → Text
repr_all start close [] = []
repr_all start close (e ∷ es) = repr start close e ++ repr_all start close es

-- `String`
unfoldable pub string_of : Pattern → Text
string_of p = repr_all p.start p.end_byte p.exprs

-- `appendSubexpNames`: `res` and `seen`
abbrev pub Names : Type 0
Names = List Text × List Text

unfoldable pub append_name : Text → Names → Names
append_name name (res, seen) =
    if elem name seen then (res, seen) else (res ++ name ∷ [], name ∷ seen)

unfoldable pub append_subexp_names : Names → Expr → Names
append_subexp_names names (format_expr name format ws) = append_name name names
append_subexp_names names (fallback_expr name fallback ws) =
    append_subexp_names (append_name name names) fallback
append_subexp_names names (nop_expr name) = names
append_subexp_names names (literal_expr text ws) = names
append_subexp_names names (literal_value text) = names

unfoldable pub append_exprs : Names → List Expr → Names
append_exprs names [] = names
append_exprs names (e ∷ es) = append_exprs (append_subexp_names names e) es

-- `SubexpNames`
unfoldable pub subexp_names : Pattern → List Text
subexp_names p = (append_exprs ([], []) p.exprs).0

module _ {V : Type 0} (render : Option V → Text → Text) where
  -- `formatStr`
  unfoldable pub with_trailing : Text → Text → Text
  with_trailing [] ws = []
  with_trailing (c ∷ res) ws = (c ∷ res) ++ ws

  unfoldable pub format_str : Option V → Text → Text → Text
  format_str value format ws = with_trailing (render value format) ws

  -- the format that a fallback stands for
  unfoldable pub fallback_format : Expr → Text
  fallback_format (literal_value text) = maybe (cut_prefix (codes "%") text) [] (λ f. f)
  fallback_format (literal_expr text ws) = []
  fallback_format (format_expr name format ws) = []
  fallback_format (fallback_expr name fallback ws) = []
  fallback_format (nop_expr name) = []

  -- `Format` of each kind of expression
  unfoldable pub format : (Text → Option V) → Expr → Text
  format expand (format_expr name f ws) = format_str (expand name) f ws
  format expand (fallback_expr name fallback ws) =
      maybe (expand name) (format expand fallback)
        λ v. with_trailing (format_str (some v) (fallback_format fallback) ws) ws
  format expand (literal_expr text ws) = text ++ ws
  format expand (literal_value text) = text
  format expand (nop_expr name) = []

  unfoldable pub expand_exprs : (Text → Option V) → List Expr → Text
  expand_exprs expand [] = []
  expand_exprs expand (e ∷ es) = format expand e ++ expand_exprs expand es

  -- `Expand`
  unfoldable pub expand_pattern : Pattern → (Text → Option V) → Text
  expand_pattern p expand = expand_exprs expand p.exprs

-- What `ExpandAny` gives.
pub data Expansion (V : Type 0) : Type 0 where
  interpolated : Text → Expansion V
  value_of : Option V → Expansion V

module _ {V : Type 0} (render : Option V → Text → Text) where
  unfoldable pub expand_found : (Text → Option V) → Expr → Text → V → Expansion V
  expand_found expand e [] v = value_of (some v)
  expand_found expand e (c ∷ ws) v = interpolated (format render expand e)

  -- `exprExpandAny`
  unfoldable pub expr_expand_any : (Text → Option V) → Expr → Expansion V
  expr_expand_any expand (format_expr name f ws) =
      if not (text_eq f []) || not (text_eq ws [])
      then interpolated (format render expand (format_expr name f ws))
      else value_of (expand name)
  expr_expand_any expand (fallback_expr name (literal_value text) ws) =
      interpolated (format render expand (fallback_expr name (literal_value text) ws))
  expr_expand_any expand (fallback_expr name fallback ws) =
      maybe (expand name) (expr_expand_any expand fallback)
        (expand_found expand (fallback_expr name fallback ws) ws)
  expr_expand_any expand (literal_expr text ws) = interpolated (text ++ ws)
  expr_expand_any expand (literal_value text) = interpolated text
  expr_expand_any expand (nop_expr name) = interpolated []

  unfoldable pub expand_only : (Text → Option V) → List Expr → Expansion V
  expand_only expand [] = interpolated []
  expand_only expand (e ∷ []) = expr_expand_any expand e
  expand_only expand (e ∷ f ∷ es) = interpolated (expand_exprs render expand (e ∷ f ∷ es))

  -- `ExpandAny`
  unfoldable pub expand_any : Pattern → (Text → Option V) → Expansion V
  expand_any p expand = expand_only expand p.exprs

module _ {V : Type 0} where
  -- `Prefix`, `Map` and `Compose`
  unfoldable pub prefix_expander : Text → (Text → Option V) → Text → Option V
  prefix_expander p e k = maybe (cut_prefix (p ++ b'.' ∷ []) k) none e

  unfoldable pub map_expander : Map (Option V) → Text → Option V
  map_expander m k = maybe (lookup k m) none (λ v. v)

  unfoldable pub compose : List (Text → Option V) → Text → Option V
  compose [] k = none
  compose (e ∷ es) k = maybe (e k) (compose es k) some
