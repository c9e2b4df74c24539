-- ===== src/Extensions/Expander.antt =====
-- extensions/expr/expander/pattern.go: the expressions of a pattern.
pub mod Scan
pub mod Compile
pub mod Format
pub mod Regions
pub mod Joined
pub mod Room
use joe_cli.Common.{List, Option, Text, [], if◌then◌else◌, none, some, ◌==◌, ◌∷◌}

-- A literal of a pattern is behind a pointer, and one that is a fallback is not: the type switches
-- of the source tell them apart.
pub data Expr : Type 0 where
  format_expr : (name format trailing_opt : Text) → Expr
  nop_expr : (name : Text) → Expr
  fallback_expr : (name : Text) (fallback : Expr) (trailing_opt : Text) → Expr
  literal_expr : (text trailing : Text) → Expr
  literal_value : (text : Text) → Expr

pub record Pattern : Type 0 where
  pub exprs : List Expr
  pub start : Text
  pub end_byte : Text

-- `strings.CutPrefix(s, prefix)`
unfoldable pub cut_prefix : Text → Text → Option Text
cut_prefix [] s = some s
cut_prefix (p ∷ ps) [] = none
cut_prefix (p ∷ ps) (c ∷ s) = if p == c then cut_prefix ps s else none
