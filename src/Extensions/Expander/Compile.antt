-- ===== src/Extensions/Expander/Compile.antt =====
-- pattern.go: `Compile`, from the text of a pattern to its expressions.
use joe_cli.Common.{
  Bool, List, Option, Text, [], codes, cut, drop, false, if◌then◌else◌, length, ltb, map, maybe,
  none, some, take, text_eq, true, ℕ, ◌++◌, ◌-◌, ◌==◌, ◌||◌, ◌∷◌,
}
use joe_cli.Support.Unquote.{unquote}
use joe_cli.Extensions.Expander.{
  Expr, Pattern, cut_prefix, fallback_expr, format_expr, literal_expr, literal_value, nop_expr,
}
use joe_cli.Extensions.Expander.Scan.{Loc, find_all_submatch_index}

-- `s[a:b]`
abbrev pub slice : ℕ → ℕ → Text → Text
slice a b s = take (b - a) (drop a s)

-- what the loop of `compilePatternCore` cuts the content into
pub data Part : Type 0 where
  plain : Text → Part
  key : Text → Part

unfoldable pub plain_between : ℕ → ℕ → Text → List Part
plain_between a b content = if ltb a b then plain (slice a b content) ∷ [] else []

unfoldable pub parts_from : Text → ℕ → List Loc → List Part
parts_from content index [] = plain_between index (length content) content
parts_from content index (l ∷ ls) =
    plain_between index l.from content
    ++ key (slice l.key_from l.key_to content) ∷ parts_from content l.to ls

-- `newLiteral`
unfoldable pub new_literal : Text → Expr
new_literal t = literal_expr (maybe (unquote (34 ∷ t ++ 34 ∷ [])) t (λ s. s)) []

unfoldable pub is_nop_name : Text → Bool
is_nop_name name =
    text_eq name (codes "space")
    || (text_eq name (codes "newline")
        || (text_eq name (codes "tab") || text_eq name (codes "empty")))

-- `defaultNewExpr`
unfoldable pub default_new_expr : Text → Expr
default_new_expr token =
    let (name, format, found) = cut b':' token in
    if is_nop_name name then nop_expr name else format_expr name format []

-- `strings.Split(token, ":")`
unfoldable pub split_at : Bool → ℕ → List Text → List Text
split_at true c fields = [] ∷ fields
split_at false c [] = (c ∷ []) ∷ []
split_at false c (f ∷ fields) = (c ∷ f) ∷ fields

unfoldable pub split_on : ℕ → Text → List Text
split_on sep [] = [] ∷ []
split_on sep (c ∷ s) = split_at (c == sep) c (split_on sep s)

-- `strings.TrimRight(name, end)` with an end of one byte
unfoldable pub trim_at : Text → ℕ → Text → Text
trim_at close c [] = if text_eq (c ∷ []) close then [] else c ∷ []
trim_at close c (d ∷ s) = c ∷ d ∷ s

unfoldable pub trim_end : Text → Text → Text
trim_end close [] = []
trim_end close (c ∷ s) = trim_at close c (trim_end close s)

-- The loop of `recursiveNewExpr` behind the first token.
unfoldable pub fallback_of : Text → Text → List Text → Expr
fallback_of start close [] = nop_expr (codes "empty")
fallback_of start close (t ∷ ts) =
    maybe (cut_prefix start t) (literal_value (trim_end close t))
      λ name. fallback_expr (trim_end close name) (fallback_of start close ts) []

unfoldable pub recursive_from : Text → Text → List Text → Expr
recursive_from start close [] = nop_expr (codes "empty")
recursive_from start close (t ∷ ts) =
    fallback_expr (trim_end close (maybe (cut_prefix start t) t (λ name. name)))
      (fallback_of start close ts) []

unfoldable pub recursive_new_expr : Text → Text → Text → Expr
recursive_new_expr start close token = recursive_from start close (split_on b':' token)

unfoldable pub expr_of : (Text → Expr) → Part → Expr
expr_of new_expr (plain t) = new_literal t
expr_of new_expr (key t) = new_expr t

-- `Space` of a nopExpr
unfoldable pub space_of : Text → Text
space_of name =
    if text_eq name (codes "space")
    then b' ' ∷ []
    else if text_eq name (codes "newline")
    then 10 ∷ []
    else if text_eq name (codes "tab")
    then 9 ∷ []
    else []

-- `convertWSExprs`: white space goes to the last expression of `res`.
unfoldable pub trail : Text → Expr → Expr
trail ws (format_expr name format t) = format_expr name format (t ++ ws)
trail ws (fallback_expr name fallback t) = fallback_expr name fallback (t ++ ws)
trail ws (literal_expr text t) = literal_expr text (t ++ ws)
trail ws (nop_expr name) = nop_expr name
trail ws (literal_value text) = literal_value text

unfoldable pub trail_last : Text → List Expr → List Expr
trail_last ws [] = literal_expr [] ws ∷ []
trail_last ws (e ∷ []) = trail ws e ∷ []
trail_last ws (e ∷ f ∷ es) = e ∷ trail_last ws (f ∷ es)

unfoldable pub add_expr : List Expr → Expr → List Expr
add_expr res (nop_expr name) = trail_last (space_of name) res
add_expr res e = res ++ e ∷ []

unfoldable pub convert_ws_exprs : List Expr → List Expr → List Expr
convert_ws_exprs res [] = res
convert_ws_exprs res (e ∷ es) = convert_ws_exprs (add_expr res e) es

-- `compilePatternCore`, with the spare bytes of the array; `none` is a panic
unfoldable pub compile_pattern_core : ℕ → Text → Text → Text → (Text → Expr) → Option Pattern
compile_pattern_core spare content start [] new_expr = none
compile_pattern_core spare content start (close ∷ more) new_expr =
    maybe (find_all_submatch_index spare content start close) none λ locs. some (record {
      exprs = convert_ws_exprs [] (map (expr_of new_expr) (parts_from content 0 locs));
      start = start;
      end_byte = close ∷ more;
    })

-- `withMeta`
unfoldable pub substitute : Text → List Expr → Expr → List Expr
substitute name exprs (format_expr n f t) = if text_eq n name then exprs else format_expr n f t ∷ []
substitute name exprs e = e ∷ []

unfoldable pub substitute_all : Text → List Expr → List Expr → List Expr
substitute_all name exprs [] = []
substitute_all name exprs (e ∷ es) = substitute name exprs e ++ substitute_all name exprs es

unfoldable pub with_meta : Pattern → Text → Pattern → Pattern
with_meta p name pattern' = record p { exprs = substitute_all name pattern'.exprs p.exprs }

unfoldable pub with_metas : Pattern → List (Text × Pattern) → Pattern
with_metas p [] = p
with_metas p ((name, m) ∷ metas) = with_metas (with_meta p name m) metas

-- The options behind all of `opts`.
pub record Options : Type 0 where
  pub recursive : Bool
  pub start : Text
  pub end_byte : Text
  pub metas : List (Text × Pattern)

abbrev pub default_options : Options
default_options = record { recursive = false; start = codes "%("; end_byte = codes ")"; metas = [] }

-- `Compile`
unfoldable pub compile : ℕ → Options → Text → Option Pattern
compile spare o pattern' =
    if ltb 1 (length o.end_byte)
    then none
    else maybe
        (compile_pattern_core spare pattern' o.start o.end_byte
          (if o.recursive then recursive_new_expr o.start o.end_byte else default_new_expr))
        none (λ p. some (with_metas p o.metas))
