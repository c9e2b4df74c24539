-- ===== src/Synopsis/Usage.antt =====
-- internal/synopsis/placeholder.go: `ParseUsage` and what is made of its parts.
pub mod Source
pub mod Placeholders
use joe_cli.Commands.Order.{ltb_ℤ}
use joe_cli.Common.{
  List, Option, Text, [], cut, elem, if◌then◌else◌, leb, leb_ℤ, length, map, maybe, negsuc, none,
  not, pos, some, suc, zero, ℕ, ℤ, ◌&&◌, ◌++◌, ◌-◌, ◌==◌, ◌^◌, ◌∷◌,
}
use joe_cli.Parse.Options.{number_value}

-- What `usagePattern` cuts a text into: a key between braces, or the text between two of them.
pub data Segment : Type 0 where
  key : Text → Segment
  plain_text : Text → Segment

-- The rest of a key, `.*?}`: up to the first closing brace, and on one line.
unfoldable pub until_close : Text → Option (Text × Text)
until_close [] = none
until_close (c ∷ s) =
    let rest = until_close s in
    if c == b'}'
    then some ([], s)
    else if c == 10
    then none
    else maybe rest none (λ (k, behind). some (c ∷ k, behind))

-- A match of `{(.+?)}` at the beginning: its key, which has one byte at least, and what follows it.
unfoldable pub match_key : Text → Option (Text × Text)
match_key (brace ∷ c ∷ s) =
    if brace == b'{' && not (c == 10)
    then maybe (until_close s) none (λ (k, behind). some (c ∷ k, behind))
    else none
match_key _ = none

abbrev pub plain_segment : Text → List Segment → List Segment
plain_segment [] segments = segments
plain_segment (c ∷ s) segments = plain_text (c ∷ s) ∷ segments

-- The matches of the whole text, with `before` the text since the last of them. A round takes a byte.
unfoldable pub segments : ℕ → Text → Text → List Segment
segments fuel before [] = plain_segment before []
segments zero before (c ∷ s) = plain_segment (before ++ c ∷ s) []
segments (suc fuel) before (c ∷ s) =
    maybe (match_key (c ∷ s)) (segments fuel (before ++ c ∷ []) s)
      (λ (k, behind). plain_segment before (key k ∷ segments fuel [] behind))

pub data UsageExpr : Type 0 where
  placeholder : Text → ℤ → UsageExpr
  literal : Text → UsageExpr

-- `strconv.Atoi` without its error: 0 where that is one of syntax, the nearest int where it is one of
-- range
abbrev pub nearest : ℕ → Option ℕ → ℕ
nearest limit none = 0
nearest limit (some v) = if leb v limit then v else limit

abbrev pub negated : ℕ → ℤ
negated zero = pos 0
negated (suc n) = negsuc n

unfoldable pub atoi : Text → ℤ
atoi [] = pos 0
atoi (c ∷ s) =
    if c == b'-'
    then negated (nearest (2 ^ 63) (number_value s))
    else if c == b'+'
    then pos (nearest (2 ^ 63 - 1) (number_value s))
    else pos (nearest (2 ^ 63 - 1) (number_value (c ∷ s)))

-- `newExpr` of a key
unfoldable pub new_expr : Text → UsageExpr
new_expr token =
    let (before, behind, has_position) = cut b':' token in
    if has_position then placeholder behind (atoi before) else placeholder before (negsuc 0)

abbrev pub usage_expr_of : Segment → UsageExpr
usage_expr_of (key k) = new_expr k
usage_expr_of (plain_text t) = literal t

unfoldable pub parse_usage : Text → List UsageExpr
parse_usage text = map usage_expr_of (segments (length text) [] text)

-- The loop of `placeholders`: each name where it stands first; `seen` are the names before.
unfoldable pub first_placeholders : List Text → List UsageExpr → List (Text × ℤ)
first_placeholders seen [] = []
first_placeholders seen (literal t ∷ exprs) = first_placeholders seen exprs
first_placeholders seen (placeholder name p ∷ exprs) =
    let rest = first_placeholders (name ∷ seen) exprs in
    if elem name seen then first_placeholders seen exprs else (name, p) ∷ rest

-- `sort.Sort` by position, as the insertion that it is for up to twelve
unfoldable pub insert_placeholder : Text × ℤ → List (Text × ℤ) → List (Text × ℤ)
insert_placeholder x [] = x ∷ []
insert_placeholder x (y ∷ ys) =
    let rest = insert_placeholder x ys in if ltb_ℤ y.1 x.1 then y ∷ rest else x ∷ y ∷ ys

unfoldable pub sort_placeholders : List (Text × ℤ) → List (Text × ℤ)
sort_placeholders [] = []
sort_placeholders (x ∷ xs) = insert_placeholder x (sort_placeholders xs)

abbrev pub names_of_placeholders : List (Text × ℤ) → List Text
names_of_placeholders [] = []
names_of_placeholders (x ∷ xs) = x.0 ∷ names_of_placeholders xs

-- `Placeholders`
unfoldable pub placeholder_names : List UsageExpr → List Text
placeholder_names exprs = names_of_placeholders (sort_placeholders (first_placeholders [] exprs))

-- `WithoutPlaceholders`
unfoldable pub without_placeholders : List UsageExpr → Text
without_placeholders [] = []
without_placeholders (placeholder name p ∷ exprs) = name ++ without_placeholders exprs
without_placeholders (literal t ∷ exprs) = t ++ without_placeholders exprs
