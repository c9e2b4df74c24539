-- ===== src/Extensions/Expr/Bare.antt =====
-- extensions/expr/expr.go: lines of operators without args.
use joe_cli.Common.{
  Option, map, ap, sym, ◌∙◌, ◌++◌, ◌≤◌, zero, suc, length, ◌+◌, arith, List, Text, [], false,
  lookup, none, refl, some, ℕ, ◌==◌, ◌∷◌, ◌≡◌,
}
use joe_cli.Extensions.Expr.{
  unknown, BoundExpr, Parsed, parsed, rejected, unknown_expr_error, parse_rounds, read_operator,
  find_expr, or_numeric, operator, after_operator, after_error, bind, bytes, parse_expressions,
  Expr, Expression,
}
use joe_cli.Results.{BindingResult, new_binding_result}
use joe_cli.Extensions.Expr.Empty.{raw_parse-end, raw_parse-flag}

-- A word that names an operator by a name that begins with no dash.
pub record Bare (e : Expression) (name : Text) (x : Expr) : Type 0 where
  pub first : ℕ
  pub behind : Text
  pub spelled : name ≡ first ∷ behind
  pub no_dash : (first == b'-') ≡ false
  pub found : lookup name e.names ≡ some x
  pub no_args : x.args ≡ []

read_operator-Bare :
    (e : Expression) (d : ℕ) (name : Text) (x : Expr) (args : List Text)
    → Bare e name x
    → read_operator e (d ∷ name) args ≡ operator x args
unfolding read_operator find_expr or_numeric
read_operator-Bare e d name x args bare = rw bare.found refl

-- what is left unread behind an operator without args
abbrev left_over : List Text → BindingResult
left_over args = new_binding_result (some args)

-- the operators of an expression that was parsed
abbrev pub exprs_of : Parsed → Option (List Expr)
exprs_of (parsed results bindings) = some (map (λ b. b.expr) results)
exprs_of _ = none

-- Words for operators without args, each with its operator.
abbrev pub AllBare : Expression → List (Text × Expr) → Type 0
AllBare e [] = Unit
AllBare e ((name, x) ∷ ops) = Bare e name x × AllBare e ops

abbrev pub dashed : List (Text × Expr) → List Text
dashed [] = []
dashed ((name, x) ∷ ops) = (b'-' ∷ name) ∷ dashed ops

abbrev pub operators : List (Text × Expr) → List Expr
operators [] = []
operators ((name, x) ∷ ops) = x ∷ operators ops

map-snoc :
    (bs : List BoundExpr) (x : Expr) (bin : BindingResult) (xs : List Expr)
    → map (λ b. b.expr) (bs ++ bind x bin ∷ []) ++ xs ≡ map (λ b. b.expr) bs ++ x ∷ xs
map-snoc [] x bin xs = refl
map-snoc (b ∷ bs) x bin xs = ap (λ r. b.expr ∷ r) (map-snoc bs x bin xs)

append-nil : (xs : List Expr) → xs ++ [] ≡ xs
append-nil [] = refl
append-nil (x ∷ xs) = ap (λ r. x ∷ r) (append-nil xs)

fuel_for : (ops : List (Text × Expr)) → length ops ≤ bytes (dashed ops)
fuel_for [] = omega arith
fuel_for ((name, x) ∷ ops) = omega (arith, fuel_for ops)

fuel_beyond :
    (ops : List (Text × Expr)) (arg : Text) (args : List Text)
    → length ops + 1 ≤ bytes (dashed ops ++ arg ∷ args)
fuel_beyond [] arg args = omega arith
fuel_beyond ((name, x) ∷ ops) arg args = omega (arith, fuel_beyond ops arg args)

module _ (e : Expression) where
  -- A round takes the word of an operator, and leaves the next.
  round_on :
      (fuel : ℕ) (name : Text) (x : Expr) (n : Text) {c : ℕ} {behind : Text} (args : List Text)
      (results : List BoundExpr) (all : List (Option BindingResult))
      → Bare e name x
      → n ≡ c ∷ behind
      → (c == b'-') ≡ false
      → (let left = (b'-' ∷ n) ∷ args in
          parse_rounds (suc fuel) e ((b'-' ∷ name) ∷ left) results all
          ≡ parse_rounds fuel e left
              (results ++ bind x (left_over left) ∷ [])
              (all ++ some (left_over left) ∷ []))
  unfolding parse_rounds after_operator after_error
  round_on fuel name x n args results all bare spelled no_dash =
      rw (read_operator-Bare e b'-' name x ((b'-' ∷ n) ∷ args) bare)
        (rw (raw_parse-flag x n args bare.no_args spelled no_dash) refl)

  last_round :
      (fuel : ℕ) (name : Text) (x : Expr) (results : List BoundExpr)
      (all : List (Option BindingResult))
      → Bare e name x
      → exprs_of (parse_rounds (suc fuel) e ((b'-' ∷ name) ∷ []) results all)
        ≡ some (map (λ b. b.expr) (results ++ bind x (left_over []) ∷ []))
  unfolding parse_rounds after_operator
  last_round fuel name x results all bare =
      rw (read_operator-Bare e b'-' name x [] bare) (rw (raw_parse-end x bare.no_args) refl)

  rounds-AllBare :
      (fuel : ℕ) (ops : List (Text × Expr)) (results : List BoundExpr)
      (all : List (Option BindingResult))
      → AllBare e ops
      → length ops ≤ fuel
      → exprs_of (parse_rounds fuel e (dashed ops) results all)
        ≡ some (map (λ b. b.expr) results ++ operators ops)
  unfolding parse_rounds
  rounds-AllBare zero [] results all known room = ap some (sym (append-nil _))
  rounds-AllBare (suc fuel) [] results all known room = ap some (sym (append-nil _))
  rounds-AllBare zero (op ∷ ops) results all known room = absurd (omega arith)
  rounds-AllBare (suc fuel) ((name, x) ∷ []) results all (bare, known) room =
      last_round fuel name x results all bare
      ∙ ap some (sym (append-nil _) ∙ map-snoc results x (left_over []) [])
  rounds-AllBare (suc fuel) ((name, x) ∷ (n, y) ∷ ops) results all (bare, known) room =
      let left = dashed ((n, y) ∷ ops) in
      ap exprs_of
        (round_on fuel name x n (dashed ops) results all bare known.0.spelled known.0.no_dash)
      ∙ rounds-AllBare fuel ((n, y) ∷ ops) (results ++ bind x (left_over left) ∷ [])
          (all ++ some (left_over left) ∷ []) known (omega arith)
      ∙ ap some (map-snoc results x (left_over left) (operators ((n, y) ∷ ops)))

  -- a word that names nothing
  pub record Unknown (n : Text) : Type 0 where
    pub first : ℕ
    pub behind : Text
    pub spelled : n ≡ first ∷ behind
    pub no_dash : (first == b'-') ≡ false
    pub not_found : lookup n e.names ≡ none
    pub no_inline : e.parse_inline_values ≡ false
    pub no_numeric : e.numeric ≡ []

  read_operator-Unknown :
      (n : Text) (args : List Text) → Unknown n → read_operator e (b'-' ∷ n) args ≡ unknown
  unfolding read_operator find_expr or_numeric
  read_operator-Unknown n args u = rw (u.not_found, u.no_inline, u.no_numeric) refl

  rounds-Unknown :
      (fuel : ℕ) (ops : List (Text × Expr)) (n : Text) (args : List Text) (results : List BoundExpr)
      (all : List (Option BindingResult))
      → AllBare e ops
      → Unknown n
      → length ops + 1 ≤ fuel
      → parse_rounds fuel e (dashed ops ++ (b'-' ∷ n) ∷ args) results all
        ≡ rejected (unknown_expr_error (b'-' ∷ n))
  unfolding parse_rounds
  rounds-Unknown zero ops n args results all known u room = absurd (omega arith)
  rounds-Unknown (suc fuel) [] n args results all known u room =
      rw (read_operator-Unknown n args u) refl
  rounds-Unknown (suc fuel) ((name, x) ∷ []) n args results all (bare, known) u room =
      let left = (b'-' ∷ n) ∷ args in
      round_on fuel name x n args results all bare u.spelled u.no_dash
      ∙ rounds-Unknown fuel [] n args (results ++ bind x (left_over left) ∷ [])
          (all ++ some (left_over left) ∷ []) known u (omega arith)
  rounds-Unknown (suc fuel) ((name, x) ∷ (m, y) ∷ ops) n args results all (bare, known) u room =
      let left = dashed ((m, y) ∷ ops) ++ (b'-' ∷ n) ∷ args in
      round_on fuel name x m (dashed ops ++ (b'-' ∷ n) ∷ args) results all bare known.0.spelled
        known.0.no_dash
      ∙ rounds-Unknown fuel ((m, y) ∷ ops) n args (results ++ bind x (left_over left) ∷ [])
          (all ++ some (left_over left) ∷ []) known u (omega arith)

  -- A line of words that name operators without args, each by a name that begins with no dash,
  -- parses to those operators in their order, however often each stands there: what RawParse
  -- leaves as an unknown option is the next operator.
  pub parse_expressions-AllBare :
      (ops : List (Text × Expr))
      → AllBare e ops
      → exprs_of (parse_expressions e (dashed ops)) ≡ some (operators ops)
  unfolding parse_expressions
  parse_expressions-AllBare ops known =
      rounds-AllBare (bytes (dashed ops)) ops [] [] known (fuel_for ops)

  -- Behind such words, a word whose name begins with no dash and is that of no operator is
  -- reported as an unknown one, whatever follows it, where no operator is numeric and inline
  -- values are not parsed.
  pub parse_expressions-Unknown :
      (ops : List (Text × Expr)) (n : Text) (args : List Text)
      → AllBare e ops
      → Unknown n
      → parse_expressions e (dashed ops ++ (b'-' ∷ n) ∷ args)
        ≡ rejected (unknown_expr_error (b'-' ∷ n))
  unfolding parse_expressions
  parse_expressions-Unknown ops n args known u =
      rounds-Unknown (bytes (dashed ops ++ (b'-' ∷ n) ∷ args)) ops n args [] [] known u
        (fuel_beyond ops _ args)
