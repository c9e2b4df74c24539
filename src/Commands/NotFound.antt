-- ===== src/Commands/NotFound.antt =====
-- command.go: the routing to a subcommand, and the handlers that are asked when none has the name.
pub mod Registered
pub mod Implicit
use joe_cli.Common.{
  Bool, List, Option, Text, [], false, if◌then◌else◌, maybe, none, not, some, true, ℕ, ◌&&◌, ◌||◌,
  ◌∷◌,
}
use joe_cli.Commands.Subcommands.{Subcommand, find_command_by_name}

-- The errors that the routing tells apart: ErrSkipCommand, that of `commandMissing`, and any other.
pub data RouteError : Type 0 where
  skip_command : RouteError
  command_missing : Text → RouteError
  other : ℕ → RouteError

-- What the routing uses of the context of the arg: the subcommands of the command, whether the flag
-- searchingAlternateCommand is set on the arg and on one of its ancestors, whether
-- didSubcommandExecute is set on the parent, the words of `Args`, and whatever else there is.
pub record Route (W : Type 0) : Type 0 where
  pub commands : List Subcommand
  pub searching : Bool
  pub ancestor_searching : Bool
  pub did_subcommand : Bool
  pub args : List Text
  pub world : W

pub record FoundCommand (W : Type 0) : Type 0 where
  pub command : Option Subcommand
  pub err : Option RouteError
  pub route : Route W

abbrev pub Handler : Type 0 → Type 0
Handler W = Option RouteError → Route W → FoundCommand W

-- What `privatekey.CommandNotFound` has as its value: a handler or the sentinel.
pub data Stored (W : Type 0) : Type 0 where
  sentinel : Stored W
  stored : Handler W → Stored W

abbrev pub is_some : {A : Type 0} → Option A → Bool
is_some none = false
is_some (some x) = true

abbrev pub is_empty_list : {A : Type 0} → List A → Bool
is_empty_list [] = true
is_empty_list (x ∷ xs) = false

module _ {W : Type 0} where
  -- `ComposeCommandNotFoundHandler`, where a handler can be nil
  unfoldable pub compose_handlers : List (Option (Handler W)) → Handler W
  compose_handlers [] err c = record { command = none; err = err; route = c }
  compose_handlers (none ∷ hs) err c = compose_handlers hs err c
  compose_handlers (some h ∷ hs) err c =
      let res = h err c in
      let rest = compose_handlers hs res.err res.route in
      if (is_some res.command && not (is_some res.err)) || is_empty_list hs then res else rest

  -- `Execute` of a handler: what it stores over what the command has
  unfoldable pub register : Option (Handler W) → Option (Stored W) → Option (Stored W)
  register none data' = some sentinel
  register (some h) (some (stored existing)) =
      some (stored (compose_handlers (some h ∷ some existing ∷ [])))
  register (some h) _ = some (stored h)

  -- `LookupData` through the lineage, and the cast
  unfoldable pub lookup_handler : List (Option (Stored W)) → Option (Handler W)
  lookup_handler [] = none
  lookup_handler (none ∷ lineage) = lookup_handler lineage
  lookup_handler (some sentinel ∷ lineage) = none
  lookup_handler (some (stored h) ∷ lineage) = some h

  -- `tryFindCommandOrIntercept`, the part behind the flag: what the handler answers
  unfoldable pub or_missing : Text → FoundCommand W → FoundCommand W
  or_missing sub res =
      if is_some res.command || is_some res.err
      then res
      else record res { err = some (command_missing sub) }

  unfoldable pub intercept : Text → Option (Handler W) → Route W → FoundCommand W
  intercept sub none c = record { command = none; err = some (command_missing sub); route = c }
  intercept sub (some h) c = or_missing sub (h (some (command_missing sub)) c)

  -- the deferred reset of the flag
  unfoldable pub reset_searching : FoundCommand W → FoundCommand W
  reset_searching res = record res { route = record res.route { searching = false } }

  abbrev pub or_handler : Option (Handler W) → Option (Handler W) → Option (Handler W)
  or_handler none default_handler = default_handler
  or_handler (some h) default_handler = some h

  unfoldable pub look_elsewhere :
      List (Option (Stored W)) → Text → Option (Handler W) → Route W → FoundCommand W
  look_elsewhere lineage sub intercept_err c =
      let res =
        intercept sub (or_handler intercept_err (lookup_handler lineage))
          (record c { searching = true }) in
      if c.searching || c.ancestor_searching
      then record { command = none; err = some (command_missing sub); route = c }
      else reset_searching res

  unfoldable pub try_find_command_or_intercept :
      List (Option (Stored W)) → Text → Option (Handler W) → Route W → FoundCommand W
  try_find_command_or_intercept lineage sub intercept_err c =
      maybe (find_command_by_name c.commands 0 sub) (look_elsewhere lineage sub intercept_err c)
        (λ found. record { command = some found.0; err = none; route = c })

  -- `subcommandCore`; `execute` runs the child context of a command with its words
  unfoldable pub run_found :
      (Subcommand → List Text → Route W → Option RouteError × Route W)
      → List Text
      → Option Subcommand
      → Option RouteError
      → Route W
      → Option RouteError × Route W
  run_found execute invoke cmd (some skip_command) c = (none, c)
  run_found execute invoke cmd (some e) c = (some e, c)
  run_found execute invoke none none c = (none, c)
  run_found execute invoke (some cmd) none c =
      execute cmd invoke (record c { did_subcommand = true })

  unfoldable pub subcommand_core :
      List (Option (Stored W))
      → (Subcommand → List Text → Route W → Option RouteError × Route W)
      → List Text
      → Option (Handler W)
      → Route W
      → Option RouteError × Route W
  subcommand_core lineage execute [] intercept_err c = (none, c)
  subcommand_core lineage execute (sub ∷ invoke) intercept_err c =
      let found = try_find_command_or_intercept lineage sub intercept_err c in
      run_found execute (sub ∷ invoke) found.command found.err found.route

  -- `ImplicitCommand`, of the error that it was asked with
  unfoldable pub answer : Option RouteError → Option RouteError × Route W → FoundCommand W
  answer original_err (none, c) = record { command = none; err = some skip_command; route = c }
  answer original_err (some (command_missing sub), c) = record {
    command = none;
    err = original_err;
    route = c;
  }
  answer original_err (some e, c) = record { command = none; err = some e; route = c }

  unfoldable pub implicit_command :
      List (Option (Stored W))
      → (Subcommand → List Text → Route W → Option RouteError × Route W)
      → Text
      → Handler W
  implicit_command lineage execute name original_err c =
      answer original_err (subcommand_core lineage execute (name ∷ c.args) none c)
