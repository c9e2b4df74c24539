-- ===== src/Commands/NotFound/Implicit.antt =====
-- command.go: the routing with an implicit command.
use joe_cli.Common.{List, Option, Text, false, maybe, none, refl, some, true, ℕ, ◌∷◌, ◌≡◌}
use joe_cli.Commands.NotFound.{
  FoundCommand, Route, RouteError, Stored, answer, command_missing, implicit_command, intercept,
  look_elsewhere, lookup_handler, or_missing, other, reset_searching, run_found, skip_command,
  subcommand_core, try_find_command_or_intercept,
}
use joe_cli.Commands.Subcommands.{Subcommand, find_command_by_name}

-- The error of the implicit command as the routing to `sub` reports it.
unfoldable pub settled : Text → Option RouteError → Option RouteError
settled sub none = none
settled sub (some skip_command) = none
settled sub (some (command_missing name)) = some (command_missing sub)
settled sub (some (other n)) = some (other n)

module _ {W : Type 0} (execute : Subcommand → List Text → Route W → Option RouteError × Route W)
    (lineage others : List (Option (Stored W))) (name sub : Text) where
  -- one that is found
  answered_with : Option RouteError × Route W → FoundCommand W
  answered_with ran = reset_searching (or_missing sub (answer (some (command_missing sub)) ran))

  run_answered :
      (invoke : List Text) (ran : Option RouteError × Route W)
      → run_found execute invoke
          (answered_with ran).command
          (answered_with ran).err
          (answered_with ran).route
        ≡ (settled sub ran.0, record ran.1 { searching = false })
  unfolding answered_with reset_searching or_missing answer run_found settled
  run_answered invoke (none, c) = refl
  run_answered invoke (some skip_command, c) = refl
  run_answered invoke (some (command_missing n), c) = refl
  run_answered invoke (some (other n), c) = refl

  -- what the search that the handler starts comes to
  sought : Option (Subcommand × ℕ) → Route W → FoundCommand W
  sought m c =
      maybe m (record { command = none; err = some (command_missing name); route = c })
        (λ found. record { command = some found.0; err = none; route = c })

  run_sought :
      (invoke : List Text) (m : Option (Subcommand × ℕ)) (c : Route W)
      → (let found = sought m c in
          let res =
            answered_with (run_found execute (name ∷ c.args) found.command found.err found.route) in
          run_found execute invoke res.command res.err res.route)
        ≡ maybe m
            (some (command_missing sub), record c { searching = false })
            (λ found.
              let ran = execute found.0 (name ∷ c.args) (record c { did_subcommand = true }) in
              (settled sub ran.0, record ran.1 { searching = false }))
  unfolding sought run_found settled
  run_sought invoke none c = run_answered invoke (some (command_missing name), c)
  run_sought invoke (some found) c =
      run_answered invoke (execute found.0 (name ∷ c.args) (record c { did_subcommand = true }))

  -- Where no command is named by the first word, no search is underway, and the handler that is
  -- found is that of an implicit command: if that has no command either, the error names the
  -- first word; else the command runs with its name and the words of Args, an error of it that a
  -- command is missing names the first word instead, ErrSkipCommand is no error, and the search
  -- is over behind it.
  pub subcommand_core-implicit_command :
      (c : Route W) (invoke : List Text)
      → c.searching ≡ false
      → c.ancestor_searching ≡ false
      → find_command_by_name c.commands 0 sub ≡ none
      → lookup_handler lineage ≡ some (implicit_command others execute name)
      → subcommand_core lineage execute (sub ∷ invoke) none c
        ≡ maybe
            (find_command_by_name c.commands 0 name)
            (some (command_missing sub), c)
            (λ found.
              let ran =
                execute found.0
                  (name ∷ c.args)
                  (record c { searching = true; did_subcommand = true }) in
              (settled sub ran.0, record ran.1 { searching = false }))
  unfolding sought answered_with subcommand_core try_find_command_or_intercept look_elsewhere
      intercept implicit_command
  subcommand_core-implicit_command c invoke idle idle' unknown looked =
      rw (unknown, looked, idle, idle')
        (run_sought (sub ∷ invoke) (find_command_by_name c.commands 0 name)
          (record c { searching = true; ancestor_searching = false }))
