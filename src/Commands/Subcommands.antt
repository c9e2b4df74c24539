-- ===== src/Commands/Subcommands.antt =====
-- command.go: `finalizeSubcommands`, and the search for a subcommand by its name.
pub mod Search
use joe_cli.Common.{
  Bool, List, Option, Text, [], elem, if◌then◌else◌, none, some, text_eq, ℕ, ◌++◌, ◌+◌, ◌||◌, ◌∷◌,
}
use joe_cli.Support.Names.{NameSet, promote_optional_aliases, validate_names}
use joe_cli.Commands.{InitError, flag_errors}

pub record Subcommand : Type 0 where
  pub name : Text
  pub aliases : List Text

-- `names[name] = true` of the path
unfoldable pub path_names : List Text → NameSet → NameSet
path_names [] names = names
path_names (p ∷ path) names = path_names path (p ∷ names)

-- the loop over the commands, which is that over the flags
unfoldable pub validate_commands : NameSet → ℕ → List Subcommand → List InitError × NameSet
validate_commands names i [] = ([], names)
validate_commands names i (c ∷ cs) =
    let (errs, names') = validate_names names c.name c.aliases in
    let (errs', names'') =
      validate_commands (if text_eq c.name [] then names else names') (i + 1) cs in
    (flag_errors i c.name errs ++ errs', names'')

-- the loop that promotes optional aliases
unfoldable pub promote_commands : List (Subcommand × List Text) → NameSet → List Subcommand
promote_commands [] names = []
promote_commands ((c, optional) ∷ cs) names =
    let (aliases, names') = promote_optional_aliases optional c.aliases names in
    record c { aliases = aliases } ∷ promote_commands cs names'

abbrev pub commands_of : List (Subcommand × List Text) → List Subcommand
commands_of [] = []
commands_of ((c, optional) ∷ cs) = c ∷ commands_of cs

-- `finalizeSubcommands`: its errors, and the commands behind it
unfoldable pub finalize_subcommands :
    List Text → List (Subcommand × List Text) → List InitError × List Subcommand
finalize_subcommands path cmds =
    let (errs, names) = validate_commands (path_names path []) 0 (commands_of cmds) in
    (errs, promote_commands cmds names)

-- `findCommandByName` of a string, from the index `i`
abbrev pub is_called : Subcommand → Text → Bool
is_called c name = text_eq c.name name || elem name c.aliases

unfoldable pub find_command_by_name : List Subcommand → ℕ → Text → Option (Subcommand × ℕ)
find_command_by_name [] i name = none
find_command_by_name (c ∷ cs) i name =
    let rest = find_command_by_name cs (i + 1) name in
    if is_called c name then some (c, i) else rest
