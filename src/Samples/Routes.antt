-- ===== src/Samples/Routes.antt =====
-- Suggested commands and the routing with handlers, on concrete inputs.
use mathlib.Core.List.{reverse}
use joe_cli.Commands.Suggest.Ordered.{IsByDistance, suggest_command_names-IsByDistance}
use joe_cli.Common.{
  List, Option, Text, [], codes, elem, false, if◌then◌else◌, leb, length, maybe, none, refl, some,
  times, true, ℕ, ◌+◌, ◌∷◌, ◌≡◌,
}
use joe_cli.Commands.Suggest.{
  fill_rows, first_row, insert_scored, levenshtein, ltb_text, next_row, scored_within, sort_scored,
  suggest_command_names,
}
use joe_cli.Commands.Suggest.Distance.{distance, levenshtein-distance}
use joe_cli.Commands.Subcommands.{Subcommand, find_command_by_name}
use joe_cli.Commands.NotFound.{
  Handler, Route, RouteError, Stored, compose_handlers, implicit_command, lookup_handler, sentinel,
  skip_command, stored, subcommand_core,
}
use joe_cli.Commands.NotFound.Registered.{lookup_handler-register, register_all}
use joe_cli.Commands.NotFound.Implicit.{settled, subcommand_core-implicit_command}

kitten : levenshtein (codes "kitten") (codes "sitting") ≡ 3
unfolding levenshtein fill_rows next_row first_row
kitten = refl

levenshtein-distance_example :
    levenshtein (codes "abc") (codes "bc") ≡ distance (reverse (codes "abc")) (reverse (codes "bc"))
levenshtein-distance_example = levenshtein-distance (codes "abc") (codes "bc")

abbrev sample_names : List Text
sample_names = codes "status" ∷ codes "stash" ∷ codes "commit" ∷ []

-- by similarity, then by name
similar : suggest_command_names (codes "stab") sample_names ≡ codes "stash" ∷ codes "status" ∷ []
unfolding suggest_command_names scored_within sort_scored insert_scored ltb_text levenshtein
    fill_rows next_row first_row
similar = refl

suggest_command_names-IsByDistance_example :
    ((n : Text)
      → times n (suggest_command_names (codes "stab") sample_names)
        ≡ (if leb (levenshtein (codes "stab") n) 3 then times n sample_names else 0))
    × IsByDistance (codes "stab") (suggest_command_names (codes "stab") sample_names)
suggest_command_names-IsByDistance_example =
    suggest_command_names-IsByDistance b's' (codes "tab") sample_names

abbrev sample_commands : List Subcommand
sample_commands =
    record { name = codes "exec"; aliases = [] }
    ∷ record { name = codes "log"; aliases = codes "l" ∷ [] }
    ∷ []

abbrev sample_route : Route ℕ
sample_route = record {
  commands = sample_commands;
  searching = false;
  ancestor_searching = false;
  did_subcommand = false;
  args = codes "tail" ∷ codes "-f" ∷ [];
  world = 0;
}

-- A command counts the words that it is run with.
abbrev count_words : Subcommand → List Text → Route ℕ → Option RouteError × Route ℕ
count_words cmd invoke c = (none, record c { world = c.world + length invoke })

-- one handler finds nothing, another the first command
abbrev declines : Handler ℕ
declines err c = record { command = none; err = err; route = record c { world = c.world + 1 } }

abbrev finds : Handler ℕ
finds err c = record {
  command = some (record { name = codes "exec"; aliases = [] });
  err = none;
  route = c;
}

lookup_handler-register_example :
    maybe
      (lookup_handler (register_all (some sentinel) (declines ∷ finds ∷ []) ∷ []))
      none
      (λ f. some (f (some skip_command) sample_route))
    ≡ some (compose_handlers (some declines ∷ some finds ∷ []) (some skip_command) sample_route)
unfolding lookup_handler
lookup_handler-register_example =
    lookup_handler-register (some sentinel) declines (finds ∷ []) [] (some skip_command)
      sample_route refl

abbrev implicit_lineage : List (Option (Stored ℕ))
implicit_lineage = none ∷ some (stored (implicit_command [] count_words (codes "exec"))) ∷ []

-- `cloud tail -f` runs `cloud exec tail -f`
subcommand_core-implicit_command_example :
    subcommand_core implicit_lineage count_words (codes "tail" ∷ codes "-f" ∷ []) none sample_route
    ≡ (none, record sample_route { did_subcommand = true; world = 3 })
unfolding find_command_by_name lookup_handler settled elem
subcommand_core-implicit_command_example =
    subcommand_core-implicit_command count_words implicit_lineage [] (codes "exec") (codes "tail")
      sample_route (codes "-f" ∷ []) refl refl refl refl
