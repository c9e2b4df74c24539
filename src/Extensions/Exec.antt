-- ===== src/Extensions/Exec.antt =====
-- extensions/exec/arglist.go: `ArgList`, the words of a program to execute up to their terminator.
pub mod Terminated
use joe_cli.Common.{Bool, List, Text, [], codes, if◌then◌else◌, text_eq, ◌++◌, ◌||◌, ◌∷◌}

-- `Set`
unfoldable pub set_item : List Text → Text → List Text
set_item l arg = l ++ arg ∷ []

abbrev pub is_delimiter : Text → Bool
is_delimiter c = text_eq c (codes ";") || text_eq c (codes "+")

-- `split`: the last item, where it is a delimiter, is taken off
unfoldable pub split : List Text → List Text × Text
split [] = ([], codes ";")
split (c ∷ []) = if is_delimiter c then ([], c) else (c ∷ [], codes ";")
split (c ∷ d ∷ l) = let (args, delimiter) = split (d ∷ l) in (c ∷ args, delimiter)

-- `Args`, `Command` and `UsePlaceholder`
unfoldable pub args_of : List Text → List Text
args_of l = (split l).0

abbrev pub command_from : List Text → Text × List Text
command_from [] = ([], [])
command_from (c ∷ args) = (c, args)

unfoldable pub command : List Text → Text × List Text
command l = command_from (args_of l)

unfoldable pub use_placeholder : List Text → Bool
use_placeholder l = text_eq (split l).1 (codes "+")
