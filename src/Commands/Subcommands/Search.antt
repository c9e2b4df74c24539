-- ===== src/Commands/Subcommands/Search.antt =====
-- command.go: `findCommandByName` over commands that `finalizeSubcommands` has read.
use mathlib.Core.Path.{subst}
use joe_cli.Common.{
  All, Bool-cases, List, Text, [], ap, arith, elem, false, get_elem?, inl, inr, refl, some,
  some_cancel, suc, sym, text_eq, text_eq_iff, true, zero, ℕ, ◌++◌, ◌+◌, ◌∙◌, ◌∷◌, ◌≡◌,
}
use joe_cli.Support.Names.{NameSet, validate_names}
use joe_cli.Support.Names.Unique.{NewTo, names-validate_names, validate_names_iff}
use joe_cli.Commands.{InitError, flag_errors}
use joe_cli.Commands.Resolution.{NewTo-elem, none_of}
use joe_cli.Commands.Subcommands.{Subcommand, find_command_by_name, is_called, validate_commands}

-- what the errors of a command say about it
record Accepted (names : NameSet) (c : Subcommand) : Type 0 where
  new_name : elem c.name names ≡ false
  new_aliases : All (NewTo names) c.aliases

empty_parts : (xs ys : List InitError) → xs ++ ys ≡ [] → (xs ≡ []) × (ys ≡ [])
empty_parts [] ys h = (refl, h)
empty_parts (x ∷ xs) ys h = absurd (ground arith)

command-Accepted :
    (names : NameSet) (i : ℕ) (c : Subcommand) (cs : List Subcommand)
    → (validate_commands names i (c ∷ cs)).0 ≡ []
    → Accepted names c
      × ((validate_commands (validate_names names c.name c.aliases).1 (i + 1) cs).0 ≡ [])
unfolding validate_commands flag_errors
command-Accepted names i c cs e = elim (Bool-cases (text_eq c.name [])) [
  | inl q ↦ absurd (ground (arith, e, q))
  | inr q ↦
      let (here, later) = empty_parts _ _ (rw q at e) in
      let v = (validate_names_iff names c.name c.aliases).0 (none_of _ here) in
      (record { new_name = v.1; new_aliases = v.2.unused }, later)
]

is_called-new :
    (names : NameSet) (c : Subcommand) (a : Text)
    → Accepted names c
    → is_called c a ≡ true
    → elem a names ≡ false
is_called-new names c a h k =
    ground (arith, k, h.new_name, text_eq_iff c.name a, NewTo-elem names a c.aliases h.new_aliases)

called-new :
    (names : NameSet) (i : ℕ) (cs : List Subcommand) (j : ℕ) (c : Subcommand) (a : Text)
    → (validate_commands names i cs).0 ≡ []
    → get_elem? cs j ≡ some c
    → is_called c a ≡ true
    → elem a names ≡ false
called-new names i [] j c a e g k = absurd (ground arith)
called-new names i (d ∷ cs) zero c a e g k =
    is_called-new names d a (command-Accepted names i d cs e).0
      (subst (λ x. is_called x a ≡ true) (sym (some_cancel g)) k)
called-new names i (d ∷ cs) (suc j) c a e g k =
    let names' = (validate_names names d.name d.aliases).1 in
    ground (
      arith,
      called-new names' (i + 1) cs j c a (command-Accepted names i d cs e).1 g k,
      names-validate_names names d.name d.aliases a,
    )

find-called :
    (names : NameSet) (i : ℕ) (cs : List Subcommand) (j : ℕ) (c : Subcommand) (a : Text)
    → (validate_commands names i cs).0 ≡ []
    → get_elem? cs j ≡ some c
    → is_called c a ≡ true
    → find_command_by_name cs i a ≡ some (c, i + j)
unfolding find_command_by_name
find-called names i [] j c a e g k = absurd (ground arith)
find-called names i (d ∷ cs) zero c a e g k =
    rw (subst (λ x. is_called x a ≡ true) (sym (some_cancel g)) k)
      (ap (λ x. some (x, i)) (some_cancel g) ∙ ap (λ n. some (c, n)) (omega arith))
find-called names i (d ∷ cs) (suc j) c a e g k =
    let names' = (validate_names names d.name d.aliases).1 in
    let later = (command-Accepted names i d cs e).1 in
    ground (
      arith,
      called-new names' (i + 1) cs j c a later g k,
      names-validate_names names d.name d.aliases a,
      find-called names' (i + 1) cs j c a later g k,
    )

-- Where the loop over the subcommands finds no error, each name and each alias of each of them finds
-- that subcommand, at its index.
pub find_command_by_name-validate_commands :
    (names : NameSet) (cmds : List Subcommand) (j : ℕ) (c : Subcommand) (a : Text)
    → (validate_commands names 0 cmds).0 ≡ []
    → get_elem? cmds j ≡ some c
    → is_called c a ≡ true
    → find_command_by_name cmds 0 a ≡ some (c, j)
find_command_by_name-validate_commands names cmds j c a e g k =
    find-called names 0 cmds j c a e g k ∙ ap (λ n. some (c, n)) (omega arith)
