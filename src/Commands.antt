-- ===== src/Commands.antt =====
-- command.go: how the flags, the args and the commands of a command get their names before it runs.
pub mod Resolution
pub mod Subcommands
pub mod Order
pub mod Suggest
pub mod NotFound
use joe_cli.Common.{
  List, Text, [], if◌then◌else◌, ltb, suc, text_eq, zero, ℕ, ◌%◌, ◌++◌, ◌+◌, ◌/◌, ◌∷◌,
}
use joe_cli.Binding.{Arg, Flag}
use joe_cli.Support.Names.{NameError, NameSet, promote_optional_aliases, validate_names}

-- What the two functions report.
pub data InitError : Type 0 where
  must_have_name : ℕ → InitError
  name_error : NameError → InitError

unfoldable pub name_errors_of : List NameError → List InitError
name_errors_of [] = []
name_errors_of (e ∷ es) = name_error e ∷ name_errors_of es

-- `strconv.Itoa`; a number has no more digits than itself plus one
unfoldable pub decimal : ℕ → ℕ → Text
decimal zero n = []
decimal (suc fuel) n =
    let rest = decimal fuel (n / 10) in
    if ltb n 10 then (n + b'0') ∷ [] else rest ++ (n % 10 + b'0') ∷ []

unfoldable pub itoa : ℕ → Text
itoa n = decimal (suc n) n

-- `names[f.Name] = true` of the persistent flags
unfoldable pub persistent_names : List Flag → NameSet → NameSet
persistent_names [] names = names
persistent_names (f ∷ fs) names = persistent_names fs (f.name ∷ names)

-- The loop over the args: the errors, the map, and the args with their default names.
pub record NamedArgs : Type 0 where
  pub errs : List InitError
  pub names : NameSet
  pub args : List Arg

unfoldable pub name_arg : ℕ → Arg → NamedArgs → List NameError → NamedArgs
name_arg i a rest errs =
    if text_eq a.name []
    then record rest { args = record a { name = b'_' ∷ itoa (1 + i) } ∷ rest.args }
    else record rest { errs = name_errors_of errs ++ rest.errs; args = a ∷ rest.args }

unfoldable pub finalize_args : NameSet → ℕ → List Arg → NamedArgs
finalize_args names i [] = record { errs = []; names = names; args = [] }
finalize_args names i (a ∷ as') =
    let (errs, names') = validate_names names a.name [] in
    name_arg i a (finalize_args (if text_eq a.name [] then names else names') (i + 1) as') errs

-- the loop over the flags
unfoldable pub flag_errors : ℕ → Text → List NameError → List InitError
flag_errors i name errs = if text_eq name [] then must_have_name i ∷ [] else name_errors_of errs

unfoldable pub validate_flags : NameSet → ℕ → List Flag → List InitError × NameSet
validate_flags names i [] = ([], names)
validate_flags names i (f ∷ fs) =
    let (errs, names') = validate_names names f.name f.aliases in
    let (errs', names'') =
      validate_flags (if text_eq f.name [] then names else names') (i + 1) fs in
    (flag_errors i f.name errs ++ errs', names'')

-- The loop that promotes optional aliases, each flag with those that its data holds.
unfoldable pub promote_flags : List (Flag × List Text) → NameSet → List Flag
promote_flags [] names = []
promote_flags ((f, optional) ∷ fs) names =
    let (aliases, names') = promote_optional_aliases optional f.aliases names in
    record f { aliases = aliases } ∷ promote_flags fs names'

abbrev pub flags_of : List (Flag × List Text) → List Flag
flags_of [] = []
flags_of ((f, optional) ∷ fs) = f ∷ flags_of fs

-- `finalizeArgsAndFlags`: its errors, and the args and flags behind it.
pub record Finalized : Type 0 where
  pub errs : List InitError
  pub args : List Arg
  pub flags : List Flag

unfoldable pub finalize_args_and_flags : List Flag → List Arg → List (Flag × List Text) → Finalized
finalize_args_and_flags persistent args flags =
    let named = finalize_args (persistent_names persistent []) 0 args in
    let (errs, names) = validate_flags named.names 0 (flags_of flags) in
    record { errs = named.errs ++ errs; args = named.args; flags = promote_flags flags names }
