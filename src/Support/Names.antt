-- ===== src/Support/Names.antt =====
-- internal/support/names.go: the names of flags, args and commands, and their duplicates.
pub mod Unique
use joe_cli.Common.{
  Bool, List, Text, [], codes, elem, false, if◌then◌else◌, leb, not, true, ℕ, ◌&&◌, ◌++◌, ◌==◌,
  ◌||◌, ◌∷◌,
}

unfoldable pub is_symbol : ℕ → List ℕ → Bool
is_symbol c [] = false
is_symbol c (s ∷ ss) = c == s || is_symbol c ss

-- a byte of `validIdentifierPattern`
unfoldable pub is_name_byte : ℕ → Bool
is_name_byte c =
    leb b'a' c && leb c b'z'
    || leb b'A' c && leb c b'Z'
    || leb b'0' c && leb c b'9'
    || is_symbol c (codes "@#+._*:?-")

unfoldable pub all_name_bytes : Text → Bool
all_name_bytes [] = true
all_name_bytes (c ∷ s) = is_name_byte c && all_name_bytes s

-- `checkValidFlagIdentifier` finds no error
unfoldable pub is_valid_name : Text → Bool
is_valid_name [] = false
is_valid_name (c ∷ s) = all_name_bytes (c ∷ s)

-- What `ValidateNames` finds; the text of `checkPersistent` is left out.
pub data NameError : Type 0 where
  not_a_valid_name : NameError
  duplicate_name : Text → NameError
  invalid_alias : Text → NameError

-- The keys of the map of names, each of which is true. A key may stand in the list twice.
abbrev pub NameSet : Type 0
NameSet = List Text

unfoldable pub name_errors : NameSet → Text → List NameError
name_errors names name =
    if not (is_valid_name name)
    then not_a_valid_name ∷ []
    else if elem name names
    then duplicate_name name ∷ []
    else []

unfoldable pub alias_errors : NameSet → Text → List NameError
alias_errors names a =
    if not (is_valid_name a)
    then invalid_alias a ∷ []
    else if elem a names
    then duplicate_name a ∷ []
    else []

-- the loop over the aliases
unfoldable pub validate_aliases : NameSet → List Text → List NameError × NameSet
validate_aliases names [] = ([], names)
validate_aliases names (a ∷ aliases) =
    let (errs, names') = validate_aliases (a ∷ names) aliases in
    (alias_errors names a ++ errs, names')

-- `ValidateNames`: the errors, and the map behind the call
unfoldable pub validate_names : NameSet → Text → List Text → List NameError × NameSet
validate_names names name aliases =
    let (errs, names') = validate_aliases names aliases in
    (name_errors names name ++ errs, name ∷ names')

-- The loop of `PromoteOptionalAliases`, over the optional aliases that the data holds.
unfoldable pub promote_optional_aliases : List Text → List Text → NameSet → List Text × NameSet
promote_optional_aliases [] aliases names = (aliases, names)
promote_optional_aliases (alias ∷ optional) aliases names =
    if elem alias names
    then promote_optional_aliases optional aliases names
    else promote_optional_aliases optional (aliases ++ alias ∷ []) (alias ∷ names)
