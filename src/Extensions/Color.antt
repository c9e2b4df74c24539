-- ===== src/Extensions/Color.antt =====
-- extensions/color/mode.go.
use joe_cli.Common.{
  Option, Text, [], codes, elem, if◌then◌else◌, none, refl, some, text_eq, ◌∷◌, ◌≡◌,
}
use joe_cli.Values.{to_lower}

pub data Mode : Type 0 where
  auto always never : Mode

-- `Set`; `none` is the error
unfoldable pub set_mode : Text → Option Mode
set_mode arg =
    let low = to_lower arg in
    if text_eq low (codes "auto")
    then some auto
    else if elem low (codes "always" ∷ codes "true" ∷ codes "on" ∷ [] ∷ [])
    then some always
    else if elem low (codes "never" ∷ codes "false" ∷ codes "off" ∷ [])
    then some never
    else none

-- `String`
unfoldable pub mode_string : Mode → Text
mode_string never = codes "never"
mode_string always = codes "always"
mode_string auto = codes "auto"

-- Every mode is read back from its text, in capitals or not.
pub set_mode-mode_string :
    (m : Mode) (arg : Text) → to_lower arg ≡ mode_string m → set_mode arg ≡ some m
unfolding set_mode mode_string elem
set_mode-mode_string auto arg h = rw h refl
set_mode-mode_string always arg h = rw h refl
set_mode-mode_string never arg h = rw h refl
