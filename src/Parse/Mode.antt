-- ===== src/Parse/Mode.antt =====
-- set.go: `RawParseFlag` and option.go's `toRaw`.
use Prim.Native.Nat.{bit_and, bit_or}
use joe_cli.Common.{Bool, arith, false, if◌then◌else◌, ℕ, ◌==◌, ◌≡◌}

-- the constants, by their bits
abbrev pub raw_rtl : ℕ
raw_rtl = 1

abbrev pub raw_disallow_flags_after_args : ℕ
raw_disallow_flags_after_args = 2

abbrev pub raw_skip_program_name : ℕ
raw_skip_program_name = 4

abbrev pub raw_parse_unknown_flags_as_args : ℕ
raw_parse_unknown_flags_as_args = 8

abbrev pub raw_skip_flag_parsing : ℕ
raw_skip_flag_parsing = 16

unfoldable pub right_to_left : ℕ → Bool
right_to_left f = bit_and f raw_rtl == raw_rtl

unfoldable pub disallow_flags_after_args : ℕ → Bool
disallow_flags_after_args f =
    bit_and f raw_disallow_flags_after_args == raw_disallow_flags_after_args

unfoldable pub skip_program_name : ℕ → Bool
skip_program_name f = bit_and f raw_skip_program_name == raw_skip_program_name

unfoldable pub parse_unknown_flags_as_args : ℕ → Bool
parse_unknown_flags_as_args f =
    bit_and f raw_parse_unknown_flags_as_args == raw_parse_unknown_flags_as_args

unfoldable pub skip_flag_parsing : ℕ → Bool
skip_flag_parsing f = bit_and f raw_skip_flag_parsing == raw_skip_flag_parsing

-- The four internal flags that `toRaw` reads.
pub record InternalFlags : Type 0 where
  pub skips_flag_parsing : Bool
  pub disallows_flags_after_args : Bool
  pub parses_right_to_left : Bool
  pub parses_unknown_flags_as_args : Bool

abbrev pub or_if : Bool → ℕ → ℕ → ℕ
or_if b bit flags = if b then bit_or flags bit else flags

unfoldable pub to_raw : InternalFlags → ℕ
to_raw f = or_if f.parses_unknown_flags_as_args raw_parse_unknown_flags_as_args (
    or_if f.parses_right_to_left raw_rtl (
      or_if f.disallows_flags_after_args raw_disallow_flags_after_args
        (or_if f.skips_flag_parsing raw_skip_flag_parsing 0)))

-- Each flag of the raw parser is set exactly where the internal flag of the command is, for all
-- sixteen settings, and the program name is not skipped.
pub to_raw_faithful :
    (f : InternalFlags)
    → (skip_flag_parsing (to_raw f) ≡ f.skips_flag_parsing)
      × (disallow_flags_after_args (to_raw f) ≡ f.disallows_flags_after_args)
      × (right_to_left (to_raw f) ≡ f.parses_right_to_left)
      × (parse_unknown_flags_as_args (to_raw f) ≡ f.parses_unknown_flags_as_args)
      × (skip_program_name (to_raw f) ≡ false)
unfolding to_raw skip_flag_parsing disallow_flags_after_args right_to_left
    parse_unknown_flags_as_args skip_program_name
to_raw_faithful f = ground arith
