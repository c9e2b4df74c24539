-- ===== src/Parse/Long.antt =====
-- Command lines of words `--name=value` in `RawParse` (set.go).
use joe_cli.Parse.Mode.{right_to_left, skip_flag_parsing, skip_program_name}
use joe_cli.Positional.{finish, new_arg_binding}
use joe_cli.Results.Merge.{occurrences-append_output}
use joe_cli.Common.{
  All, List, Option, Text, [], ap, append-nil, append_assoc, arith, cut, false, if◌then◌else◌,
  length, lookup, refl, some, suc, sym, text_eq, true, zero, ℕ, ◌++◌, ◌∙◌, ◌∷◌, ◌≡◌, ◌≤◌,
}
use joe_cli.Binding.{Binding}
use joe_cli.Counters.{has_dash}
use joe_cli.Errors.{Error}
use joe_cli.Results.{BindingResult, append_output, new_binding_result, occurrences}
use joe_cli.Support.Maps.{has_equals}
use joe_cli.Parse.Words.{Machine, continue_parsing, flags_or_args}
use joe_cli.Parse.Options.{known_long, long_option, long_value, read_flag, read_option}
use joe_cli.Parse.Loop.{
  enough_fuel, finished, is_word, parse_word, parsing, raw_parse, right_to_left_skip,
}

-- An option by a name or an alias, the name that it resolves to, and its value.
pub record Setting : Type 0 where
  pub alias : Text
  pub flag : Text
  pub value : Text

-- The alias resolves to the option, and has no equal sign.
pub record IsSetting (b : Binding) (s : Setting) : Type 0 where
  pub known : b.resolve_alias s.alias ≡ some s.flag
  pub plain : has_equals s.alias ≡ false

abbrev pub long_word : Setting → Text
long_word s = b'-' ∷ b'-' ∷ s.alias ++ b'=' ∷ s.value

abbrev pub long_words : List Setting → List Text
long_words [] = []
long_words (s ∷ settings) = long_word s ∷ long_words settings

-- The occurrence that a setting is recorded as, and a result with those of all settings.
abbrev pub occurrence : Setting → List Text
occurrence s = (b'-' ∷ b'-' ∷ s.alias) ∷ s.value ∷ []

unfoldable pub recorded_all : BindingResult → List Setting → BindingResult
recorded_all m [] = m
recorded_all m (s ∷ settings) = recorded_all (append_output m s.flag (occurrence s)) settings

-- the occurrences of one option
unfoldable pub settings_of : Text → List Setting → List (List Text)
settings_of k [] = []
settings_of k (s ∷ settings) =
    if text_eq s.flag k then occurrence s ∷ settings_of k settings else settings_of k settings

cut-plain :
    (name value : Text)
    → has_equals name ≡ false
    → cut b'=' (name ++ b'=' ∷ value) ≡ (name, value, true)
unfolding has_equals
cut-plain [] value h = refl
cut-plain (c ∷ name) value h = ground (arith, cut-plain name value)

-- the machine that reads flags, before any argument
record IsFresh (m : Machine) : Type 0 where
  reads_flags : m.state ≡ flags_or_args
  no_args_yet : m.any_args ≡ false

abbrev set_out : Machine → Setting → Machine
set_out m s = record m { out = append_output m.out s.flag (occurrence s) }

long_option-Setting :
    (b : Binding) (flags : ℕ) (s : Setting) (args : List Text) (m : Machine)
    → IsSetting b s
    → m.any_args ≡ false
    → long_option b flags (s.alias ++ b'=' ∷ s.value) args m ≡ continue_parsing args (set_out m s)
unfolding long_option known_long long_value
long_option-Setting b flags s args m h k =
    rw (cut-plain s.alias s.value h.plain, h.known) (ground (arith, k))

long_word-dashes : (alias value : Text) → text_eq (alias ++ b'=' ∷ value) [] ≡ false
long_word-dashes [] value = refl
long_word-dashes (c ∷ alias) value = refl

parse_word-Setting :
    (b : Binding) (flags : ℕ) (s : Setting) (args : List Text) (m : Machine)
    → IsSetting b s
    → IsFresh m
    → parse_word b flags (long_word s) args m ≡ continue_parsing args (set_out m s)
unfolding parse_word is_word has_dash read_flag read_option
parse_word-Setting b flags s args m h f = ground (
  arith,
  f.reads_flags,
  long_word-dashes s.alias s.value,
  long_option-Setting b flags s args m h f.no_args_yet,
)

parsing-settings :
    (b : Binding) (flags fuel : ℕ) (settings : List Setting) (m : Machine)
    → All (IsSetting b) settings
    → IsFresh m
    → length settings ≤ fuel
    → parsing b flags fuel (long_words settings) m
      ≡ finished (recorded_all m.out settings) (finish m.positional)
unfolding parsing recorded_all
parsing-settings b flags fuel [] m h f l = refl
parsing-settings b flags zero (s ∷ settings) m h f l = absurd (omega (arith, l))
parsing-settings b flags (suc fuel) (s ∷ settings) m h f l =
    rw (parse_word-Setting b flags s (long_words settings) m h.0 f) (
      parsing-settings b flags fuel settings (set_out m s) h.1
        (record { reads_flags = f.reads_flags; no_args_yet = f.no_args_yet }) (omega (arith, l)))

length-long_words : (settings : List Setting) → length (long_words settings) ≡ length settings
length-long_words [] = refl
length-long_words (s ∷ settings) = ap suc (length-long_words settings)

-- A command line of words `--name=value`, where each name is known to the binding and has no
-- equal sign, parses to the settings that it was made of, in their order and as they were
-- written, whatever the values; the error, if any, is that of a positional arg which expects
-- more. It holds where the parser reads flags from the first argument on.
pub raw_parse-long_words :
    (b : Binding) (flags : ℕ) (settings : List Setting)
    → All (IsSetting b) settings
    → skip_program_name flags ≡ false
    → right_to_left flags ≡ false
    → skip_flag_parsing flags ≡ false
    → raw_parse (long_words settings) b flags
      ≡ finished
          (recorded_all (new_binding_result (some (long_words settings))) settings)
          (finish (new_arg_binding b))
unfolding raw_parse right_to_left_skip
raw_parse-long_words b flags settings h p r q =
    rw (p, r)
      (parsing-settings b flags (enough_fuel (long_words settings)) settings _ h
        (record { reads_flags = rw q refl; no_args_yet = refl })
        (omega (arith, length-long_words settings)))

occurrences-recorded_all :
    (m : BindingResult) (settings : List Setting) (k : Text)
    → occurrences (recorded_all m settings) k ≡ occurrences m k ++ settings_of k settings
unfolding recorded_all settings_of
occurrences-recorded_all m [] k = sym (append-nil (occurrences m k))
occurrences-recorded_all m (s ∷ settings) k = ground (
  arith,
  occurrences-recorded_all (append_output m s.flag (occurrence s)) settings k,
  occurrences-append_output m s.flag k (occurrence s),
  append_assoc (occurrences m k) (occurrence s ∷ []) (settings_of k settings),
)

-- In what such a command line parses to, the occurrences of an option are its settings in their order,
-- each with its name as written and its value.
pub occurrences-raw_parse :
    (b : Binding) (flags : ℕ) (settings : List Setting) (m : BindingResult) (e : Option Error)
    (k : Text)
    → All (IsSetting b) settings
    → skip_program_name flags ≡ false
    → right_to_left flags ≡ false
    → skip_flag_parsing flags ≡ false
    → raw_parse (long_words settings) b flags ≡ finished m e
    → occurrences m k ≡ settings_of k settings
unfolding new_binding_result
occurrences-raw_parse b flags settings m e k h p r q z =
    let args = some (long_words settings) in
    ap (λ x. occurrences x k) (same_result (sym z ∙ raw_parse-long_words b flags settings h p r q))
    ∙ occurrences-recorded_all (new_binding_result args) settings k
    ∙ unfold occurrences lookup in refl
  where
    same_result : {m n : BindingResult} {e d : Option Error} → finished m e ≡ finished n d → m ≡ n
    same_result z = cc
