-- ===== src/Parse/Safe/LoneDash.antt =====
-- The lone dash as a word of `RawParse` (set.go), where no taker is left.
use joe_cli.Parse.Options.{read_flag, read_option}
use joe_cli.Parse.Mode.{skip_flag_parsing, skip_program_name}
use joe_cli.Binding.{Binding}
use joe_cli.Counters.{has_dash}
use joe_cli.Parse.Loop.{
  after_words, count_skip, enough_fuel, is_word, panicked, parse_word, parsing, raw_parse,
  right_to_left_skip, skip_takers,
}
use joe_cli.Parse.Words.{
  Machine, dash, flags_or_args, not_argument, offer_word, panics, refused, word_step, words,
}
use joe_cli.Positional.{ArgBinding, new_arg_binding, set_arg, set_arg_loop, takers_of}
use joe_cli.Common.{List, Text, [], arith, false, none, refl, suc, zero, ℕ, ◌<◌, ◌∷◌, ◌≡◌}

abbrev no_positional : ArgBinding
no_positional = record { names = []; takers = []; index = 0 }

new_arg_binding-no_positional :
    (b : Binding) → b.positional_arg_names ≡ [] → new_arg_binding b ≡ no_positional
unfolding new_arg_binding takers_of
new_arg_binding-no_positional b h = rw h

right_to_left_skip-no_positional :
    (flags : ℕ) (arguments : List Text)
    → right_to_left_skip flags arguments no_positional ≡ (none, no_positional)
unfolding right_to_left_skip count_skip skip_takers
right_to_left_skip-no_positional flags arguments = ground arith

words-no_positional :
    (b : Binding) (flags : ℕ) (args : List Text) (m : Machine)
    → m.positional ≡ no_positional
    → m.state ≡ flags_or_args
    → words dash args m ≡ not_argument dash args m
unfolding words word_step offer_word refused set_arg set_arg_loop has_dash
words-no_positional b flags [] m h k = ground arith
words-no_positional b flags (a ∷ args) m h k = ground arith

parse_word-no_positional :
    (b : Binding) (flags : ℕ) (args : List Text) (m : Machine)
    → m.positional ≡ no_positional
    → m.state ≡ flags_or_args
    → parse_word b flags dash args m ≡ panics
unfolding parse_word is_word has_dash after_words read_flag read_option
parse_word-no_positional b flags args m h k = ground (arith, words-no_positional b flags args m h k)

parsing-no_positional :
    (b : Binding) (flags fuel : ℕ) (args : List Text) (m : Machine)
    → m.positional ≡ no_positional
    → m.state ≡ flags_or_args
    → 0 < fuel
    → parsing b flags fuel (dash ∷ args) m ≡ panicked
unfolding parsing
parsing-no_positional b flags zero args m h k l = absurd (omega (arith, l))
parsing-no_positional b flags (suc fuel) args m h k l =
    rw (parse_word-no_positional b flags args m h k)

-- A command without positional args, that parses flags and does not skip the program name, panics on
-- a first argument that is the lone dash.
pub raw_parse-lone_dash :
    (args : List Text) (b : Binding) (flags : ℕ)
    → b.positional_arg_names ≡ []
    → skip_program_name flags ≡ false
    → skip_flag_parsing flags ≡ false
    → raw_parse (dash ∷ args) b flags ≡ panicked
unfolding raw_parse
raw_parse-lone_dash args b flags h p q =
    rw
      (
        p,
        new_arg_binding-no_positional b h,
        right_to_left_skip-no_positional flags (dash ∷ args),
        q,
      )
      (parsing-no_positional b flags (enough_fuel (dash ∷ args)) args _ refl refl (omega arith))
