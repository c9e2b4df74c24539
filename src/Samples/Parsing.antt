-- ===== src/Samples/Parsing.antt =====
-- Parses of set_test.go and command_test.go.
use joe_cli.Counters.{arg_count, done, take}
use joe_cli.Parse.Words.{
  end_options, named, offer_word, record_word, recorded, refused, word_step, words, words_end,
}
use joe_cli.Parse.Options.{
  atoi_succeeds, begins_with_equals, digits_value, known_letter, known_long, letter, letter_alone,
  letter_end, letter_refused, letter_value, letter_value_of, letters, long_option, long_value,
  number_value, read_flag, read_option, resolve_letter, short_options, unknown_letter, unknown_long,
  within,
}
use joe_cli.Positional.{
  answered, breaks, current, current_name, finish, instance_take, new_arg_binding,
  new_arg_binding_single, next, offered, put_current, set_arg, set_arg_loop, take_args, take_end,
  take_loop, takers_of,
}
use joe_cli.Results.{BindingResult, append_output, new_binding_result}
use joe_cli.Common.{List, Map, Text, [], codes, insert, lookup, refl, some, ℕ, ◌∷◌, ◌≡◌}
use joe_cli.Errors.{Error, is_hard_arg_count_err, unexpected_argument_error, unknown_option_error}
use joe_cli.Binding.{
  Binding, actual_arg_counter, arg_arg_counter, behavior_flags, define_alias, define_aliases,
  define_arg, define_args, define_flag, define_flags, define_persistent, flag_arg_counter,
  is_optional, is_short, lookup_option, new_binding, resolve_alias, resolve_in_tables, to_binding,
}
use joe_cli.Parse.Mode.{
  disallow_flags_after_args, parse_unknown_flags_as_args, raw_skip_program_name, right_to_left,
  skip_flag_parsing, skip_program_name,
}
use joe_cli.Parse.Loop.{
  Outcome, after_words, count_skip, finished, is_word, panicked, parse_word, parsing, raw_parse,
  right_to_left_skip, skip_takers,
}
use joe_cli.Samples.Bindings.{sample}

-- `strings.Fields` of a command line of lower-case words
abbrev pub lines : List Text → List Text
lines ws = codes "app" ∷ ws

abbrev pub result : List Text → Map (List (List Text)) → List Text → BindingResult
result args bindings names = record { args = some args; bindings = bindings; names = names }

-- `raw_parse`, with all that a run of it computes with
unfoldable pub run : List Text → Binding → ℕ → Outcome
unfolding takers_of new_arg_binding new_arg_binding_single next current_name current finish
    put_current answered offered set_arg_loop set_arg breaks take_end take_loop take_args
    instance_take is_word after_words parse_word parsing count_skip skip_takers right_to_left_skip
    raw_parse right_to_left disallow_flags_after_args skip_program_name parse_unknown_flags_as_args
    skip_flag_parsing long_value known_long unknown_long long_option digits_value number_value
    within atoi_succeeds resolve_letter begins_with_equals letter_refused letter_value letter_end
    letter_value_of unknown_letter known_letter letter letters short_options read_option read_flag
    end_options named recorded record_word offer_word word_step words_end words new_binding_result
    append_output lookup insert define_alias define_aliases define_flag define_arg define_flags
    define_persistent define_args is_short flag_arg_counter arg_arg_counter actual_arg_counter
    is_optional lookup_option resolve_in_tables resolve_alias behavior_flags refused letter_alone
    new_binding to_binding arg_count take done is_hard_arg_count_err
run = raw_parse

abbrev pub unknown_args : List Text
unknown_args = lines (codes "-tuvwx" ∷ codes "another" ∷ [])

abbrev pub unknown_result : BindingResult
unknown_result =
    result unknown_args ((codes "boolt", (codes "-t" ∷ [] ∷ []) ∷ []) ∷ []) (codes "boolt" ∷ [])

abbrev pub unknown_error : Error
unknown_error = unknown_option_error (codes "-u") (codes "-uvwx" ∷ codes "another" ∷ [])

-- app -tuvwx another
pub unknown_in_run :
    run unknown_args sample raw_skip_program_name ≡ finished unknown_result (some unknown_error)
unfolding run
unknown_in_run = refl

-- app arg -s a other args
unexpected_word :
    run
      (lines (codes "arg" ∷ codes "-s" ∷ codes "a" ∷ codes "other" ∷ codes "args" ∷ []))
      sample
      raw_skip_program_name
    ≡ finished
        (result
          (lines (codes "arg" ∷ codes "-s" ∷ codes "a" ∷ codes "other" ∷ codes "args" ∷ []))
          ((codes "arg", (codes "<arg>" ∷ codes "arg" ∷ []) ∷ [])
            ∷ (codes "short", (codes "-s" ∷ codes "a" ∷ []) ∷ [])
            ∷ [])
          (codes "arg" ∷ codes "short" ∷ []))
        (some (unexpected_argument_error (codes "other") (codes "other" ∷ codes "args" ∷ [])))
unfolding run
unexpected_word = refl

-- A lone dash that no counter takes panics.
lone_dash : run (codes "arg" ∷ codes "-t" ∷ codes "-" ∷ []) sample 0 ≡ panicked
unfolding run
lone_dash = refl
