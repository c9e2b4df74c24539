-- ===== src/Samples/Properties.antt =====
-- The theorems on the parser and its results, at inputs that meet their hypotheses.
use joe_cli.Parse.ArgsOnly.{raw_parse-without_options, without_options}
use joe_cli.Parse.Long.{
  IsSetting, Setting, long_words, occurrences-raw_parse, raw_parse-long_words, recorded_all,
  settings_of,
}
use joe_cli.Parse.Mode.{
  raw_parse_unknown_flags_as_args, raw_rtl, raw_skip_flag_parsing, raw_skip_program_name,
  skip_flag_parsing,
}
use joe_cli.Positional.{finish, new_arg_binding}
use joe_cli.States.{apply_panicked, apply_to, direct}
use joe_cli.States.Applies.{apply_to-raw_parse}
use joe_cli.Samples.Occurrences.{f_state, f_store}
use joe_cli.Binding.Define.{is_known, resolve_alias-define_flag}
use joe_cli.Parse.Terminates.{raw_parse-ne-out_of_fuel}
use joe_cli.Parse.Safe.LoneDash.{raw_parse-lone_dash}
use joe_cli.Parse.Safe.{raw_parse-ne-panicked, raw_parse-new_binding}
use joe_cli.Parse.Words.{dash}
use joe_cli.Binding.Consistent.{to_binding-IsLawful}
use joe_cli.Parse.Safe.Guards.{NotDash}
use joe_cli.Binding.{
  IsLawful, arg_arg_counter, define_flag, empty_binding, new_binding, resolve_alias, to_binding,
}
use joe_cli.Parse.Loop.{finished, out_of_fuel, panicked, raw_parse, raw_parse_binding}
use joe_cli.Values.{text_value}
use joe_cli.Binding.Counted.{HasCounter}
use joe_cli.Support.Maps.{has_equals}
use joe_cli.Results.{bindings_of, new_binding_result, occurrences, raw, raw_occurrences}
use joe_cli.Common.{
  All, List, Text, [], arith, codes, elem, if◌then◌else◌, not, refl, some, text_eq, ◌&&◌, ◌∷◌, ◌≡◌,
  ◌≢◌,
}
use joe_cli.Parse.Faithful.{IsFaithful, joined, raw-raw_parse, raw_parse-IsFaithful, unlabelled}
use joe_cli.Results.Shape.{IsWellFormed}
use joe_cli.Samples.Bindings.{sample, sample_args, sample_flags, short_flag}
use joe_cli.Samples.Parsing.{run, unknown_args, unknown_error, unknown_in_run, unknown_result}

abbrev mixed_args : List Text
mixed_args = codes "app" ∷ codes "--unknown" ∷ codes "-t" ∷ []

raw_parse-ne-out_of_fuel_example :
    raw_parse mixed_args sample raw_parse_unknown_flags_as_args ≢ out_of_fuel
raw_parse-ne-out_of_fuel_example =
    raw_parse-ne-out_of_fuel mixed_args sample raw_parse_unknown_flags_as_args

mixed-NotDash : All NotDash mixed_args
mixed-NotDash = (refl, (refl, (refl, tt)))

sample_args-HasCounter : All HasCounter sample_args
unfolding arg_arg_counter
sample_args-HasCounter = ((_, refl), tt)

sample-IsLawful : IsLawful sample
unfolding new_binding
sample-IsLawful = to_binding-IsLawful sample_flags sample_args [] sample_args-HasCounter

raw_parse-ne-panicked_example : raw_parse mixed_args sample raw_rtl ≢ panicked
raw_parse-ne-panicked_example =
    raw_parse-ne-panicked mixed_args sample raw_rtl sample-IsLawful mixed-NotDash

raw_parse-new_binding_example :
    raw_parse_binding mixed_args (new_binding sample_flags sample_args []) 0 ≢ panicked
raw_parse-new_binding_example =
    raw_parse-new_binding mixed_args sample_flags sample_args [] 0 sample_args-HasCounter
      mixed-NotDash

raw_parse-lone_dash_example :
    raw_parse (dash ∷ codes "x" ∷ []) (to_binding (new_binding sample_flags [] [])) raw_rtl
    ≡ panicked
unfolding run
raw_parse-lone_dash_example =
    raw_parse-lone_dash (codes "x" ∷ []) (to_binding (new_binding sample_flags [] [])) raw_rtl refl
      refl refl

-- the parse of set_test.go as the theorems state it
unknown_parse :
    raw_parse unknown_args sample raw_skip_program_name
    ≡ finished unknown_result (some unknown_error)
unfolding run
unknown_parse = unknown_in_run

raw_parse-IsFaithful_example : IsFaithful unknown_args sample unknown_result
raw_parse-IsFaithful_example =
    raw_parse-IsFaithful unknown_args sample raw_skip_program_name unknown_result
      (some unknown_error) unknown_parse

raw-raw_parse_example :
    (raw (some unknown_result) (codes "boolt")
      ≡ some (joined (bindings_of (some unknown_result) (codes "boolt"))))
    × (raw_occurrences (some unknown_result) (codes "boolt")
        ≡ some (joined (unlabelled (bindings_of (some unknown_result) (codes "boolt")))))
raw-raw_parse_example =
    raw-raw_parse unknown_args sample raw_skip_program_name unknown_result (some unknown_error)
      (codes "boolt") unknown_parse

resolve_alias-define_flag_example :
    resolve_alias (define_flag empty_binding short_flag) (codes "s") ≡ (
      if text_eq (codes "short") (codes "s")
      then some (codes "s")
      else if elem (codes "s") (codes "s" ∷ []) && not (is_known (codes "s") empty_binding)
      then some (codes "short")
      else resolve_alias empty_binding (codes "s"))
resolve_alias-define_flag_example =
    resolve_alias-define_flag empty_binding short_flag (codes "s") (λ p. ground arith)

to_binding-IsLawful_example : IsLawful (to_binding (new_binding sample_flags sample_args []))
to_binding-IsLawful_example = to_binding-IsLawful sample_flags sample_args [] sample_args-HasCounter

unknown_result-IsWellFormed : IsWellFormed unknown_result
unknown_result-IsWellFormed =
    (raw_parse-IsFaithful unknown_args sample raw_skip_program_name unknown_result
      (some unknown_error) unknown_parse).well_formed

apply_to-raw_parse_example :
    apply_to (some unknown_result) ((codes "boolt", direct f_state) ∷ [], f_store) ≢ apply_panicked
apply_to-raw_parse_example =
    apply_to-raw_parse unknown_args sample raw_skip_program_name unknown_result (some unknown_error)
      ((codes "boolt", direct f_state) ∷ [], f_store) unknown_parse ((text_value [], refl, tt), tt)

-- app --long=x=1 --s=2
abbrev two_settings : List Setting
two_settings =
    record { alias = codes "long"; flag = codes "long"; value = codes "x=1" }
    ∷ record { alias = codes "s"; flag = codes "short"; value = codes "2" }
    ∷ []

two-IsSetting : All (IsSetting sample) two_settings
unfolding run has_equals
two-IsSetting = (record { known = refl; plain = refl }, (record { known = refl; plain = refl }, tt))

raw_parse-long_words_example :
    raw_parse (long_words two_settings) sample 0
    ≡ finished
        (recorded_all (new_binding_result (some (long_words two_settings))) two_settings)
        (finish (new_arg_binding sample))
unfolding run
raw_parse-long_words_example =
    raw_parse-long_words sample 0 two_settings two-IsSetting refl refl refl

occurrences-raw_parse_example :
    occurrences
      (recorded_all (new_binding_result (some (long_words two_settings))) two_settings)
      (codes "short")
    ≡ settings_of (codes "short") two_settings
unfolding run
occurrences-raw_parse_example =
    occurrences-raw_parse sample 0 two_settings
      (recorded_all (new_binding_result (some (long_words two_settings))) two_settings)
      (finish (new_arg_binding sample)) (codes "short") two-IsSetting refl refl refl
      (raw_parse-long_words sample 0 two_settings two-IsSetting refl refl refl)

raw_parse-without_options_example :
    raw_parse mixed_args sample raw_skip_flag_parsing
    ≡ raw_parse mixed_args (without_options sample) raw_skip_flag_parsing
unfolding skip_flag_parsing
raw_parse-without_options_example =
    raw_parse-without_options mixed_args sample raw_skip_flag_parsing refl
