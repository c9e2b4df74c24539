-- ===== src/Samples/Components.antt =====
-- The theorems on the parts around the parser, at inputs that meet their hypotheses.
use joe_cli.Commands.Subcommands.{Subcommand, find_command_by_name, validate_commands}
use joe_cli.Commands.Subcommands.Search.{find_command_by_name-validate_commands}
use joe_cli.Commands.{
  decimal, finalize_args, finalize_args_and_flags, flag_errors, itoa, name_arg, name_errors_of,
  persistent_names, promote_flags, validate_flags,
}
use joe_cli.Commands.Resolution.{Resolves, new_binding-Resolves}
use joe_cli.Samples.Bindings.{arg_of, long_flag, sample_args, sample_flags, short_flag}
use joe_cli.Binding.{new_binding}
use joe_cli.Support.Names.{
  alias_errors, all_name_bytes, is_name_byte, is_symbol, is_valid_name, name_errors,
  promote_optional_aliases, validate_aliases, validate_names,
}
use joe_cli.Values.{text_value}
use joe_cli.States.{multi_set}
use joe_cli.States.Cells.{IsApart, RefAt}
use joe_cli.States.Types.{IsFitting}
use joe_cli.Values.Many.{Returns}
use joe_cli.States.Occurred.{IsSeparate}
use joe_cli.States.Separate.{Added, multi_set-IsSeparate, multi_set-occurrences}
use joe_cli.Samples.Occurrences.{f_multi, f_store}
use joe_cli.Support.Regions.Grouped.{all_fields}
use joe_cli.Common.{All, [], arith, codes, elem, pos, refl, some, suc, zero, ℕ, ◌∷◌, ◌≡◌}
use joe_cli.Support.Maps.{joined_on, split_map_regions}
use joe_cli.Support.Regions.{split_map_regions_lem}
use joe_cli.Support.Regions.Parts.{Plain}

split_map_regions_lem_example :
    (joined_on b',' (all_fields (split_map_regions (codes "x,A=1,2,B=3,y")))
      ≡ codes "x,A=1,2,B=3,y")
    × All Plain (split_map_regions (codes "x,A=1,2,B=3,y")).prefix
    × All Plain (split_map_regions (codes "x,A=1,2,B=3,y")).suffix
split_map_regions_lem_example = split_map_regions_lem b'x' (codes ",A=1,2,B=3,y")

f_multi-IsSeparate : IsSeparate f_multi f_store
f_multi-IsSeparate = record { inside = tt; actual_apart = λ p q. absurd (ground arith) }

f_multi-IsFitting : IsFitting f_multi f_store
f_multi-IsFitting = record {
  initial_fits = (text_value [], refl, tt);
  actual_fits = λ p q. absurd (ground arith);
}

f_store-no_map : (p r : ℕ) → ¬ (RefAt f_store p r)
f_store-no_map zero r e = ground arith
f_store-no_map (suc p) r e = ground arith

f_store-IsApart : IsApart f_store
f_store-IsApart = record {
  inside_maps = λ p r e. absurd (f_store-no_map p r e);
  only_one = λ p q r e f. absurd (f_store-no_map p r e);
}

multi_set-occurrences_example :
    Returns
      (λ e s. Added (codes "5" ∷ []) f_multi f_store (text_value []) s.0 s.1)
      (multi_set (codes "5" ∷ []) f_multi f_store)
multi_set-occurrences_example =
    multi_set-occurrences (codes "5" ∷ []) f_multi f_store (text_value []) refl refl
      f_multi-IsFitting f_multi-IsSeparate tt f_store-IsApart

multi_set-IsSeparate_example :
    Returns (λ e s. IsSeparate s.0 s.1) (multi_set (codes "5" ∷ []) f_multi f_store)
multi_set-IsSeparate_example =
    multi_set-IsSeparate (codes "5" ∷ []) f_multi f_store refl f_multi-IsFitting f_multi-IsSeparate

new_binding-Resolves_example :
    All (Resolves (codes "arg" ∷ []) (new_binding sample_flags sample_args [])) sample_flags
unfolding validate_flags flag_errors name_errors_of validate_names validate_aliases name_errors
    alias_errors is_valid_name all_name_bytes is_name_byte is_symbol elem
new_binding-Resolves_example =
    new_binding-Resolves (codes "arg" ∷ []) sample_flags sample_args refl (refl, tt)

-- Args without a name are numbered.
numbered : itoa 12 ≡ codes "12"
unfolding itoa decimal
numbered = refl

-- a command with a flag whose optional alias is taken, and one whose optional alias is not
finalized :
    (finalize_args_and_flags []
      (arg_of (pos 1) [] ∷ [])
      ((long_flag, codes "s" ∷ codes "l" ∷ []) ∷ (short_flag, []) ∷ [])).flags
    ≡ record long_flag { aliases = codes "l" ∷ [] } ∷ short_flag ∷ []
unfolding finalize_args_and_flags finalize_args persistent_names name_arg promote_flags
    promote_optional_aliases itoa decimal validate_flags flag_errors name_errors_of validate_names
    validate_aliases name_errors alias_errors is_valid_name all_name_bytes is_name_byte is_symbol
    elem
finalized = refl

abbrev clone_command : Subcommand
clone_command = record { name = codes "clone"; aliases = codes "cl" ∷ [] }

abbrev push_command : Subcommand
push_command = record { name = codes "push"; aliases = codes "p" ∷ [] }

find_command_by_name-validate_commands_example :
    find_command_by_name (clone_command ∷ push_command ∷ []) 0 (codes "p") ≡ some (push_command, 1)
unfolding validate_commands flag_errors name_errors_of validate_names validate_aliases name_errors
    alias_errors is_valid_name all_name_bytes is_name_byte is_symbol elem
find_command_by_name-validate_commands_example =
    find_command_by_name-validate_commands (codes "joegit" ∷ []) (clone_command ∷ push_command ∷ [])
      1 push_command (codes "p") refl refl refl
