-- ===== src/Samples/Bindings.antt =====
-- The flag set of set_test.go, as flags and args.
use joe_cli.Common.{List, Text, [], codes, false, true, ℤ, ◌∷◌}
use joe_cli.Counters.{take_until_next_flag}
use joe_cli.Binding.{
  Arg, Binding, BindingImpl, Flag, narg_int, new_binding, other_value, string_list, to_binding,
}

abbrev pub long_flag : Flag
long_flag = record {
  name = codes "long";
  aliases = [];
  value = other_value;
  flag_only = false;
  optional = false;
  is_numeric = false;
  non_persistent = false;
  persistent = false;
}

abbrev pub short_flag : Flag
short_flag = record long_flag {
  name = codes "short";
  aliases = codes "s" ∷ [];
  value = string_list;
}

abbrev pub bool_flag : Flag
bool_flag = record long_flag { name = codes "boolt"; aliases = codes "t" ∷ []; flag_only = true }

abbrev pub arg_of : ℤ → Text → Arg
arg_of narg name = record {
  name = name;
  narg = narg_int narg;
  value = other_value;
  optional = false;
}

abbrev pub sample_flags : List Flag
sample_flags = long_flag ∷ short_flag ∷ bool_flag ∷ []

abbrev pub sample_args : List Arg
sample_args = arg_of take_until_next_flag (codes "arg") ∷ []

abbrev pub sample_impl : BindingImpl
unfolding new_binding
sample_impl = new_binding sample_flags sample_args []

abbrev pub sample : Binding
sample = to_binding sample_impl
