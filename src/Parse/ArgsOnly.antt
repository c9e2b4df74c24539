-- ===== src/Parse/ArgsOnly.antt =====
-- `RawParse` (set.go) in the state `argsOnly`, which `RawSkipFlagParsing` starts in.
use joe_cli.Common.{
  List, Option, Text, [], arith, none, refl, some, suc, sym, true, zero, ℕ, ◌∷◌, ◌≡◌,
}
use joe_cli.Errors.{Error}
use joe_cli.Binding.{Binding}
use joe_cli.Positional.{ArgBinding, current_name, new_arg_binding, set_arg, takers_of}
use joe_cli.Parse.Mode.{skip_flag_parsing}
use joe_cli.Parse.Words.{
  Attempt, Exit, Machine, ParserState, args_only, continue_parsing, end_options, exit,
  is_flags_or_args, named, not_argument, offer_word, panics, record_word, recorded, refused,
  returns, word_step, words, words_end,
}
use joe_cli.Parse.Loop.{
  Outcome, after_skip, after_words, enough_fuel, is_word, parse_word, parsing, raw_parse, resume,
  right_to_left_skip, start,
}

-- The binding without its options: no alias resolves.
abbrev pub without_options : Binding → Binding
without_options b = record b { resolve_alias = λ _. none; numeric = [] }

-- The attempt ends the round, and the state stays.
abbrev Stays : Attempt → Type 0
Stays (exit (continue_parsing args m)) = m.state ≡ args_only
Stays (exit _) = Unit
Stays (not_argument arg args m) = ⊥

abbrev StaysOn : (Machine → Attempt) → Type 0
StaysOn rest = (m : Machine) → m.state ≡ args_only → Stays (rest m)

words_end-Stays : StaysOn words_end
unfolding words_end named
words_end-Stays m h = ground (arith, h)

end_options-Stays : (args : List Text) (m : Machine) → Stays (end_options args m)
unfolding end_options
end_options-Stays args m = ground arith

named-Stays :
    (o : Option Text) (k : Text → Attempt) → ((n : Text) → Stays (k n)) → Stays (named o k)
unfolding named
named-Stays none k h = tt
named-Stays (some n) k h = h n

record_word-Stays :
    (arg : Text) (rest : Machine → Attempt) (m : Machine)
    → StaysOn rest
    → m.state ≡ args_only
    → Stays (record_word arg rest m)
unfolding record_word recorded
record_word-Stays arg rest m r h =
    named-Stays (current_name m.positional) _ (λ n. r _ (ground (arith, h)))

offer_word-Stays :
    (arg : Text) (args : List Text) (rest : Machine → Attempt) (m : Machine)
    → StaysOn rest
    → m.state ≡ args_only
    → Stays (offer_word arg args rest m)
unfolding offer_word refused
offer_word-Stays arg args rest m r h =
    let m' = record m {
      positional = (set_arg arg args (is_flags_or_args m.state) m.positional).1;
    } in
    ground (arith, h, record_word-Stays arg rest m' r h)

word_step-Stays :
    (arg : Text) (args : List Text) (rest : Machine → Attempt) (m : Machine)
    → StaysOn rest
    → m.state ≡ args_only
    → Stays (word_step arg args rest m)
unfolding word_step
word_step-Stays arg args rest m r h =
    ground (arith, end_options-Stays args m, offer_word-Stays arg args rest m r h)

words-Stays : (arg : Text) (args : List Text) → StaysOn (words arg args)
unfolding words
words-Stays arg [] m h = word_step-Stays arg [] words_end m words_end-Stays h
words-Stays arg (a ∷ args) m h =
    word_step-Stays arg (a ∷ args) _ m
      (λ m' h'. words-Stays a args (record m' { any_args = true }) h') h

abbrev ExitStays : Exit → Type 0
ExitStays (continue_parsing args m) = m.state ≡ args_only
ExitStays _ = Unit

after_words-args_only :
    (b : Binding) (flags : ℕ) (x : Attempt)
    → Stays x
    → ExitStays (after_words b flags x)
      × (after_words b flags x ≡ after_words (without_options b) flags x)
unfolding after_words
after_words-args_only b flags (exit (continue_parsing args m)) h = (h, refl)
after_words-args_only b flags (exit (returns out e)) h = (tt, refl)
after_words-args_only b flags (exit panics) h = (tt, refl)
after_words-args_only b flags (not_argument arg args m) h = absurd h

parse_word-args_only :
    (b : Binding) (flags : ℕ) (arg : Text) (args : List Text) (m : Machine)
    → m.state ≡ args_only
    → ExitStays (parse_word b flags arg args m)
      × (parse_word b flags arg args m ≡ parse_word (without_options b) flags arg args m)
unfolding parse_word is_word
parse_word-args_only b flags arg args m h =
    rw (word arg m.state h)
      (after_words-args_only b flags (words arg args m) (words-Stays arg args m h))
  where
    word : (arg : Text) (s : ParserState) → s ≡ args_only → is_word arg s ≡ true
    word arg s h = ground (arith, h)

resume-args_only :
    (r r' : List Text → Machine → Outcome) (e e' : Exit)
    → e ≡ e'
    → ExitStays e
    → ((args : List Text) (m : Machine) → m.state ≡ args_only → r args m ≡ r' args m)
    → resume r e ≡ resume r' e'
resume-args_only r r' (continue_parsing args m) e' p h k = rw (sym p) (k args m h)
resume-args_only r r' (returns out e) e' p h k = rw (sym p)
resume-args_only r r' panics e' p h k = rw (sym p)

parsing-args_only :
    (b : Binding) (flags fuel : ℕ) (args : List Text) (m : Machine)
    → m.state ≡ args_only
    → parsing b flags fuel args m ≡ parsing (without_options b) flags fuel args m
unfolding parsing
parsing-args_only b flags fuel [] m h = refl
parsing-args_only b flags zero (arg ∷ args) m h = refl
parsing-args_only b flags (suc fuel) (arg ∷ args) m h =
    let (stays, same) = parse_word-args_only b flags arg args m h in
    resume-args_only _ _ _ _ same stays (λ args' m' h'. parsing-args_only b flags fuel args' m' h')

after_skip-args_only :
    (arguments : List Text) (b : Binding) (flags : ℕ) (args : List Text)
    (skipped : Option Error × ArgBinding)
    → skip_flag_parsing flags ≡ true
    → after_skip arguments b flags args skipped
      ≡ after_skip arguments (without_options b) flags args skipped
after_skip-args_only arguments b flags args (some e, a) h = refl
after_skip-args_only arguments b flags args (none, a) h =
    parsing-args_only b flags (enough_fuel args) args (start arguments flags a) (rw h refl)

-- With RawSkipFlagParsing, RawParse gives what it gives for the same binding without options, in
-- which no alias resolves and no option is numeric.
pub raw_parse-without_options :
    (arguments : List Text) (b : Binding) (flags : ℕ)
    → skip_flag_parsing flags ≡ true
    → raw_parse arguments b flags ≡ raw_parse arguments (without_options b) flags
unfolding raw_parse new_arg_binding takers_of
raw_parse-without_options arguments b flags h =
    after_skip-args_only arguments b flags _
      (right_to_left_skip flags arguments (new_arg_binding b)) h
