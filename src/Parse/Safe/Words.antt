-- ===== src/Parse/Safe/Words.antt =====
-- The panics of `RawParse` in its inner loop.
use joe_cli.Errors.{Error, is_hard_arg_count_err}
use joe_cli.Positional.{finish, next, set_arg}
use joe_cli.Common.{List, Text, [], arith, length, maybe_cases, true, ◌<◌, ◌∷◌, ◌≡◌}
use joe_cli.Positional.Cursor.{IsPaired, set_arg-Advances, set_arg-hard}
use joe_cli.Parse.Words.{
  Attempt, Machine, end_options, is_flags_or_args, named, offer_word, record_word, recorded,
  refused, word_step, words, words_end,
}
use joe_cli.Parse.Safe.Guards.{
  AttemptSafe, MachineSafe, NotDash, current_name-finish, current_name-lt, set_arg-IsPaired,
}

end_options-Safe :
    (args : List Text) (m : Machine) → MachineSafe args m → AttemptSafe (end_options args m)
unfolding end_options next
end_options-Safe args m h =
    maybe_cases AttemptSafe (finish m.positional) _ _ (λ _. (h.0, record { paired = h.1.paired }))
      (λ _ _. tt)

words_end-Safe : (m : Machine) → IsPaired m.positional → AttemptSafe (words_end m)
unfolding words_end named
words_end-Safe m h =
    maybe_cases AttemptSafe (finish m.positional) _ _ (λ _. (tt, h))
      (λ e f. let (name, q) = current_name-finish m.positional e h f in ground arith)

record_word-Safe :
    (arg : Text) (rest : Machine → Attempt) (m : Machine)
    → IsPaired m.positional
    → m.positional.index < length m.positional.takers
    → ((m' : Machine) → IsPaired m'.positional → AttemptSafe (rest m'))
    → AttemptSafe (record_word arg rest m)
unfolding record_word named recorded
record_word-Safe arg rest m h k r = let (name, q) = current_name-lt m.positional h k in rw q (r _ h)

refused-Safe :
    (arg : Text) (args : List Text) (rest : Machine → Attempt) (m : Machine) (e : Error)
    → NotDash arg
    → MachineSafe args m
    → is_hard_arg_count_err e ≡ true
    → AttemptSafe (refused arg args rest m e)
unfolding refused
refused-Safe arg args rest m e d h hard = ground arith

offer_word-Safe :
    (arg : Text) (args : List Text) (rest : Machine → Attempt) (m : Machine)
    → NotDash arg
    → MachineSafe args m
    → ((m' : Machine) → IsPaired m'.positional → AttemptSafe (rest m'))
    → AttemptSafe (offer_word arg args rest m)
unfolding offer_word
offer_word-Safe arg args rest m d h r =
    let flag = is_flags_or_args m.state in
    let paired = set_arg-IsPaired arg args flag m.positional h.1 in
    maybe_cases AttemptSafe (set_arg arg args flag m.positional).0 _ _
      (λ e.
        record_word-Safe arg rest _ paired
          ((set_arg-Advances arg args flag m.positional).in_range e) r)
      (λ x e.
        refused-Safe arg args rest _ x d (h.0, paired)
          (set_arg-hard arg args flag m.positional x e))

word_step-Safe :
    (arg : Text) (args : List Text) (rest : Machine → Attempt) (m : Machine)
    → NotDash arg
    → MachineSafe args m
    → ((m' : Machine) → IsPaired m'.positional → AttemptSafe (rest m'))
    → AttemptSafe (word_step arg args rest m)
unfolding word_step
word_step-Safe arg args rest m d h r =
    ground (arith, end_options-Safe args m h, offer_word-Safe arg args rest m d h r)

pub words-Safe :
    (arg : Text) (args : List Text) (m : Machine)
    → NotDash arg
    → MachineSafe args m
    → AttemptSafe (words arg args m)
unfolding words
words-Safe arg [] m d h = word_step-Safe arg [] words_end m d h words_end-Safe
words-Safe arg (a ∷ args) m d h = word_step-Safe arg (a ∷ args) _ m d h λ m' p.
    words-Safe a args (record m' { any_args = true }) h.0.0 (h.0.1, record { paired = p.paired })
