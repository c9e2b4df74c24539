-- ===== src/Parse/Terminates/Words.antt =====
-- The bounds for the inner loop of `RawParse`.
use joe_cli.Common.{
  List, Option, Text, [], arith, false, length, none, some, true, ℕ, ◌<◌, ◌∷◌, ◌≡◌, ◌≤◌,
}
use joe_cli.Positional.{current_name, set_arg}
use joe_cli.Parse.Words.{
  Attempt, Machine, ParserState, end_options, is_did_pushback_arg, is_flags_or_args, named,
  offer_word, record_word, recorded, refused, word_step, words, words_end,
}
use joe_cli.Parse.Terminates.Measure.{WordsBound}

words_end-WordsBound : (n : ℕ) (s : ParserState) (m : Machine) → WordsBound n s (words_end m)
unfolding words_end named
words_end-WordsBound n s m = ground arith

end_options-WordsBound :
    (n : ℕ) (s : ParserState) (args : List Text) (m : Machine)
    → length args ≤ n
    → WordsBound n s (end_options args m)
unfolding end_options
end_options-WordsBound n s args m h = ground arith

-- What follows a recorded word starts in another state than the pushed back one.
abbrev Follows : ℕ → ParserState → (Machine → Attempt) → Type 0
Follows n s rest = (m : Machine) → is_did_pushback_arg m.state ≡ false → WordsBound n s (rest m)

named-WordsBound :
    (n : ℕ) (s : ParserState) (o : Option Text) (k : Text → Attempt)
    → ((name : Text) → WordsBound n s (k name))
    → WordsBound n s (named o k)
unfolding named
named-WordsBound n s none k h = tt
named-WordsBound n s (some name) k h = h name

record_word-WordsBound :
    (n : ℕ) (s : ParserState) (arg : Text) (rest : Machine → Attempt) (m : Machine)
    → Follows n s rest
    → WordsBound n s (record_word arg rest m)
unfolding record_word recorded
record_word-WordsBound n s arg rest m k =
    named-WordsBound n s (current_name m.positional) _ (λ name. k _ (ground arith))

offer_word-WordsBound :
    (n : ℕ) (arg : Text) (args : List Text) (rest : Machine → Attempt) (m : Machine)
    → length args ≤ n
    → Follows n m.state rest
    → WordsBound n m.state (offer_word arg args rest m)
unfolding offer_word refused
offer_word-WordsBound n arg args rest m h k =
    let m' = record m {
      positional = (set_arg arg args (is_flags_or_args m.state) m.positional).1;
    } in
    ground (arith, record_word-WordsBound n m.state arg rest m' k)

word_step-WordsBound :
    (n : ℕ) (arg : Text) (args : List Text) (rest : Machine → Attempt) (m : Machine)
    → length args ≤ n
    → Follows n m.state rest
    → WordsBound n m.state (word_step arg args rest m)
unfolding word_step
word_step-WordsBound n arg args rest m h k =
    ground (
      arith,
      end_options-WordsBound n m.state args m h,
      offer_word-WordsBound n arg args rest m h k,
    )

WordsBound-mono :
    (n k : ℕ) (s t : ParserState) (x : Attempt) → k < n → WordsBound k t x → WordsBound n s x
WordsBound-mono n k s t x h b = ground arith

pub words-WordsBound :
    (n : ℕ) (arg : Text) (args : List Text) (m : Machine)
    → length args ≤ n
    → WordsBound n m.state (words arg args m)
unfolding words
words-WordsBound n arg [] m h =
    word_step-WordsBound n arg [] words_end m h (λ m' _. words_end-WordsBound n m.state m')
words-WordsBound n arg (a ∷ args) m h = word_step-WordsBound n arg (a ∷ args) _ m h λ m' _.
    WordsBound-mono n (length args) m.state m'.state _ h
      (words-WordsBound (length args) a args (record m' { any_args = true }) (omega arith))
