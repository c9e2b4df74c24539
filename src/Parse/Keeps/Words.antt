-- ===== src/Parse/Keeps/Words.antt =====
-- Predicates on the result, in the inner loop of `RawParse`.
use joe_cli.Positional.Cursor.{set_arg-Advances}
use joe_cli.Positional.{current_name, next, set_arg}
use joe_cli.Parse.Words.{
  Attempt, Machine, end_options, is_flags_or_args, named, offer_word, record_word, recorded,
  refused, word_step, words, words_end,
}
use joe_cli.Parse.Keeps.Kept.{AttemptKeeps, IsBindable, KeepsOn, MachineKeeps, positional}
use joe_cli.Results.{BindingResult, append_output}
use joe_cli.Binding.{Binding}
use joe_cli.Common.{List, Option, Text, [], arith, get_elem?, none, refl, some, true, ◌∙◌, ◌∷◌, ◌≡◌}

module _ (b : Binding) (P : BindingResult → Type 0)
    (record_keeps : (m : BindingResult) (name label : Text) (values : List Text)
      → IsBindable b name
      → P m
      → P (append_output m name (label ∷ values))) where
  end_options-Keeps :
      (args : List Text) (m : Machine) → MachineKeeps b P m → AttemptKeeps b P (end_options args m)
  unfolding end_options next
  end_options-Keeps args m h = ground arith

  words_end-Keeps : KeepsOn b P words_end
  unfolding words_end named
  words_end-Keeps m h = ground arith

  named-Keeps :
      (o : Option Text) (k : Text → Attempt)
      → ((name : Text) → o ≡ some name → AttemptKeeps b P (k name))
      → AttemptKeeps b P (named o k)
  unfolding named
  named-Keeps none k h = tt
  named-Keeps (some name) k h = h name refl

  record_word-Keeps :
      (arg : Text) (rest : Machine → Attempt) (m : Machine)
      → MachineKeeps b P m
      → KeepsOn b P rest
      → AttemptKeeps b P (record_word arg rest m)
  unfolding record_word recorded current_name
  record_word-Keeps arg rest m h k =
      named-Keeps (get_elem? m.positional.names m.positional.index) _ λ name e.
        k _ (record_keeps m.out name _ _ (positional m.positional.index (rw h.1 at e)) h.0, h.1)

  offer_word-Keeps :
      (arg : Text) (args : List Text) (rest : Machine → Attempt) (m : Machine)
      → MachineKeeps b P m
      → KeepsOn b P rest
      → AttemptKeeps b P (offer_word arg args rest m)
  unfolding offer_word refused
  offer_word-Keeps arg args rest m h k =
      let m' = record m {
        positional = (set_arg arg args (is_flags_or_args m.state) m.positional).1;
      } in
      let s = set_arg-Advances arg args (is_flags_or_args m.state) m.positional in
      let h' : MachineKeeps b P m' = (h.0, s.same_names ∙ h.1) in
      ground (arith, record_word-Keeps arg rest m' h' k)

  word_step-Keeps :
      (arg : Text) (args : List Text) (rest : Machine → Attempt) (m : Machine)
      → MachineKeeps b P m
      → KeepsOn b P rest
      → AttemptKeeps b P (word_step arg args rest m)
  unfolding word_step
  word_step-Keeps arg args rest m h k =
      ground (arith, end_options-Keeps args m h, offer_word-Keeps arg args rest m h k)

  pub words-Keeps :
      (arg : Text) (args : List Text) (m : Machine)
      → MachineKeeps b P m
      → AttemptKeeps b P (words arg args m)
  unfolding words
  words-Keeps arg [] m h = word_step-Keeps arg [] words_end m h words_end-Keeps
  words-Keeps arg (a ∷ args) m h =
      word_step-Keeps arg (a ∷ args) _ m h
        (λ m' h'. words-Keeps a args (record m' { any_args = true }) h')
