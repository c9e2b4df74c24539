-- ===== src/Positional/Cursor.antt =====
-- set.go: the cursor over the counters that `SetArg` moves.
use joe_cli.Common.{
  Bool, Bool-cases, List, Option, Text, arith, inl, inr, length, length-set, lt-get_elem?, none,
  refl, some, suc, true, zero, ℕ, ◌-◌, ◌<◌, ◌∙◌, ◌≡◌, ◌≤◌,
}
use joe_cli.Errors.{Error, is_hard_arg_count_err}
use joe_cli.Counters.{Counter, take}
use joe_cli.Positional.{
  ArgBinding, answered, current, next, offered, put_current, set_arg, set_arg_loop,
}

-- a cursor with a name for each taker
pub record IsPaired (a : ArgBinding) : Type 0 where
  pub paired : length a.names ≡ length a.takers

pub names-put_current : (a : ArgBinding) (c : Counter) → (put_current a c).names ≡ a.names
unfolding put_current
names-put_current a c = refl

pub put_current-IsPaired : (a : ArgBinding) (c : Counter) → IsPaired a → IsPaired (put_current a c)
unfolding put_current
put_current-IsPaired a c h = record {
  paired = omega (arith, h.paired, length-set a.takers a.index c);
}

-- `SetArg` leaves the names, keeps the pairing, and moves forward; where it accepts the word, a
-- taker is current.
pub record Advances (a a' : ArgBinding) (e : Option Error) : Type 0 where
  pub same_names : a'.names ≡ a.names
  pub same_length : length a'.takers ≡ length a.takers
  pub forward : a.index ≤ a'.index
  pub in_range : e ≡ none → a'.index < length a'.takers

abbrev Result : Type 0
Result = Option Error × ArgBinding

abbrev Advancing : ArgBinding → Result → Type 0
Advancing a r = Advances a r.1 r.0

Advances-next : {a a' : ArgBinding} {e : Option Error} → Advances (next a) a' e → Advances a a' e
unfolding next
Advances-next h = record {
  same_names = h.same_names;
  same_length = h.same_length;
  forward = omega (arith, h.forward);
  in_range = h.in_range;
}

Advances-put_current :
    (a : ArgBinding) (c : Counter) {a' : ArgBinding} {e : Option Error}
    → Advances (put_current a c) a' e
    → Advances a a' e
unfolding put_current
Advances-put_current a c h = record {
  same_names = h.same_names;
  same_length = h.same_length ∙ length-set a.takers a.index c;
  forward = h.forward;
  in_range = h.in_range;
}

Advances-refl : (a : ArgBinding) (e : Error) → Advances a a (some e)
Advances-refl a e = record {
  same_names = refl;
  same_length = refl;
  forward = omega arith;
  in_range = λ p. absurd (ground arith);
}

Advances-accept : (a : ArgBinding) → a.index < length a.takers → Advances a a none
Advances-accept a h = record {
  same_names = refl;
  same_length = refl;
  forward = omega arith;
  in_range = λ _. h;
}

pub current-lt : (a : ArgBinding) {t : Counter} → current a ≡ some t → a.index < length a.takers
unfolding current
current-lt a h = lt-get_elem? a.takers a.index h

answered-Advances :
    (e : Option Error) (again : ArgBinding → Result) (a : ArgBinding)
    → a.index < length a.takers
    → ((b : ArgBinding) → Advancing b (again b))
    → Advancing a (answered e again a)
unfolding answered
answered-Advances none again a h ih = Advances-accept a h
answered-Advances (some e) again a h ih = elim (Bool-cases (is_hard_arg_count_err e)) [
  | inl hard ↦ rw hard (Advances-refl a e)
  | inr soft ↦ rw soft (Advances-next (ih (next a)))
]

index-put_current :
    (a : ArgBinding) (c : Counter)
    → a.index < length a.takers
    → (put_current a c).index < length (put_current a c).takers
unfolding put_current
index-put_current a c h = omega (arith, length-set a.takers a.index c)

offered-Advances :
    (o : Option Counter) (arg : Text) (remainder : List Text) (possible_flag : Bool)
    (again : ArgBinding → Result) (a : ArgBinding)
    → current a ≡ o
    → ((b : ArgBinding) → Advancing b (again b))
    → Advancing a (offered o arg remainder possible_flag again a)
unfolding offered
offered-Advances none arg remainder possible_flag again a c ih = Advances-refl a _
offered-Advances (some t) arg remainder possible_flag again a c ih =
    let (e, t') = take t arg possible_flag in
    Advances-put_current a t'
      (answered-Advances e again (put_current a t') (index-put_current a t' (current-lt a c)) ih)

set_arg_loop-Advances :
    (rounds : ℕ) (arg : Text) (remainder : List Text) (possible_flag : Bool) (a : ArgBinding)
    → Advancing a (set_arg_loop rounds arg remainder possible_flag a)
unfolding set_arg_loop
set_arg_loop-Advances zero arg remainder possible_flag a = Advances-refl a _
set_arg_loop-Advances (suc rounds) arg remainder possible_flag a =
    offered-Advances (current a) arg remainder possible_flag _ a refl
      (set_arg_loop-Advances rounds arg remainder possible_flag)

-- SetArg leaves the names and the number of the takers, and does not move back; where it accepts
-- the word, a taker is current.
pub set_arg-Advances :
    (arg : Text) (remainder : List Text) (possible_flag : Bool) (a : ArgBinding)
    → Advances a (set_arg arg remainder possible_flag a).1 (set_arg arg remainder possible_flag a).0
unfolding set_arg
set_arg-Advances arg remainder possible_flag a =
    set_arg_loop-Advances (length a.takers - a.index) arg remainder possible_flag a

abbrev Hard : Option Error → Type 0
Hard none = Unit
Hard (some e) = is_hard_arg_count_err e ≡ true

answered-Hard :
    (e : Option Error) (again : ArgBinding → Result) (a : ArgBinding)
    → ((b : ArgBinding) → Hard (again b).0)
    → Hard (answered e again a).0
unfolding answered
answered-Hard none again a h = tt
answered-Hard (some e) again a h = elim (Bool-cases (is_hard_arg_count_err e)) [
  | inl hard ↦ rw hard hard
  | inr soft ↦ rw soft (h (next a))
]

offered-Hard :
    (o : Option Counter) (arg : Text) (remainder : List Text) (possible_flag : Bool)
    (again : ArgBinding → Result) (a : ArgBinding)
    → ((b : ArgBinding) → Hard (again b).0)
    → Hard (offered o arg remainder possible_flag again a).0
unfolding offered is_hard_arg_count_err
offered-Hard none arg remainder possible_flag again a h = refl
offered-Hard (some t) arg remainder possible_flag again a h = answered-Hard _ again _ h

set_arg_loop-Hard :
    (rounds : ℕ) (arg : Text) (remainder : List Text) (possible_flag : Bool) (a : ArgBinding)
    → Hard (set_arg_loop rounds arg remainder possible_flag a).0
unfolding set_arg_loop is_hard_arg_count_err
set_arg_loop-Hard zero arg remainder possible_flag a = refl
set_arg_loop-Hard (suc rounds) arg remainder possible_flag a =
    offered-Hard (current a) arg remainder possible_flag _ a
      (set_arg_loop-Hard rounds arg remainder possible_flag)

-- An error of `SetArg` is never the signal that a counter has taken enough.
pub set_arg-hard :
    (arg : Text) (remainder : List Text) (possible_flag : Bool) (a : ArgBinding) (e : Error)
    → (set_arg arg remainder possible_flag a).0 ≡ some e
    → is_hard_arg_count_err e ≡ true
unfolding set_arg
set_arg-hard arg remainder possible_flag a e h =
    rw h at (set_arg_loop-Hard (length a.takers - a.index) arg remainder possible_flag a)
