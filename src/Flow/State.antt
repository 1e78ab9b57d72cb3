-- ===== src/Flow/State.antt =====
-- selfservice/flow/recovery/state.go: the states of a recovery flow. The file of the same name in
-- selfservice/flow/verification is equal to it but for the package.
use kratos.Base.{ℕ, zero, suc, ◌+◌, ◌≡◌, refl, String, Bool, true, false}
use kratos.Base.{
  List, [], ◌∷◌, if◌then◌else◌, ◌==◌, nat_eq, string_eq, leb, arith, Bool-cases, inl, inr,
}
use kratos.Base.{Result, ok, err, panic}

-- A state is a string, which the database may hold in any form.
abbrev pub state_choose_method : String
state_choose_method = "choose_method"

abbrev pub state_email_sent : String
state_email_sent = "sent_email"

abbrev pub state_passed_challenge : String
state_passed_challenge = "passed_challenge"

abbrev pub states : List String
states = state_choose_method ∷ state_email_sent ∷ state_passed_challenge ∷ []

-- The loop over the states from index `k` on.
abbrev pub index_from : (k : ℕ) → String → List String → ℕ
index_from k current [] = 0
index_from k current (s ∷ ss) =
    let rest = index_from (suc k) current ss in if s == current then k else rest

unfoldable pub index_of : String → ℕ
index_of current = index_from 0 current states

unfoldable pub has_reached_state : (expected actual : String) → Bool
has_reached_state expected actual = leb (index_of expected) (index_of actual)

-- An index out of range is a panic.
abbrev pub get : List String → ℕ → Result String
get [] n = err panic
get (x ∷ xs) zero = ok x
get (x ∷ xs) (suc n) = get xs n

unfoldable pub next_state : String → Result String
next_state current =
    if current == state_passed_challenge
    then ok state_passed_challenge
    else get states (index_of current + 1)

data IsState (s : String) : Type 0 where
  is_sent : s ≡ state_email_sent → IsState s
  is_passed : s ≡ state_passed_challenge → IsState s
  is_first : (index_of s ≡ 0) → ((s == state_passed_challenge) ≡ false) → IsState s

IsState-cases : (s : String) → IsState s
unfolding index_of
IsState-cases s = elim (Bool-cases (s == state_email_sent)) [
  | inl sent ↦ is_sent ((string_eq.beq_iff s state_email_sent).0 sent)
  | inr unsent ↦ elim (Bool-cases (s == state_passed_challenge)) [
    | inl passed ↦ is_passed ((string_eq.beq_iff s state_passed_challenge).0 passed)
    | inr other ↦
        is_first
          (ground (
            arith,
            string_eq.beq_iff s state_email_sent,
            string_eq.beq_iff state_email_sent s,
            string_eq.beq_iff s state_passed_challenge,
            string_eq.beq_iff state_passed_challenge s,
            unsent,
            other,
          ))
          other
  ]
]

leb_zero : (n : ℕ) → leb 0 n ≡ true
leb_zero n = ground arith

from_sent :
    (next_state state_email_sent ≡ ok state_passed_challenge)
    × (has_reached_state state_email_sent state_passed_challenge ≡ true)
unfolding next_state has_reached_state index_of
from_sent = (refl, refl)

from_passed :
    (next_state state_passed_challenge ≡ ok state_passed_challenge)
    × (has_reached_state state_passed_challenge state_passed_challenge ≡ true)
unfolding next_state has_reached_state index_of
from_passed = (refl, refl)

from_first :
    (s : String)
    → index_of s ≡ 0
    → (s == state_passed_challenge) ≡ false
    → (next_state s ≡ ok state_email_sent) × (has_reached_state s state_email_sent ≡ true)
unfolding next_state has_reached_state
from_first s h k =
    (rw (k, next_state, h) refl, rw (has_reached_state, h) (leb_zero (index_of state_email_sent)))

-- The next state exists for every string, also for one that is no state, and the flow has then
-- reached the state it was in. Two steps lead from any string to the challenge passed, where a
-- further step stays.
next_state_lem :
    (s : String)
    → (t : String) × (next_state s ≡ ok t)
      × (has_reached_state s t ≡ true)
      × (u : String) × (next_state t ≡ ok u)
      × (u ≡ state_passed_challenge)
      × (next_state u ≡ ok state_passed_challenge)
next_state_lem s = elim (IsState-cases s) [
  | is_sent h ↦ rw h (
    state_passed_challenge, from_sent.0, from_sent.1, state_passed_challenge, from_passed.0, refl,
    from_passed.0,
  )
  | is_passed h ↦ rw h (
    state_passed_challenge, from_passed.0, from_passed.1, state_passed_challenge, from_passed.0,
    refl, from_passed.0,
  )
  | is_first h k ↦
      let (next, reached) = from_first s h k in
      (state_email_sent, next, reached, state_passed_challenge, from_sent.0, refl, from_passed.0)
]
