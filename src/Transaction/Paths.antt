-- ===== src/Transaction/Paths.antt =====
-- Every legal transition goes forward in BRIDGE_STATES, so a history of an operation is short.
use canton_evmcrosschain.Prelude.{
  ℕ, zero, suc, ◌+◌, ◌≤◌, ◌<◌, ◌≡◌, refl, Bool, true, false, not, ◌&&◌, ◌||◌, List, [], ◌∷◌, arith,
  ltb, leb, eqb, all, length, get_elem?, Option, none, some, Bool-cases, inl, inr, ltb_iff,
}
use canton_evmcrosschain.Model.{
  BridgeState, created, source_preparing, source_submitted, source_confirmed, attestation_pending,
  destination_preparing, destination_submitted, destination_confirmed, reconciliation_pending,
  policy_rejected, source_failed, attestation_failed, destination_failed, reconciliation_failed,
  expired, manual_review, bridge_states, position, get_elem?-position, same_state,
}
use canton_evmcrosschain.Transaction.States.{is_terminal, can_transition}

module _ (p : BridgeState → Bool) where
  all_sound :
      (states : List BridgeState) (i : ℕ) (s : BridgeState)
      → all p states ≡ true
      → get_elem? states i ≡ some s
      → p s ≡ true
  all_sound [] i s h e = cc
  all_sound (t ∷ states) zero s h e = ground arith
  all_sound (t ∷ states) (suc i) s h e = all_sound states i s (ground arith) e

  -- What holds of each entry of BRIDGE_STATES holds of each state.
  every_state : (s : BridgeState) → all p bridge_states ≡ true → p s ≡ true
  every_state s h = all_sound bridge_states (position s) s h (get_elem?-position s)

module _ (p : BridgeState → BridgeState → Bool) where
  every_pair :
      (a b : BridgeState) → all (λ x. all (p x) bridge_states) bridge_states ≡ true → p a b ≡ true
  every_pair a b h = every_state (p a) b (every_state (λ x. all (p x) bridge_states) a h)

abbrev same_answer : Bool → Bool → Bool
same_answer true b = b
same_answer false b = not b

same_answer-eq : (a b : Bool) → same_answer a b ≡ true → a ≡ b
same_answer-eq a b h = ground arith

terminal_table : all (λ s. same_answer (is_terminal s) (leb 14 (position s))) bridge_states ≡ true
unfolding is_terminal position
terminal_table = refl

-- The terminal states are the last eight of BRIDGE_STATES.
pub is_terminal-eq : (s : BridgeState) → is_terminal s ≡ leb 14 (position s)
is_terminal-eq s =
    same_answer-eq _ _
      (every_state (λ s. same_answer (is_terminal s) (leb 14 (position s))) s terminal_table)

-- The failure that a step of the happy path can end in.
unfoldable pub failure_of : BridgeState → Option BridgeState
failure_of created = some policy_rejected
failure_of source_preparing = some source_failed
failure_of source_submitted = some source_failed
failure_of source_confirmed = some source_failed
failure_of attestation_pending = some attestation_failed
failure_of destination_preparing = some destination_failed
failure_of destination_submitted = some destination_failed
failure_of destination_confirmed = some destination_failed
failure_of reconciliation_pending = some reconciliation_failed
failure_of _ = none

is_failure : Option BridgeState → BridgeState → Bool
is_failure none to = false
is_failure (some f) to = same_state f to

-- The lifecycle without the table: from one of the first fourteen states to the next of
-- BRIDGE_STATES, to the failure of the phase, to `expired` or to `manual_review`.
unfoldable pub is_step : BridgeState → BridgeState → Bool
unfolding failure_of is_failure same_state position
is_step from to =
    leb (position from) 13
    && (eqb (position to) (position from + 1)
        || is_failure (failure_of from) to
        || same_state to expired
        || same_state to manual_review)

step_table :
    all (λ a. all (λ b. same_answer (can_transition a b) (is_step a b)) bridge_states) bridge_states
    ≡ true
unfolding can_transition is_step
step_table = refl

-- The table of legal transitions allows exactly the steps of the lifecycle: none from the last
-- eight states; from the others the next state in order, the failure of the phase, `expired` and
-- `manual_review`.
pub can_transition-eq-is_step : (from to : BridgeState) → can_transition from to ≡ is_step from to
can_transition-eq-is_step from to =
    same_answer-eq _ _
      (every_pair (λ a b. same_answer (can_transition a b) (is_step a b)) from to step_table)

abbrev implies : Bool → Bool → Bool
implies a b = not a || b

implies_elim : (a b : Bool) → implies a b ≡ true → a ≡ true → b ≡ true
implies_elim a b h k = ground arith

abbrev goes_forward : BridgeState → BridgeState → Bool
goes_forward from to = implies (can_transition from to) (ltb (position from) (position to))

goes_forward_table : all (λ from. all (goes_forward from) bridge_states) bridge_states ≡ true
unfolding can_transition position
goes_forward_table = refl

-- A legal transition leads to a later place of BRIDGE_STATES.
pub can_transition-position-lt :
    (from to : BridgeState) → can_transition from to ≡ true → position from < position to
can_transition-position-lt from to h =
    (ltb_iff _ _).0 (implies_elim _ _ (every_pair goes_forward from to goes_forward_table) h)

-- No transition leaves a terminal state.
pub can_transition_terminal :
    (from to : BridgeState) → is_terminal from ≡ true → can_transition from to ≡ false
unfolding can_transition
can_transition_terminal from to h = rw h

-- The states that an operation takes one after the other, each by a legal transition.
abbrev pub IsRun : BridgeState → List BridgeState → Type 0
IsRun s [] = Unit
IsRun s (t ∷ ts) = (can_transition s t ≡ true) × IsRun t ts

run_from_terminal :
    (s : BridgeState) (ts : List BridgeState) → is_terminal s ≡ true → IsRun s ts → length ts ≡ 0
run_from_terminal s [] h r = refl
run_from_terminal s (t ∷ ts) h r = cc (can_transition_terminal s t h)

run_bound :
    (s : BridgeState) (ts : List BridgeState)
    → is_terminal s ≡ false
    → IsRun s ts
    → length ts + position s ≤ 14
run_bound s [] h r = ground (arith, is_terminal-eq s)
run_bound s (t ∷ ts) h r = elim (Bool-cases (is_terminal t)) [
  | inl end ↦ ground (arith, run_from_terminal t ts end r.1, is_terminal-eq s)
  | inr more ↦ ground (arith, run_bound t ts more r.1, can_transition-position-lt s t r.0)
]

-- An operation makes at most fourteen transitions after its creation.
pub run-length-le : (ts : List BridgeState) → IsRun created ts → length ts ≤ 14
unfolding is_terminal position
run-length-le ts r = omega (arith, run_bound created ts refl r)
