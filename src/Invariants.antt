-- ===== src/Invariants.antt =====
-- The checks of invariants.ts on an operation and on its history.
use canton_evmcrosschain.Prelude.{
  Bool, true, false, not, Option, none, some, List, [], ◌∷◌, ◌==◌, is_blank, last?,
}
use canton_evmcrosschain.Failures.{error, Result, ok, ◌>>◌, reject_if}
use canton_evmcrosschain.Amount.{assert_positive_amount}
use canton_evmcrosschain.Model.{BridgeState, PersistedTransition, BridgeOperation, same_state}

-- `===` where a state may be null or undefined
abbrev pub same_optional_state : Option BridgeState → Option BridgeState → Bool
same_optional_state none none = true
same_optional_state (some a) (some b) = same_state a b
same_optional_state _ _ = false

-- The loop of assertTransitionChain; `previous` is undefined at index 0, and null where it is
-- compared there.
unfoldable pub check_links : Option BridgeState → List PersistedTransition → Result (Unit {0})
check_links previous [] = ok tt
check_links previous (t ∷ rest) =
    reject_if (not (same_optional_state t.from_state previous)) error
    >> check_links (some t.to_state) rest

unfoldable pub assert_transition_chain : List PersistedTransition → Result (Unit {0})
unfolding check_links
assert_transition_chain transitions = check_links none transitions

-- `latest && latest.to === state`
abbrev pub ends_in : Option PersistedTransition → BridgeState → Bool
ends_in none state = false
ends_in (some latest) state = same_state latest.to_state state

unfoldable pub assert_bridge_operation : BridgeOperation → Result (Unit {0})
assert_bridge_operation operation = do
  assert_positive_amount operation.amount
  reject_if (operation.source_network_id == operation.destination_network_id) error
  reject_if (is_blank operation.idempotency_key) error
  reject_if (not (ends_in (last? operation.transitions) operation.state)) error
