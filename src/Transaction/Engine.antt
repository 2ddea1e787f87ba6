-- ===== src/Transaction/Engine.antt =====
-- DurableTransactionEngine of transaction-engine.ts: the checks in front of the store.
use canton_evmcrosschain.Prelude.{
  Bool, true, false, not, ◌&&◌, ◌||◌, Option, none, some, ◌==◌, leb, ltb, max_safe_integer, is_some,
  is_blank, if◌then◌else◌, concat,
}
use canton_evmcrosschain.Failures.{
  registry, invalid_argument, not_found, conflict, Result, ok, err, ◌>>=◌, ◌>>◌, reject_if, require,
  Exec, transaction,
}
use canton_evmcrosschain.Dates.{Dates, time_le}
use canton_evmcrosschain.Amount.{assert_positive_amount}
use canton_evmcrosschain.Model.{
  BridgeState, created, policy_checked, policy_rejected, PolicyOutcome, allow, PolicyDecision,
  PersistedTransition, BridgeOperation, same_state,
}
use canton_evmcrosschain.Transaction.States.{can_transition}
use canton_evmcrosschain.Transaction.Store
use canton_evmcrosschain.Transaction.Store.{
  CreateBridgeOperation, TransitionCommand, Database, load, find_transition, append,
}

-- The checks of `create`. A date that does not parse is compared as NaN.
unfoldable pub check_create : Dates → CreateBridgeOperation → Result (Unit {0})
check_create dates input = do
  assert_positive_amount input.amount
  reject_if (input.source_network_id == input.destination_network_id) (registry invalid_argument)
  reject_if (is_blank input.idempotency_key || is_blank input.actor) (registry invalid_argument)
  reject_if
      (not (is_some (dates.parse input.created_at))
        || time_le (dates.parse input.expires_at) (dates.parse input.created_at))
      (registry invalid_argument)

unfoldable pub initial_transition : CreateBridgeOperation → PersistedTransition
initial_transition input = record {
  from_state = none;
  to_state = created;
  occurred_at = input.created_at;
  reason = "operation created";
  actor = input.actor;
  transition_key = concat input.id ":created";
  sequence = 0;
  attempt = 1;
}

unfoldable pub create_body :
    Dates → CreateBridgeOperation → Database → Result (BridgeOperation × Database)
create_body dates input db =
    check_create dates input >> Store.create input (initial_transition input) db

unfoldable pub create : Dates → CreateBridgeOperation → Exec Database BridgeOperation
create dates input = transaction (create_body dates input)

abbrev pub is_allow : PolicyOutcome → Bool
is_allow allow = true
is_allow _ = false

-- `decision && decision.outcome === "ALLOW"`
abbrev pub allowed : Option PolicyDecision → Bool
allowed none = false
allowed (some decision) = is_allow decision.outcome

-- `decision && decision.outcome !== "ALLOW"`
abbrev pub refused : Option PolicyDecision → Bool
refused none = false
refused (some decision) = not (is_allow decision.outcome)

-- The two checks that tie the policy states to a decision.
unfoldable pub check_decision : TransitionCommand → Result (Unit {0})
check_decision command = do
  reject_if (same_state command.to policy_checked && not (allowed command.policy_decision))
      (registry invalid_argument)
  reject_if (same_state command.to policy_rejected && not (refused command.policy_decision))
      (registry invalid_argument)

-- `existing?.to === command.to`
abbrev pub reached : Option PersistedTransition → BridgeState → Bool
reached none to = false
reached (some existing) to = same_state existing.to_state to

-- `transition` for an operation that was found. A transition that is not legal any more is
-- answered by the operation as it is, if its key has made it before.
unfoldable pub transition_found :
    TransitionCommand → BridgeOperation → Database → Result (BridgeOperation × Database)
unfolding check_decision
transition_found command operation db =
    if can_transition operation.state command.to
    then (check_decision command >> append command db)
    else if reached (find_transition command.operation_id command.transition_key db) command.to
    then ok (operation, db)
    else err (registry conflict)

-- `transition`: its reads, and `append` at the end, which is the one write.
unfoldable pub transition_body : TransitionCommand → Database → Result (BridgeOperation × Database)
transition_body command db = do
  reject_if (is_blank command.transition_key || is_blank command.actor || is_blank command.reason)
      (registry invalid_argument)
  reject_if (leb command.attempt 0 || ltb max_safe_integer command.attempt)
      (registry invalid_argument)
  operation ← require (load command.operation_id db) (registry not_found)
  transition_found command operation db

unfoldable pub transition : TransitionCommand → Exec Database BridgeOperation
transition command = transaction (transition_body command)
