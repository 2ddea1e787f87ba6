-- ===== src/Transaction/Tests.antt =====
-- Runs of the engine on concrete inputs, and the theorems at such inputs.
use canton_evmcrosschain.Prelude.{
  ◌≡◌, refl, true, none, some, List, [], ◌∷◌, arith, is_blank, concat,
}
use canton_evmcrosschain.Failures.{ok, err, registry, conflict}
use canton_evmcrosschain.Samples.{any_time, numbered, input}
use canton_evmcrosschain.Amount.{parse_atomic_amount, assert_positive_amount}
use canton_evmcrosschain.Model.{
  created, policy_checked, manual_review, PolicyDecision, allow, BridgeOperation, position,
}
use canton_evmcrosschain.Transaction.States.{can_transition}
use canton_evmcrosschain.Transaction.Paths.{is_step, can_transition-eq-is_step}
use canton_evmcrosschain.Transaction.Store.{
  CreateBridgeOperation, TransitionCommand, Database, load, append, find_row, find_transition,
  violates, appended_row, update_rows, updated_operation,
}
use canton_evmcrosschain.Transaction.Store
use canton_evmcrosschain.Transaction.Engine.{
  create, create_body, transition, transition_body, transition_found, check_create, check_decision,
  initial_transition,
}
use canton_evmcrosschain.Transaction.Consistency.{empty}
use canton_evmcrosschain.Transaction.Sound.{IsSound, empty-IsSound}
use canton_evmcrosschain.Transaction.Durability.{
  Call, create_call, transition_call, call, run_calls, run_calls-IsSound,
}
use canton_evmcrosschain.Transaction.Audit.{IsAudited, run_calls-IsAudited}
use canton_evmcrosschain.Transaction.Retry.{IsRepeated, transition_retry, append_stale}
use canton_evmcrosschain.Transaction.Appending.{after_append, appended_operation}
use canton_evmcrosschain.Transaction.Progress.{append_progress}

abbrev decision : PolicyDecision
decision = record {
  outcome = allow;
  reason_codes = [];
  policy_id = "IW:POLICY:1";
  policy_version = "1";
  decided_at = "101";
  matched_rule_ids = [];
}

abbrev check_policy : TransitionCommand
check_policy = record {
  operation_id = "IW:BRIDGE:1";
  transition_key = "IW:BRIDGE:1:POLICY_CHECKED";
  expected_version = 0;
  to = policy_checked;
  occurred_at = "102";
  reason = "policy evaluated";
  actor = "coordinator";
  attempt = 1;
  policy_decision = some decision;
}

-- Another command against the same version.
abbrev review : TransitionCommand
review = record check_policy { transition_key = "review"; to = manual_review }

abbrev after_creation : Database
after_creation = run_calls numbered (create_call input ∷ []) (empty any_time)

abbrev two_calls : List Call
two_calls = create_call input ∷ transition_call check_policy ∷ []

abbrev checked : BridgeOperation
checked = record {
  id = "IW:BRIDGE:1";
  idempotency_key = "key-1";
  asset_id = "IW:ASSET:1";
  source_network_id = "IW:NETWORK:canton";
  destination_network_id = "IW:NETWORK:evm";
  sender = "IW:IDENTITY:a";
  receiver = "IW:IDENTITY:b";
  amount = "250";
  state = policy_checked;
  policy_decision = some decision;
  transitions =
      record {
        from_state = none;
        to_state = created;
        occurred_at = "100";
        reason = "operation created";
        actor = "api";
        transition_key = "IW:BRIDGE:1:created";
        sequence = 0;
        attempt = 1;
      }
      ∷ record {
        from_state = some created;
        to_state = policy_checked;
        occurred_at = "102";
        reason = "policy evaluated";
        actor = "coordinator";
        transition_key = "IW:BRIDGE:1:POLICY_CHECKED";
        sequence = 1;
        attempt = 1;
      }
      ∷ [];
  expires_at = "200";
  created_at = "100";
  version = 1;
}

-- Opens the engine and the store for a test.
machine : Unit {0}
unfolding run_calls call create create_body transition transition_body transition_found check_create
    check_decision initial_transition Store.create append load find_row find_transition
    can_transition position violates parse_atomic_amount assert_positive_amount is_blank concat
machine = tt

loads_checked : load "IW:BRIDGE:1" (run_calls numbered two_calls (empty any_time)) ≡ some checked
unfolding machine
loads_checked = refl

-- A date that is no date is accepted as the expiry.
abbrev never_expires : CreateBridgeOperation
never_expires = record input { expires_at = "not a date" }

accepts_bad_expiry : check_create numbered never_expires ≡ ok tt
unfolding machine
accepts_bad_expiry = refl

run_calls-IsAudited_example : IsAudited "IW:BRIDGE:1" checked
run_calls-IsAudited_example =
    run_calls-IsAudited numbered any_time two_calls "IW:BRIDGE:1" checked loads_checked

can_transition-eq-is_step_example :
    can_transition created policy_checked ≡ is_step created policy_checked
can_transition-eq-is_step_example = can_transition-eq-is_step created policy_checked

after_creation-IsSound : IsSound after_creation
after_creation-IsSound =
    run_calls-IsSound numbered (create_call input ∷ []) (empty any_time) (empty-IsSound any_time)

abbrev after_check : Database
after_check = (transition check_policy after_creation).1

transition_check : transition check_policy after_creation ≡ (ok checked, after_check)
unfolding machine
transition_check = refl

transition_retry_example : IsRepeated checked after_check (transition check_policy after_check)
transition_retry_example =
    transition_retry check_policy after_creation after_check checked after_creation-IsSound
      transition_check

abbrev created_operation : BridgeOperation
created_operation = record checked {
  state = created;
  policy_decision = none;
  version = 0;
  transitions =
      record {
        from_state = none;
        to_state = created;
        occurred_at = "100";
        reason = "operation created";
        actor = "api";
        transition_key = "IW:BRIDGE:1:created";
        sequence = 0;
        attempt = 1;
      }
      ∷ [];
}

new_key : find_row "IW:BRIDGE:1" "IW:BRIDGE:1:POLICY_CHECKED" after_creation ≡ none
unfolding machine
new_key = refl

creation_is_loaded : load "IW:BRIDGE:1" after_creation ≡ some created_operation
unfolding machine
creation_is_loaded = refl

check_is_legal : can_transition created policy_checked ≡ true
unfolding machine
check_is_legal = refl

takes_time : after_creation.is_timestamp check_policy.occurred_at ≡ true
unfolding machine
takes_time = refl

append_progress_example :
    append check_policy after_creation
    ≡ ok (
      appended_operation check_policy created_operation,
      after_append check_policy created_operation after_creation,
    )
append_progress_example =
    append_progress check_policy created_operation after_creation after_creation-IsSound
      creation_is_loaded refl check_is_legal new_key (omega arith) (omega arith) takes_time

review_key :
    find_row "IW:BRIDGE:1" "review" (after_append check_policy created_operation after_creation)
    ≡ none
unfolding machine appended_row update_rows updated_operation
review_key = refl

append_stale_example :
    append review (after_append check_policy created_operation after_creation)
    ≡ err (registry conflict)
append_stale_example =
    append_stale check_policy review after_creation
      (after_append check_policy created_operation after_creation)
      (appended_operation check_policy created_operation) after_creation-IsSound new_key
      append_progress_example refl refl review_key
