-- ===== src/LockMint/Tests.antt =====
-- A run of the coordinator with services that always succeed, and the theorems at it.
use canton_evmcrosschain.Prelude.{ℕ, ◌≡◌, refl, true, none, [], ◌∷◌, arith, ap, is_blank, concat}
use canton_evmcrosschain.Failures.{Result, ok, err}
use canton_evmcrosschain.Exec.{◌>>=◌, pure}
use canton_evmcrosschain.Amount.{parse_atomic_amount, assert_positive_amount}
use canton_evmcrosschain.Samples.{any_time, numbered, input}
use canton_evmcrosschain.Model.{completed, allow, deny, BridgeOperation, position, same_state}
use canton_evmcrosschain.Transaction.States.{can_transition, is_terminal}
use canton_evmcrosschain.Transaction.Store.{
  Database, load, append, find_row, find_transition, violates, appended_row, update_rows,
  updated_operation,
}
use canton_evmcrosschain.Transaction.Store
use canton_evmcrosschain.Transaction.Engine.{
  create, create_body, transition, transition_body, transition_found, check_create, check_decision,
  initial_transition,
}
use canton_evmcrosschain.Transaction.Consistency.{empty}
use canton_evmcrosschain.Transaction.Sound.{IsSound, empty-IsSound}
use canton_evmcrosschain.Transaction.Durability.{create_call, call, run_calls, run_calls-IsSound}
use canton_evmcrosschain.LockMint.Evidence.{
  stage_number, put_evidence, get_evidence, data_member, flagged, string_value, attestation_from,
  same_evidence,
}
use canton_evmcrosschain.LockMint.Coordinator.{
  Services, Coordinated, ask, now, on_database, transition_to, put_stage, produce_stage,
  stage_evidence, required_evidence, state_text,
}
use canton_evmcrosschain.LockMint.Steps.{
  lock_data, confirm_lock_data, finalize_lock_data, attest_data, mint_data, confirm_mint_data,
  finalize_mint_data, reconcile_data, on_created, on_source_preparing, on_source_submitted,
  on_source_confirmed, on_attestation_pending, submit_mint, on_destination_preparing,
  on_destination_submitted, on_destination_confirmed, on_reconciliation_pending, advance,
  advance_unexpired, iterate, loop, find_operation, run,
}
use canton_evmcrosschain.LockMint.Runs.{run_rounds, run-eq-run_rounds, IsSettled, run-IsSettled}

-- Every service succeeds; the world counts the readings of the clock.
abbrev services : Services ℕ
services = record {
  dates = numbered;
  actor = "lock-mint-coordinator";
  clock = λ n. (150, n);
  evaluate = λ operation. pure (record {
    outcome = allow;
    reason_codes = [];
    policy_id = "IW:POLICY:1";
    policy_version = "1";
    decided_at = "101";
    matched_rule_ids = [];
  });
  lock_asset = λ operation. pure (record { transaction_id = "tx-1"; lock_id = "lock-1" });
  confirm_lock = λ operation id. pure (record { confirmed = true; position_text = "1" });
  finalize_lock = λ operation id.
      pure (record { finalized = true; position_text = "1"; evidence_id = "evidence-1" });
  attest = λ operation finality. pure (record {
    satisfied = true;
    attestation_of = record {
      digest = "digest";
      validator_set_id = "set-1";
      signature_count = "2";
      threshold = "2";
      expires_at = "190";
    };
  });
  mint_asset = λ operation a. pure (record { transaction_id = "tx-2"; outcome = "EXECUTED" });
  confirm_mint = λ operation id. pure (record { confirmed = true; position_text = "7" });
  finalize_mint = λ operation id.
      pure (record { finalized = true; position_text = "7"; evidence_id = "evidence-2" });
  reconcile = λ operation. pure (record {
    matched = true;
    source_locked = "250";
    destination_supply = "250";
    evidence_id = "evidence-3";
  });
}

abbrev start : Coordinated ℕ
start = record {
  database = run_calls numbered (create_call input ∷ []) (empty any_time);
  evidence = [];
  world = 0;
}

start-IsSound : IsSound start.database
start-IsSound =
    run_calls-IsSound numbered (create_call input ∷ []) (empty any_time) (empty-IsSound any_time)

run-eq-run_rounds_example :
    run services "IW:BRIDGE:1" start ≡ run_rounds services 30 "IW:BRIDGE:1" start
run-eq-run_rounds_example =
    run-eq-run_rounds services 30 "IW:BRIDGE:1" start (omega arith) start-IsSound

-- Opens the coordinator, the engine and the store for a test.
machine : Unit {0}
unfolding ◌>>=◌ run_calls call create create_body transition transition_body transition_found
    check_create check_decision initial_transition Store.create append load find_row find_transition
    can_transition position violates parse_atomic_amount assert_positive_amount is_blank concat
    appended_row update_rows updated_operation same_state is_terminal stage_number put_evidence
    get_evidence data_member flagged string_value attestation_from same_evidence ask now on_database
    transition_to put_stage produce_stage stage_evidence required_evidence state_text lock_data
    confirm_lock_data finalize_lock_data attest_data mint_data confirm_mint_data finalize_mint_data
    reconcile_data on_created on_source_preparing on_source_submitted on_source_confirmed
    on_attestation_pending submit_mint on_destination_preparing on_destination_submitted
    on_destination_confirmed on_reconciliation_pending advance advance_unexpired iterate loop
    find_operation run
machine = tt

abbrev or_input : Result BridgeOperation → BridgeOperation
or_input (ok operation) = operation
or_input (err e) = (record {
  id = "";
  idempotency_key = "";
  asset_id = "";
  source_network_id = "";
  destination_network_id = "";
  sender = "";
  receiver = "";
  amount = "";
  state = completed;
  policy_decision = none;
  transitions = [];
  expires_at = "";
  created_at = "";
  version = 0;
})

runs_through : (or_input (run services "IW:BRIDGE:1" start).0).state ≡ completed
unfolding machine
runs_through = refl

-- The policy denies.
abbrev denying : Services ℕ
denying = record services {
  evaluate = λ operation. pure (record {
    outcome = deny;
    reason_codes = [];
    policy_id = "IW:POLICY:1";
    policy_version = "1";
    decided_at = "101";
    matched_rule_ids = [];
  });
}

abbrev outcome : Result BridgeOperation × Coordinated ℕ
outcome = run denying "IW:BRIDGE:1" start

succeeds : outcome.0 ≡ ok (or_input outcome.0)
unfolding machine
succeeds = refl

run-IsSettled_example : IsSettled denying "IW:BRIDGE:1" (or_input outcome.0) outcome.1
run-IsSettled_example =
    run-IsSettled denying "IW:BRIDGE:1" (or_input outcome.0) start outcome.1 start-IsSound
      (ap (λ (r : Result BridgeOperation). (r, outcome.1)) succeeds)
