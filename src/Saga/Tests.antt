-- ===== src/Saga/Tests.antt =====
-- A settlement that goes through, and the theorems at it.
use canton_evmcrosschain.Prelude.{
  ℕ, String, Bool, ◌||◌, ◌==◌, ◌≡◌, refl, sym, subst, true, false, Option, some, List, [], ◌∷◌,
  arith, any, is_blank, concat, has_prefix,
}
use canton_evmcrosschain.Failures.{Result, ok}
use canton_evmcrosschain.Exec.{◌>>=◌, pure}
use canton_evmcrosschain.Dict
use canton_evmcrosschain.Amount.{parse_atomic_amount}
use canton_evmcrosschain.Samples.{numbered}
use canton_evmcrosschain.Idempotency.Canonical.{canonical_json, request_fingerprint}
use canton_evmcrosschain.Saga.States.{
  CrossNetworkSettlementState, created, policy_checked, delivery_reserved,
  delivery_reservation_verified, payment_submitted, payment_finalized, payment_attested,
  delivery_released, delivery_finalized, reconciled, completed, CrossNetworkSettlementRequest,
  SettlementStepEvidence, CrossNetworkTransition, CrossNetworkSettlementRecord, request_json,
  is_terminal, state_text,
}
use canton_evmcrosschain.Saga.Checks.{validate, validate_evidence}
use canton_evmcrosschain.Saga.Store.{
  create_record, get_record, transition_record, SettlementTables, settlement_row,
}
use canton_evmcrosschain.Saga.Service.{
  Services, Settling, ask, now, stamp, on_records, enter, move, evidenced, effect, on_created,
  on_delivery_finalized, advance, try_advance, iterate, loop, create_new, opened, execute,
}
use canton_evmcrosschain.Saga.Graph.{position}
use canton_evmcrosschain.Saga.History.{IsSound}
use canton_evmcrosschain.Saga.Termination.{IsSettled, execute-IsSettled}
use canton_evmcrosschain.Saga.Irreversible.{
  executes, executes-taken_back, execute-IsSound, is_payment_final, is_taken_back,
}
use canton_evmcrosschain.Saga.Refinement.{Represents}
use canton_evmcrosschain.Saga.Stores.{
  StoreCall, create_call, get_call, transition_call, in_memory, in_tables, answers, answers_agree,
}

abbrev done : SettlementStepEvidence
done = record {
  transaction_id = "tx";
  position = "7";
  evidence = "proof" ∷ [];
  observed_at = "120";
}

abbrev services : Services ℕ
services = record {
  dates = numbered;
  texts = record { quote = λ s. s; before = λ a b. false; sha256 = λ s. "hash" };
  message = λ e. "failure";
  clock = pure (some 150);
  check = λ r. pure (record { allowed = true; evidence = "policy" ∷ []; reason = "" });
  reserve_delivery = λ r. pure done;
  verify_delivery_reservation = λ r. pure done;
  reserve_or_transfer_payment = λ r. pure done;
  verify_payment_finality = λ r. pure done;
  attest_payment = λ r. pure done;
  release_delivery = λ r. pure done;
  verify_delivery = λ r. pure done;
  reconcile = λ r. pure (record { matched = true; evidence = [] });
  cancel_delivery_reservation = λ r. pure done;
}

abbrev request : CrossNetworkSettlementRequest
request = record {
  id = "IW:SETTLEMENT:1";
  idempotency_key = "key-1";
  delivery = record {
    asset_id = "IW:ASSET:1";
    network_id = "IW:NETWORK:canton";
    sender = "IW:IDENTITY:a";
    receiver = "IW:IDENTITY:b";
    amount = "250";
  };
  payment = record {
    asset_id = "IW:ASSET:2";
    network_id = "IW:NETWORK:evm";
    sender = "IW:IDENTITY:b";
    receiver = "IW:IDENTITY:a";
    amount = "300";
  };
  policy_version = "1";
  created_at = "100";
  expires_at = "200";
}

abbrev start : Settling ℕ
start = record { records = []; world = 0 }

start-IsSound : IsSound []
unfolding Dict.lookup
start-IsSound id r h = cc h

valid : validate numbered request ≡ ok tt
unfolding validate has_prefix is_blank parse_atomic_amount
valid = refl

printed : request_fingerprint services.texts (request_json request) ≡ ok "sha256:hash"
unfolding request_fingerprint canonical_json concat
printed = refl

execute-IsSettled_example : IsSettled "IW:SETTLEMENT:1" (execute services 11 request start)
unfolding Dict.lookup
execute-IsSettled_example =
    execute-IsSettled services 11 request "sha256:hash" start (λ w. (150, refl)) (omega arith)
      start-IsSound valid printed (λ r h. cc h)

abbrev entered : ℕ → CrossNetworkSettlementState → CrossNetworkTransition
entered n state = record {
  sequence = n;
  state = state;
  occurred_at = "0";
  evidence = "proof" ∷ "tx" ∷ "7" ∷ [];
  reason = concat "entered " (state_text state);
}

abbrev other_step :
    ℕ → CrossNetworkSettlementState → String → List String → String → CrossNetworkTransition
other_step n state at evidence reason = record {
  sequence = n;
  state = state;
  occurred_at = at;
  evidence = evidence;
  reason = reason;
}

abbrev final : CrossNetworkSettlementRecord
final = record {
  request = request;
  request_hash = "sha256:hash";
  state = completed;
  version = 10;
  transitions =
      other_step 0 created "100" [] "saga created"
      ∷ other_step 1 policy_checked "0" ("policy" ∷ []) "policy allowed"
      ∷ entered 2 delivery_reserved
      ∷ entered 3 delivery_reservation_verified
      ∷ entered 4 payment_submitted
      ∷ entered 5 payment_finalized
      ∷ entered 6 payment_attested
      ∷ entered 7 delivery_released
      ∷ entered 8 delivery_finalized
      ∷ other_step 9 reconciled "0" [] "reconciled"
      ∷ other_step 10 completed "0" [] "saga completed"
      ∷ [];
}

settled :
    execute services 11 request start
    ≡ (ok (some final), record { records = ("IW:SETTLEMENT:1", final) ∷ []; world = 0 })
unfolding execute validate request_fingerprint canonical_json loop iterate try_advance advance
    on_created on_delivery_finalized effect evidenced validate_evidence move stamp enter
    transition_record create_record get_record on_records ask now opened create_new is_terminal
    state_text Dict.lookup Dict.insert ◌>>=◌ has_prefix is_blank parse_atomic_amount concat
settled = refl

found :
    Dict.lookup "IW:SETTLEMENT:1" (executes services ((11, request) ∷ []) start).records
    ≡ some final
unfolding Dict.lookup
found =
    subst
      (λ (p : Result (Option CrossNetworkSettlementRecord) × Settling ℕ).
        Dict.lookup "IW:SETTLEMENT:1" p.1.records ≡ some final)
      (sym settled) refl

finality : any is_payment_final final.transitions ≡ true
unfolding position
finality = refl

executes-taken_back_example : is_taken_back completed ≡ false
executes-taken_back_example =
    executes-taken_back services ((11, request) ∷ []) start "IW:SETTLEMENT:1" final start-IsSound
      found finality

execute-IsSound_example : IsSound (execute services 3 request start).1.records
execute-IsSound_example = execute-IsSound services 3 request start start-IsSound

abbrev no_rows : SettlementTables
no_rows = record { settlements = []; settlement_transitions = [] }

nothing-Represents : Represents no_rows []
unfolding settlement_row Dict.lookup
nothing-Represents = record {
  same_records = λ id. refl;
  same_version = λ id row h. cc h;
  numbers = λ id n h. cc h;
}

abbrev calls : List StoreCall
calls =
    create_call request "hash" "100"
    ∷ transition_call "IW:SETTLEMENT:1" 0 policy_checked "110" [] "policy allowed"
    ∷ transition_call "IW:SETTLEMENT:1" 0 policy_checked "111" [] "policy allowed"
    ∷ get_call "IW:SETTLEMENT:1"
    ∷ []

abbrev is_short_number : String → Bool
is_short_number at = at == "100" || at == "110" || at == "111"

answers_agree_example :
    answers (in_tables is_short_number) calls no_rows ≡ answers in_memory calls []
answers_agree_example = answers_agree is_short_number calls no_rows [] nothing-Represents refl
