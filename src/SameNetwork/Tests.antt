-- ===== src/SameNetwork/Tests.antt =====
-- A settlement that is committed, one whose executor answers without evidence, and the theorems at them.
use canton_evmcrosschain.Prelude.{
  ℕ, ◌+◌, ◌≡◌, refl, false, some, [], ◌∷◌, is_blank, has_prefix, concat,
}
use canton_evmcrosschain.Failures.{registry, invalid_argument, ok, err}
use canton_evmcrosschain.Served.{Served}
use canton_evmcrosschain.Dict
use canton_evmcrosschain.Amount.{parse_atomic_amount}
use canton_evmcrosschain.Samples.{numbered}
use canton_evmcrosschain.Idempotency.Canonical.{request_fingerprint, canonical_json}
use canton_evmcrosschain.SameNetwork.Settlement.{
  SameNetworkSettlementRequest, NativeAtomicSettlementEvidence, committed, completed,
  SameNetworkSettlementRecord, assert_request, assert_result,
}
use canton_evmcrosschain.SameNetwork.Store.{Settlements}
use canton_evmcrosschain.SameNetwork.Service.{Executor, Services, configure, execute}
use canton_evmcrosschain.SameNetwork.Kept.{executes}
use canton_evmcrosschain.SameNetwork.Agreement.{IsAgreed, IsFinal, executes-IsAgreed}
use canton_evmcrosschain.SameNetwork.Decisions.{IsDecided}
use canton_evmcrosschain.SameNetwork.Ends.{
  IsUndecided, IsReady, after_reading, execute-IsDecided, execute-IsUndecided, executes-replays,
}

abbrev proof : NativeAtomicSettlementEvidence
proof = record {
  external_transaction_id = "tx-1";
  observed_position = "7";
  evidence = "receipt" ∷ [];
  finalized_at = "150";
}

abbrev executor_with : NativeAtomicSettlementEvidence → Executor ℕ
executor_with e = record {
  network_id = "IW:NETWORK:evm";
  network_type = "EVM";
  execute_atomically = λ r n. (ok (committed e), n + 1);
}

abbrev services_with : NativeAtomicSettlementEvidence → Services ℕ
services_with e = record {
  dates = numbered;
  texts = record { quote = λ s. s; before = λ a b. false; sha256 = λ s. "hash" };
  clock = λ n. (150, n);
  executors = ("IW:NETWORK:evm", executor_with e) ∷ [];
}

configured : configure (executor_with proof ∷ []) [] ≡ ok (services_with proof).executors
unfolding configure Dict.lookup Dict.insert
configured = refl

abbrev request : SameNetworkSettlementRequest
request = record {
  id = "IW:SETTLEMENT:1";
  idempotency_key = "key-1";
  network_id = "IW:NETWORK:evm";
  network_type = "EVM";
  delivery = record {
    leg_id = "1";
    asset_id = "IW:ASSET:1";
    sender = "IW:IDENTITY:a";
    receiver = "IW:IDENTITY:b";
    amount = "250";
  };
  payment = record {
    leg_id = "2";
    asset_id = "IW:ASSET:2";
    sender = "IW:IDENTITY:b";
    receiver = "IW:IDENTITY:a";
    amount = "300";
  };
  expires_at = "200";
  created_at = "100";
}

abbrev start : Served Settlements ℕ
start = record { stored = []; world = 0 }

abbrev unproved : NativeAtomicSettlementEvidence
unproved = record proof { evidence = [] }

ready :
    (e : NativeAtomicSettlementEvidence)
    → IsReady (services_with e) (executor_with e) request "sha256:hash"
unfolding assert_request request_fingerprint canonical_json parse_atomic_amount is_blank has_prefix
    concat Dict.lookup
ready e = record { valid = refl; suits = refl; printed = refl }

passes : assert_result numbered (committed proof) ≡ ok tt
unfolding assert_result is_blank parse_atomic_amount
passes = refl

fails : assert_result numbered (committed unproved) ≡ err (registry invalid_argument)
unfolding assert_result is_blank
fails = refl

execute-IsDecided_example :
    IsDecided numbered "IW:SETTLEMENT:1"
      (committed proof)
      (execute (services_with proof) request start)
unfolding parse_atomic_amount Dict.lookup
execute-IsDecided_example =
    execute-IsDecided (services_with proof) (executor_with proof) request "sha256:hash" start
      (ready proof) (λ r h. cc h) passes

execute-IsUndecided_example :
    IsUndecided "IW:SETTLEMENT:1" "sha256:hash"
      (registry invalid_argument)
      (execute (services_with unproved) request start)
unfolding parse_atomic_amount Dict.lookup
execute-IsUndecided_example =
    execute-IsUndecided (services_with unproved) (executor_with unproved) request "sha256:hash"
      (registry invalid_argument) start (ready unproved) (λ r h. cc h) fails

nothing-IsAgreed : IsAgreed numbered []
unfolding Dict.lookup
nothing-IsAgreed id r h = cc h

executes-IsAgreed_example :
    IsAgreed numbered (executes (services_with proof) (request ∷ request ∷ []) start).stored
executes-IsAgreed_example =
    executes-IsAgreed (services_with proof) (request ∷ request ∷ []) start nothing-IsAgreed

abbrev settled : SameNetworkSettlementRecord
settled = record {
  request = request;
  request_hash = "sha256:hash";
  status = completed;
  result = some (committed proof);
  recorded_at = "0";
}

abbrev settled_state : Served Settlements ℕ
settled_state = record { stored = ("IW:SETTLEMENT:1", settled) ∷ []; world = 1 }

settled-IsFinal : IsFinal "IW:SETTLEMENT:1" settled settled_state.stored
unfolding Dict.lookup
settled-IsFinal = record { found = refl; over = refl }

executes-replays_example :
    execute
      (services_with proof)
      request
      (executes (services_with proof) (request ∷ []) settled_state)
    ≡ (
      ok settled,
      after_reading
          (services_with proof)
          (executes (services_with proof) (request ∷ []) settled_state),
    )
executes-replays_example =
    executes-replays (services_with proof) (executor_with proof) request "sha256:hash" settled
      (request ∷ []) settled_state (ready proof) refl settled-IsFinal
