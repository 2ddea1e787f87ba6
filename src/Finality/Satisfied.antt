-- ===== src/Finality/Satisfied.antt =====
-- When finality-service.ts is satisfied, described apart from the order of its checks.
use canton_evmcrosschain.Prelude.{
  ℕ, String, ◌≡◌, refl, Bool, true, false, not, ◌&&◌, ◌||◌, Option, none, some, [], ◌∷◌, ◌==◌, leb,
  arith, Bool-cases, inl, inr,
}
use canton_evmcrosschain.Network.Registry.{
  FinalityPolicy, evm_confirmations, canton_completion, adapter_defined,
}
use canton_evmcrosschain.Finality.Evaluation.{
  ReceiptStatus, success, reverted, Confirmations, safe, unsafe, not_finite, EvmFinalityObservation,
  CompletionStatus, committed, rejected_command, unknown, CantonFinalityObservation,
  NetworkFinalityObservation, evm, canton, FinalityOutcome, satisfied, rejected, Writing,
  is_missing, is_nothing, or_else, evaluation, is_reverted, evaluate_confirmed,
  evaluate_confirmations, evaluate_evm, wrong_synchronizer, evaluate_completion, evaluate_canton,
}
use canton_evmcrosschain.Finality.Checks.{FinalityNetworkConfiguration, bad_confirmations}
use canton_evmcrosschain.Finality.Service.{
  evaluate, evaluate_kind, stored_confirmations, stored_observation,
}

abbrev pub is_satisfied : FinalityOutcome → Bool
is_satisfied satisfied = true
is_satisfied _ = false

abbrev has_enough : Confirmations → Option ℕ → Bool
has_enough (safe n) (some required) = leb required n
has_enough (safe n) none = false
has_enough (unsafe s) required = false
has_enough (not_finite s) required = false

abbrev is_successful : ReceiptStatus → Bool
is_successful success = true
is_successful reverted = false

abbrev is_committed : CompletionStatus → Bool
is_committed committed = true
is_committed _ = false

-- A transaction on an EVM network is final: it succeeded, on the expected chain, in a block of the
-- canonical chain, with the confirmations required, and, if the finalized tag is required, in the
-- finalized chain, whose block is named.
abbrev is_final_evm : Writing → Option ℕ → Bool → Option String → EvmFinalityObservation → Bool
is_final_evm writing required tag chain_id o =
    is_successful o.receipt_status
    && not (is_missing chain_id)
    && or_else chain_id "" == o.chain_id
    && writing.lower o.transaction_block_hash == writing.lower o.canonical_block_hash
    && has_enough o.confirmations required
    && (not tag
        || o.included_in_finalized_chain
          && not (is_missing o.finalized_block_number)
          && not (is_missing o.finalized_block_hash))

-- The synchronizer that is named, if one is, is the one that was found.
abbrev is_right_synchronizer : Option String → Option String → Bool
is_right_synchronizer none found = true
is_right_synchronizer (some s) none = s == ""
is_right_synchronizer (some s) (some t) = s == "" || t == s

-- A command on a Canton network is final: it is committed, with its offset and its update, seen for
-- some party, and through the synchronizer that the policy names, if it names one.
abbrev is_final_canton : Option String → CantonFinalityObservation → Bool
is_final_canton synchronizer o =
    is_committed o.status
    && not (is_nothing o.party_scope)
    && not (is_missing o.completion_offset)
    && not (is_missing o.update_id)
    && is_right_synchronizer synchronizer o.synchronizer_id

abbrev is_final_by : Writing → FinalityPolicy → Option String → NetworkFinalityObservation → Bool
is_final_by writing (evm_confirmations required tag) chain_id (evm o) =
    is_final_evm writing required tag chain_id o
is_final_by writing (canton_completion synchronizer) chain_id (canton o) =
    is_final_canton synchronizer o
is_final_by writing _ chain_id o = false

-- An observation is final for an enabled network by the policy of the network.
abbrev pub is_final : Writing → FinalityNetworkConfiguration → NetworkFinalityObservation → Bool
is_final writing configuration o =
    configuration.enabled && is_final_by writing configuration.policy configuration.chain_id o

-- What JSON makes of an observation does not decide whether it is final.
stored-has_enough :
    (c : Confirmations) (required : Option ℕ)
    → has_enough (stored_confirmations c) required ≡ has_enough c required
stored-has_enough (safe n) required = refl
stored-has_enough (unsafe s) required = refl
stored-has_enough (not_finite s) required = refl

stored-is_final_by :
    (writing : Writing) (policy : FinalityPolicy) (chain_id : Option String)
    (o : NetworkFinalityObservation)
    → is_final_by writing policy chain_id (stored_observation o)
      ≡ is_final_by writing policy chain_id o
stored-is_final_by writing (evm_confirmations required tag) chain_id (evm o) =
    rw (stored-has_enough o.confirmations required) refl
stored-is_final_by writing (canton_completion synchronizer) chain_id (evm o) = refl
stored-is_final_by writing (adapter_defined name) chain_id (evm o) = refl
stored-is_final_by writing _ chain_id (canton o) = refl

pub stored-is_final :
    (writing : Writing) (configuration : FinalityNetworkConfiguration)
    (o : NetworkFinalityObservation)
    → is_final writing configuration (stored_observation o) ≡ is_final writing configuration o
stored-is_final writing configuration o =
    rw (stored-is_final_by writing configuration.policy configuration.chain_id o) refl

receipt_reversed :
    (writing : Writing) (status : ReceiptStatus)
    → is_reverted writing status ≡ not (is_successful status)
receipt_reversed writing success = refl
receipt_reversed writing reverted = refl

confirmations_final :
    (writing : Writing) (c : Confirmations) (required : ℕ) (tag : Bool) (o : EvmFinalityObservation)
    → is_satisfied (evaluate_confirmations writing c (some required) tag o).outcome ≡ (
        has_enough c (some required)
        && (not tag
            || o.included_in_finalized_chain
              && not (is_missing o.finalized_block_number)
              && not (is_missing o.finalized_block_hash)))
unfolding evaluation
confirmations_final writing (safe n) required tag o = ground arith
confirmations_final writing (unsafe s) required tag o = refl
confirmations_final writing (not_finite s) required tag o = refl

confirmed_final :
    (writing : Writing) (required : ℕ) (tag : Bool) (chain_id : Option String)
    (o : EvmFinalityObservation)
    → is_satisfied (evaluate_confirmed writing (some required) tag o chain_id).outcome
      ≡ is_final_evm writing (some required) tag chain_id o
unfolding evaluate_confirmed evaluation
confirmed_final writing required tag chain_id o = ground (
  arith,
  receipt_reversed writing o.receipt_status,
  confirmations_final writing o.confirmations required tag o,
)

synchronizer_right :
    (writing : Writing) (named found : Option String)
    → not (wrong_synchronizer writing named found) ≡ is_right_synchronizer named found
synchronizer_right writing none found = refl
synchronizer_right writing (some s) none = ground arith
synchronizer_right writing (some s) (some t) = ground arith

completion_final :
    (writing : Writing) (status : CompletionStatus) (synchronizer : Option String)
    (o : CantonFinalityObservation)
    → is_satisfied (evaluate_completion writing status synchronizer o).outcome ≡ (
        is_committed status
        && not (is_missing o.completion_offset)
        && not (is_missing o.update_id)
        && is_right_synchronizer synchronizer o.synchronizer_id)
unfolding evaluate_completion evaluation
completion_final writing rejected_command synchronizer o = refl
completion_final writing unknown synchronizer o = refl
completion_final writing committed synchronizer o =
    ground (arith, synchronizer_right writing synchronizer o.synchronizer_id)

evaluate_kind_final :
    (writing : Writing) (policy : FinalityPolicy) (chain_id : Option String)
    (o : NetworkFinalityObservation)
    → bad_confirmations policy ≡ false
    → is_satisfied (evaluate_kind writing policy chain_id o).outcome
      ≡ is_final_by writing policy chain_id o
unfolding evaluate_evm evaluate_canton evaluation
evaluate_kind_final writing (evm_confirmations none tag) chain_id o good = cc good
evaluate_kind_final writing (evm_confirmations (some n) tag) chain_id (evm o) good =
    confirmed_final writing n tag chain_id o
evaluate_kind_final writing (evm_confirmations (some n) tag) chain_id (canton o) good = refl
evaluate_kind_final writing (canton_completion synchronizer) chain_id (evm o) good = refl
evaluate_kind_final writing (canton_completion synchronizer) chain_id (canton o) good =
    ground (arith, completion_final writing o.status synchronizer o)
evaluate_kind_final writing (adapter_defined name) chain_id (evm o) good = refl
evaluate_kind_final writing (adapter_defined name) chain_id (canton o) good = refl

disabled_outcome :
    (writing : Writing) (o : NetworkFinalityObservation)
    → is_satisfied (evaluation writing rejected ("NETWORK_DISABLED" ∷ []) "disabled" o).outcome
      ≡ false
unfolding evaluation
disabled_outcome writing (evm o) = refl
disabled_outcome writing (canton o) = refl

-- For a policy that `assertCommon` accepts, the outcome of an evaluation is SATISFIED if, and only if,
-- the observation is final for the network: the network is enabled, the policy is one for the kind of
-- observation, and all that the policy and the kind ask for is there.
pub evaluate-is_final :
    (writing : Writing) (configuration : FinalityNetworkConfiguration)
    (o : NetworkFinalityObservation)
    → bad_confirmations configuration.policy ≡ false
    → is_satisfied (evaluate writing configuration o).outcome ≡ is_final writing configuration o
unfolding evaluate evaluation
evaluate-is_final writing configuration o good = elim (Bool-cases configuration.enabled) [
  | inl on ↦
      rw (on, evaluate)
        (evaluate_kind_final writing configuration.policy configuration.chain_id o good)
  | inr off ↦ rw (off, evaluate) (disabled_outcome writing o)
]
