-- ===== src/Finality/Checks.antt =====
-- The inputs of finality-service.ts and their checks.
use canton_evmcrosschain.Prelude.{
  String, Bool, true, false, not, ◌||◌, Option, none, some, ◌==◌, ltb, is_some, is_blank,
  has_prefix,
}
use canton_evmcrosschain.Failures.{registry, invalid_argument, Result, ◌>>◌, reject_if}
use canton_evmcrosschain.Dates.{Dates}
use canton_evmcrosschain.Network.Registry.{
  FinalityPolicy, evm_confirmations, canton_completion, adapter_defined,
}
use canton_evmcrosschain.Finality.Evaluation.{NetworkFinalityObservation, evm, canton}

pub record FinalityNetworkConfiguration : Type 0 where
  pub network_id : String
  pub network_type : String
  pub chain_id : Option String
  pub policy : FinalityPolicy
  pub enabled : Bool

pub record AssessInput : Type 0 where
  pub id : String
  pub transaction_id : String
  pub observation : NetworkFinalityObservation

-- The members that both kinds of observation have.
abbrev pub network_of : NetworkFinalityObservation → String
network_of (evm o) = o.network_id
network_of (canton o) = o.network_id

abbrev pub kind_of : NetworkFinalityObservation → String
kind_of (evm o) = "EVM"
kind_of (canton o) = "CANTON"

abbrev pub transaction_of : NetworkFinalityObservation → String
transaction_of (evm o) = o.transaction_id
transaction_of (canton o) = o.transaction_id

abbrev pub observed_of : NetworkFinalityObservation → String
observed_of (evm o) = o.observed_at
observed_of (canton o) = o.observed_at

abbrev pub check : Bool → Result (Unit {0})
check bad = reject_if bad (registry invalid_argument)

-- A policy of confirmations whose number is no safe one from 1 on.
abbrev pub bad_confirmations : FinalityPolicy → Bool
bad_confirmations (evm_confirmations none tag) = true
bad_confirmations (evm_confirmations (some n) tag) = not (ltb n 9007199254740992) || ltb n 1
bad_confirmations (canton_completion synchronizer) = false
bad_confirmations (adapter_defined name) = false

-- `assertCommon`
unfoldable pub assert_common :
    Dates → AssessInput → FinalityNetworkConfiguration → String → Result (Unit {0})
assert_common dates input configuration assessed_at = do
  check (not (has_prefix "IW:FINALITY:" input.id) || input.id == "IW:FINALITY:")
  check (
      is_blank input.transaction_id
      || not (input.transaction_id == transaction_of input.observation))
  check (not (configuration.network_type == kind_of input.observation))
  check (
      not (is_some (dates.parse (observed_of input.observation)))
      || not (is_some (dates.parse assessed_at)))
  check (bad_confirmations configuration.policy)
