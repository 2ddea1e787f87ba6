-- ===== src/Saga/Checks.antt =====
-- The checks of cross-network-settlement.ts.
use canton_evmcrosschain.Prelude.{
  String, Bool, true, false, not, ◌||◌, List, [], ◌∷◌, ◌==◌, leb, is_some, is_blank, has_prefix,
}
use canton_evmcrosschain.Failures.{registry, invalid_argument, Result, ◌>>=◌, ◌>>◌, reject_if}
use canton_evmcrosschain.Dates.{Dates, time_le}
use canton_evmcrosschain.Amount.{parse_atomic_amount}
use canton_evmcrosschain.Saga.States.{CrossNetworkSettlementRequest, SettlementStepEvidence}

abbrev check : Bool → Result (Unit {0})
check bad = reject_if bad (registry invalid_argument)

abbrev is_empty : List String → Bool
is_empty [] = true
is_empty (e ∷ evidence) = false

abbrev positive : String → Result (Unit {0})
positive text = parse_atomic_amount text >>= λ n. check (leb n 0)

-- `validate`
unfoldable pub validate : Dates → CrossNetworkSettlementRequest → Result (Unit {0})
validate dates r = do
  check (
      not (has_prefix "IW:SETTLEMENT:" r.id)
      || is_blank r.idempotency_key
      || is_blank r.policy_version)
  check (r.delivery.network_id == r.payment.network_id)
  check (
      not (r.delivery.sender == r.payment.receiver)
      || not (r.delivery.receiver == r.payment.sender)
      || r.delivery.sender == r.delivery.receiver)
  positive r.delivery.amount
  positive r.payment.amount
  check (
      not (is_some (dates.parse r.created_at))
      || time_le (dates.parse r.expires_at) (dates.parse r.created_at))

-- `validateEvidence`
unfoldable pub validate_evidence : Dates → SettlementStepEvidence → Result (Unit {0})
validate_evidence dates value = check (
    is_blank value.transaction_id
    || is_blank value.position
    || is_empty value.evidence
    || not (is_some (dates.parse value.observed_at)))
