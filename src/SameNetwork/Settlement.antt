-- ===== src/SameNetwork/Settlement.antt =====
-- The requests, results and records of same-network-settlement.ts, and their checks.
use canton_evmcrosschain.Prelude.{
  String, Bool, true, false, not, ◌||◌, Option, List, [], ◌∷◌, ◌==◌, leb, is_some, is_blank,
  has_prefix,
}
use canton_evmcrosschain.Failures.{registry, invalid_argument, Result, ◌>>=◌, ◌>>◌, reject_if}
use canton_evmcrosschain.Dates.{Dates, time_le}
use canton_evmcrosschain.Amount.{parse_atomic_amount}
use canton_evmcrosschain.Idempotency.Canonical.{
  Json, string, object, array, no_items, item, no_members, member,
}

pub record SameNetworkSettlementLeg : Type 0 where
  pub leg_id : String
  pub asset_id : String
  pub sender : String
  pub receiver : String
  pub amount : String

-- The two legs are the delivery and the payment.
pub record SameNetworkSettlementRequest : Type 0 where
  pub id : String
  pub idempotency_key : String
  pub network_id : String
  pub network_type : String
  pub delivery : SameNetworkSettlementLeg
  pub payment : SameNetworkSettlementLeg
  pub expires_at : String
  pub created_at : String

pub record NativeAtomicSettlementEvidence : Type 0 where
  pub external_transaction_id : String
  pub observed_position : String
  pub evidence : List String
  pub finalized_at : String

pub data NativeAtomicSettlementResult : Type 0 where
  committed : NativeAtomicSettlementEvidence → NativeAtomicSettlementResult
  already_committed : NativeAtomicSettlementEvidence → NativeAtomicSettlementResult
  rejected : String → List String → NativeAtomicSettlementResult
  uncertain : String → List String → NativeAtomicSettlementResult

pub data SameNetworkSettlementStatus : Type 0 where
  in_progress completed failed manual_review : SameNetworkSettlementStatus

pub record SameNetworkSettlementRecord : Type 0 where
  pub request : SameNetworkSettlementRequest
  pub request_hash : String
  pub status : SameNetworkSettlementStatus
  pub result : Option NativeAtomicSettlementResult
  pub recorded_at : String

-- A request as a value of the language.
abbrev pub leg_json : SameNetworkSettlementLeg → Json
leg_json leg = object (
    member "id" (string leg.leg_id) (
      member "assetId" (string leg.asset_id) (
        member "sender" (string leg.sender) (
          member "receiver" (string leg.receiver)
            (member "amount" (string leg.amount) no_members)))))

abbrev pub request_json : SameNetworkSettlementRequest → Json
request_json r = object (
    member "id" (string r.id) (
      member "idempotencyKey" (string r.idempotency_key) (
        member "networkId" (string r.network_id) (
          member "networkType" (string r.network_type) (
            member "legs" (array (item (leg_json r.delivery) (item (leg_json r.payment) no_items)))
              (member "expiresAt" (string r.expires_at)
                (member "createdAt" (string r.created_at) no_members)))))))

abbrev pub check : Bool → Result (Unit {0})
check bad = reject_if bad (registry invalid_argument)

abbrev is_empty : List String → Bool
is_empty [] = true
is_empty (e ∷ evidence) = false

-- `if (parseAtomicAmount(leg.amount) <= 0n) throw …`
abbrev positive_leg : SameNetworkSettlementLeg → Result (Unit {0})
positive_leg leg = parse_atomic_amount leg.amount >>= λ n. check (leb n 0)

-- `assertRequest`
unfoldable pub assert_request : Dates → SameNetworkSettlementRequest → Result (Unit {0})
assert_request dates r = do
  check (
      not (has_prefix "IW:SETTLEMENT:" r.id)
      || not (has_prefix "IW:NETWORK:" r.network_id)
      || is_blank r.idempotency_key)
  check (
      not (is_some (dates.parse r.created_at))
      || not (is_some (dates.parse r.expires_at))
      || time_le (dates.parse r.expires_at) (dates.parse r.created_at))
  check (
      is_blank r.delivery.leg_id
      || is_blank r.payment.leg_id
      || r.delivery.leg_id == r.payment.leg_id)
  check (r.delivery.asset_id == r.payment.asset_id)
  check (
      not (r.delivery.sender == r.payment.receiver)
      || not (r.delivery.receiver == r.payment.sender)
      || r.delivery.sender == r.delivery.receiver)
  positive_leg r.delivery
  positive_leg r.payment

abbrev pub incomplete : Dates → NativeAtomicSettlementEvidence → Bool
incomplete dates e =
    is_blank e.external_transaction_id
    || is_blank e.observed_position
    || is_empty e.evidence
    || not (is_some (dates.parse e.finalized_at))

-- `assertResult`
unfoldable pub assert_result : Dates → NativeAtomicSettlementResult → Result (Unit {0})
assert_result dates (committed e) = check (incomplete dates e)
assert_result dates (already_committed e) = check (incomplete dates e)
assert_result dates (rejected reason_code evidence) = check (is_blank reason_code)
assert_result dates (uncertain reason_code evidence) = check (is_blank reason_code)

-- `result.outcome === "COMMITTED" || … ? "COMPLETED" : …`
unfoldable pub status_of : NativeAtomicSettlementResult → SameNetworkSettlementStatus
status_of (committed e) = completed
status_of (already_committed e) = completed
status_of (rejected reason_code evidence) = failed
status_of (uncertain reason_code evidence) = manual_review

abbrev pub is_in_progress : SameNetworkSettlementStatus → Bool
is_in_progress in_progress = true
is_in_progress _ = false
