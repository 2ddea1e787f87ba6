-- ===== src/Saga/States.antt =====
-- The data and the states of cross-network-settlement.ts.
use canton_evmcrosschain.Prelude.{ℕ, Bool, true, false, List, String}
use canton_evmcrosschain.Idempotency.Canonical.{Json, string, object, no_members, member}

pub data CrossNetworkSettlementState : Type 0 where
  created policy_checked delivery_reserved : CrossNetworkSettlementState
  delivery_reservation_verified payment_submitted payment_finalized : CrossNetworkSettlementState
  payment_attested delivery_released delivery_finalized reconciled : CrossNetworkSettlementState
  completed compensated failed expired manual_review : CrossNetworkSettlementState

pub record CrossNetworkLeg : Type 0 where
  pub asset_id : String
  pub network_id : String
  pub sender : String
  pub receiver : String
  pub amount : String

pub record CrossNetworkSettlementRequest : Type 0 where
  pub id : String
  pub idempotency_key : String
  pub delivery : CrossNetworkLeg
  pub payment : CrossNetworkLeg
  pub policy_version : String
  pub created_at : String
  pub expires_at : String

pub record SettlementStepEvidence : Type 0 where
  pub transaction_id : String
  pub position : String
  pub evidence : List String
  pub observed_at : String

pub record CrossNetworkTransition : Type 0 where
  pub sequence : ℕ
  pub state : CrossNetworkSettlementState
  pub occurred_at : String
  pub evidence : List String
  pub reason : String

-- Without the two members that are the same in every record.
pub record CrossNetworkSettlementRecord : Type 0 where
  pub request : CrossNetworkSettlementRequest
  pub request_hash : String
  pub state : CrossNetworkSettlementState
  pub version : ℕ
  pub transitions : List CrossNetworkTransition

-- A request as a value of the language.
abbrev pub leg_json : CrossNetworkLeg → Json
leg_json leg = object (
    member "assetId" (string leg.asset_id) (
      member "networkId" (string leg.network_id) (
        member "sender" (string leg.sender) (
          member "receiver" (string leg.receiver)
            (member "amount" (string leg.amount) no_members)))))

abbrev pub request_json : CrossNetworkSettlementRequest → Json
request_json r = object (
    member "id" (string r.id) (
      member "idempotencyKey" (string r.idempotency_key) (
        member "delivery" (leg_json r.delivery) (
          member "payment" (leg_json r.payment) (
            member "policyVersion" (string r.policy_version) (
              member "createdAt" (string r.created_at)
                (member "expiresAt" (string r.expires_at) no_members)))))))

unfoldable pub is_terminal : CrossNetworkSettlementState → Bool
is_terminal completed = true
is_terminal compensated = true
is_terminal failed = true
is_terminal expired = true
is_terminal manual_review = true
is_terminal _ = false

-- beforePaymentFinality
unfoldable pub before_payment_finality : CrossNetworkSettlementState → Bool
before_payment_finality created = true
before_payment_finality policy_checked = true
before_payment_finality delivery_reserved = true
before_payment_finality delivery_reservation_verified = true
before_payment_finality payment_submitted = true
before_payment_finality _ = false

-- `state !== "CREATED" && state !== "POLICY_CHECKED"`
unfoldable pub may_be_reserved : CrossNetworkSettlementState → Bool
may_be_reserved created = false
may_be_reserved policy_checked = false
may_be_reserved _ = true

unfoldable pub state_text : CrossNetworkSettlementState → String
state_text created = "CREATED"
state_text policy_checked = "POLICY_CHECKED"
state_text delivery_reserved = "DELIVERY_RESERVED"
state_text delivery_reservation_verified = "DELIVERY_RESERVATION_VERIFIED"
state_text payment_submitted = "PAYMENT_SUBMITTED"
state_text payment_finalized = "PAYMENT_FINALIZED"
state_text payment_attested = "PAYMENT_ATTESTED"
state_text delivery_released = "DELIVERY_RELEASED"
state_text delivery_finalized = "DELIVERY_FINALIZED"
state_text reconciled = "RECONCILED"
state_text completed = "COMPLETED"
state_text compensated = "COMPENSATED"
state_text failed = "FAILED"
state_text expired = "EXPIRED"
state_text manual_review = "MANUAL_REVIEW"
