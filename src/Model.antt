-- ===== src/Model.antt =====
-- model.ts: the vocabulary of bridge operations and policies. Identifiers and timestamps are
-- texts, as they are in the source.
use canton_evmcrosschain.Prelude.{
  ℕ, String, ◌≡◌, refl, sym, ap, ◌∙◌, ◌↔◌, Bool, true, Option, none, some, List, [], ◌∷◌, get_elem?,
  eqb, eqb_iff,
}

-- In the order of BRIDGE_STATES.
pub data BridgeState : Type 0 where
  created policy_checked source_preparing source_submitted source_confirmed : BridgeState
  source_finalized attestation_pending attested destination_preparing : BridgeState
  destination_submitted destination_confirmed destination_finalized : BridgeState
  reconciliation_pending reconciled completed policy_rejected source_failed : BridgeState
  attestation_failed destination_failed expired reconciliation_failed manual_review : BridgeState

abbrev pub bridge_states : List BridgeState
bridge_states =
    created ∷ policy_checked ∷ source_preparing ∷ source_submitted ∷ source_confirmed
    ∷ source_finalized ∷ attestation_pending ∷ attested ∷ destination_preparing
    ∷ destination_submitted ∷ destination_confirmed ∷ destination_finalized ∷ reconciliation_pending
    ∷ reconciled ∷ completed ∷ policy_rejected ∷ source_failed ∷ attestation_failed
    ∷ destination_failed ∷ expired ∷ reconciliation_failed ∷ manual_review ∷ []

-- The place of a state in BRIDGE_STATES.
unfoldable pub position : BridgeState → ℕ
position created = 0
position policy_checked = 1
position source_preparing = 2
position source_submitted = 3
position source_confirmed = 4
position source_finalized = 5
position attestation_pending = 6
position attested = 7
position destination_preparing = 8
position destination_submitted = 9
position destination_confirmed = 10
position destination_finalized = 11
position reconciliation_pending = 12
position reconciled = 13
position completed = 14
position policy_rejected = 15
position source_failed = 16
position attestation_failed = 17
position destination_failed = 18
position expired = 19
position reconciliation_failed = 20
position manual_review = 21

-- `===` on states
unfoldable pub same_state : BridgeState → BridgeState → Bool
same_state a b = eqb (position a) (position b)

pub get_elem?-position : (s : BridgeState) → get_elem? bridge_states (position s) ≡ some s
unfolding position
get_elem?-position created = refl
get_elem?-position _ = refl

state_or_created : Option BridgeState → BridgeState
state_or_created none = created
state_or_created (some s) = s

pub position_injective : (a b : BridgeState) → position a ≡ position b → a ≡ b
unfolding state_or_created
position_injective a b h =
    ap state_or_created
      (sym (get_elem?-position a) ∙ (ap (get_elem? bridge_states) h ∙ get_elem?-position b))

pub same_state_iff : (a b : BridgeState) → (same_state a b ≡ true) ↔ (a ≡ b)
unfolding same_state
same_state_iff a b =
    (λ h. position_injective a b ((eqb_iff _ _).0 h), λ h. (eqb_iff _ _).1 (ap position h))

pub data PolicyOutcome : Type 0 where
  allow deny requires_approval : PolicyOutcome

pub record PolicyDecision : Type 0 where
  pub outcome : PolicyOutcome
  pub reason_codes : List String
  pub policy_id : String
  pub policy_version : String
  pub decided_at : String
  pub matched_rule_ids : List String

-- StateTransition, with the fields that PersistedTransition of transaction-engine.ts adds.
pub record PersistedTransition : Type 0 where
  pub from_state : Option BridgeState
  pub to_state : BridgeState
  pub occurred_at : String
  pub reason : String
  pub actor : String
  pub transition_key : String
  pub sequence : ℕ
  pub attempt : ℕ

-- BridgeOperation as DurableBridgeOperation of transaction-engine.ts has it.
pub record BridgeOperation : Type 0 where
  pub id : String
  pub idempotency_key : String
  pub asset_id : String
  pub source_network_id : String
  pub destination_network_id : String
  pub sender : String
  pub receiver : String
  pub amount : String
  pub state : BridgeState
  pub policy_decision : Option PolicyDecision
  pub transitions : List PersistedTransition
  pub expires_at : String
  pub created_at : String
  pub version : ℕ
