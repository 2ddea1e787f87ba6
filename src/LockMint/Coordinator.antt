-- ===== src/LockMint/Coordinator.antt =====
-- CantonToEvmLockMintCoordinator of lock-mint-coordinator.ts. The services that it calls keep
-- their own world, and may answer differently each time or throw; they have no access to the
-- tables of the engine and of the evidence. The clock gives valid dates and does not throw.
use canton_evmcrosschain.Prelude.{
  ℕ, String, Bool, true, false, Option, none, some, List, is_blank, concat,
}
use canton_evmcrosschain.Failures.{
  registry, invalid_argument, not_found, Result, ok, err, Exec, require, reject_if,
}
use canton_evmcrosschain.Exec.{◌>>=◌}
use canton_evmcrosschain.Dates.{Dates}
use canton_evmcrosschain.Model.{
  BridgeState, created, policy_checked, source_preparing, source_submitted, source_confirmed,
  source_finalized, attestation_pending, attested, destination_preparing, destination_submitted,
  destination_confirmed, destination_finalized, reconciliation_pending, reconciled, completed,
  policy_rejected, source_failed, attestation_failed, destination_failed, expired,
  reconciliation_failed, manual_review, PolicyDecision, BridgeOperation,
}
use canton_evmcrosschain.Transaction.Store.{Database}
use canton_evmcrosschain.Transaction.Engine.{transition}
use canton_evmcrosschain.LockMint.Evidence.{
  LockMintStage, Value, text, flag, LockMintStageEvidence, EvidenceTable, get_evidence,
  put_evidence, VerifiedThresholdAttestation,
}

pub record Locked : Type 0 where
  pub transaction_id : String
  pub lock_id : String

pub record Confirmation : Type 0 where
  pub confirmed : Bool
  pub position_text : String

pub record Finalization : Type 0 where
  pub finalized : Bool
  pub position_text : String
  pub evidence_id : String

pub record Attested : Type 0 where
  pub satisfied : Bool
  pub attestation_of : VerifiedThresholdAttestation

pub record Minted : Type 0 where
  pub transaction_id : String
  pub outcome : String

pub record Reconciled : Type 0 where
  pub matched : Bool
  pub source_locked : String
  pub destination_supply : String
  pub evidence_id : String

-- LockMintCoordinatorDependencies, but for the stores of the engine and of the evidence.
pub record Services (W : Type 0) : Type 0 where
  pub dates : Dates
  pub actor : String
  pub clock : W → ℕ × W
  pub evaluate : BridgeOperation → Exec W PolicyDecision
  pub lock_asset : BridgeOperation → Exec W Locked
  pub confirm_lock : BridgeOperation → String → Exec W Confirmation
  pub finalize_lock : BridgeOperation → String → Exec W Finalization
  pub attest : BridgeOperation → LockMintStageEvidence → Exec W Attested
  pub mint_asset : BridgeOperation → VerifiedThresholdAttestation → Exec W Minted
  pub confirm_mint : BridgeOperation → String → Exec W Confirmation
  pub finalize_mint : BridgeOperation → String → Exec W Finalization
  pub reconcile : BridgeOperation → Exec W Reconciled

-- What the coordinator works on.
pub record Coordinated (W : Type 0) : Type 0 where
  pub database : Database
  pub evidence : EvidenceTable
  pub world : W

abbrev pub Data : Type 0
Data = List (String × Value)

-- The names of the states that keys and reasons hold.
unfoldable pub state_text : BridgeState → String
state_text created = "CREATED"
state_text policy_checked = "POLICY_CHECKED"
state_text source_preparing = "SOURCE_PREPARING"
state_text source_submitted = "SOURCE_SUBMITTED"
state_text source_confirmed = "SOURCE_CONFIRMED"
state_text source_finalized = "SOURCE_FINALIZED"
state_text attestation_pending = "ATTESTATION_PENDING"
state_text attested = "ATTESTED"
state_text destination_preparing = "DESTINATION_PREPARING"
state_text destination_submitted = "DESTINATION_SUBMITTED"
state_text destination_confirmed = "DESTINATION_CONFIRMED"
state_text destination_finalized = "DESTINATION_FINALIZED"
state_text reconciliation_pending = "RECONCILIATION_PENDING"
state_text reconciled = "RECONCILED"
state_text completed = "COMPLETED"
state_text policy_rejected = "POLICY_REJECTED"
state_text source_failed = "SOURCE_FAILED"
state_text attestation_failed = "ATTESTATION_FAILED"
state_text destination_failed = "DESTINATION_FAILED"
state_text expired = "EXPIRED"
state_text reconciliation_failed = "RECONCILIATION_FAILED"
state_text manual_review = "MANUAL_REVIEW"

-- requireText
abbrev pub require_text : String → Result (Unit {0})
require_text value = reject_if (is_blank value) (registry invalid_argument)

-- A value in a template text.
abbrev pub value_text : Option Value → String
value_text none = "undefined"
value_text (some (text s)) = s
value_text (some (flag true)) = "true"
value_text (some (flag false)) = "false"

-- An iteration of the loop goes on with an operation, or returns it.
pub data Next : Type 0 where
  go_on : BridgeOperation → Next
  give_back : BridgeOperation → Next

-- The loop is left by a return, or by its condition.
pub data Exit : Type 0 where
  returned : BridgeOperation → Exit
  left : BridgeOperation → Exit

module _ {W : Type 0} (services : Services W) where
  abbrev Action : Type 0 → Type 0
  Action A = Exec (Coordinated W) A

  -- A call of a service.
  unfoldable pub ask : {A : Type 0} → Exec W A → Exec (Coordinated W) A
  ask m s = let (r, w) = m s.world in (r, record s { world = w })

  unfoldable pub now : Exec (Coordinated W) ℕ
  now s = let (t, w) = services.clock s.world in (ok t, record s { world = w })

  unfoldable pub on_database : {A : Type 0} → Exec Database A → Exec (Coordinated W) A
  on_database m s = let (r, db) = m s.database in (r, record s { database = db })

  -- #transition
  unfoldable pub transition_to :
      BridgeOperation
      → BridgeState
      → String
      → Option PolicyDecision
      → Exec (Coordinated W) BridgeOperation
  transition_to operation to reason decision = do
    t ← now
    on_database (
        transition (record {
          operation_id = operation.id;
          transition_key = concat operation.id (concat ":" (state_text to));
          expected_version = operation.version;
          to = to;
          occurred_at = services.dates.to_iso t;
          reason = reason;
          actor = services.actor;
          attempt = 1;
          policy_decision = decision;
        }))

  unfoldable pub put_stage : LockMintStageEvidence → Exec (Coordinated W) LockMintStageEvidence
  put_stage e s = elim (put_evidence e s.evidence) [
    | ok (stored, table) ↦ (ok stored, record s { evidence = table })
    | err failure ↦ (err failure, s)
  ]

  unfoldable pub produce_stage :
      BridgeOperation
      → LockMintStage
      → Exec (Coordinated W) Data
      → Exec (Coordinated W) LockMintStageEvidence
  produce_stage operation stage produce = do
    produced ← produce
    t ← now
    put_stage (record {
      operation_id = operation.id;
      stage = stage;
      recorded_at = services.dates.to_iso t;
      data_of = produced;
    })

  -- #evidence: `produce` is called only if the stage has no evidence.
  unfoldable pub stage_evidence :
      BridgeOperation
      → LockMintStage
      → Exec (Coordinated W) Data
      → Exec (Coordinated W) LockMintStageEvidence
  stage_evidence operation stage produce s = elim (get_evidence operation.id stage s.evidence) [
    | some existing ↦ (ok existing, s)
    | none ↦ produce_stage operation stage produce s
  ]

  -- #requiredEvidence
  unfoldable pub required_evidence :
      String → LockMintStage → Exec (Coordinated W) LockMintStageEvidence
  required_evidence id stage s =
      (require (get_evidence id stage s.evidence) (registry not_found), s)
