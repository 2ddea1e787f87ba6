-- ===== src/LockMint/Steps.antt =====
-- The loop of `run` of lock-mint-coordinator.ts: one function for each case of its switch.
use canton_evmcrosschain.Prelude.{
  ℕ, zero, suc, String, Bool, true, false, none, some, [], ◌∷◌, concat, if◌then◌else◌,
}
use canton_evmcrosschain.Failures.{registry, not_found, conflict, Exec, require}
use canton_evmcrosschain.Exec.{◌>>=◌, ◌>>◌, pure, throw, lift}
use canton_evmcrosschain.Dates.{time_le}
use canton_evmcrosschain.Model.{
  BridgeState, created, policy_checked, source_preparing, source_submitted, source_confirmed,
  source_finalized, attestation_pending, attested, destination_preparing, destination_submitted,
  destination_confirmed, destination_finalized, reconciliation_pending, reconciled, completed,
  policy_rejected, source_failed, attestation_failed, destination_failed, expired,
  reconciliation_failed, BridgeOperation, same_state,
}
use canton_evmcrosschain.Transaction.States.{is_terminal}
use canton_evmcrosschain.Transaction.Store.{load}
use canton_evmcrosschain.Transaction.Engine.{is_allow}
use canton_evmcrosschain.LockMint.Evidence.{
  source_lock, source_confirmation, source_finality, attestation, destination_mint,
  destination_confirmation, destination_finality, reconciliation, text, flag, LockMintStageEvidence,
  attestation_from, data_member, string_value, flagged, VerifiedThresholdAttestation,
}
use canton_evmcrosschain.LockMint.Coordinator.{
  Services, Coordinated, Data, ask, now, transition_to, stage_evidence, required_evidence,
  require_text, value_text, Next, go_on, give_back, Exit, returned, left,
}

module _ {W : Type 0} (services : Services W) where
  abbrev Step : Type 0
  Step = BridgeOperation → Exec (Coordinated W) Next

  -- `operation = await this.#transition(…)`
  abbrev pub move : BridgeOperation → BridgeState → String → Exec (Coordinated W) Next
  move operation to reason = do
    operation' ← transition_to services operation to reason none
    pure (go_on operation')

  abbrev pub choose : Bool → BridgeState → BridgeState → BridgeState
  choose b yes_state no_state = if b then yes_state else no_state

  unfoldable pub on_created : BridgeOperation → Exec (Coordinated W) Next
  on_created operation = do
    decision ← ask services (services.evaluate operation)
    operation' ←
        transition_to services operation
          (choose (is_allow decision.outcome) policy_checked policy_rejected) "policy evaluated"
          (some decision)
    pure (go_on operation')

  unfoldable pub lock_data : BridgeOperation → Exec (Coordinated W) Data
  lock_data operation = do
    result ← ask services (services.lock_asset operation)
    lift (require_text result.transaction_id)
    lift (require_text result.lock_id)
    pure (("transactionId", text result.transaction_id) ∷ ("lockId", text result.lock_id) ∷ [])

  unfoldable pub on_source_preparing : BridgeOperation → Exec (Coordinated W) Next
  unfolding lock_data
  on_source_preparing operation = do
    evidence ← stage_evidence services operation source_lock (lock_data operation)
    move operation source_submitted (
        concat "Canton lock submitted: "
          (value_text (data_member "transactionId" evidence.data_of)))

  unfoldable pub confirm_lock_data :
      BridgeOperation → LockMintStageEvidence → Exec (Coordinated W) Data
  confirm_lock_data operation source = do
    id ← lift (string_value source "transactionId")
    result ← ask services (services.confirm_lock operation id)
    lift (require_text result.position_text)
    pure (("confirmed", flag result.confirmed) ∷ ("position", text result.position_text) ∷ [])

  unfoldable pub on_source_submitted : BridgeOperation → Exec (Coordinated W) Next
  unfolding confirm_lock_data
  on_source_submitted operation = do
    source ← required_evidence services operation.id source_lock
    evidence ←
        stage_evidence services operation source_confirmation (confirm_lock_data operation source)
    move operation (choose (flagged evidence "confirmed") source_confirmed source_failed)
        "Canton lock confirmation evaluated"

  unfoldable pub finalize_lock_data :
      BridgeOperation → LockMintStageEvidence → Exec (Coordinated W) Data
  finalize_lock_data operation source = do
    id ← lift (string_value source "transactionId")
    result ← ask services (services.finalize_lock operation id)
    lift (require_text result.position_text)
    lift (require_text result.evidence_id)
    pure (
        ("finalized", flag result.finalized)
        ∷ ("position", text result.position_text)
        ∷ ("evidenceId", text result.evidence_id)
        ∷ [])

  unfoldable pub on_source_confirmed : BridgeOperation → Exec (Coordinated W) Next
  unfolding finalize_lock_data
  on_source_confirmed operation = do
    source ← required_evidence services operation.id source_lock
    evidence ←
        stage_evidence services operation source_finality (finalize_lock_data operation source)
    move operation (choose (flagged evidence "finalized") source_finalized source_failed)
        "Canton finality evaluated"

  unfoldable pub attest_data : BridgeOperation → LockMintStageEvidence → Exec (Coordinated W) Data
  attest_data operation finality = do
    result ← ask services (services.attest operation finality)
    let a = result.attestation_of
    pure (
        ("satisfied", flag result.satisfied)
        ∷ ("digest", text a.digest)
        ∷ ("validatorSetId", text a.validator_set_id)
        ∷ ("signatureCount", text a.signature_count)
        ∷ ("threshold", text a.threshold)
        ∷ ("expiresAt", text a.expires_at)
        ∷ [])

  unfoldable pub on_attestation_pending : BridgeOperation → Exec (Coordinated W) Next
  unfolding attest_data
  on_attestation_pending operation = do
    finality ← required_evidence services operation.id source_finality
    evidence ← stage_evidence services operation attestation (attest_data operation finality)
    move operation (choose (flagged evidence "satisfied") attested attestation_failed)
        "threshold attestation evaluated"

  unfoldable pub mint_data :
      BridgeOperation → VerifiedThresholdAttestation → Exec (Coordinated W) Data
  mint_data operation a = do
    result ← ask services (services.mint_asset operation a)
    pure (("transactionId", text result.transaction_id) ∷ ("outcome", text result.outcome) ∷ [])

  unfoldable pub submit_mint :
      BridgeOperation → VerifiedThresholdAttestation → Exec (Coordinated W) Next
  unfolding mint_data
  submit_mint operation a = do
    evidence ← stage_evidence services operation destination_mint (mint_data operation a)
    move operation destination_submitted
        (concat "EVM mint " (value_text (data_member "outcome" evidence.data_of)))

  unfoldable pub on_destination_preparing : BridgeOperation → Exec (Coordinated W) Next
  unfolding submit_mint
  on_destination_preparing operation = do
    evidence ← required_evidence services operation.id attestation
    a ← lift (attestation_from evidence)
    t ← now services
    (if time_le (services.dates.parse a.expires_at) (some t)
        then move operation destination_failed "threshold attestation expired before mint"
        else submit_mint operation a)

  unfoldable pub confirm_mint_data :
      BridgeOperation → LockMintStageEvidence → Exec (Coordinated W) Data
  confirm_mint_data operation mint = do
    id ← lift (string_value mint "transactionId")
    result ← ask services (services.confirm_mint operation id)
    lift (require_text result.position_text)
    pure (("confirmed", flag result.confirmed) ∷ ("blockNumber", text result.position_text) ∷ [])

  unfoldable pub on_destination_submitted : BridgeOperation → Exec (Coordinated W) Next
  unfolding confirm_mint_data
  on_destination_submitted operation = do
    mint ← required_evidence services operation.id destination_mint
    evidence ←
        stage_evidence services operation destination_confirmation
          (confirm_mint_data operation mint)
    move operation (choose (flagged evidence "confirmed") destination_confirmed destination_failed)
        "EVM mint confirmation evaluated"

  unfoldable pub finalize_mint_data :
      BridgeOperation → LockMintStageEvidence → Exec (Coordinated W) Data
  finalize_mint_data operation mint = do
    id ← lift (string_value mint "transactionId")
    result ← ask services (services.finalize_mint operation id)
    lift (require_text result.position_text)
    lift (require_text result.evidence_id)
    pure (
        ("finalized", flag result.finalized)
        ∷ ("position", text result.position_text)
        ∷ ("evidenceId", text result.evidence_id)
        ∷ [])

  unfoldable pub on_destination_confirmed : BridgeOperation → Exec (Coordinated W) Next
  unfolding finalize_mint_data
  on_destination_confirmed operation = do
    mint ← required_evidence services operation.id destination_mint
    evidence ←
        stage_evidence services operation destination_finality (finalize_mint_data operation mint)
    move operation (choose (flagged evidence "finalized") destination_finalized destination_failed)
        "EVM mint finality evaluated"

  unfoldable pub reconcile_data : BridgeOperation → Exec (Coordinated W) Data
  reconcile_data operation = do
    result ← ask services (services.reconcile operation)
    pure (
        ("matched", flag result.matched)
        ∷ ("sourceLocked", text result.source_locked)
        ∷ ("destinationSupply", text result.destination_supply)
        ∷ ("evidenceId", text result.evidence_id)
        ∷ [])

  unfoldable pub on_reconciliation_pending : BridgeOperation → Exec (Coordinated W) Next
  unfolding reconcile_data
  on_reconciliation_pending operation = do
    evidence ← stage_evidence services operation reconciliation (reconcile_data operation)
    move operation (choose (flagged evidence "matched") reconciled reconciliation_failed)
        "supply reconciliation evaluated"

  -- The switch on the state.
  unfoldable pub advance : BridgeState → BridgeOperation → Exec (Coordinated W) Next
  advance created operation = on_created operation
  advance policy_checked operation = move operation source_preparing "prepare Canton lock"
  advance source_preparing operation = on_source_preparing operation
  advance source_submitted operation = on_source_submitted operation
  advance source_confirmed operation = on_source_confirmed operation
  advance source_finalized operation =
      move operation attestation_pending "request independent validator attestations"
  advance attestation_pending operation = on_attestation_pending operation
  advance attested operation =
      move operation destination_preparing "prepare replay-protected EVM mint"
  advance destination_preparing operation = on_destination_preparing operation
  advance destination_submitted operation = on_destination_submitted operation
  advance destination_confirmed operation = on_destination_confirmed operation
  advance destination_finalized operation =
      move operation reconciliation_pending "reconcile backing and representation supply"
  advance reconciliation_pending operation = on_reconciliation_pending operation
  advance reconciled operation = move operation completed "lock-mint operation completed"
  advance _ operation = pure (give_back operation)

  unfoldable pub advance_unexpired : BridgeOperation → Exec (Coordinated W) Next
  advance_unexpired operation = do
    t ← now services
    (if time_le (services.dates.parse operation.expires_at) (some t)
        then move operation expired "bridge operation expired before completion"
        else advance operation.state operation)

  -- One iteration; the clock is read only for a state that is not terminal.
  unfoldable pub iterate : BridgeOperation → Exec (Coordinated W) Next
  iterate operation =
      if is_terminal operation.state
      then advance operation.state operation
      else advance_unexpired operation

  -- The loop, with the rounds that are left.
  unfoldable pub loop : ℕ → BridgeOperation → Exec (Coordinated W) Exit
  loop zero operation = pure (left operation)
  loop (suc rounds) operation = elim (same_state operation.state completed) [
    | true ↦ pure (left operation)
    | false ↦ iterate operation >>= λ next. elim next [
      | go_on operation' ↦ loop rounds operation'
      | give_back operation' ↦ pure (returned operation')
    ]
  ]

  -- What `run` makes of the end of the loop.
  abbrev pub finish : Exit → Exec (Coordinated W) BridgeOperation
  finish (returned operation) = pure operation
  finish (left operation) =
      if same_state operation.state completed then pure operation else throw (registry conflict)

  unfoldable pub find_operation : String → Exec (Coordinated W) BridgeOperation
  find_operation id s = (require (load id s.database) (registry not_found), s)

  unfoldable pub run : String → Exec (Coordinated W) BridgeOperation
  run id = do operation ← find_operation id; exit ← loop 24 operation; finish exit
