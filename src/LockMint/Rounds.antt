-- ===== src/LockMint/Rounds.antt =====
-- Every case of the switch of lock-mint-coordinator.ts is a round.
use canton_evmcrosschain.Prelude.{String, ◌≡◌, refl, Bool, true, false, none, some, if◌then◌else◌}
use canton_evmcrosschain.Failures.{Exec}
use canton_evmcrosschain.Exec.{◌>>=◌, lift}
use canton_evmcrosschain.Dates.{time_le}
use canton_evmcrosschain.Model.{
  BridgeState, policy_checked, source_submitted, source_confirmed, source_finalized, attested,
  destination_submitted, destination_confirmed, destination_finalized, reconciled, policy_rejected,
  source_failed, attestation_failed, destination_failed, reconciliation_failed, BridgeOperation,
}
use canton_evmcrosschain.Transaction.States.{can_transition}
use canton_evmcrosschain.Transaction.Engine.{is_allow}
use canton_evmcrosschain.LockMint.Evidence.{
  LockMintStage, source_lock, source_confirmation, source_finality, attestation, destination_mint,
  destination_confirmation, destination_finality, reconciliation, LockMintStageEvidence,
  VerifiedThresholdAttestation, flagged, attestation_from,
}
use canton_evmcrosschain.LockMint.Coordinator.{
  Services, Coordinated, now, stage_evidence, required_evidence, Next, Data,
}
use canton_evmcrosschain.LockMint.Steps.{
  choose, move, on_created, on_source_preparing, on_source_submitted, on_source_confirmed,
  on_attestation_pending, submit_mint, on_destination_preparing, on_destination_submitted,
  on_destination_confirmed, on_reconciliation_pending,
}
use canton_evmcrosschain.LockMint.Moves.{
  IsQuiet, IsRound, chain-IsRound, ask-IsQuiet, now-IsQuiet, required_evidence-IsQuiet,
  stage_evidence-IsQuiet, move-IsRound,
}
use canton_evmcrosschain.LockMint.Stages.{
  lock_data-IsQuiet, confirm_lock_data-IsQuiet, finalize_lock_data-IsQuiet, attest_data-IsQuiet,
  mint_data-IsQuiet, confirm_mint_data-IsQuiet, finalize_mint_data-IsQuiet, reconcile_data-IsQuiet,
}

module _ {W : Type 0} (services : Services W) where
  -- Either state that a case chooses from is legal.
  choose_legal :
      (b : Bool) (from yes_state no_state : BridgeState)
      → can_transition from yes_state ≡ true
      → can_transition from no_state ≡ true
      → can_transition from (choose services b yes_state no_state) ≡ true
  choose_legal true from yes_state no_state y n = y
  choose_legal false from yes_state no_state y n = n

  -- A case that waits for the evidence of a stage and moves to one of two states.
  stage_move :
      (operation : BridgeOperation) (stage : LockMintStage) (produce : Exec (Coordinated W) Data)
      (to : LockMintStageEvidence → BridgeState) (reason : LockMintStageEvidence → String)
      → IsQuiet produce
      → ((e : LockMintStageEvidence) → can_transition operation.state (to e) ≡ true)
      → IsRound operation (
          stage_evidence services operation stage produce >>= λ e.
          move services operation (to e) (reason e))
  stage_move operation stage produce to reason q l =
      chain-IsRound operation (stage_evidence services operation stage produce) _
        (stage_evidence-IsQuiet services operation stage produce q)
        (λ e. move-IsRound services operation (to e) (reason e) none (l e))

  -- A case that first reads the evidence of an earlier stage.
  after_evidence :
      (operation : BridgeOperation) (stage : LockMintStage)
      (f : LockMintStageEvidence → Exec (Coordinated W) Next)
      → ((e : LockMintStageEvidence) → IsRound operation (f e))
      → IsRound operation (required_evidence services operation.id stage >>= f)
  after_evidence operation stage f r =
      chain-IsRound operation (required_evidence services operation.id stage) f
        (required_evidence-IsQuiet services operation.id stage) r

  pub on_created-IsRound :
      (operation : BridgeOperation)
      → can_transition operation.state policy_checked ≡ true
      → can_transition operation.state policy_rejected ≡ true
      → IsRound operation (on_created services operation)
  unfolding on_created
  on_created-IsRound operation y n =
      chain-IsRound operation _ _ (ask-IsQuiet services (services.evaluate operation)) (λ d.
        move-IsRound services operation _ "policy evaluated" (some d)
          (choose_legal (is_allow d.outcome) operation.state policy_checked policy_rejected y n))

  pub on_source_preparing-IsRound :
      (operation : BridgeOperation)
      → can_transition operation.state source_submitted ≡ true
      → IsRound operation (on_source_preparing services operation)
  unfolding on_source_preparing
  on_source_preparing-IsRound operation l =
      stage_move operation source_lock _ (λ e. source_submitted) _
        (lock_data-IsQuiet services operation) (λ e. l)

  pub on_source_submitted-IsRound :
      (operation : BridgeOperation)
      → can_transition operation.state source_confirmed ≡ true
      → can_transition operation.state source_failed ≡ true
      → IsRound operation (on_source_submitted services operation)
  unfolding on_source_submitted
  on_source_submitted-IsRound operation y n = after_evidence operation source_lock _ (λ x.
      stage_move operation source_confirmation _
        (λ e. choose services (flagged e "confirmed") source_confirmed source_failed) _
        (confirm_lock_data-IsQuiet services operation x)
        (λ e.
          choose_legal (flagged e "confirmed") operation.state source_confirmed source_failed y n))

  pub on_source_confirmed-IsRound :
      (operation : BridgeOperation)
      → can_transition operation.state source_finalized ≡ true
      → can_transition operation.state source_failed ≡ true
      → IsRound operation (on_source_confirmed services operation)
  unfolding on_source_confirmed
  on_source_confirmed-IsRound operation y n = after_evidence operation source_lock _ (λ x.
      stage_move operation source_finality _
        (λ e. choose services (flagged e "finalized") source_finalized source_failed) _
        (finalize_lock_data-IsQuiet services operation x)
        (λ e.
          choose_legal (flagged e "finalized") operation.state source_finalized source_failed y n))

  pub on_attestation_pending-IsRound :
      (operation : BridgeOperation)
      → can_transition operation.state attested ≡ true
      → can_transition operation.state attestation_failed ≡ true
      → IsRound operation (on_attestation_pending services operation)
  unfolding on_attestation_pending
  on_attestation_pending-IsRound operation y n = after_evidence operation source_finality _ (λ x.
      stage_move operation attestation _
        (λ e. choose services (flagged e "satisfied") attested attestation_failed) _
        (attest_data-IsQuiet services operation x)
        (λ e. choose_legal (flagged e "satisfied") operation.state attested attestation_failed y n))

  submit_mint-IsRound :
      (operation : BridgeOperation) (a : VerifiedThresholdAttestation)
      → can_transition operation.state destination_submitted ≡ true
      → IsRound operation (submit_mint services operation a)
  unfolding submit_mint
  submit_mint-IsRound operation a l =
      stage_move operation destination_mint _ (λ e. destination_submitted) _
        (mint_data-IsQuiet services operation a) (λ e. l)

  -- A round that depends on a test.
  pub either-IsRound :
      (b : Bool) (operation : BridgeOperation) (m k : Exec (Coordinated W) Next)
      → IsRound operation m
      → IsRound operation k
      → IsRound operation (if b then m else k)
  either-IsRound true operation m k p q = p
  either-IsRound false operation m k p q = q

  pub on_destination_preparing-IsRound :
      (operation : BridgeOperation)
      → can_transition operation.state destination_submitted ≡ true
      → can_transition operation.state destination_failed ≡ true
      → IsRound operation (on_destination_preparing services operation)
  unfolding on_destination_preparing
  on_destination_preparing-IsRound operation y n = after_evidence operation attestation _ (λ x.
      chain-IsRound operation (lift (attestation_from x)) _ (λ s. refl)
        (λ a. chain-IsRound operation (now services) _ (now-IsQuiet services) (λ t.
          either-IsRound (time_le (services.dates.parse a.expires_at) (some t)) operation _ _
            (move-IsRound services operation destination_failed _ none n)
            (submit_mint-IsRound operation a y))))

  pub on_destination_submitted-IsRound :
      (operation : BridgeOperation)
      → can_transition operation.state destination_confirmed ≡ true
      → can_transition operation.state destination_failed ≡ true
      → IsRound operation (on_destination_submitted services operation)
  unfolding on_destination_submitted
  on_destination_submitted-IsRound operation y n = after_evidence operation destination_mint _ (λ x.
      stage_move operation destination_confirmation _
        (λ e. choose services (flagged e "confirmed") destination_confirmed destination_failed) _
        (confirm_mint_data-IsQuiet services operation x)
        (λ e.
          choose_legal (flagged e "confirmed") operation.state destination_confirmed
            destination_failed y n))

  pub on_destination_confirmed-IsRound :
      (operation : BridgeOperation)
      → can_transition operation.state destination_finalized ≡ true
      → can_transition operation.state destination_failed ≡ true
      → IsRound operation (on_destination_confirmed services operation)
  unfolding on_destination_confirmed
  on_destination_confirmed-IsRound operation y n = after_evidence operation destination_mint _ (λ x.
      stage_move operation destination_finality _
        (λ e. choose services (flagged e "finalized") destination_finalized destination_failed) _
        (finalize_mint_data-IsQuiet services operation x)
        (λ e.
          choose_legal (flagged e "finalized") operation.state destination_finalized
            destination_failed y n))

  pub on_reconciliation_pending-IsRound :
      (operation : BridgeOperation)
      → can_transition operation.state reconciled ≡ true
      → can_transition operation.state reconciliation_failed ≡ true
      → IsRound operation (on_reconciliation_pending services operation)
  unfolding on_reconciliation_pending
  on_reconciliation_pending-IsRound operation y n =
      stage_move operation reconciliation _
        (λ e. choose services (flagged e "matched") reconciled reconciliation_failed) _
        (reconcile_data-IsQuiet services operation)
        (λ e.
          choose_legal (flagged e "matched") operation.state reconciled reconciliation_failed y n)
