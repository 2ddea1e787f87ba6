-- ===== src/LockMint/Stages.antt =====
-- What the stages of lock-mint-coordinator.ts call leaves the tables of the engine alone.
use canton_evmcrosschain.Prelude.{refl}
use canton_evmcrosschain.Failures.{Result, Exec}
use canton_evmcrosschain.Exec.{◌>>=◌, lift}
use canton_evmcrosschain.Model.{BridgeOperation}
use canton_evmcrosschain.LockMint.Evidence.{LockMintStageEvidence, VerifiedThresholdAttestation}
use canton_evmcrosschain.LockMint.Coordinator.{Services, Coordinated, ask}
use canton_evmcrosschain.LockMint.Steps.{
  lock_data, confirm_lock_data, finalize_lock_data, attest_data, mint_data, confirm_mint_data,
  finalize_mint_data, reconcile_data,
}
use canton_evmcrosschain.LockMint.Moves.{IsQuiet, chain-IsQuiet, ask-IsQuiet}

module _ {W : Type 0} (services : Services W) where
  -- A check that may throw leaves the tables alone.
  checked :
      {A B : Type 0} (r : Result A) (f : A → Exec (Coordinated W) B)
      → ((a : A) → IsQuiet (f a))
      → IsQuiet (lift r >>= f)
  checked r f q = chain-IsQuiet (lift r) f (λ s. refl) q

  -- So does a call of a service.
  asked :
      {A B : Type 0} (m : Exec W A) (f : A → Exec (Coordinated W) B)
      → ((a : A) → IsQuiet (f a))
      → IsQuiet (ask services m >>= f)
  asked m f q = chain-IsQuiet (ask services m) f (ask-IsQuiet services m) q

  pub lock_data-IsQuiet : (operation : BridgeOperation) → IsQuiet (lock_data services operation)
  unfolding lock_data
  lock_data-IsQuiet operation = asked _ _ (λ a. checked _ _ (λ b. checked _ _ (λ c. λ s. refl)))

  pub confirm_lock_data-IsQuiet :
      (operation : BridgeOperation) (source : LockMintStageEvidence)
      → IsQuiet (confirm_lock_data services operation source)
  unfolding confirm_lock_data
  confirm_lock_data-IsQuiet operation source =
      checked _ _ (λ a. asked _ _ (λ b. checked _ _ (λ c. λ s. refl)))

  pub finalize_lock_data-IsQuiet :
      (operation : BridgeOperation) (source : LockMintStageEvidence)
      → IsQuiet (finalize_lock_data services operation source)
  unfolding finalize_lock_data
  finalize_lock_data-IsQuiet operation source =
      checked _ _ (λ a. asked _ _ (λ b. checked _ _ (λ c. checked _ _ (λ d. λ s. refl))))

  pub attest_data-IsQuiet :
      (operation : BridgeOperation) (finality : LockMintStageEvidence)
      → IsQuiet (attest_data services operation finality)
  unfolding attest_data
  attest_data-IsQuiet operation finality = asked _ _ (λ a. λ s. refl)

  pub mint_data-IsQuiet :
      (operation : BridgeOperation) (a : VerifiedThresholdAttestation)
      → IsQuiet (mint_data services operation a)
  unfolding mint_data
  mint_data-IsQuiet operation a = asked _ _ (λ a. λ s. refl)

  pub confirm_mint_data-IsQuiet :
      (operation : BridgeOperation) (mint : LockMintStageEvidence)
      → IsQuiet (confirm_mint_data services operation mint)
  unfolding confirm_mint_data
  confirm_mint_data-IsQuiet operation mint =
      checked _ _ (λ a. asked _ _ (λ b. checked _ _ (λ c. λ s. refl)))

  pub finalize_mint_data-IsQuiet :
      (operation : BridgeOperation) (mint : LockMintStageEvidence)
      → IsQuiet (finalize_mint_data services operation mint)
  unfolding finalize_mint_data
  finalize_mint_data-IsQuiet operation mint =
      checked _ _ (λ a. asked _ _ (λ b. checked _ _ (λ c. checked _ _ (λ d. λ s. refl))))

  pub reconcile_data-IsQuiet :
      (operation : BridgeOperation) → IsQuiet (reconcile_data services operation)
  unfolding reconcile_data
  reconcile_data-IsQuiet operation = asked _ _ (λ a. λ s. refl)
