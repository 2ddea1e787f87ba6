-- ===== src/Finality/Evaluation.antt =====
-- The observations of finality-service.ts and their evaluation.
use canton_evmcrosschain.Prelude.{
  ℕ, String, Bool, true, false, not, ◌&&◌, ◌||◌, Option, none, some, List, [], ◌∷◌, ◌++◌, ◌==◌, ltb,
  concat, if◌then◌else◌,
}
use canton_evmcrosschain.Idempotency.Canonical.{joined}
use canton_evmcrosschain.Network.Registry.{FinalityPolicy, evm_confirmations, canton_completion}

pub data ReceiptStatus : Type 0 where
  success reverted : ReceiptStatus

-- A number: a safe natural one, the text of another finite one (or of `null`), or the text of one that
-- is not finite.
pub data Confirmations : Type 0 where
  safe : ℕ → Confirmations
  unsafe : String → Confirmations
  not_finite : String → Confirmations

pub record EvmFinalityObservation : Type 0 where
  pub network_id : String
  pub chain_id : String
  pub transaction_id : String
  pub receipt_status : ReceiptStatus
  pub transaction_block_number : String
  pub transaction_block_hash : String
  pub canonical_block_hash : String
  pub observed_head : String
  pub confirmations : Confirmations
  pub included_in_finalized_chain : Bool
  pub finalized_block_number : Option String
  pub finalized_block_hash : Option String
  pub provider : String
  pub observed_at : String

pub data CompletionStatus : Type 0 where
  committed rejected_command unknown : CompletionStatus

pub record CantonFinalityObservation : Type 0 where
  pub network_id : String
  pub transaction_id : String
  pub status : CompletionStatus
  pub completion_offset : Option String
  pub update_id : Option String
  pub synchronizer_id : Option String
  pub participant_id : String
  pub party_scope : List String
  pub observed_at : String

pub data NetworkFinalityObservation : Type 0 where
  evm : EvmFinalityObservation → NetworkFinalityObservation
  canton : CantonFinalityObservation → NetworkFinalityObservation

pub data FinalityOutcome : Type 0 where
  satisfied pending rejected uncertain : FinalityOutcome

pub record Evaluation : Type 0 where
  pub outcome : FinalityOutcome
  pub reason_codes : List String
  pub observed_position : String
  pub evidence : List String

-- What the platform does with texts: `toLowerCase`, the order of `sort`, and the text of a number.
pub record Writing : Type 0 where
  pub lower : String → String
  pub before : String → String → Bool
  pub number_text : ℕ → String

-- `!value` for an optional text: there is none, or it is empty.
abbrev pub is_missing : Option String → Bool
is_missing none = true
is_missing (some s) = s == ""

-- `value ?? other`
abbrev pub or_else : Option String → String → String
or_else none other = other
or_else (some s) other = s

abbrev pub is_nothing : List String → Bool
is_nothing [] = true
is_nothing (s ∷ rest) = false

module _ (writing : Writing) where
  unfoldable pub insert_text : String → List String → List String
  insert_text s [] = s ∷ []
  insert_text s (t ∷ rest) = if writing.before s t then s ∷ t ∷ rest else t ∷ insert_text s rest

  unfoldable pub sort_texts : List String → List String
  unfolding insert_text
  sort_texts [] = []
  sort_texts (s ∷ rest) = insert_text s (sort_texts rest)

  abbrev pub confirmations_text : Confirmations → String
  confirmations_text (safe n) = writing.number_text n
  confirmations_text (unsafe s) = s
  confirmations_text (not_finite s) = s

  -- `evaluation`
  unfoldable pub evaluation :
      FinalityOutcome → List String → String → NetworkFinalityObservation → Evaluation
  unfolding sort_texts joined
  evaluation outcome reason_codes observed_position (evm o) = record {
    outcome = outcome;
    reason_codes = reason_codes;
    observed_position = observed_position;
    evidence =
        concat "provider=" o.provider
        ∷ concat "chainId=" o.chain_id
        ∷ concat "transactionBlock="
            (concat o.transaction_block_number (concat ":" o.transaction_block_hash))
        ∷ concat "canonicalBlockHash=" o.canonical_block_hash
        ∷ concat "confirmations=" (confirmations_text o.confirmations)
        ∷ concat "finalizedBlock=" (
            concat (or_else o.finalized_block_number "none")
              (concat ":" (or_else o.finalized_block_hash "none")))
        ∷ [];
  }
  evaluation outcome reason_codes observed_position (canton o) = record {
    outcome = outcome;
    reason_codes = reason_codes;
    observed_position = observed_position;
    evidence =
        concat "participant=" o.participant_id
        ∷ concat "partyScope=" (joined (sort_texts o.party_scope))
        ∷ concat "completionOffset=" (or_else o.completion_offset "none")
        ∷ concat "updateId=" (or_else o.update_id "none")
        ∷ concat "synchronizerId=" (or_else o.synchronizer_id "none")
        ∷ [];
  }

  -- `observation.confirmations < policy.confirmations`; a policy whose number is none is refused before.
  abbrev pub too_few : ℕ → Option ℕ → Bool
  too_few n none = false
  too_few n (some required) = ltb n required

  abbrev pub tag_missing : EvmFinalityObservation → Bool
  tag_missing o =
      not o.included_in_finalized_chain
      || is_missing o.finalized_block_number
      || is_missing o.finalized_block_hash

  -- The reasons that `evaluateEvm` collects.
  abbrev pub pending_reasons : ℕ → Option ℕ → Bool → EvmFinalityObservation → List String
  pending_reasons n required require_finalized_tag o =
      (if too_few n required then "CONFIRMATIONS_PENDING" ∷ [] else [])
      ++ (if require_finalized_tag && tag_missing o then "FINALIZED_TAG_PENDING" ∷ [] else [])

  abbrev pub evm_position : EvmFinalityObservation → String
  evm_position o =
      if o.included_in_finalized_chain && not (is_missing o.finalized_block_number)
      then concat "finalized:" (or_else o.finalized_block_number "")
      else concat "head:" o.observed_head

  abbrev pub same_chain : Option String → String → Bool
  same_chain expected chain_id = not (is_missing expected) && or_else expected "" == chain_id

  abbrev pub is_reverted : ReceiptStatus → Bool
  is_reverted reverted = true
  is_reverted success = false

  -- `evaluateEvm` from its check of the confirmations on
  abbrev pub evaluate_confirmations :
      Confirmations → Option ℕ → Bool → EvmFinalityObservation → Evaluation
  evaluate_confirmations (unsafe s) required tag o =
      evaluation rejected ("INVALID_CONFIRMATION_EVIDENCE" ∷ []) o.transaction_block_number (evm o)
  evaluate_confirmations (not_finite s) required tag o =
      evaluation rejected ("INVALID_CONFIRMATION_EVIDENCE" ∷ []) o.transaction_block_number (evm o)
  evaluate_confirmations (safe n) required tag o =
      let reasons = pending_reasons n required tag o in
      evaluation (if is_nothing reasons then satisfied else pending) reasons (evm_position o)
        (evm o)

  -- `evaluateEvm` for a policy of confirmations
  unfoldable pub evaluate_confirmed :
      Option ℕ → Bool → EvmFinalityObservation → Option String → Evaluation
  unfolding evaluation
  evaluate_confirmed required tag o expected_chain_id =
      if not (same_chain expected_chain_id o.chain_id)
      then evaluation rejected ("CHAIN_ID_MISMATCH" ∷ []) o.transaction_block_number (evm o)
      else if is_reverted o.receipt_status
      then evaluation rejected ("TRANSACTION_REVERTED" ∷ []) o.transaction_block_number (evm o)
      else if not (writing.lower o.transaction_block_hash == writing.lower o.canonical_block_hash)
      then evaluation uncertain ("BLOCK_NOT_CANONICAL" ∷ []) o.transaction_block_number (evm o)
      else evaluate_confirmations o.confirmations required tag o

  unfoldable pub evaluate_evm : FinalityPolicy → EvmFinalityObservation → Option String → Evaluation
  unfolding evaluate_confirmed
  evaluate_evm (evm_confirmations required tag) o expected_chain_id =
      evaluate_confirmed required tag o expected_chain_id
  evaluate_evm _ o expected_chain_id =
      evaluation rejected ("POLICY_TYPE_MISMATCH" ∷ []) o.transaction_block_number (evm o)

  -- `policy.synchronizerId && observation.synchronizerId !== policy.synchronizerId`
  abbrev pub wrong_synchronizer : Option String → Option String → Bool
  wrong_synchronizer none found = false
  wrong_synchronizer (some s) none = not (s == "")
  wrong_synchronizer (some s) (some t) = not (s == "") && not (t == s)

  -- `evaluateCanton` from its check of the status on
  unfoldable pub evaluate_completion :
      CompletionStatus → Option String → CantonFinalityObservation → Evaluation
  unfolding evaluation
  evaluate_completion rejected_command synchronizer o =
      evaluation rejected ("COMMAND_REJECTED" ∷ []) (or_else o.completion_offset "unknown")
        (canton o)
  evaluate_completion unknown synchronizer o =
      evaluation pending ("COMPLETION_PENDING" ∷ []) (or_else o.completion_offset "unknown")
        (canton o)
  evaluate_completion committed synchronizer o =
      if is_missing o.completion_offset || is_missing o.update_id
      then evaluation uncertain ("COMPLETION_EVIDENCE_INCOMPLETE" ∷ [])
          (or_else o.completion_offset "unknown") (canton o)
      else if wrong_synchronizer synchronizer o.synchronizer_id
      then evaluation rejected ("SYNCHRONIZER_MISMATCH" ∷ []) (or_else o.completion_offset "")
          (canton o)
      else evaluation satisfied []
          (concat "participant:"
            (concat o.participant_id (concat ":offset:" (or_else o.completion_offset ""))))
          (canton o)

  unfoldable pub evaluate_canton : FinalityPolicy → CantonFinalityObservation → Evaluation
  unfolding evaluate_completion
  evaluate_canton (canton_completion synchronizer) o =
      if is_nothing o.party_scope
      then evaluation rejected ("PARTY_SCOPE_REQUIRED" ∷ []) (or_else o.completion_offset "unknown")
          (canton o)
      else evaluate_completion o.status synchronizer o
  evaluate_canton _ o =
      evaluation rejected ("POLICY_TYPE_MISMATCH" ∷ []) (or_else o.completion_offset "unknown")
        (canton o)
