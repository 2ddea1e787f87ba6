-- ===== src/LockMint/Evidence.antt =====
-- The durable evidence of the stages: PostgresLockMintEvidenceStore over the table of
-- packages/core/sql/005_bridge_stage_evidence.sql. The reference of the table to
-- bridge_operations is left out: the coordinator has loaded the operation before it writes.
use canton_evmcrosschain.Prelude.{
  ℕ, String, Bool, true, false, not, ◌&&◌, Option, none, some, List, [], ◌∷◌, ◌++◌, ◌==◌, eqb,
  find?, is_blank, if◌then◌else◌,
}
use canton_evmcrosschain.Failures.{registry, conflict, invalid_argument, Result, ok, err, ◌>>=◌}

pub data LockMintStage : Type 0 where
  source_lock source_confirmation source_finality attestation : LockMintStage
  destination_mint destination_confirmation destination_finality reconciliation : LockMintStage

unfoldable pub stage_number : LockMintStage → ℕ
stage_number source_lock = 0
stage_number source_confirmation = 1
stage_number source_finality = 2
stage_number attestation = 3
stage_number destination_mint = 4
stage_number destination_confirmation = 5
stage_number destination_finality = 6
stage_number reconciliation = 7

unfoldable pub same_stage : LockMintStage → LockMintStage → Bool
same_stage a b = eqb (stage_number a) (stage_number b)

-- `string | boolean`
pub data Value : Type 0 where
  text : String → Value
  flag : Bool → Value

pub record LockMintStageEvidence : Type 0 where
  pub operation_id : String
  pub stage : LockMintStage
  pub recorded_at : String
  pub data_of : List (String × Value)

abbrev pub EvidenceTable : Type 0
EvidenceTable = List LockMintStageEvidence

abbrev pub is_for : String → LockMintStage → LockMintStageEvidence → Bool
is_for id stage e = e.operation_id == id && same_stage e.stage stage

-- `get`
unfoldable pub get_evidence : String → LockMintStage → EvidenceTable → Option LockMintStageEvidence
get_evidence id stage table = find? (is_for id stage) table

abbrev same_flag : Bool → Bool → Bool
same_flag true b = b
same_flag false b = not b

abbrev same_value : Value → Value → Bool
same_value (text a) (text b) = a == b
same_value (flag a) (flag b) = same_flag a b
same_value _ _ = false

unfoldable pub same_data : List (String × Value) → List (String × Value) → Bool
same_data [] [] = true
same_data ((k, v) ∷ rest) ((j, w) ∷ other) = k == j && same_value v w && same_data rest other
same_data _ _ = false

-- The equality of two jsonb documents of this form.
unfoldable pub same_evidence : LockMintStageEvidence → LockMintStageEvidence → Bool
unfolding same_data same_stage
same_evidence a b =
    a.operation_id == b.operation_id
    && same_stage a.stage b.stage
    && a.recorded_at == b.recorded_at
    && same_data a.data_of b.data_of

-- `put`: evidence is never replaced.
unfoldable pub put_evidence :
    LockMintStageEvidence → EvidenceTable → Result (LockMintStageEvidence × EvidenceTable)
unfolding get_evidence same_evidence
put_evidence evidence table = elim (get_evidence evidence.operation_id evidence.stage table) [
  | none ↦ ok (evidence, table ++ evidence ∷ [])
  | some stored ↦
      if same_evidence stored evidence then ok (stored, table) else err (registry conflict)
]

-- `data[key]`
unfoldable pub data_member : String → List (String × Value) → Option Value
data_member key [] = none
data_member key ((k, v) ∷ rest) = if k == key then some v else data_member key rest

-- `typeof value === "string" && value.trim()`
abbrev pub text_value : Option Value → Result String
text_value none = err (registry invalid_argument)
text_value (some (flag b)) = err (registry invalid_argument)
text_value (some (text s)) = if is_blank s then err (registry invalid_argument) else ok s

-- stringValue
unfoldable pub string_value : LockMintStageEvidence → String → Result String
unfolding data_member
string_value evidence key = text_value (data_member key evidence.data_of)

abbrev pub is_true : Option Value → Bool
is_true (some (flag b)) = b
is_true (some (text s)) = false
is_true none = false

-- `evidence.data.key === true`
unfoldable pub flagged : LockMintStageEvidence → String → Bool
unfolding data_member
flagged evidence key = is_true (data_member key evidence.data_of)

pub record VerifiedThresholdAttestation : Type 0 where
  pub digest : String
  pub validator_set_id : String
  pub signature_count : String
  pub threshold : String
  pub expires_at : String

-- attestationFrom
unfoldable pub attestation_from : LockMintStageEvidence → Result VerifiedThresholdAttestation
attestation_from evidence = do
  digest ← string_value evidence "digest"
  validator_set_id ← string_value evidence "validatorSetId"
  signature_count ← string_value evidence "signatureCount"
  threshold ← string_value evidence "threshold"
  expires_at ← string_value evidence "expiresAt"
  ok (record {
    digest = digest;
    validator_set_id = validator_set_id;
    signature_count = signature_count;
    threshold = threshold;
    expires_at = expires_at;
  })
