-- ===== src/Supply/Store.antt =====
-- PostgresSupplyEffectStore and SupplyInvariantLedger of supply-invariants.ts, over the table of
-- packages/core/sql/006_supply_effects.sql.
use canton_evmcrosschain.Prelude.{
  ℕ, String, Bool, true, false, not, ◌&&◌, ◌||◌, none, some, List, [], ◌∷◌, ◌++◌, ◌==◌, leb, any,
  filter, find?, is_some, is_blank, has_prefix, if◌then◌else◌,
}
use canton_evmcrosschain.Failures.{
  registry, external, invalid_argument, conflict, Result, ok, err, ◌>>=◌, ◌>>◌, reject_if, Exec,
  transaction,
}
use canton_evmcrosschain.Dates.{Dates}
use canton_evmcrosschain.Amount.{parse_atomic_amount}
use canton_evmcrosschain.Supply.Assess.{
  SupplyEffectRecord, SupplyInvariantAssessment, AssessmentOutcome, valid, violation, same_key,
  assess,
}

-- What the store leaves to the database and to JSON: the comparison of ORDER BY finalized_at,
-- operation_id, effect, and the comparison of the JSON text of a stored record with that of a new
-- one, which tells the order of the members too.
pub record Storage : Type 0 where
  pub before : SupplyEffectRecord → SupplyEffectRecord → Bool
  pub same_json : SupplyEffectRecord → SupplyEffectRecord → Bool

pub data Persistence : Type 0 where
  inserted duplicate : Persistence

pub record Committed : Type 0 where
  pub persistence : Persistence
  pub records : List SupplyEffectRecord

pub record RecordedEffect : Type 0 where
  pub persistence : Persistence
  pub assessment : SupplyInvariantAssessment

abbrev pub Table : Type 0
Table = List SupplyEffectRecord

module _ (storage : Storage) where
  unfoldable pub insert_in_order :
      SupplyEffectRecord → List SupplyEffectRecord → List SupplyEffectRecord
  insert_in_order r [] = r ∷ []
  insert_in_order r (x ∷ xs) = if storage.before r x then r ∷ x ∷ xs else x ∷ insert_in_order r xs

  unfoldable pub in_order : List SupplyEffectRecord → List SupplyEffectRecord
  in_order [] = []
  in_order (r ∷ rs) = insert_in_order r (in_order rs)

-- WHERE asset_id = $1 AND representation_id = $2
abbrev pub rows_for : String → String → Table → List SupplyEffectRecord
rows_for asset_id representation_id table =
    filter (λ r. r.asset_id == asset_id && r.representation_id == representation_id) table

-- `list`, and the SELECT of `appendValidated`
unfoldable pub list_records : Storage → String → String → Table → List SupplyEffectRecord
unfolding in_order
list_records storage asset_id representation_id table =
    in_order storage (rows_for asset_id representation_id table)

-- INSERT, with the primary key (operation_id, effect)
unfoldable pub insert_record : SupplyEffectRecord → Table → Result Table
insert_record r table =
    if any (same_key r) table then err (external "constraint violation") else ok (table ++ r ∷ [])

-- `if (prior)`: the same record again, or a conflict
unfoldable pub append_prior :
    Storage
    → SupplyEffectRecord
    → SupplyEffectRecord
    → List SupplyEffectRecord
    → Table
    → Result (Committed × Table)
append_prior storage prior r records table = do
  reject_if (not (storage.same_json prior r)) (registry conflict)
  ok (record { persistence = duplicate; records = records }, table)

abbrev pub is_violation : AssessmentOutcome → Bool
is_violation violation = true
is_violation valid = false

-- the rest of the body, for an effect that is new
unfoldable pub append_candidate :
    SupplyEffectRecord → List SupplyEffectRecord → String → Table → Result (Committed × Table)
append_candidate r records assessed_at table = do
  let candidate = records ++ r ∷ []
  assessment ← assess r.asset_id r.representation_id candidate assessed_at
  reject_if (is_violation assessment.outcome) (registry conflict)
  table' ← insert_record r table
  ok (record { persistence = inserted; records = candidate }, table')

-- `appendValidated`; the advisory lock makes the body one step.
unfoldable pub append_validated :
    Storage → SupplyEffectRecord → String → Table → Result (Committed × Table)
append_validated storage r assessed_at table =
    let records = list_records storage r.asset_id r.representation_id table in
    elim (find? (same_key r) records) [
      | some prior ↦ append_prior storage prior r records table
      | none ↦ append_candidate r records assessed_at table
    ]

-- assertRecord
unfoldable pub assert_record : Dates → SupplyEffectRecord → Result (Unit {0})
assert_record dates r = do
  reject_if
      (not (has_prefix "IW:BRIDGE:" r.operation_id)
        || not (has_prefix "IW:ASSET:" r.asset_id)
        || is_blank r.representation_id
        || is_blank r.evidence_id)
      (registry invalid_argument)
  amount ← parse_atomic_amount r.amount
  reject_if (leb amount 0) (registry invalid_argument)
  reject_if (not (is_some (dates.parse r.finalized_at))) (registry invalid_argument)

-- what `record` answers to what the store has answered
unfoldable pub assessed : SupplyEffectRecord → String → Result Committed → Result RecordedEffect
assessed r assessed_at stored = do
  committed ← stored
  assessment ← assess r.asset_id r.representation_id committed.records assessed_at
  ok (record { persistence = committed.persistence; assessment = assessment })

unfoldable pub record_body :
    Dates → Storage → SupplyEffectRecord → String → Table → Result (Committed × Table)
record_body dates storage r assessed_at table =
    assert_record dates r >> append_validated storage r assessed_at table

-- `record` of SupplyInvariantLedger, at the time `now`
unfoldable pub record_effect : Dates → Storage → ℕ → SupplyEffectRecord → Exec Table RecordedEffect
record_effect dates storage now r table =
    let assessed_at = dates.to_iso now in
    let (stored, table') = transaction (record_body dates storage r assessed_at) table in
    (assessed r assessed_at stored, table')

-- `assess` of SupplyInvariantLedger
unfoldable pub assess_ledger :
    Dates → Storage → ℕ → String → String → Table → Result SupplyInvariantAssessment
assess_ledger dates storage now asset_id representation_id table =
    reject_if (is_blank representation_id) (registry invalid_argument)
    >> assess asset_id representation_id (list_records storage asset_id representation_id table)
        (dates.to_iso now)
