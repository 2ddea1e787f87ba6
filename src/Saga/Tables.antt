-- ===== src/Saga/Tables.antt =====
-- The rows of the settlement tables, as they are read and written.
use canton_evmcrosschain.Prelude.{
  ℕ, String, ◌≡◌, refl, Bool, true, false, ◌&&◌, ◌||◌, none, some, List, [], ◌∷◌, ◌++◌, ◌==◌, eqb,
  eq_iff, any, if◌then◌else◌, arith,
}
use canton_evmcrosschain.Saga.States.{CrossNetworkTransition, CrossNetworkSettlementRecord}
use canton_evmcrosschain.Saga.Store.{
  SettlementRow, SettlementTransitionRow, settlement_row, update_settlement, updated_row,
}

pub settlement_row-update_other :
    (id j : String) (v : ℕ) (t : CrossNetworkTransition) (next : CrossNetworkSettlementRecord)
    (rows : List SettlementRow)
    → (id == j) ≡ false
    → settlement_row j (update_settlement id v t next rows) ≡ settlement_row j rows
unfolding settlement_row update_settlement
settlement_row-update_other id j v t next [] h = refl
settlement_row-update_other id j v t next (row ∷ rows) h = ground (
  arith,
  settlement_row-update_other id j v t next rows h,
  eq_iff row.id id,
  eq_iff row.id j,
  eq_iff id j,
)

pub settlement_row-update_self :
    (id : String) (v : ℕ) (t : CrossNetworkTransition) (next : CrossNetworkSettlementRecord)
    (rows : List SettlementRow) (found : SettlementRow)
    → settlement_row id rows ≡ some found
    → eqb found.version v ≡ true
    → settlement_row id (update_settlement id v t next rows) ≡ some (updated_row found v t next)
unfolding settlement_row update_settlement
settlement_row-update_self id v t next [] found h e = cc
settlement_row-update_self id v t next (row ∷ rows) found h e =
    ground (arith, settlement_row-update_self id v t next rows found, eq_iff row.id id)

pub any_version :
    (id : String) (v : ℕ) (rows : List SettlementRow) (found : SettlementRow)
    → settlement_row id rows ≡ some found
    → eqb found.version v ≡ true
    → any (λ r. r.id == id && eqb r.version v) rows ≡ true
unfolding settlement_row
any_version id v [] found h e = cc
any_version id v (row ∷ rows) found h e = ground (arith, any_version id v rows found)

pub settlement_row-append :
    (id j : String) (rows : List SettlementRow) (row : SettlementRow)
    → row.id ≡ id
    → settlement_row id rows ≡ none
    → settlement_row j (rows ++ row ∷ []) ≡ (if id == j then some row else settlement_row j rows)
unfolding settlement_row
settlement_row-append id j [] row e h = ground (arith, eq_iff row.id j, eq_iff id j)
settlement_row-append id j (x ∷ rows) row e h =
    ground
      (arith, settlement_row-append id j rows row e, eq_iff x.id id, eq_iff x.id j, eq_iff id j)

-- Whether a settlement has a transition with a number.
abbrev pub has_number : String → ℕ → List SettlementTransitionRow → Bool
has_number id n rows = any (λ r. r.settlement_id == id && eqb r.row_transition.sequence n) rows

pub has_number-append :
    (id : String) (n : ℕ) (rows : List SettlementTransitionRow) (row : SettlementTransitionRow)
    → has_number id n (rows ++ row ∷ [])
      ≡ (has_number id n rows || (row.settlement_id == id && eqb row.row_transition.sequence n))
has_number-append id n [] row = ground arith
has_number-append id n (x ∷ rows) row = ground (arith, has_number-append id n rows row)
