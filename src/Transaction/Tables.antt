-- ===== src/Transaction/Tables.antt =====
-- What the reads of the tables see after a write.
use text.Mathlib.TextPositions.{eq_refl}
use canton_evmcrosschain.Prelude.{
  ℕ, String, ◌≡◌, refl, ap, ◌∙◌, true, false, none, some, List, [], ◌∷◌, ◌++◌, arith, ◌==◌, eq_iff,
  if◌then◌else◌, ◌≢◌,
}
use canton_evmcrosschain.Model.{BridgeState, BridgeOperation}
use canton_evmcrosschain.Transaction.Store.{
  OperationRow, TransitionRow, operation_row, rows_of, update_rows,
}

pub operation_row-append :
    (id : String) (rows : List OperationRow) (r : OperationRow)
    → operation_row id rows ≡ none
    → operation_row id (rows ++ r ∷ []) ≡ (if r.id == id then some r else none)
operation_row-append id [] r h = refl
operation_row-append id (x ∷ rows) r h = ground (arith, operation_row-append id rows r)

pub operation_row-append_ne :
    (id : String) (rows : List OperationRow) (r : OperationRow)
    → (r.id == id) ≡ false
    → operation_row id (rows ++ r ∷ []) ≡ operation_row id rows
operation_row-append_ne id [] r h = ground arith
operation_row-append_ne id (x ∷ rows) r h = ground (arith, operation_row-append_ne id rows r h)

pub operation_row-append_self :
    (rows : List OperationRow) (r : OperationRow)
    → operation_row r.id rows ≡ none
    → operation_row r.id (rows ++ r ∷ []) ≡ some r
operation_row-append_self rows r h =
    operation_row-append r.id rows r h ∙ ap (λ b. if b then some r else none) (eq_refl r.id)

pub rows_of-append_ne :
    (id : String) (rows : List TransitionRow) (r : TransitionRow)
    → (r.operation_id == id) ≡ false
    → rows_of id (rows ++ r ∷ []) ≡ rows_of id rows
rows_of-append_ne id [] r h = ground arith
rows_of-append_ne id (x ∷ rows) r h = ground (arith, rows_of-append_ne id rows r h)

pub rows_of-append_self :
    (id : String) (rows : List TransitionRow) (r : TransitionRow)
    → (r.operation_id == id) ≡ true
    → rows_of id (rows ++ r ∷ []) ≡ rows_of id rows ++ r ∷ []
rows_of-append_self id [] r h = ground arith
rows_of-append_self id (x ∷ rows) r h = ground (arith, rows_of-append_self id rows r h)

-- A row that a query by `id` returns has that `id`.
pub id-operation_row :
    (id : String) (rows : List OperationRow) (r : OperationRow)
    → operation_row id rows ≡ some r
    → r.id ≡ id
id-operation_row id [] r h = cc
id-operation_row id (x ∷ rows) r h = ground (arith, id-operation_row id rows r, eq_iff x.id id)

module _ (id : String) (state : BridgeState) (version : ℕ) (operation : BridgeOperation) where
  abbrev updated : OperationRow → OperationRow
  updated r = record r { state = state; version = version; operation = operation }

  pub operation_row-update_self :
      (rows : List OperationRow) (r : OperationRow)
      → operation_row id rows ≡ some r
      → operation_row id (update_rows id state version operation rows)
        ≡ some (record r { state = state; version = version; operation = operation })
  unfolding update_rows
  operation_row-update_self [] r h = cc
  operation_row-update_self (x ∷ rows) r h = ground (arith, operation_row-update_self rows r)

  pub operation_row-update_ne :
      (j : String) (rows : List OperationRow)
      → id ≢ j
      → operation_row j (update_rows id state version operation rows) ≡ operation_row j rows
  unfolding update_rows
  operation_row-update_ne j [] h = refl
  operation_row-update_ne j (x ∷ rows) h =
      ground (arith, operation_row-update_ne j rows h, eq_iff x.id id, eq_iff x.id j)
