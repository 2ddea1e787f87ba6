-- ===== src/Transaction/Accepted.antt =====
-- The fields of an operation that the engine has checked keep what was checked.
use canton_evmcrosschain.Prelude.{
  ◌+◌, String, ◌≡◌, sym, subst, false, Option, none, some, List, [], ◌∷◌, ◌++◌, arith, ◌==◌, eq_iff,
  is_blank, Bool-cases, inl, inr,
}
use canton_evmcrosschain.Failures.{ok}
use canton_evmcrosschain.Dates.{Dates}
use canton_evmcrosschain.Amount.{assert_positive_amount}
use canton_evmcrosschain.Model.{BridgeOperation}
use canton_evmcrosschain.Transaction.Store.{
  CreateBridgeOperation, TransitionCommand, OperationRow, operation_row, initial_operation,
  updated_operation, update_rows,
}
use canton_evmcrosschain.Transaction.Tables.{
  operation_row-append_self, operation_row-append_ne, operation_row-update_self,
  operation_row-update_ne,
}
use canton_evmcrosschain.Transaction.Engine.{check_create}

pub record IsAccepted (operation : BridgeOperation) : Type 0 where
  pub amount : assert_positive_amount operation.amount ≡ ok tt
  pub networks : (operation.source_network_id == operation.destination_network_id) ≡ false
  pub key : is_blank operation.idempotency_key ≡ false

abbrev pub Accepted : Option OperationRow → Type 0
Accepted none = Unit
Accepted (some row) = IsAccepted row.operation

abbrev pub AllAccepted : List OperationRow → Type 0
AllAccepted rows = (id : String) → Accepted (operation_row id rows)

pub check_create-IsAccepted :
    (dates : Dates) (input : CreateBridgeOperation)
    → check_create dates input ≡ ok tt
    → IsAccepted (initial_operation input)
unfolding check_create initial_operation
check_create-IsAccepted dates input h = record {
  amount = ground arith;
  networks = ground arith;
  key = ground arith;
}

updated_operation-IsAccepted :
    (command : TransitionCommand) (operation : BridgeOperation)
    → IsAccepted operation
    → IsAccepted (updated_operation command operation)
unfolding updated_operation
updated_operation-IsAccepted command operation a = record {
  amount = a.amount;
  networks = a.networks;
  key = a.key;
}

pub insert-AllAccepted :
    (rows : List OperationRow) (row : OperationRow)
    → operation_row row.id rows ≡ none
    → IsAccepted row.operation
    → AllAccepted rows
    → AllAccepted (rows ++ row ∷ [])
insert-AllAccepted rows row new a h id = elim (Bool-cases (row.id == id)) [
  | inl same ↦
      subst (λ j. Accepted (operation_row j (rows ++ row ∷ []))) ((eq_iff row.id id).0 same)
        (subst Accepted (sym (operation_row-append_self rows row new)) a)
  | inr other ↦ subst Accepted (sym (operation_row-append_ne id rows row other)) (h id)
]

pub update-AllAccepted :
    (command : TransitionCommand) (operation : BridgeOperation) (rows : List OperationRow)
    (row : OperationRow)
    → operation_row command.operation_id rows ≡ some row
    → IsAccepted operation
    → AllAccepted rows
    → AllAccepted (
        update_rows command.operation_id command.to
          (operation.version + 1)
          (updated_operation command operation)
          rows)
update-AllAccepted command operation rows row found a h id =
    elim (Bool-cases (command.operation_id == id)) [
      | inl same ↦
          subst (λ j. Accepted (operation_row j (later rows))) ((eq_iff _ _).0 same)
            (subst Accepted
              (sym (
                operation_row-update_self command.operation_id command.to (operation.version + 1)
                  (updated_operation command operation) rows row found))
              (updated_operation-IsAccepted command operation a))
      | inr other ↦
          subst Accepted
            (sym (
              operation_row-update_ne command.operation_id command.to (operation.version + 1)
                (updated_operation command operation) id rows (λ e. cc ((eq_iff _ _).1 e))))
            (h id)
    ]
  where
    later : List OperationRow → List OperationRow
    later =
        update_rows command.operation_id command.to (operation.version + 1)
          (updated_operation command operation)
