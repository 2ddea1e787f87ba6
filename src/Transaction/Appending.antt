-- ===== src/Transaction/Appending.antt =====
-- What an `append` that adds a transition does to the tables, and that it keeps the invariant.
use text.Mathlib.TextPositions.{eq_refl}
use mathlib.Core.List.{map-append}
use canton_evmcrosschain.Prelude.{
  ◌+◌, String, ◌≡◌, ◌≢◌, refl, sym, ap, ◌∙◌, subst, true, false, none, some, List, [], ◌∷◌, ◌++◌,
  arith, ◌==◌, eq_iff, Bool-cases, inl, inr, map,
}
use canton_evmcrosschain.Failures.{ok}
use canton_evmcrosschain.Model.{BridgeOperation, PersistedTransition}
use canton_evmcrosschain.Transaction.States.{can_transition}
use canton_evmcrosschain.Transaction.Store.{
  TransitionCommand, OperationRow, Database, operation_row, rows_of, violates, load, append_new,
  appended_row, updated_operation, update_rows, to_transition,
}
use canton_evmcrosschain.Transaction.Tables.{
  rows_of-append_self, rows_of-append_ne, operation_row-update_self, operation_row-update_ne,
}
use canton_evmcrosschain.Transaction.History.{IsChain, IsChain-append}
use canton_evmcrosschain.Transaction.Consistency.{
  Agrees, IsConsistent, Agrees-some, Agrees-by, loaded, load-some,
}

abbrev pub new_rows : TransitionCommand → BridgeOperation → Database → List OperationRow
new_rows command operation db =
    update_rows command.operation_id command.to (operation.version + 1)
      (updated_operation command operation) db.bridge_operations

-- The tables after a transition has been added.
abbrev pub after_append : TransitionCommand → BridgeOperation → Database → Database
after_append command operation db = record {
  bridge_operations = new_rows command operation db;
  bridge_transitions = db.bridge_transitions ++ appended_row command operation ∷ [];
  is_timestamp = db.is_timestamp;
}

-- The operation that the caller gets.
abbrev pub appended_operation : TransitionCommand → BridgeOperation → BridgeOperation
appended_operation command operation = record (updated_operation command operation) {
  transitions = operation.transitions ++ to_transition (appended_row command operation) ∷ [];
}

-- All that a successful `append_new` has checked and done.
pub record Appended (command : TransitionCommand) (operation : BridgeOperation) (db : Database)
    (operation' : BridgeOperation) (db' : Database) : Type 0 where
  pub version : operation.version ≡ command.expected_version
  pub legal : can_transition operation.state command.to ≡ true
  pub admitted : violates (appended_row command operation) db ≡ false
  pub returned : operation' ≡ appended_operation command operation
  pub written : db' ≡ after_append command operation db

pub append_new-eq-ok :
    (command : TransitionCommand) (operation operation' : BridgeOperation) (db db' : Database)
    → append_new command operation db ≡ ok (operation', db')
    → Appended command operation db operation' db'
unfolding append_new
append_new-eq-ok command operation operation' db db' h = record {
  version = ground arith;
  legal = ground arith;
  admitted = ground arith;
  returned = ground arith;
  written = ground arith;
}

==_false : (s t : String) → s ≢ t → (s == t) ≡ false
==_false s t ne = ground (arith, eq_iff s t)

module _ (command : TransitionCommand) (operation : BridgeOperation) (db : Database)
    (row : OperationRow) (c : IsConsistent db)
    (found : operation_row command.operation_id db.bridge_operations ≡ some row)
    (l : load command.operation_id db ≡ some operation)
    (legal : can_transition operation.state command.to ≡ true) where
  abbrev id : String
  id = command.operation_id

  operation-eq : operation ≡ loaded db id row
  operation-eq = cc (load-some db id row c found)

  pub IsChain-so_far :
      IsChain none 0
        (rows_of id db.bridge_transitions)
        (some operation.state)
        (operation.version + 1)
  IsChain-so_far =
      subst
        (λ (o : BridgeOperation).
          IsChain none 0 (rows_of id db.bridge_transitions) (some o.state) (o.version + 1))
        (sym operation-eq) (Agrees-some db id row c found).3

  id-eq : operation.id ≡ id
  id-eq = ap (λ (o : BridgeOperation). o.id) operation-eq ∙ (Agrees-some db id row c found).0

  Agrees-appended :
      Agrees id
        (operation_row id (new_rows command operation db))
        (rows_of id (db.bridge_transitions ++ appended_row command operation ∷ []))
  unfolding appended_row updated_operation
  Agrees-appended =
      Agrees-by id
        (some (record row {
          state = command.to;
          version = operation.version + 1;
          operation = updated_operation command operation;
        }))
        _ (rows_of id db.bridge_transitions ++ appended_row command operation ∷ []) _
        (operation_row-update_self id command.to (operation.version + 1)
          (updated_operation command operation) db.bridge_operations row found)
        (rows_of-append_self id db.bridge_transitions (appended_row command operation) (eq_refl id))
        (
          id-eq,
          refl,
          refl,
          IsChain-append none (some operation.state) 0 (operation.version + 1)
              (rows_of id db.bridge_transitions) (appended_row command operation) IsChain-so_far
              refl refl legal,
        )

  Agrees-other :
      (j : String)
      → id ≢ j
      → Agrees j
          (operation_row j (new_rows command operation db))
          (rows_of j (db.bridge_transitions ++ appended_row command operation ∷ []))
  unfolding appended_row
  Agrees-other j ne =
      Agrees-by j (operation_row j db.bridge_operations) _ (rows_of j db.bridge_transitions) _
        (operation_row-update_ne id command.to (operation.version + 1)
          (updated_operation command operation) j db.bridge_operations ne)
        (rows_of-append_ne j db.bridge_transitions (appended_row command operation)
          (==_false id j ne))
        (c.agrees j)

  pub after_append-IsConsistent : IsConsistent (after_append command operation db)
  after_append-IsConsistent = record {
    agrees = λ j. elim (Bool-cases (id == j)) [
      | inl same ↦
          subst
            (λ k.
              Agrees k (operation_row k (new_rows command operation db))
                (rows_of k (db.bridge_transitions ++ appended_row command operation ∷ [])))
            ((eq_iff id j).0 same) Agrees-appended
      | inr other ↦ Agrees-other j (λ e. cc ((eq_iff id j).1 e))
    ];
  }

  abbrev with_transitions : List PersistedTransition → BridgeOperation
  with_transitions ts = record (updated_operation command operation) { transitions = ts }

  transitions_after :
      map to_transition (rows_of id (db.bridge_transitions ++ appended_row command operation ∷ []))
      ≡ operation.transitions ++ to_transition (appended_row command operation) ∷ []
  unfolding appended_row
  transitions_after =
      ap (map to_transition)
        (rows_of-append_self id db.bridge_transitions (appended_row command operation) (eq_refl id))
      ∙ (map-append to_transition (rows_of id db.bridge_transitions)
            (appended_row command operation ∷ [])
          ∙ ap (λ ts. ts ++ to_transition (appended_row command operation) ∷ [])
              (sym (ap (λ (o : BridgeOperation). o.transitions) operation-eq)))

  -- What the next `load` returns is what `append` returned.
  pub load-after_append :
      load id (after_append command operation db) ≡ some (appended_operation command operation)
  load-after_append =
      load-some (after_append command operation db) id
        (record row {
          state = command.to;
          version = operation.version + 1;
          operation = updated_operation command operation;
        })
        after_append-IsConsistent
        (operation_row-update_self id command.to (operation.version + 1)
          (updated_operation command operation) db.bridge_operations row found)
      ∙ ap (λ ts. some (with_transitions ts)) transitions_after
