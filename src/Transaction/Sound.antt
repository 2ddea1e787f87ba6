-- ===== src/Transaction/Sound.antt =====
-- The writes of the store and of the engine keep both invariants of the tables.
use canton_evmcrosschain.Prelude.{
  Bool, String, ◌≡◌, refl, sym, subst, true, none, some, ◌⊎◌, arith, Option-cases, inl, inr,
}
use canton_evmcrosschain.Failures.{ok}
use canton_evmcrosschain.Dates.{Dates}
use canton_evmcrosschain.Model.{BridgeOperation, same_state}
use canton_evmcrosschain.Transaction.Store
use canton_evmcrosschain.Transaction.Store.{
  CreateBridgeOperation, TransitionCommand, OperationRow, TransitionRow, Database, operation_row,
  append, append_duplicate, append_new, find_row, load, initial_operation,
}
use canton_evmcrosschain.Transaction.Engine.{check_create, initial_transition}
use canton_evmcrosschain.Transaction.Consistency.{
  IsConsistent, empty, empty-IsConsistent, load-eq-some, load-some, loaded, create-eq-ok,
  after_create-IsConsistent,
}
use canton_evmcrosschain.Transaction.Appending.{
  Appended, append_new-eq-ok, after_append-IsConsistent,
}
use canton_evmcrosschain.Transaction.Accepted.{
  IsAccepted, Accepted, AllAccepted, check_create-IsAccepted, insert-AllAccepted,
  update-AllAccepted,
}

pub record IsSound (db : Database) : Type 0 where
  pub consistent : IsConsistent db
  pub accepted : AllAccepted db.bridge_operations

pub empty-IsSound : (is_timestamp : String → Bool) → IsSound (empty is_timestamp)
empty-IsSound is_timestamp = record {
  consistent = empty-IsConsistent is_timestamp;
  accepted = λ id. tt;
}

-- A successful `append` has met its key before, and changed nothing, or has added a transition.
pub record Repeated (command : TransitionCommand) (db : Database) (operation' : BridgeOperation)
    (db' : Database) : Type 0 where
  pub row : TransitionRow
  pub known : find_row command.operation_id command.transition_key db ≡ some row
  pub same : same_state row.to_state command.to ≡ true
  pub returned : load command.operation_id db ≡ some operation'
  pub unchanged : db' ≡ db

pub record Added (command : TransitionCommand) (db : Database) (operation' : BridgeOperation)
    (db' : Database) : Type 0 where
  pub operation : BridgeOperation
  pub unknown : find_row command.operation_id command.transition_key db ≡ none
  pub current : load command.operation_id db ≡ some operation
  pub appended : Appended command operation db operation' db'

append_duplicate-eq-ok :
    (command : TransitionCommand) (row : TransitionRow) (db db' : Database)
    (operation' : BridgeOperation)
    → append_duplicate command row db ≡ ok (operation', db')
    → (same_state row.to_state command.to ≡ true)
      × (load command.operation_id db ≡ some operation')
      × (db' ≡ db)
unfolding append_duplicate
append_duplicate-eq-ok command row db db' operation' h = (ground arith, ground arith, ground arith)

pub append-cases :
    (command : TransitionCommand) (db db' : Database) (operation' : BridgeOperation)
    → append command db ≡ ok (operation', db')
    → Repeated command db operation' db' ⊎ Added command db operation' db'
unfolding append
append-cases command db db' operation' h =
    elim (Option-cases (find_row command.operation_id command.transition_key db)) [
      | inl unknown ↦ elim (Option-cases (load command.operation_id db)) [
        | inl missing ↦ ground arith
        | inr (operation, current) ↦ inr (record {
          operation = operation;
          unknown = unknown;
          current = current;
          appended = append_new-eq-ok command operation operation' db db' (ground arith);
        })
      ]
      | inr (row, known) ↦
          let (same, returned, unchanged) =
            append_duplicate-eq-ok command row db db' operation' (ground arith) in
          inl (record {
            row = row;
            known = known;
            same = same;
            returned = returned;
            unchanged = unchanged;
          })
    ]

-- What is loaded from sound tables has passed the checks of `create`.
pub load-IsAccepted :
    (db : Database) (id : String) (operation : BridgeOperation)
    → IsSound db
    → load id db ≡ some operation
    → IsAccepted operation
load-IsAccepted db id operation s h =
    let (row, found) = load-eq-some db id operation h in
    let a : IsAccepted row.operation = subst Accepted found (s.accepted id) in
    let e : loaded db id row ≡ operation = cc (load-some db id row s.consistent found) in
    subst IsAccepted e (record { amount = a.amount; networks = a.networks; key = a.key })

pub append-IsSound :
    (command : TransitionCommand) (db db' : Database) (operation' : BridgeOperation)
    → append command db ≡ ok (operation', db')
    → IsSound db
    → IsSound db'
append-IsSound command db db' operation' h s = elim (append-cases command db db' operation' h) [
  | inl r ↦ subst IsSound (sym r.unchanged) s
  | inr a ↦
      let (row, found) = load-eq-some db command.operation_id a.operation a.current in
      subst IsSound (sym a.appended.written) (record {
        consistent =
            after_append-IsConsistent command a.operation db row s.consistent found a.current
              a.appended.legal;
        accepted =
            update-AllAccepted command a.operation db.bridge_operations row found
              (load-IsAccepted db command.operation_id a.operation s a.current) s.accepted;
      })
]

pub create-IsSound :
    (dates : Dates) (input : CreateBridgeOperation) (db db' : Database)
    (operation' : BridgeOperation)
    → check_create dates input ≡ ok tt
    → Store.create input (initial_transition input) db ≡ ok (operation', db')
    → IsSound db
    → IsSound db'
unfolding initial_transition
create-IsSound dates input db db' operation' checked h s =
    let (new, written) = create-eq-ok input (initial_transition input) db db' operation' h in
    subst IsSound (sym written) (record {
      consistent =
          after_create-IsConsistent input (initial_transition input) db refl new s.consistent;
      accepted =
          insert-AllAccepted db.bridge_operations _ new
            (check_create-IsAccepted dates input checked) s.accepted;
    })
