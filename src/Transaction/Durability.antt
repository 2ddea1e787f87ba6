-- ===== src/Transaction/Durability.antt =====
-- What the engine guarantees of every operation that can be read back, whatever calls were made.
use canton_evmcrosschain.Prelude.{
  ◌≡◌, sym, subst, true, false, some, List, [], ◌∷◌, arith, Bool-cases, Option-cases, inl, inr, ◌⊎◌,
}
use canton_evmcrosschain.Failures.{Result, ok, >>=-eq-ok, transaction_keeps}
use canton_evmcrosschain.Dates.{Dates}
use canton_evmcrosschain.Model.{BridgeOperation}
use canton_evmcrosschain.Transaction.States.{can_transition}
use canton_evmcrosschain.Transaction.Store.{
  CreateBridgeOperation, TransitionCommand, OperationRow, TransitionRow, Database, rows_of, load,
  find_transition, to_transition, append,
}
use canton_evmcrosschain.Transaction.Store
use canton_evmcrosschain.Transaction.Engine
use canton_evmcrosschain.Transaction.Engine.{
  check_create, create_body, check_decision, initial_transition, transition_found, transition_body,
  reached,
}
use canton_evmcrosschain.Transaction.Sound.{IsSound, append-IsSound, create-IsSound}

-- The calls of the engine that write.
pub data Call : Type 0 where
  create_call : CreateBridgeOperation → Call
  transition_call : TransitionCommand → Call

unfoldable pub call : Dates → Call → Database → Database
call dates (create_call input) db = (Engine.create dates input db).1
call dates (transition_call command) db = (Engine.transition command db).1

-- The tables after a series of calls, failing or not.
unfoldable pub run_calls : Dates → List Call → Database → Database
run_calls dates [] db = db
run_calls dates (c ∷ calls) db = run_calls dates calls (call dates c db)

-- A successful `transition_found` has appended, or has found that its key made the transition.
pub record Moved (command : TransitionCommand) (operation : BridgeOperation) (db : Database)
    (operation' : BridgeOperation) (db' : Database) : Type 0 where
  pub legal : can_transition operation.state command.to ≡ true
  pub decided : check_decision command ≡ ok tt
  pub appended : append command db ≡ ok (operation', db')

pub record Kept (command : TransitionCommand) (operation : BridgeOperation) (db : Database)
    (operation' : BridgeOperation) (db' : Database) : Type 0 where
  pub illegal : can_transition operation.state command.to ≡ false
  pub made :
      reached (find_transition command.operation_id command.transition_key db) command.to ≡ true
  pub returned : operation' ≡ operation
  pub unchanged : db' ≡ db

unit_eq : (r : Result (Unit {0})) (u : Unit {0}) → r ≡ ok u → r ≡ ok tt
unit_eq r u h = h

pub transition_found-cases :
    (command : TransitionCommand) (operation operation' : BridgeOperation) (db db' : Database)
    → transition_found command operation db ≡ ok (operation', db')
    → Moved command operation db operation' db' ⊎ Kept command operation db operation' db'
unfolding transition_found
transition_found-cases command operation operation' db db' h =
    elim (Bool-cases (can_transition operation.state command.to)) [
      | inl legal ↦
          let (u, decided, appended) =
            >>=-eq-ok (check_decision command) (λ _. append command db) (rw legal at h) in
          inl (record { legal = legal; decided = decided; appended = appended })
      | inr illegal ↦ inr (record {
        illegal = illegal;
        made = ground arith;
        returned = ground arith;
        unchanged = ground arith;
      })
    ]

-- All that a successful `transition` has checked before it goes on with the loaded operation.
pub record Entered (command : TransitionCommand) (db : Database) (operation' : BridgeOperation)
    (db' : Database) : Type 0 where
  pub operation : BridgeOperation
  pub current : load command.operation_id db ≡ some operation
  pub found : transition_found command operation db ≡ ok (operation', db')

pub transition_body-eq-ok :
    (command : TransitionCommand) (operation' : BridgeOperation) (db db' : Database)
    → transition_body command db ≡ ok (operation', db')
    → Entered command db operation' db'
unfolding transition_body
transition_body-eq-ok command operation' db db' h =
    elim (Option-cases (load command.operation_id db)) [
      | inl missing ↦ ground arith
      | inr (operation, current) ↦ record {
        operation = operation;
        current = current;
        found = ground arith;
      }
    ]

transition_body-IsSound :
    (command : TransitionCommand) (operation' : BridgeOperation) (db db' : Database)
    → transition_body command db ≡ ok (operation', db')
    → IsSound db
    → IsSound db'
transition_body-IsSound command operation' db db' h s =
    let e = transition_body-eq-ok command operation' db db' h in
    elim (transition_found-cases command e.operation operation' db db' e.found) [
      | inl m ↦ append-IsSound command db db' operation' m.appended s
      | inr k ↦ subst IsSound (sym k.unchanged) s
    ]

create_body-IsSound :
    (dates : Dates) (input : CreateBridgeOperation) (operation' : BridgeOperation)
    (db db' : Database)
    → create_body dates input db ≡ ok (operation', db')
    → IsSound db
    → IsSound db'
unfolding create_body
create_body-IsSound dates input operation' db db' h s =
    let (u, checked, stored) =
      >>=-eq-ok (check_create dates input) (λ _. Store.create input (initial_transition input) db)
        h in
    create-IsSound dates input db db' operation' checked stored s

call-IsSound : (dates : Dates) (c : Call) (db : Database) → IsSound db → IsSound (call dates c db)
unfolding call Engine.create Engine.transition
call-IsSound dates (create_call input) db s =
    transaction_keeps IsSound (create_body dates input) db
      (λ operation' db' h. create_body-IsSound dates input operation' db db' h s) s
call-IsSound dates (transition_call command) db s =
    transaction_keeps IsSound (transition_body command) db
      (λ operation' db' h. transition_body-IsSound command operation' db db' h s) s

pub run_calls-IsSound :
    (dates : Dates) (calls : List Call) (db : Database)
    → IsSound db
    → IsSound (run_calls dates calls db)
unfolding run_calls
run_calls-IsSound dates [] db s = s
run_calls-IsSound dates (c ∷ calls) db s =
    run_calls-IsSound dates calls (call dates c db) (call-IsSound dates c db s)
