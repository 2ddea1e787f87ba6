-- ===== src/Transaction/Consistency.antt =====
-- The invariant of the two tables, and that each write of the store keeps it.
use canton_evmcrosschain.Prelude.{
  Bool, ◌+◌, String, ◌≡◌, refl, sym, ap, ◌∙◌, subst, false, Option, none, some, List, [], ◌∷◌, ◌++◌,
  arith, ◌==◌, eq_iff, Bool-cases, Option-cases, inl, inr, map,
}
use canton_evmcrosschain.Failures.{ok}
use canton_evmcrosschain.Model.{created, BridgeOperation, PersistedTransition}
use canton_evmcrosschain.Transaction.Store
use canton_evmcrosschain.Transaction.Store.{
  CreateBridgeOperation, TransitionCommand, OperationRow, TransitionRow, Database, operation_row,
  rows_of, insert_transition, violates, load, load_row, append_new, append_duplicate, append,
  appended_row, updated_operation, initial_operation, find_row, update_rows, order_by_sequence,
  to_transition,
}
use canton_evmcrosschain.Transaction.Tables.{
  rows_of-append_self, rows_of-append_ne, operation_row-append, operation_row-append_ne,
  id-operation_row,
}
use canton_evmcrosschain.Transaction.History.{IsChain, order_by_sequence-IsChain}

-- What the two queries for one identifier return: nothing, or a row whose columns agree with its
-- document, and a history that ends in its state at its version.
abbrev pub Agrees : String → Option OperationRow → List TransitionRow → Type 0
Agrees id none rows = rows ≡ []
Agrees id (some row) rows =
    (row.operation.id ≡ id)
    × (row.state ≡ row.operation.state)
    × (row.version ≡ row.operation.version)
    × IsChain none 0 rows (some row.operation.state) (row.operation.version + 1)

pub record IsConsistent (db : Database) : Type 0 where
  pub agrees :
      (id : String)
      → Agrees id (operation_row id db.bridge_operations) (rows_of id db.bridge_transitions)

abbrev pub empty : (String → Bool) → Database
empty is_timestamp = record {
  bridge_operations = [];
  bridge_transitions = [];
  is_timestamp = is_timestamp;
}

pub empty-IsConsistent : (is_timestamp : String → Bool) → IsConsistent (empty is_timestamp)
empty-IsConsistent is_timestamp = record { agrees = λ id. refl }

pub Agrees-some :
    (db : Database) (id : String) (row : OperationRow)
    → IsConsistent db
    → operation_row id db.bridge_operations ≡ some row
    → Agrees id (some row) (rows_of id db.bridge_transitions)
Agrees-some db id row c h =
    subst (λ o. Agrees id o (rows_of id db.bridge_transitions)) h (c.agrees id)

-- What `load` returns from consistent tables, with its transitions in the order of the table.
abbrev pub loaded : Database → String → OperationRow → BridgeOperation
loaded db id row = record (row.operation) {
  transitions = map to_transition (rows_of id db.bridge_transitions);
}

load_row-eq :
    (db : Database) (id : String) (row : OperationRow)
    → row.id ≡ id
    → order_by_sequence (rows_of id db.bridge_transitions) ≡ rows_of id db.bridge_transitions
    → load_row db.bridge_transitions row ≡ loaded db id row
unfolding load_row
load_row-eq db id row e o = rw (e, o)

pub load-some :
    (db : Database) (id : String) (row : OperationRow)
    → IsConsistent db
    → operation_row id db.bridge_operations ≡ some row
    → load id db ≡ some (loaded db id row)
unfolding load
load-some db id row c h =
    rw (h, load)
      (ap some (
        load_row-eq db id row (id-operation_row id db.bridge_operations row h) (
          order_by_sequence-IsChain none (some row.operation.state) 0 (row.operation.version + 1)
            (rows_of id db.bridge_transitions) (Agrees-some db id row c h).3)))

pub load-none :
    (db : Database) (id : String) → operation_row id db.bridge_operations ≡ none → load id db ≡ none
unfolding load
load-none db id h = rw (h, load)

pub load-eq-some :
    (db : Database) (id : String) (operation : BridgeOperation)
    → load id db ≡ some operation
    → (row : OperationRow) × (operation_row id db.bridge_operations ≡ some row)
unfolding load
load-eq-some db id operation h = elim (Option-cases (operation_row id db.bridge_operations)) [
  | inl e ↦ cc (load-none db id e)
  | inr (row, e) ↦ (row, e)
]

insert_transition-eq-ok :
    (row : TransitionRow) (db db' : Database)
    → insert_transition row db ≡ ok db'
    → db' ≡ record db { bridge_transitions = db.bridge_transitions ++ row ∷ [] }
unfolding insert_transition
insert_transition-eq-ok row db db' h = ground arith

-- The tables after `create` has succeeded.
abbrev created_row : CreateBridgeOperation → OperationRow
created_row input = record {
  id = input.id;
  idempotency_key = input.idempotency_key;
  state = created;
  version = 0;
  operation = initial_operation input;
}

abbrev first_row : CreateBridgeOperation → PersistedTransition → TransitionRow
first_row input initial = record {
  operation_id = input.id;
  transition_key = initial.transition_key;
  sequence = 0;
  attempt = initial.attempt;
  from_state = none;
  to_state = initial.to_state;
  occurred_at = initial.occurred_at;
  reason = initial.reason;
  actor = initial.actor;
}

abbrev after_create : CreateBridgeOperation → PersistedTransition → Database → Database
after_create input initial db = record {
  bridge_operations = db.bridge_operations ++ created_row input ∷ [];
  bridge_transitions = db.bridge_transitions ++ first_row input initial ∷ [];
  is_timestamp = db.is_timestamp;
}

pub create-eq-ok :
    (input : CreateBridgeOperation) (initial : PersistedTransition) (db db' : Database)
    (operation : BridgeOperation)
    → Store.create input initial db ≡ ok (operation, db')
    → (operation_row input.id db.bridge_operations ≡ none) × (db' ≡ after_create input initial db)
unfolding Store.create
create-eq-ok input initial db db' operation h = ground arith

-- The invariant at one identifier, through equations for what the two queries return.
pub Agrees-by :
    (id : String) (o o' : Option OperationRow) (rows rows' : List TransitionRow)
    → o' ≡ o
    → rows' ≡ rows
    → Agrees id o rows
    → Agrees id o' rows'
Agrees-by id o o' rows rows' e f a =
    subst (λ x. Agrees id x rows') (sym e) (subst (Agrees id o) (sym f) a)

agrees_none :
    (db : Database) (id : String)
    → IsConsistent db
    → operation_row id db.bridge_operations ≡ none
    → rows_of id db.bridge_transitions ≡ []
agrees_none db id c h = subst (λ o. Agrees id o (rows_of id db.bridge_transitions)) h (c.agrees id)

module _ (input : CreateBridgeOperation) (initial : PersistedTransition) (db : Database)
    (s : initial.to_state ≡ created) (h : operation_row input.id db.bridge_operations ≡ none)
    (c : IsConsistent db) where
  Agrees-created :
      (id : String)
      → input.id ≡ id
      → Agrees id
          (operation_row id (db.bridge_operations ++ created_row input ∷ []))
          (rows_of id (db.bridge_transitions ++ first_row input initial ∷ []))
  unfolding initial_operation
  Agrees-created id e =
      Agrees-by id (some (created_row input)) _ (first_row input initial ∷ []) _
        (ground (
          arith,
          operation_row-append id db.bridge_operations (created_row input),
          eq_iff input.id id,
        ))
        (rows_of-append_self id db.bridge_transitions (first_row input initial) ((eq_iff _ _).1 e)
          ∙ ap (λ rows. rows ++ first_row input initial ∷ []) (agrees_none db id c (rw (← e) h)))
        (e, refl, refl, (refl, refl, s, (cc, omega arith)))

  Agrees-kept :
      (id : String)
      → (input.id == id) ≡ false
      → Agrees id
          (operation_row id (db.bridge_operations ++ created_row input ∷ []))
          (rows_of id (db.bridge_transitions ++ first_row input initial ∷ []))
  Agrees-kept id e =
      Agrees-by id (operation_row id db.bridge_operations) _ (rows_of id db.bridge_transitions) _
        (operation_row-append_ne id db.bridge_operations (created_row input) e)
        (rows_of-append_ne id db.bridge_transitions (first_row input initial) e) (c.agrees id)

  pub after_create-IsConsistent : IsConsistent (after_create input initial db)
  after_create-IsConsistent = record {
    agrees = λ id. elim (Bool-cases (input.id == id)) [
      | inl same ↦ Agrees-created id ((eq_iff input.id id).0 same)
      | inr other ↦ Agrees-kept id other
    ];
  }
