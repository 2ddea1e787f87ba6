-- ===== src/Transaction/Store.antt =====
-- PostgresTransactionStore of transaction-engine.ts over the tables of
-- packages/core/sql/001_transaction_engine.sql. A transaction body returns its result with the
-- new tables, or fails and leaves them alone. A timestamptz column refuses a text that is no timestamp;
-- a time that it takes is read back as it was written, where a database may write it another way. The
-- column `updated_at`, which nothing reads, is left out.
use canton_evmcrosschain.Prelude.{
  ℕ, ◌+◌, String, Bool, not, ◌&&◌, ◌||◌, Option, none, some, List, [], ◌∷◌, ◌++◌, map, ◌==◌, eqb,
  leb, any, filter, find?, is_some, if◌then◌else◌,
}
use canton_evmcrosschain.Failures.{
  registry, external, already_exists, not_found, conflict, Result, ok, err, ◌>>=◌, ◌>>◌, reject_if,
  require,
}
use canton_evmcrosschain.Model.{
  BridgeState, created, PolicyDecision, PersistedTransition, BridgeOperation, same_state,
}
use canton_evmcrosschain.Transaction.States.{can_transition}

pub record CreateBridgeOperation : Type 0 where
  pub id : String
  pub idempotency_key : String
  pub asset_id : String
  pub source_network_id : String
  pub destination_network_id : String
  pub sender : String
  pub receiver : String
  pub amount : String
  pub expires_at : String
  pub created_at : String
  pub actor : String

pub record TransitionCommand : Type 0 where
  pub operation_id : String
  pub transition_key : String
  pub expected_version : ℕ
  pub to : BridgeState
  pub occurred_at : String
  pub reason : String
  pub actor : String
  pub attempt : ℕ
  pub policy_decision : Option PolicyDecision

pub record OperationRow : Type 0 where
  pub id : String
  pub idempotency_key : String
  pub state : BridgeState
  pub version : ℕ
  pub operation : BridgeOperation

pub record TransitionRow : Type 0 where
  pub operation_id : String
  pub transition_key : String
  pub sequence : ℕ
  pub attempt : ℕ
  pub from_state : Option BridgeState
  pub to_state : BridgeState
  pub occurred_at : String
  pub reason : String
  pub actor : String

-- The tables, and which texts the database reads as a timestamptz.
pub record Database : Type 0 where
  pub bridge_operations : List OperationRow
  pub bridge_transitions : List TransitionRow
  pub is_timestamp : String → Bool

-- ORDER BY sequence
pub insert_by_sequence : TransitionRow → List TransitionRow → List TransitionRow
insert_by_sequence r [] = r ∷ []
insert_by_sequence r (x ∷ xs) =
    if leb r.sequence x.sequence then r ∷ x ∷ xs else x ∷ insert_by_sequence r xs

unfoldable pub order_by_sequence : List TransitionRow → List TransitionRow
unfolding insert_by_sequence
order_by_sequence [] = []
order_by_sequence (r ∷ rs) = insert_by_sequence r (order_by_sequence rs)

unfoldable pub to_transition : TransitionRow → PersistedTransition
to_transition row = record {
  from_state = row.from_state;
  to_state = row.to_state;
  occurred_at = row.occurred_at;
  reason = row.reason;
  actor = row.actor;
  transition_key = row.transition_key;
  sequence = row.sequence;
  attempt = row.attempt;
}

-- SELECT … FROM bridge_operations WHERE id = $1
abbrev pub operation_row : String → List OperationRow → Option OperationRow
operation_row id rows = find? (λ r. r.id == id) rows

-- SELECT … FROM bridge_transitions WHERE operation_id = $1
abbrev pub rows_of : String → List TransitionRow → List TransitionRow
rows_of id rows = filter (λ r. r.operation_id == id) rows

unfoldable pub load_row : List TransitionRow → OperationRow → BridgeOperation
unfolding order_by_sequence to_transition
load_row transitions row = record (row.operation) {
  transitions = map to_transition (order_by_sequence (rows_of row.id transitions));
}

-- #load
unfoldable pub load : String → Database → Option BridgeOperation
unfolding load_row
load id db = elim (operation_row id db.bridge_operations) [
  | none ↦ none
  | some row ↦ some (load_row db.bridge_transitions row)
]

-- SELECT … WHERE operation_id = $1 AND transition_key = $2
unfoldable pub find_row : String → String → Database → Option TransitionRow
find_row operation_id key db =
    find? (λ r. r.operation_id == operation_id && r.transition_key == key) db.bridge_transitions

unfoldable pub find_transition : String → String → Database → Option PersistedTransition
unfolding find_row to_transition
find_transition operation_id key db = elim (find_row operation_id key db) [
  | none ↦ none
  | some row ↦ some (to_transition row)
]

-- INSERT INTO bridge_transitions: the types of `occurred_at`, a timestamptz, and of `attempt` and
-- `sequence`, integers of 32 bits, the foreign key, the primary key (operation_id, transition_key),
-- UNIQUE (operation_id, sequence) and CHECK (attempt > 0).
unfoldable pub violates : TransitionRow → Database → Bool
violates row db =
    not (db.is_timestamp row.occurred_at)
    || not (leb row.attempt 2147483647)
    || not (leb row.sequence 2147483647)
    || not (is_some (operation_row row.operation_id db.bridge_operations))
    || leb row.attempt 0
    || any
        (λ r.
          r.operation_id == row.operation_id
          && (r.transition_key == row.transition_key || eqb r.sequence row.sequence))
        db.bridge_transitions

unfoldable pub insert_transition : TransitionRow → Database → Result Database
unfolding violates
insert_transition row db =
    if violates row db
    then err (external "constraint violation")
    else ok (record db { bridge_transitions = db.bridge_transitions ++ row ∷ [] })

-- UPDATE bridge_operations … WHERE id = $1
unfoldable pub update_rows :
    String → BridgeState → ℕ → BridgeOperation → List OperationRow → List OperationRow
update_rows id state version operation [] = []
update_rows id state version operation (r ∷ rs) =
    (if r.id == id then record r { state = state; version = version; operation = operation } else r)
    ∷ update_rows id state version operation rs

unfoldable pub initial_operation : CreateBridgeOperation → BridgeOperation
initial_operation input = record {
  id = input.id;
  idempotency_key = input.idempotency_key;
  asset_id = input.asset_id;
  source_network_id = input.source_network_id;
  destination_network_id = input.destination_network_id;
  sender = input.sender;
  receiver = input.receiver;
  amount = input.amount;
  state = created;
  policy_decision = none;
  transitions = [];
  expires_at = input.expires_at;
  created_at = input.created_at;
  version = 0;
}

unfoldable pub create :
    CreateBridgeOperation → PersistedTransition → Database → Result (BridgeOperation × Database)
unfolding insert_transition initial_operation
create input initial db = do
  let operation = initial_operation input
  reject_if (is_some (operation_row input.id db.bridge_operations)) (registry already_exists)
  let row : OperationRow = record {
    id = input.id;
    idempotency_key = input.idempotency_key;
    state = created;
    version = 0;
    operation = operation;
  }
  db' ←
      insert_transition
        (record {
          operation_id = input.id;
          transition_key = initial.transition_key;
          sequence = 0;
          attempt = initial.attempt;
          from_state = none;
          to_state = initial.to_state;
          occurred_at = initial.occurred_at;
          reason = initial.reason;
          actor = initial.actor;
        })
        (record db { bridge_operations = db.bridge_operations ++ row ∷ [] })
  ok (record operation { transitions = initial ∷ [] }, db')

-- `command.policyDecision ?? operation.policyDecision`
unfoldable pub later_decision :
    Option PolicyDecision → Option PolicyDecision → Option PolicyDecision
later_decision none old = old
later_decision (some new) old = some new

unfoldable pub appended_row : TransitionCommand → BridgeOperation → TransitionRow
appended_row command operation = record {
  operation_id = command.operation_id;
  transition_key = command.transition_key;
  sequence = operation.version + 1;
  attempt = command.attempt;
  from_state = some operation.state;
  to_state = command.to;
  occurred_at = command.occurred_at;
  reason = command.reason;
  actor = command.actor;
}

unfoldable pub updated_operation : TransitionCommand → BridgeOperation → BridgeOperation
unfolding later_decision
updated_operation command operation = record operation {
  state = command.to;
  version = operation.version + 1;
  transitions = [];
  policy_decision = later_decision command.policy_decision operation.policy_decision;
}

-- `append`, for a key that is new and an operation that is there
unfoldable pub append_new :
    TransitionCommand → BridgeOperation → Database → Result (BridgeOperation × Database)
unfolding insert_transition appended_row updated_operation update_rows to_transition
append_new command operation db = do
  reject_if (not (eqb operation.version command.expected_version)) (registry conflict)
  reject_if (not (can_transition operation.state command.to)) (registry conflict)
  let row = appended_row command operation
  db' ← insert_transition row db
  let updated = updated_operation command operation
  let rows =
      update_rows command.operation_id command.to (operation.version + 1) updated
        db'.bridge_operations
  ok (
    record updated { transitions = operation.transitions ++ to_transition row ∷ [] },
    record db' { bridge_operations = rows },
  )

-- `append`, for a key that the operation has used
unfoldable pub append_duplicate :
    TransitionCommand → TransitionRow → Database → Result (BridgeOperation × Database)
unfolding load
append_duplicate command row db = do
  reject_if (not (same_state row.to_state command.to)) (registry conflict)
  existing ← require (load command.operation_id db) (registry not_found)
  ok (existing, db)

unfoldable pub append : TransitionCommand → Database → Result (BridgeOperation × Database)
unfolding append_new append_duplicate find_row load
append command db = elim (find_row command.operation_id command.transition_key db) [
  | some row ↦ append_duplicate command row db
  | none ↦ do
    operation ← require (load command.operation_id db) (registry not_found)
    append_new command operation db
]
