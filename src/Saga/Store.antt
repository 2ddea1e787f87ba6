-- ===== src/Saga/Store.antt =====
-- The two stores of cross-network-settlement.ts: InMemoryCrossNetworkSettlementStore, over a map, and
-- PostgresCrossNetworkSettlementStore, over the tables of
-- packages/core/sql/009_cross_network_settlements.sql. A row lock makes each transaction one step.
-- `is_timestamp` says which texts the database reads as a timestamptz.
use canton_evmcrosschain.Prelude.{
  ℕ, ◌+◌, String, Bool, leb, not, ◌&&◌, Option, none, some, List, [], ◌∷◌, ◌++◌, ◌==◌, eqb, any,
  find?, if◌then◌else◌,
}
use canton_evmcrosschain.Failures.{
  registry, external, conflict, not_found, Result, ok, err, ◌>>=◌, ◌>>◌, reject_if, require, Exec,
  transaction,
}
use canton_evmcrosschain.Dict
use canton_evmcrosschain.Dict.{Dict}
use canton_evmcrosschain.Saga.States.{
  CrossNetworkSettlementState, created, CrossNetworkSettlementRequest, CrossNetworkTransition,
  CrossNetworkSettlementRecord,
}

abbrev pub new_record :
    CrossNetworkSettlementRequest → String → CrossNetworkTransition → CrossNetworkSettlementRecord
new_record request request_hash first = record {
  request = request;
  request_hash = request_hash;
  state = created;
  version = 0;
  transitions = first ∷ [];
}

-- `{ ...value, state, version: expectedVersion + 1, transitions: [...value.transitions, transition] }`
abbrev pub moved :
    CrossNetworkSettlementRecord → ℕ → CrossNetworkTransition → CrossNetworkSettlementRecord
moved r expected_version t = record r {
  state = t.state;
  version = expected_version + 1;
  transitions = r.transitions ++ t ∷ [];
}

abbrev pub Records : Type 0
Records = Dict CrossNetworkSettlementRecord

-- `create` of the store in memory
unfoldable pub create_record :
    CrossNetworkSettlementRequest
    → String
    → CrossNetworkTransition
    → Exec Records CrossNetworkSettlementRecord
create_record request request_hash first records = elim (Dict.lookup request.id records) [
  | some existing ↦ (ok existing, records)
  | none ↦
      let value = new_record request request_hash first in
      (ok value, Dict.insert request.id value records)
]

-- `get`
unfoldable pub get_record : String → Exec Records (Option CrossNetworkSettlementRecord)
get_record id records = (ok (Dict.lookup id records), records)

unfoldable pub transition_body :
    String → ℕ → CrossNetworkTransition → Records → Result (CrossNetworkSettlementRecord × Records)
transition_body id expected_version t records = do
  value ← require (Dict.lookup id records) (registry not_found)
  reject_if (not (eqb value.version expected_version)) (registry conflict)
  let next = moved value expected_version t
  ok (next, Dict.insert id next records)

-- `transition`: nothing is written before it throws.
unfoldable pub transition_record :
    String → ℕ → CrossNetworkTransition → Exec Records CrossNetworkSettlementRecord
unfolding transition_body
transition_record id expected_version t records =
    transaction (transition_body id expected_version t) records

-- A row of cross_network_settlements; its `state` is a column that nothing reads.
pub record SettlementRow : Type 0 where
  pub id : String
  pub request_hash : String
  pub state : CrossNetworkSettlementState
  pub version : ℕ
  pub row_record : CrossNetworkSettlementRecord

-- A row of cross_network_settlement_transitions.
pub record SettlementTransitionRow : Type 0 where
  pub settlement_id : String
  pub row_transition : CrossNetworkTransition

pub record SettlementTables : Type 0 where
  pub settlements : List SettlementRow
  pub settlement_transitions : List SettlementTransitionRow

unfoldable pub settlement_row : String → List SettlementRow → Option SettlementRow
settlement_row id rows = find? (λ r. r.id == id) rows

-- What a timestamptz column and an integer column, of 32 bits, take.
abbrev pub fits_columns : (String → Bool) → String → ℕ → Bool
fits_columns is_timestamp at n = is_timestamp at && leb n 2147483647

-- INSERT into cross_network_settlement_transitions, with the types of its columns and its primary key
unfoldable pub insert_settlement_transition :
    (String → Bool) → String → CrossNetworkTransition → SettlementTables → Result SettlementTables
insert_settlement_transition is_timestamp id t db =
    if not (fits_columns is_timestamp t.occurred_at t.sequence)
    then err (external "invalid column value")
    else if any (λ r. r.settlement_id == id && eqb r.row_transition.sequence t.sequence)
        db.settlement_transitions
    then err (external "constraint violation")
    else ok (record db {
      settlement_transitions =
          db.settlement_transitions ++ record { settlement_id = id; row_transition = t } ∷ [];
    })

-- The body of `create`. A row that the insert has met is there when it is read.
unfoldable pub pg_create_body :
    (String → Bool)
    → CrossNetworkSettlementRequest
    → String
    → CrossNetworkTransition
    → SettlementTables
    → Result (CrossNetworkSettlementRecord × SettlementTables)
unfolding settlement_row insert_settlement_transition
pg_create_body is_timestamp request request_hash first db =
    elim (settlement_row request.id db.settlements) [
      | some existing ↦ ok (existing.row_record, db)
      | none ↦ do
        let value = new_record request request_hash first
        let row : SettlementRow = record {
          id = request.id;
          request_hash = request_hash;
          state = created;
          version = 0;
          row_record = value;
        }
        db' ←
            insert_settlement_transition is_timestamp request.id first
              (record db { settlements = db.settlements ++ row ∷ [] })
        ok (value, db')
    ]

unfoldable pub pg_create :
    (String → Bool)
    → CrossNetworkSettlementRequest
    → String
    → CrossNetworkTransition
    → Exec SettlementTables CrossNetworkSettlementRecord
unfolding pg_create_body
pg_create is_timestamp request request_hash first db =
    transaction (pg_create_body is_timestamp request request_hash first) db

abbrev pub record_of : Option SettlementRow → Option CrossNetworkSettlementRecord
record_of none = none
record_of (some row) = some row.row_record

unfoldable pub pg_get : String → Exec SettlementTables (Option CrossNetworkSettlementRecord)
unfolding settlement_row
pg_get id db = (ok (record_of (settlement_row id db.settlements)), db)

abbrev pub updated_row :
    SettlementRow → ℕ → CrossNetworkTransition → CrossNetworkSettlementRecord → SettlementRow
updated_row row expected_version t next = record row {
  state = t.state;
  version = expected_version + 1;
  row_record = next;
}

-- UPDATE … WHERE id=$1 AND version=$6
unfoldable pub update_settlement :
    String
    → ℕ
    → CrossNetworkTransition
    → CrossNetworkSettlementRecord
    → List SettlementRow
    → List SettlementRow
update_settlement id expected_version t next [] = []
update_settlement id expected_version t next (row ∷ rows) =
    (if row.id == id && eqb row.version expected_version
      then updated_row row expected_version t next
      else row)
    ∷ update_settlement id expected_version t next rows

unfoldable pub pg_transition_body :
    (String → Bool)
    → String
    → ℕ
    → CrossNetworkTransition
    → SettlementTables
    → Result (CrossNetworkSettlementRecord × SettlementTables)
unfolding settlement_row insert_settlement_transition update_settlement
pg_transition_body is_timestamp id expected_version t db = do
  row ← require (settlement_row id db.settlements) (registry not_found)
  reject_if (not (eqb row.row_record.version expected_version)) (registry conflict)
  let next = moved row.row_record expected_version t
  db' ← insert_settlement_transition is_timestamp id t db
  reject_if (not (fits_columns is_timestamp t.occurred_at (expected_version + 1)))
      (external "invalid column value")
  reject_if (not (any (λ r. r.id == id && eqb r.version expected_version) db'.settlements))
      (registry conflict)
  ok (
    next,
    record db' { settlements = update_settlement id expected_version t next db'.settlements },
  )

unfoldable pub pg_transition :
    (String → Bool)
    → String
    → ℕ
    → CrossNetworkTransition
    → Exec SettlementTables CrossNetworkSettlementRecord
unfolding pg_transition_body
pg_transition is_timestamp id expected_version t db =
    transaction (pg_transition_body is_timestamp id expected_version t) db
