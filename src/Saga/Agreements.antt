-- ===== src/Saga/Agreements.antt =====
-- The two stores of cross-network-settlement.ts agree on each of their writes.
use canton_evmcrosschain.Prelude.{
  ℕ, ◌+◌, String, Bool, ◌≡◌, refl, sym, ap, subst, ◌∙◌, true, false, none, some, [], ◌∷◌, ◌++◌,
  ◌==◌, eqb, eqb_iff, eq_iff, if◌then◌else◌, arith, Bool-cases, Option-cases, inl, inr,
}
use canton_evmcrosschain.Failures.{ok}
use canton_evmcrosschain.Dict
use canton_evmcrosschain.Saga.States.{
  created, CrossNetworkSettlementRequest, CrossNetworkTransition, CrossNetworkSettlementRecord,
}
use canton_evmcrosschain.Saga.Store.{
  Records, new_record, moved, create_record, transition_record, SettlementRow, SettlementTables,
  settlement_row, insert_settlement_transition, pg_create, pg_create_body, pg_transition, record_of,
  fits_columns,
}
use canton_evmcrosschain.Saga.Tables.{settlement_row-append, has_number, has_number-append}
use canton_evmcrosschain.Saga.Refinement.{
  Represents, Agree, numbered_row, pg_transition_found, after-Represents,
}

transition_record_found :
    (id : String) (t : CrossNetworkTransition) (records : Records)
    (r : CrossNetworkSettlementRecord)
    → Dict.lookup id records ≡ some r
    → transition_record id r.version t records
      ≡ (ok (moved r r.version t), Dict.insert id (moved r r.version t) records)
unfolding transition_record
transition_record_found id t records r found = rw (found, (eqb_iff r.version r.version).1 refl) refl

transition_now-Agree :
    (is_timestamp : String → Bool) (id : String) (t : CrossNetworkTransition)
    (db : SettlementTables) (records : Records) (row : SettlementRow)
    → Represents db records
    → settlement_row id db.settlements ≡ some row
    → Dict.lookup id records ≡ some row.row_record
    → t.sequence ≡ row.row_record.version + 1
    → fits_columns is_timestamp t.occurred_at t.sequence ≡ true
    → Agree
        (pg_transition is_timestamp id row.row_record.version t db)
        (transition_record id row.row_record.version t records)
transition_now-Agree is_timestamp id t db records row h e found n takes =
    rw
      (
        pg_transition_found is_timestamp id t db records row h e n takes,
        transition_record_found id t records row.row_record found,
      )
      (record { same_result = refl; represents = after-Represents id t db records row h e n })

pub transition-Agree :
    (is_timestamp : String → Bool) (id : String) (v : ℕ) (t : CrossNetworkTransition)
    (db : SettlementTables) (records : Records)
    → Represents db records
    → t.sequence ≡ v + 1
    → fits_columns is_timestamp t.occurred_at t.sequence ≡ true
    → Agree (pg_transition is_timestamp id v t db) (transition_record id v t records)
unfolding pg_transition transition_record
transition-Agree is_timestamp id v t db records h n takes =
    elim (Option-cases (settlement_row id db.settlements)) [
      | inl missing ↦
          let gone : Dict.lookup id records ≡ none =
            sym (h.same_records id) ∙ ap record_of missing in
          rw (missing, gone) (record { same_result = refl; represents = h })
      | inr (row, e) ↦
          let found : Dict.lookup id records ≡ some row.row_record =
            sym (h.same_records id) ∙ ap record_of e in
          elim (Bool-cases (eqb row.row_record.version v)) [
            | inr stale ↦ rw (e, found, stale) (record { same_result = refl; represents = h })
            | inl fits ↦
                let w : row.row_record.version ≡ v = (eqb_iff row.row_record.version v).0 fits in
                subst
                  (λ k.
                    Agree (pg_transition is_timestamp id k t db) (transition_record id k t records))
                  w
                  (transition_now-Agree is_timestamp id t db records row h e found
                    (n ∙ ap (λ k. k + 1) (sym w)) takes)
          ]
    ]

-- The row and the transition of a new settlement.
abbrev new_row : CrossNetworkSettlementRequest → String → CrossNetworkTransition → SettlementRow
new_row request hash t = record {
  id = request.id;
  request_hash = hash;
  state = created;
  version = 0;
  row_record = new_record request hash t;
}

abbrev with_new :
    CrossNetworkSettlementRequest
    → String
    → CrossNetworkTransition
    → SettlementTables
    → SettlementTables
with_new request hash t db = record {
  settlements = db.settlements ++ new_row request hash t ∷ [];
  settlement_transitions = db.settlement_transitions ++ numbered_row request.id t ∷ [];
}

no_number :
    (id : String) (n : ℕ) (db : SettlementTables) (records : Records)
    → Represents db records
    → settlement_row id db.settlements ≡ none
    → has_number id n db.settlement_transitions ≡ false
no_number id n db records h e = elim (Bool-cases (has_number id n db.settlement_transitions)) [
  | inr new ↦ new
  | inl old ↦ let s = h.numbers id n old in cc (s.is_row, e)
]

new-Represents :
    (request : CrossNetworkSettlementRequest) (hash : String) (t : CrossNetworkTransition)
    (db : SettlementTables) (records : Records)
    → Represents db records
    → settlement_row request.id db.settlements ≡ none
    → t.sequence ≡ 0
    → Represents
        (with_new request hash t db)
        (Dict.insert request.id (new_record request hash t) records)
new-Represents request hash t db records h e z =
    let row = new_row request hash t in
    let at : (j : String)
        → settlement_row j (db.settlements ++ row ∷ [])
          ≡ (if request.id == j then some row else settlement_row j db.settlements) =
      λ j. settlement_row-append request.id j db.settlements row refl e in
    record {
      same_records = λ j. elim (Bool-cases (request.id == j)) [
        | inl d ↦
            ap record_of (at j)
            ∙ rw (Dict.lookup-insert request.id j row.row_record records, d) refl
        | inr d ↦
            ap record_of (at j)
            ∙ rw (Dict.lookup-insert request.id j row.row_record records, d) (h.same_records j)
      ];
      same_version = λ j x f. elim (Bool-cases (request.id == j)) [
        | inl d ↦
            let one : row ≡ x = ground (arith, at j) in
            subst (λ (y : SettlementRow). y.version ≡ y.row_record.version) one refl
        | inr d ↦ h.same_version j x (ground (arith, at j))
      ];
      numbers = λ j k f.
          let split = has_number-append j k db.settlement_transitions (numbered_row request.id t) in
          elim (Bool-cases (request.id == j)) [
            | inl d ↦
                let i = (eq_iff request.id j).0 d in
                let new =
                  subst (λ l. has_number l k db.settlement_transitions ≡ false) i
                    (no_number request.id k db records h e) in
                let number : t.sequence ≡ k = (eqb_iff t.sequence k).0 (ground arith) in
                record { row = row; is_row = at j ∙ rw d refl; bound = omega (arith, number, z) }
            | inr d ↦
                let old : has_number j k db.settlement_transitions ≡ true = ground arith in
                let s = h.numbers j k old in
                record { row = s.row; is_row = at j ∙ rw d s.is_row; bound = s.bound }
          ];
    }

pub create-Agree :
    (is_timestamp : String → Bool) (request : CrossNetworkSettlementRequest) (hash : String)
    (t : CrossNetworkTransition) (db : SettlementTables) (records : Records)
    → Represents db records
    → t.sequence ≡ 0
    → fits_columns is_timestamp t.occurred_at t.sequence ≡ true
    → Agree (pg_create is_timestamp request hash t db) (create_record request hash t records)
unfolding pg_create create_record insert_settlement_transition
create-Agree is_timestamp request hash t db records h z takes =
    elim (Option-cases (settlement_row request.id db.settlements)) [
      | inr (row, e) ↦
          let found : Dict.lookup request.id records ≡ some row.row_record =
            sym (h.same_records request.id) ∙ ap record_of e in
          rw (e, found, pg_create_body, create_record)
            (record { same_result = refl; represents = h })
      | inl missing ↦
          let gone : Dict.lookup request.id records ≡ none =
            sym (h.same_records request.id) ∙ ap record_of missing in
          let fresh = no_number request.id t.sequence db records h missing in
          rw (missing, gone, takes, fresh, pg_create_body, create_record)
            (record {
              same_result = refl;
              represents = new-Represents request hash t db records h missing z;
            })
    ]
