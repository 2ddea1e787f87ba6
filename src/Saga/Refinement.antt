-- ===== src/Saga/Refinement.antt =====
-- The store of cross-network-settlement.ts over the tables does what the store in memory does.
use canton_evmcrosschain.Prelude.{
  ℕ, ◌+◌, ◌≤◌, String, Bool, ◌≡◌, refl, sym, ap, subst, ◌∙◌, true, false, ◌&&◌, some, List, [], ◌∷◌,
  ◌++◌, ◌==◌, eqb, eqb_iff, eq_iff, arith, Bool-cases, inl, inr,
}
use canton_evmcrosschain.Failures.{Result, ok}
use canton_evmcrosschain.Dict
use canton_evmcrosschain.Saga.States.{CrossNetworkTransition}
use canton_evmcrosschain.Saga.Store.{
  Records, moved, SettlementRow, SettlementTransitionRow, SettlementTables, settlement_row,
  update_settlement, updated_row, fits_columns, insert_settlement_transition, pg_transition,
  record_of,
}
use canton_evmcrosschain.Saga.Tables.{
  settlement_row-update_other, settlement_row-update_self, any_version, has_number,
  has_number-append,
}

-- The settlement of a transition row, with its number.
pub record HasSettlement (id : String) (n : ℕ) (rows : List SettlementRow) : Type 0 where
  pub row : SettlementRow
  pub is_row : settlement_row id rows ≡ some row
  pub bound : n ≤ row.version

-- The tables hold the records: the same records under the same identifiers, the versions also in
-- their column, and no transition with a number above the version of its settlement.
pub record Represents (db : SettlementTables) (records : Records) : Type 0 where
  pub same_records :
      (id : String) → record_of (settlement_row id db.settlements) ≡ Dict.lookup id records
  pub same_version :
      (id : String) (row : SettlementRow)
      → settlement_row id db.settlements ≡ some row
      → row.version ≡ row.row_record.version
  pub numbers :
      (id : String) (n : ℕ)
      → has_number id n db.settlement_transitions ≡ true
      → HasSettlement id n db.settlements

-- The two ends of an operation: the same result, and tables that hold the records.
pub record Agree {A : Type 0} (p : Result A × SettlementTables) (q : Result A × Records)
    : Type 0 where
  pub same_result : p.0 ≡ q.0
  pub represents : Represents p.1 q.1

fresh_number :
    (db : SettlementTables) (records : Records) (id : String) (row : SettlementRow)
    → Represents db records
    → settlement_row id db.settlements ≡ some row
    → has_number id (row.version + 1) db.settlement_transitions ≡ false
fresh_number db records id row h e =
    elim (Bool-cases (has_number id (row.version + 1) db.settlement_transitions)) [
      | inr new ↦ new
      | inl old ↦
          let s = h.numbers id (row.version + 1) old in
          let same : s.row.version ≡ row.version = cc (s.is_row, e) in
          absurd (omega (arith, s.bound, same))
    ]

abbrev pub numbered_row : String → CrossNetworkTransition → SettlementTransitionRow
numbered_row id t = record { settlement_id = id; row_transition = t }

number_bound :
    (id : String) (t : CrossNetworkTransition) (db : SettlementTables) (records : Records)
    (row : SettlementRow) (j : String) (k : ℕ)
    → Represents db records
    → settlement_row id db.settlements ≡ some row
    → t.sequence ≡ row.row_record.version + 1
    → id ≡ j
    → has_number j k (db.settlement_transitions ++ numbered_row id t ∷ []) ≡ true
    → k ≤ row.row_record.version + 1
number_bound id t db records row j k h e n i f =
    let split = has_number-append j k db.settlement_transitions (numbered_row id t) in
    elim (Bool-cases (has_number j k db.settlement_transitions)) [
      | inl old ↦
          let s = h.numbers j k old in
          let e' = subst (λ l. settlement_row l db.settlements ≡ some row) i e in
          let same : s.row.version ≡ row.version = cc (s.is_row, e') in
          let version = h.same_version id row e in omega (arith, s.bound, same, version)
      | inr new ↦
          let last : (id == j && eqb t.sequence k) ≡ true = ground arith in
          let number : t.sequence ≡ k = (eqb_iff t.sequence k).0 (ground arith) in
          omega (arith, number, n)
    ]

-- The tables after a transition.
abbrev pub after :
    String → ℕ → CrossNetworkTransition → SettlementRow → SettlementTables → SettlementTables
after id v t row db = record {
  settlements = update_settlement id v t (moved row.row_record v t) db.settlements;
  settlement_transitions = db.settlement_transitions ++ numbered_row id t ∷ [];
}

pub pg_transition_found :
    (is_timestamp : String → Bool) (id : String) (t : CrossNetworkTransition)
    (db : SettlementTables) (records : Records) (row : SettlementRow)
    → Represents db records
    → settlement_row id db.settlements ≡ some row
    → t.sequence ≡ row.row_record.version + 1
    → fits_columns is_timestamp t.occurred_at t.sequence ≡ true
    → pg_transition is_timestamp id row.row_record.version t db ≡ (
      ok (moved row.row_record row.row_record.version t),
      after id row.row_record.version t row db,
    )
unfolding pg_transition insert_settlement_transition
pg_transition_found is_timestamp id t db records row h e n takes =
    let v = row.row_record.version in
    let same = h.same_version id row e in
    let fresh : has_number id t.sequence db.settlement_transitions ≡ false =
      subst (λ k. has_number id k db.settlement_transitions ≡ false) (ap (λ k. k + 1) same ∙ sym n)
        (fresh_number db records id row h e) in
    let there = any_version id v db.settlements row e ((eqb_iff row.version v).1 same) in
    let takes_version : fits_columns is_timestamp t.occurred_at (v + 1) ≡ true =
      subst (λ k. fits_columns is_timestamp t.occurred_at k ≡ true) n takes in
    rw (e, (eqb_iff v v).1 refl, takes, fresh, takes_version, there) refl

pub after-Represents :
    (id : String) (t : CrossNetworkTransition) (db : SettlementTables) (records : Records)
    (row : SettlementRow)
    → Represents db records
    → settlement_row id db.settlements ≡ some row
    → t.sequence ≡ row.row_record.version + 1
    → Represents
        (after id row.row_record.version t row db)
        (Dict.insert id (moved row.row_record row.row_record.version t) records)
after-Represents id t db records row h e n =
    let v = row.row_record.version in
    let next = moved row.row_record v t in
    let same = (eqb_iff row.version v).1 (h.same_version id row e) in
    let self = settlement_row-update_self id v t next db.settlements row e same in
    let other : (j : String)
        → (id == j) ≡ false
        → settlement_row j (update_settlement id v t next db.settlements)
          ≡ settlement_row j db.settlements =
      λ j d. settlement_row-update_other id j v t next db.settlements d in
    record {
      same_records = λ j. elim (Bool-cases (id == j)) [
        | inl d ↦
            let i = (eq_iff id j).0 d in
            subst
              (λ k.
                record_of (settlement_row k (update_settlement id v t next db.settlements))
                ≡ Dict.lookup k (Dict.insert id next records))
              i (ap record_of self ∙ sym (Dict.lookup-insert_self id id next records refl))
        | inr d ↦
            ap record_of (other j d)
            ∙ h.same_records j
            ∙ sym (Dict.lookup-insert id j next records ∙ rw d refl)
      ];
      same_version = λ j x f. elim (Bool-cases (id == j)) [
        | inl d ↦
            let i = (eq_iff id j).0 d in
            let g =
              subst (λ k. settlement_row k (update_settlement id v t next db.settlements) ≡ some x)
                (sym i) f in
            let one : updated_row row v t next ≡ x = cc (self, g) in
            subst (λ (y : SettlementRow). y.version ≡ y.row_record.version) one refl
        | inr d ↦ h.same_version j x (sym (other j d) ∙ f)
      ];
      numbers = λ j k f. elim (Bool-cases (id == j)) [
        | inl d ↦
            let i = (eq_iff id j).0 d in
            let low = number_bound id t db records row j k h e n i f in
            subst (λ l. HasSettlement l k (update_settlement id v t next db.settlements)) i
              (record { row = updated_row row v t next; is_row = self; bound = low })
        | inr d ↦
            let old : has_number j k db.settlement_transitions ≡ true =
              ground (arith, has_number-append j k db.settlement_transitions (numbered_row id t)) in
            let s = h.numbers j k old in
            record { row = s.row; is_row = other j d ∙ s.is_row; bound = s.bound }
      ];
    }
