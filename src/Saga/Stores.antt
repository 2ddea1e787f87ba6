-- ===== src/Saga/Stores.antt =====
-- The store of cross-network-settlement.ts over the tables answers as the store in memory does.
use canton_evmcrosschain.Prelude.{
  ℕ, ◌+◌, String, Bool, true, all, ◌≡◌, refl, ap, Option, some, List, [], ◌∷◌, arith,
}
use canton_evmcrosschain.Failures.{Result, ok, err, Exec}
use canton_evmcrosschain.Saga.States.{
  CrossNetworkSettlementState, created, CrossNetworkSettlementRequest, CrossNetworkTransition,
  CrossNetworkSettlementRecord,
}
use canton_evmcrosschain.Saga.Store.{
  Records, create_record, get_record, transition_record, SettlementTables, pg_create, pg_get,
  pg_transition, fits_columns,
}
use canton_evmcrosschain.Saga.Refinement.{Represents, Agree}
use canton_evmcrosschain.Saga.Agreements.{transition-Agree, create-Agree}

-- A call of a store. The service numbers a transition with the version that it leads to.
pub data StoreCall : Type 0 where
  create_call : CrossNetworkSettlementRequest → String → String → StoreCall
  get_call : String → StoreCall
  transition_call :
      String → ℕ → CrossNetworkSettlementState → String → List String → String → StoreCall

abbrev pub first_transition : String → CrossNetworkTransition
first_transition at = record {
  sequence = 0;
  state = created;
  occurred_at = at;
  evidence = [];
  reason = "saga created";
}

abbrev pub next_transition :
    ℕ → CrossNetworkSettlementState → String → List String → String → CrossNetworkTransition
next_transition version state at evidence reason = record {
  sequence = version + 1;
  state = state;
  occurred_at = at;
  evidence = evidence;
  reason = reason;
}

abbrev pub answered :
    {S : Type 0}
    → Result CrossNetworkSettlementRecord × S
    → Result (Option CrossNetworkSettlementRecord) × S
answered (ok r, s) = (ok (some r), s)
answered (err e, s) = (err e, s)

abbrev pub in_memory : StoreCall → Exec Records (Option CrossNetworkSettlementRecord)
in_memory (create_call request hash at) s =
    answered (create_record request hash (first_transition at) s)
in_memory (get_call id) s = get_record id s
in_memory (transition_call id v state at evidence reason) s =
    answered (transition_record id v (next_transition v state at evidence reason) s)

-- The columns of the tables take the time and the number of a call.
abbrev pub takes : (String → Bool) → StoreCall → Bool
takes is_timestamp (create_call request hash at) = fits_columns is_timestamp at 0
takes is_timestamp (get_call id) = true
takes is_timestamp (transition_call id v state at evidence reason) =
    fits_columns is_timestamp at (v + 1)

abbrev pub in_tables :
    (String → Bool) → StoreCall → Exec SettlementTables (Option CrossNetworkSettlementRecord)
in_tables is_timestamp (create_call request hash at) s =
    answered (pg_create is_timestamp request hash (first_transition at) s)
in_tables is_timestamp (get_call id) s = pg_get id s
in_tables is_timestamp (transition_call id v state at evidence reason) s =
    answered (pg_transition is_timestamp id v (next_transition v state at evidence reason) s)

answered-Agree :
    (p : Result CrossNetworkSettlementRecord × SettlementTables)
    (q : Result CrossNetworkSettlementRecord × Records)
    → Agree p q
    → Agree (answered p) (answered q)
answered-Agree (ok x, s) (ok y, u) h = record {
  same_result = ground (arith, h.same_result);
  represents = h.represents;
}
answered-Agree (err x, s) (err y, u) h = record {
  same_result = ground (arith, h.same_result);
  represents = h.represents;
}
answered-Agree (ok x, s) (err y, u) h = cc (h.same_result)
answered-Agree (err x, s) (ok y, u) h = cc (h.same_result)

-- A call that the columns take, on tables that hold the records of a store in memory, gives what the store in memory gives,
-- and leaves tables that hold what that has left.
pub call-Agree :
    (is_timestamp : String → Bool) (call : StoreCall) (db : SettlementTables) (records : Records)
    → Represents db records
    → takes is_timestamp call ≡ true
    → Agree (in_tables is_timestamp call db) (in_memory call records)
unfolding pg_get get_record
call-Agree is_timestamp (create_call request hash at) db records h fits =
    answered-Agree (pg_create is_timestamp request hash (first_transition at) db)
      (create_record request hash (first_transition at) records)
      (create-Agree is_timestamp request hash (first_transition at) db records h refl fits)
call-Agree is_timestamp (get_call id) db records h fits = record {
  same_result = ap ok (h.same_records id);
  represents = h;
}
call-Agree is_timestamp (transition_call id v state at evidence reason) db records h fits =
    let t = next_transition v state at evidence reason in
    answered-Agree (pg_transition is_timestamp id v t db) (transition_record id v t records)
      (transition-Agree is_timestamp id v t db records h refl fits)

-- What the calls of a series give, one after another.
abbrev pub answers :
    {S : Type 0}
    → (StoreCall → Exec S (Option CrossNetworkSettlementRecord))
    → List StoreCall
    → S
    → List (Result (Option CrossNetworkSettlementRecord))
answers run [] s = []
answers run (call ∷ calls) s = (run call s).0 ∷ answers run calls (run call s).1

-- On tables that hold the records of a store in memory, any series of calls of the two stores, with
-- transitions numbered as the service numbers them, gives the same results or errors: if the database
-- reads the times of the calls as timestamps, and their numbers fit an integer of 32 bits.
pub answers_agree :
    (is_timestamp : String → Bool) (calls : List StoreCall) (db : SettlementTables)
    (records : Records)
    → Represents db records
    → all (takes is_timestamp) calls ≡ true
    → answers (in_tables is_timestamp) calls db ≡ answers in_memory calls records
answers_agree is_timestamp [] db records h fits = refl
answers_agree is_timestamp (call ∷ calls) db records h fits =
    let here : takes is_timestamp call ≡ true = ground arith in
    let rest : all (takes is_timestamp) calls ≡ true = ground arith in
    let a = call-Agree is_timestamp call db records h here in
    rw
      (
        a.same_result,
        answers_agree is_timestamp calls (in_tables is_timestamp call db).1
            (in_memory call records).1 a.represents rest,
      )
      refl
