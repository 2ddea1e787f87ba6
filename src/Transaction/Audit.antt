-- ===== src/Transaction/Audit.antt =====
-- Every operation that can be read back passes the checks of invariants.ts.
use canton_evmcrosschain.Prelude.{
  Bool, ℕ, suc, ◌+◌, ◌≤◌, String, ◌≡◌, refl, sym, ap, subst, true, Option, none, some, List, [],
  ◌∷◌, arith, map, last?, length,
}
use canton_evmcrosschain.Failures.{ok}
use canton_evmcrosschain.Dates.{Dates}
use canton_evmcrosschain.Model.{BridgeState, BridgeOperation, same_state_iff}
use canton_evmcrosschain.Invariants.{
  same_optional_state, check_links, assert_transition_chain, ends_in, assert_bridge_operation,
}
use canton_evmcrosschain.Transaction.Paths.{IsRun, run-length-le}
use canton_evmcrosschain.Transaction.Store.{
  OperationRow, TransitionRow, Database, rows_of, load, to_transition,
}
use canton_evmcrosschain.Transaction.History.{IsChain, IsChain-length}
use canton_evmcrosschain.Transaction.Consistency.{
  empty, load-eq-some, load-some, loaded, Agrees-some,
}
use canton_evmcrosschain.Transaction.Accepted.{IsAccepted}
use canton_evmcrosschain.Transaction.Sound.{IsSound, empty-IsSound, load-IsAccepted}
use canton_evmcrosschain.Transaction.Durability.{Call, run_calls, run_calls-IsSound}

same_optional_state_refl : (s : Option BridgeState) → same_optional_state s s ≡ true
same_optional_state_refl none = refl
same_optional_state_refl (some a) = (same_state_iff a a).1 refl

check_links-IsChain :
    (from last : Option BridgeState) (n next : ℕ) (rows : List TransitionRow)
    → IsChain from n rows last next
    → check_links from (map to_transition rows) ≡ ok tt
unfolding check_links to_transition
check_links-IsChain from last n next [] h = refl
check_links-IsChain from last n next (x ∷ rows) h =
    rw (h.0, same_optional_state_refl from)
      (check_links-IsChain (some x.to_state) last (n + 1) next rows h.3)

ends_in-IsChain :
    (from : Option BridgeState) (s : BridgeState) (n next : ℕ) (x : TransitionRow)
    (rows : List TransitionRow)
    → IsChain from n (x ∷ rows) (some s) next
    → ends_in (last? (map to_transition (x ∷ rows))) s ≡ true
unfolding to_transition
ends_in-IsChain from s n next x [] h = (same_state_iff _ _).1 (cc h.3.0)
ends_in-IsChain from s n next x (y ∷ rows) h =
    ends_in-IsChain (some x.to_state) s (n + 1) next y rows h.3

states_of : List TransitionRow → List BridgeState
states_of [] = []
states_of (x ∷ rows) = x.to_state ∷ states_of rows

length-states_of : (rows : List TransitionRow) → length (states_of rows) ≡ length rows
unfolding states_of
length-states_of [] = refl
length-states_of (x ∷ rows) = ap suc (length-states_of rows)

states_of-IsRun :
    (from : BridgeState) (last : Option BridgeState) (n next : ℕ) (rows : List TransitionRow)
    → IsChain (some from) n rows last next
    → IsRun from (states_of rows)
unfolding states_of
states_of-IsRun from last n next [] h = tt
states_of-IsRun from last n next (x ∷ rows) h =
    (h.2, states_of-IsRun x.to_state last (n + 1) next rows h.3)

-- A full history has at most fifteen entries, the creation included.
history-length-le :
    (s : BridgeState) (next : ℕ) (rows : List TransitionRow)
    → IsChain none 0 rows (some s) next
    → length rows ≤ 15
history-length-le s next [] h = omega arith
history-length-le s next (x ∷ rows) h = omega (
  arith,
  length-states_of rows,
  run-length-le (states_of rows) (
      subst (λ t. IsRun t (states_of rows)) h.2
        (states_of-IsRun x.to_state (some s) (0 + 1) next rows h.3)),
)

-- What an audit of an operation checks.
pub record IsAudited (id : String) (operation : BridgeOperation) : Type 0 where
  pub identifier : operation.id ≡ id
  pub checked : assert_bridge_operation operation ≡ ok tt
  pub chained : assert_transition_chain operation.transitions ≡ ok tt
  pub counted : length operation.transitions ≡ operation.version + 1
  pub bounded : length operation.transitions ≤ 15

length-map-to_transition :
    (rows : List TransitionRow) → length (map to_transition rows) ≡ length rows
length-map-to_transition [] = refl
length-map-to_transition (x ∷ rows) = ap suc (length-map-to_transition rows)

ends_in_nonempty :
    (s : BridgeState) (next : ℕ) (rows : List TransitionRow)
    → IsChain none 0 rows (some s) next
    → ends_in (last? (map to_transition rows)) s ≡ true
ends_in_nonempty s next [] h = cc h.0
ends_in_nonempty s next (x ∷ rows) h = ends_in-IsChain none s 0 next x rows h

IsAccepted-checked :
    (operation : BridgeOperation)
    → IsAccepted operation
    → ends_in (last? operation.transitions) operation.state ≡ true
    → assert_bridge_operation operation ≡ ok tt
unfolding assert_bridge_operation
IsAccepted-checked operation a e = rw (a.amount, a.networks, a.key, e)

loaded-IsAudited :
    (db : Database) (id : String) (row : OperationRow)
    → IsSound db
    → IsAccepted (loaded db id row)
    → (row.operation.id ≡ id)
    → IsChain none 0
        (rows_of id db.bridge_transitions)
        (some row.operation.state)
        (row.operation.version + 1)
    → IsAudited id (loaded db id row)
unfolding assert_transition_chain
loaded-IsAudited db id row s a e chain =
    let rows = rows_of id db.bridge_transitions in
    let state = row.operation.state in
    let next : ℕ = row.operation.version + 1 in
    record {
      identifier = e;
      checked = IsAccepted-checked (loaded db id row) a (ends_in_nonempty state next rows chain);
      chained = check_links-IsChain none (some state) 0 next rows chain;
      counted = omega (
        arith,
        length-map-to_transition rows,
        IsChain-length none (some state) 0 next rows chain,
      );
      bounded =
          omega (arith, length-map-to_transition rows, history-length-le state next rows chain);
    }

pub load-IsAudited :
    (db : Database) (id : String) (operation : BridgeOperation)
    → IsSound db
    → load id db ≡ some operation
    → IsAudited id operation
load-IsAudited db id operation s h =
    let (row, found) = load-eq-some db id operation h in
    let e : loaded db id row ≡ operation = cc (load-some db id row s.consistent found) in
    let agrees = Agrees-some db id row s.consistent found in
    subst (IsAudited id) e (
      loaded-IsAudited db id row s (subst IsAccepted (sym e) (load-IsAccepted db id operation s h))
        agrees.0 agrees.3)

-- After any series of engine calls on empty tables, failing or not, an operation that `load`
-- returns has the requested identifier, passes assertBridgeOperation and assertTransitionChain,
-- has one transition more than its version, and has at most fifteen.
pub run_calls-IsAudited :
    (dates : Dates) (is_timestamp : String → Bool) (calls : List Call) (id : String)
    (operation : BridgeOperation)
    → load id (run_calls dates calls (empty is_timestamp)) ≡ some operation
    → IsAudited id operation
run_calls-IsAudited dates is_timestamp calls id operation h =
    load-IsAudited (run_calls dates calls (empty is_timestamp)) id operation
      (run_calls-IsSound dates calls (empty is_timestamp) (empty-IsSound is_timestamp)) h
