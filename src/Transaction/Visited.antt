-- ===== src/Transaction/Visited.antt =====
-- A state that is in the history of an operation is not ahead of it, so a legal transition under
-- the coordinators' keys is never mistaken for a repetition.
use canton_evmcrosschain.Prelude.{
  ℕ, ◌+◌, ◌≤◌, String, ◌≡◌, refl, sym, ap, ◌∙◌, Bool, true, ◌&&◌, Option, none, some, List, [], ◌∷◌,
  ◌==◌, find?, arith, Bool-cases, inl, inr,
}
use canton_evmcrosschain.Failures.{ok, transaction-eq-ok}
use canton_evmcrosschain.Model.{BridgeState, BridgeOperation, position, same_state_iff}
use canton_evmcrosschain.Transaction.States.{can_transition}
use canton_evmcrosschain.Transaction.Paths.{can_transition-position-lt}
use canton_evmcrosschain.Transaction.Store.{
  TransitionCommand, TransitionRow, Database, rows_of, load, find_row,
}
use canton_evmcrosschain.Transaction.Engine.{transition, transition_body}
use canton_evmcrosschain.Transaction.History.{IsChain}
use canton_evmcrosschain.Transaction.Consistency.{load-eq-some, load-some, loaded, Agrees-some}
use canton_evmcrosschain.Transaction.Sound.{IsSound, Repeated, append-cases, append-IsSound}
use canton_evmcrosschain.Transaction.Durability.{transition_found-cases, transition_body-eq-ok}
use canton_evmcrosschain.Transaction.Retry.{load-after_added, state-after_added}

chain_rises :
    (a s : BridgeState) (n next : ℕ) (rows : List TransitionRow)
    → IsChain (some a) n rows (some s) next
    → position a ≤ position s
chain_rises a s n next [] h = let e : a ≡ s = cc h.0 in omega (arith, ap position e)
chain_rises a s n next (x ∷ rows) h = omega (
  arith,
  can_transition-position-lt a x.to_state h.2,
  chain_rises x.to_state s (n + 1) next rows h.3,
)

chain_bound :
    (p : TransitionRow → Bool) (from : Option BridgeState) (s : BridgeState) (n next : ℕ)
    (rows : List TransitionRow) (row : TransitionRow)
    → IsChain from n rows (some s) next
    → find? p rows ≡ some row
    → position row.to_state ≤ position s
chain_bound p from s n next [] row h e = cc
chain_bound p from s n next (x ∷ rows) row h e = elim (Bool-cases (p x)) [
  | inl here ↦
      let same : x ≡ row = ground arith in
      rw (← same) (chain_rises x.to_state s (n + 1) next rows h.3)
  | inr there ↦ chain_bound p (some x.to_state) s (n + 1) next rows row h.3 (ground arith)
]

find_in_rows :
    (id key : String) (rows : List TransitionRow)
    → find? (λ r. r.operation_id == id && r.transition_key == key) rows
      ≡ find? (λ r. r.transition_key == key) (rows_of id rows)
find_in_rows id key [] = refl
find_in_rows id key (x ∷ rows) = ground (arith, find_in_rows id key rows)

-- A transition that the history holds leads to no later state than the current one.
pub find_row-position-le :
    (db : Database) (id key : String) (operation : BridgeOperation) (row : TransitionRow)
    → IsSound db
    → load id db ≡ some operation
    → find_row id key db ≡ some row
    → position row.to_state ≤ position operation.state
unfolding find_row
find_row-position-le db id key operation row s l f =
    let (opened, found) = load-eq-some db id operation l in
    let e : loaded db id opened ≡ operation = cc (load-some db id opened s.consistent found) in
    let chain = (Agrees-some db id opened s.consistent found).3 in
    rw (← e) (
      chain_bound (λ r. r.transition_key == key) none opened.operation.state 0
        (opened.operation.version + 1) (rows_of id db.bridge_transitions) row chain
        (sym (find_in_rows id key db.bridge_transitions) ∙ f))

-- What a legal transition of the current operation achieves.
pub record Advanced (command : TransitionCommand) (operation' : BridgeOperation) (db' : Database)
    : Type 0 where
  pub sound : IsSound db'
  pub current : load command.operation_id db' ≡ some operation'
  pub state : operation'.state ≡ command.to

pub transition-Advanced :
    (command : TransitionCommand) (operation operation' : BridgeOperation) (db db' : Database)
    → IsSound db
    → load command.operation_id db ≡ some operation
    → can_transition operation.state command.to ≡ true
    → transition command db ≡ (ok operation', db')
    → Advanced command operation' db'
unfolding transition
transition-Advanced command operation operation' db db' s l legal h =
    let body = transaction-eq-ok (transition_body command) db db' operation' h in
    let e = transition_body-eq-ok command operation' db db' body in
    let same : e.operation ≡ operation = cc (e.current, l) in
    elim (transition_found-cases command e.operation operation' db db' e.found) [
      | inl m ↦ elim (append-cases command db db' operation' m.appended) [
        | inl r ↦
            let reached : row_state r ≡ command.to = (same_state_iff _ _).0 r.same in
            absurd (
              omega (
                arith,
                can_transition-position-lt operation.state command.to legal,
                find_row-position-le db command.operation_id command.transition_key operation r.row
                    s l r.known,
                ap position reached,
              ))
        | inr a ↦ record {
          sound = append-IsSound command db db' operation' m.appended s;
          current = load-after_added command db db' operation' s a;
          state = state-after_added command db db' operation' s a;
        }
      ]
      | inr k ↦ cc (k.illegal, legal, same)
    ]
  where
    row_state : Repeated command db operation' db' → BridgeState
    row_state r = r.row.to_state
