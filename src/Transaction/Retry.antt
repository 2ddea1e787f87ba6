-- ===== src/Transaction/Retry.antt =====
-- Repeated and competing transitions.
use text.Mathlib.TextPositions.{eq_refl}
use canton_evmcrosschain.Prelude.{
  ◌+◌, ◌≡◌, ◌≢◌, refl, sym, ap, subst, Bool, true, false, none, some, List, [], ◌∷◌, ◌++◌, arith,
  find?, Bool-cases, inl, inr,
}
use canton_evmcrosschain.Failures.{Result, ok, err, registry, conflict, transaction-eq-ok}
use canton_evmcrosschain.Model.{PersistedTransition, BridgeState, BridgeOperation, same_state_iff}
use canton_evmcrosschain.Transaction.States.{can_transition}
use canton_evmcrosschain.Transaction.Paths.{can_transition-position-lt}
use canton_evmcrosschain.Transaction.Store.{
  TransitionCommand, TransitionRow, Database, load, find_row, find_transition, to_transition,
  append, append_new, appended_row, updated_operation,
}
use canton_evmcrosschain.Transaction.Engine.{transition, transition_body, transition_found, reached}
use canton_evmcrosschain.Transaction.Consistency.{load-eq-some}
use canton_evmcrosschain.Transaction.Appending.{after_append, load-after_append}
use canton_evmcrosschain.Transaction.Sound.{IsSound, Added, append-cases}
use canton_evmcrosschain.Transaction.Durability.{transition_found-cases, transition_body-eq-ok}

find-append :
    (p : TransitionRow → Bool) (rows : List TransitionRow) (r : TransitionRow)
    → find? p rows ≡ none
    → p r ≡ true
    → find? p (rows ++ r ∷ []) ≡ some r
find-append p [] r h e = ground arith
find-append p (x ∷ rows) r h e = ground (arith, find-append p rows r)

-- The key of a transition that was added is found from then on.
find_row-after_append :
    (command : TransitionCommand) (operation : BridgeOperation) (db : Database)
    → find_row command.operation_id command.transition_key db ≡ none
    → find_row command.operation_id command.transition_key (after_append command operation db)
      ≡ some (appended_row command operation)
unfolding find_row appended_row
find_row-after_append command operation db h =
    find-append _ db.bridge_transitions (appended_row command operation) h
      (rw (eq_refl command.operation_id, eq_refl command.transition_key))

can_transition_irreflexive : (s : BridgeState) → can_transition s s ≡ false
can_transition_irreflexive s = elim (Bool-cases (can_transition s s)) [
  | inl h ↦ absurd (omega (arith, can_transition-position-lt s s h))
  | inr h ↦ h
]

-- The reads that a repetition makes, after the transition was added.
module _ (command : TransitionCommand) (db db' : Database) (operation' : BridgeOperation)
    (s : IsSound db) (a : Added command db operation' db') where
  pub load-after_added : load command.operation_id db' ≡ some operation'
  load-after_added =
      let (row, found) = load-eq-some db command.operation_id a.operation a.current in
      rw (a.appended.written, a.appended.returned)
        (load-after_append command a.operation db row s.consistent found a.current a.appended.legal)

  reached-after_added :
      reached (find_transition command.operation_id command.transition_key db') command.to ≡ true
  unfolding find_transition to_transition appended_row
  reached-after_added =
      rw
        (
          a.appended.written,
          find_transition,
          find_row-after_append command a.operation db a.unknown,
        )
        ((same_state_iff _ _).1 refl)

  pub state-after_added : operation'.state ≡ command.to
  unfolding updated_operation
  state-after_added = ap (λ (o : BridgeOperation). o.state) a.appended.returned

  version-after_added : operation'.version ≡ a.operation.version + 1
  unfolding updated_operation
  version-after_added = ap (λ (o : BridgeOperation). o.version) a.appended.returned

  found-after_added : transition_found command operation' db' ≡ ok (operation', db')
  unfolding transition_found
  found-after_added =
      rw (state-after_added, can_transition_irreflexive command.to, reached-after_added)

  body-after_added :
      transition_body command db ≡ ok (operation', db')
      → transition_body command db' ≡ ok (operation', db')
  unfolding transition_body
  body-after_added h = ground (arith, load-after_added, found-after_added)

transition_body_retry :
    (command : TransitionCommand) (db db' : Database) (operation' : BridgeOperation)
    → IsSound db
    → transition_body command db ≡ ok (operation', db')
    → transition_body command db' ≡ ok (operation', db')
transition_body_retry command db db' operation' s h =
    let e = transition_body-eq-ok command operation' db db' h in
    elim (transition_found-cases command e.operation operation' db db' e.found) [
      | inl m ↦ elim (append-cases command db db' operation' m.appended) [
        | inl r ↦ subst (λ x. transition_body command x ≡ ok (operation', db')) (sym r.unchanged) h
        | inr a ↦ body-after_added command db db' operation' s a h
      ]
      | inr k ↦ subst (λ x. transition_body command x ≡ ok (operation', db')) (sym k.unchanged) h
    ]

-- An operation without the times of its transitions, which a database may write another way when they
-- are read again.
abbrev untimed_history : List PersistedTransition → List PersistedTransition
untimed_history [] = []
untimed_history (t ∷ ts) = record t { occurred_at = "" } ∷ untimed_history ts

abbrev pub untimed : BridgeOperation → BridgeOperation
untimed operation = record operation { transitions = untimed_history operation.transitions }

-- A repetition that changes nothing and returns the operation, but perhaps for the times.
pub record IsRepeated (operation : BridgeOperation) (db : Database)
    (p : Result BridgeOperation × Database) : Type 0 where
  pub again : BridgeOperation
  pub returned : p.0 ≡ ok again
  pub same_operation : untimed again ≡ untimed operation
  pub unchanged : p.1 ≡ db

-- A transition that has succeeded on sound tables can be sent again: the repetition changes nothing,
-- and returns the same operation, but perhaps for the times of its transitions.
pub transition_retry :
    (command : TransitionCommand) (db db' : Database) (operation' : BridgeOperation)
    → IsSound db
    → transition command db ≡ (ok operation', db')
    → IsRepeated operation' db' (transition command db')
unfolding transition
transition_retry command db db' operation' s h =
    rw
      (transition_body_retry command db db' operation' s
        (transaction-eq-ok (transition_body command) db db' operation' h))
      (record { again = operation'; returned = refl; same_operation = refl; unchanged = refl })

append_new_stale :
    (command : TransitionCommand) (db : Database) (operation : BridgeOperation)
    → find_row command.operation_id command.transition_key db ≡ none
    → load command.operation_id db ≡ some operation
    → operation.version ≢ command.expected_version
    → append command db ≡ err (registry conflict)
unfolding append append_new
append_new_stale command db operation new found stale = ground arith

-- Two commands were made against the same version of one operation. If the first has added its
-- transition to sound tables and the second uses another key, the second fails with CONFLICT.
pub append_stale :
    (first second : TransitionCommand) (db db' : Database) (operation' : BridgeOperation)
    → IsSound db
    → find_row first.operation_id first.transition_key db ≡ none
    → append first db ≡ ok (operation', db')
    → second.operation_id ≡ first.operation_id
    → second.expected_version ≡ first.expected_version
    → find_row second.operation_id second.transition_key db' ≡ none
    → append second db' ≡ err (registry conflict)
append_stale first second db db' operation' s unknown h same version new =
    elim (append-cases first db db' operation' h) [
      | inl r ↦ cc r.known
      | inr a ↦
          append_new_stale second db' operation' new
            (rw same (load-after_added first db db' operation' s a))
            (λ e.
              omega (arith, version-after_added first db db' operation' s a, a.appended.version))
    ]
