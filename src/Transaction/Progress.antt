-- ===== src/Transaction/Progress.antt =====
-- A legal transition with a new key is never refused by the tables.
use canton_evmcrosschain.Prelude.{
  ℕ, ◌+◌, ◌<◌, ◌≤◌, String, ◌≡◌, refl, Bool, true, false, ◌&&◌, ◌||◌, Option, none, some, List, [],
  ◌∷◌, arith, ◌==◌, eqb, any, find?,
}
use canton_evmcrosschain.Failures.{ok}
use canton_evmcrosschain.Model.{BridgeState, BridgeOperation}
use canton_evmcrosschain.Transaction.States.{can_transition}
use canton_evmcrosschain.Transaction.Store.{
  TransitionCommand, TransitionRow, Database, rows_of, load, find_row, append, append_new,
  appended_row, insert_transition, violates,
}
use canton_evmcrosschain.Transaction.History.{IsChain, IsChain-length}
use canton_evmcrosschain.Transaction.Consistency.{load-eq-some}
use canton_evmcrosschain.Transaction.Appending.{after_append, appended_operation, IsChain-so_far}
use canton_evmcrosschain.Transaction.Sound.{IsSound}
use canton_evmcrosschain.Transaction.Audit.{load-IsAudited}

abbrev has_sequence : ℕ → TransitionRow → Bool
has_sequence n r = eqb r.sequence n

-- The history has not used the number `next` yet.
any-IsChain :
    (from last : Option BridgeState) (n next : ℕ) (rows : List TransitionRow)
    → IsChain from n rows last next
    → any (has_sequence next) rows ≡ false
any-IsChain from last n next [] h = refl
any-IsChain from last n next (x ∷ rows) h = ground (
  arith,
  any-IsChain (some x.to_state) last (n + 1) next rows h.3,
  IsChain-length from last n next (x ∷ rows) h,
)

-- The conflict that an INSERT looks for is a used key or a used number among the rows of its
-- operation.
any_conflict :
    (id key : String) (n : ℕ) (rows : List TransitionRow)
    → find? (λ r. r.operation_id == id && r.transition_key == key) rows ≡ none
    → any (has_sequence n) (rows_of id rows) ≡ false
    → any (λ r. r.operation_id == id && (r.transition_key == key || eqb r.sequence n)) rows ≡ false
any_conflict id key n [] h k = refl
any_conflict id key n (x ∷ rows) h k = ground (arith, any_conflict id key n rows)

module _ (command : TransitionCommand) (operation : BridgeOperation) (db : Database)
    (s : IsSound db) (l : load command.operation_id db ≡ some operation)
    (version : operation.version ≡ command.expected_version)
    (legal : can_transition operation.state command.to ≡ true)
    (new : find_row command.operation_id command.transition_key db ≡ none)
    (positive : 0 < command.attempt) (fits : command.attempt ≤ 2147483647)
    (time : db.is_timestamp command.occurred_at ≡ true) where
  admitted : violates (appended_row command operation) db ≡ false
  unfolding violates appended_row find_row
  admitted =
      let (row, found) = load-eq-some db command.operation_id operation l in
      let audited = load-IsAudited db command.operation_id operation s l in
      let short : operation.version + 1 ≤ 15 = omega (arith, audited.counted, audited.bounded) in
      let id = command.operation_id in
      let free =
        any-IsChain none (some operation.state) 0 (operation.version + 1)
          (rows_of id db.bridge_transitions)
          (IsChain-so_far command operation db row s.consistent found l legal) in
      ground (
        arith,
        any_conflict id command.transition_key (operation.version + 1) db.bridge_transitions new
            free,
      )

  pub append_progress :
      append command db
      ≡ ok (appended_operation command operation, after_append command operation db)
  unfolding append append_new insert_transition
  append_progress = ground (arith, admitted)
