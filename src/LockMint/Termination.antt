-- ===== src/LockMint/Termination.antt =====
-- The 24 rounds of `run` of lock-mint-coordinator.ts suffice.
use canton_evmcrosschain.Prelude.{
  ℕ, zero, suc, ◌+◌, ◌≤◌, String, ◌≡◌, refl, sym, subst, ap, true, false, none, some, arith,
  Bool-cases, inl, inr,
}
use canton_evmcrosschain.Failures.{Result, ok, Exec}
use canton_evmcrosschain.Exec.{◌>>=◌, pure, chain-eq-ok}
use canton_evmcrosschain.Dates.{time_le}
use canton_evmcrosschain.Model.{
  BridgeState, created, policy_checked, source_preparing, source_submitted, source_confirmed,
  source_finalized, attestation_pending, attested, destination_preparing, destination_submitted,
  destination_confirmed, destination_finalized, reconciliation_pending, reconciled, completed,
  policy_rejected, source_failed, attestation_failed, destination_failed, expired,
  reconciliation_failed, BridgeOperation, same_state, same_state_iff, position,
}
use canton_evmcrosschain.Transaction.States.{is_terminal, can_transition}
use canton_evmcrosschain.LockMint.Coordinator.{
  Services, Coordinated, now, Next, go_on, give_back, Exit, returned, left,
}
use canton_evmcrosschain.LockMint.Steps.{advance, advance_unexpired, iterate, loop, finish}
use canton_evmcrosschain.LockMint.Moves.{
  IsCurrent, Reached, IsRound, chain-IsRound, now-IsQuiet, move-IsRound,
}
use canton_evmcrosschain.LockMint.Rounds.{
  on_created-IsRound, on_source_preparing-IsRound, on_source_submitted-IsRound,
  on_source_confirmed-IsRound, on_attestation_pending-IsRound, on_destination_preparing-IsRound,
  on_destination_submitted-IsRound, on_destination_confirmed-IsRound,
  on_reconciliation_pending-IsRound, either-IsRound,
}

legal_at :
    (operation : BridgeOperation) (from to : BridgeState)
    → operation.state ≡ from
    → can_transition from to ≡ true
    → can_transition operation.state to ≡ true
legal_at operation from to e l = rw e l

pub position-le : (s : BridgeState) → position s ≤ 21
unfolding position
position-le created = omega arith
position-le _ = omega arith

expired_legal : (s : BridgeState) → is_terminal s ≡ false → can_transition s expired ≡ true
unfolding can_transition same_state position
expired_legal s off = rw off refl

completed_terminal : is_terminal completed ≡ true
unfolding is_terminal position
completed_terminal = refl

module _ {W : Type 0} (services : Services W) where
  give_back-IsRound :
      (operation : BridgeOperation)
      → is_terminal operation.state ≡ true
      → IsRound {W = W} operation (pure (give_back operation))
  give_back-IsRound operation t s s' next c h =
      let e : give_back operation ≡ next = ground arith in
      let same : s ≡ s' = ap (λ (p : Result Next × Coordinated W). p.1) h in
      subst (λ (n : Next). Reached operation n s'.database) e
        (refl, t, subst (λ (u : Coordinated W). IsCurrent operation u.database) same c)

  advance-IsRound :
      (state : BridgeState) (operation : BridgeOperation)
      → operation.state ≡ state
      → IsRound operation (advance services state operation)
  unfolding advance can_transition position is_terminal
  advance-IsRound created o e =
      on_created-IsRound services o (legal_at o created policy_checked e refl)
        (legal_at o created policy_rejected e refl)
  advance-IsRound policy_checked o e =
      move-IsRound services o source_preparing _ none
        (legal_at o policy_checked source_preparing e refl)
  advance-IsRound source_preparing o e =
      on_source_preparing-IsRound services o (legal_at o source_preparing source_submitted e refl)
  advance-IsRound source_submitted o e =
      on_source_submitted-IsRound services o (legal_at o source_submitted source_confirmed e refl)
        (legal_at o source_submitted source_failed e refl)
  advance-IsRound source_confirmed o e =
      on_source_confirmed-IsRound services o (legal_at o source_confirmed source_finalized e refl)
        (legal_at o source_confirmed source_failed e refl)
  advance-IsRound source_finalized o e =
      move-IsRound services o attestation_pending _ none
        (legal_at o source_finalized attestation_pending e refl)
  advance-IsRound attestation_pending o e =
      on_attestation_pending-IsRound services o (legal_at o attestation_pending attested e refl)
        (legal_at o attestation_pending attestation_failed e refl)
  advance-IsRound attested o e =
      move-IsRound services o destination_preparing _ none
        (legal_at o attested destination_preparing e refl)
  advance-IsRound destination_preparing o e =
      on_destination_preparing-IsRound services o
        (legal_at o destination_preparing destination_submitted e refl)
        (legal_at o destination_preparing destination_failed e refl)
  advance-IsRound destination_submitted o e =
      on_destination_submitted-IsRound services o
        (legal_at o destination_submitted destination_confirmed e refl)
        (legal_at o destination_submitted destination_failed e refl)
  advance-IsRound destination_confirmed o e =
      on_destination_confirmed-IsRound services o
        (legal_at o destination_confirmed destination_finalized e refl)
        (legal_at o destination_confirmed destination_failed e refl)
  advance-IsRound destination_finalized o e =
      move-IsRound services o reconciliation_pending _ none
        (legal_at o destination_finalized reconciliation_pending e refl)
  advance-IsRound reconciliation_pending o e =
      on_reconciliation_pending-IsRound services o
        (legal_at o reconciliation_pending reconciled e refl)
        (legal_at o reconciliation_pending reconciliation_failed e refl)
  advance-IsRound reconciled o e =
      move-IsRound services o completed _ none (legal_at o reconciled completed e refl)
  advance-IsRound _ o e = give_back-IsRound o (rw e refl)

  pub iterate-IsRound :
      (operation : BridgeOperation) → IsRound operation (iterate services operation)
  unfolding iterate advance_unexpired
  iterate-IsRound operation = elim (Bool-cases (is_terminal operation.state)) [
    | inl ended ↦ rw (ended, iterate) (advance-IsRound operation.state operation refl)
    | inr going ↦
        rw (going, iterate, advance_unexpired)
          (chain-IsRound operation (now services) _ (now-IsQuiet services) (λ t.
            either-IsRound services (time_le (services.dates.parse operation.expires_at) (some t))
              operation _ _
              (move-IsRound services operation expired _ none (expired_legal operation.state going))
              (advance-IsRound operation.state operation refl)))
  ]

  -- What a loop that ends in time leaves.
  abbrev pub final : Exit → BridgeOperation
  final (returned operation) = operation
  final (left operation) = operation

  pub record IsEnd (id : String) (exit : Exit) (s : Coordinated W) : Type 0 where
    pub is_current : IsCurrent (final exit) s.database
    pub same_id : (final exit).id ≡ id
    pub ended : is_terminal (final exit).state ≡ true
    pub finished : finish services exit ≡ pure (final exit)

  completed-IsEnd :
      (operation : BridgeOperation) (s : Coordinated W)
      → same_state operation.state completed ≡ true
      → IsCurrent operation s.database
      → IsEnd operation.id (left operation) s
  completed-IsEnd operation s e c = record {
    is_current = c;
    same_id = refl;
    ended =
        subst (λ t. is_terminal t ≡ true) (sym ((same_state_iff operation.state completed).0 e))
          completed_terminal;
    finished = rw e refl;
  }

  pure-IsEnd :
      (id : String) (exit exit' : Exit) (s s' : Coordinated W)
      → IsEnd id exit s
      → pure exit s ≡ (ok exit', s')
      → IsEnd id exit' s'
  pure-IsEnd id exit exit' s s' e h =
      let same : exit ≡ exit' = ground arith in
      let after : s ≡ s' = ap (λ (p : Result Exit × Coordinated W). p.1) h in
      subst (λ (x : Exit). IsEnd id x s') same
        (subst (λ (u : Coordinated W). IsEnd id exit u) after e)

  -- The rest of the loop, after one iteration.
  abbrev pub after_round : ℕ → Next → Exec (Coordinated W) Exit
  after_round rounds (go_on operation) = loop services rounds operation
  after_round rounds (give_back operation) = pure (returned operation)

  pub loop_going :
      (rounds : ℕ) (operation : BridgeOperation)
      → same_state operation.state completed ≡ false
      → loop services (suc rounds) operation ≡ (iterate services operation >>= after_round rounds)
  unfolding loop
  loop_going rounds operation going = rw (going, loop) refl

  pub loop_completed :
      (rounds : ℕ) (operation : BridgeOperation)
      → same_state operation.state completed ≡ true
      → loop services (suc rounds) operation ≡ pure (left operation)
  unfolding loop
  loop_completed rounds operation e = rw (e, loop) refl

  -- The end of a loop with enough rounds, from an operation of the identifier.
  abbrev Ends : ℕ → BridgeOperation → Type 0
  Ends rounds operation =
      (s s' : Coordinated W) (exit : Exit)
      → 22 ≤ rounds + position operation.state
      → IsCurrent operation s.database
      → loop services rounds operation s ≡ (ok exit, s')
      → IsEnd operation.id exit s'

  after_round-IsEnd :
      (rounds : ℕ) (operation : BridgeOperation) (next : Next) (t s' : Coordinated W) (exit : Exit)
      → ((o : BridgeOperation) → Ends rounds o)
      → 22 ≤ suc rounds + position operation.state
      → Reached operation next t.database
      → after_round rounds next t ≡ (ok exit, s')
      → IsEnd operation.id exit s'
  after_round-IsEnd rounds operation (go_on o) t s' exit ends enough r h =
      subst (λ id. IsEnd id exit s') r.same_id
        (ends o t s' exit (omega (arith, r.later)) r.is_current h)
  after_round-IsEnd rounds operation (give_back o) t s' exit ends enough r h =
      let (same, terminal, current) = r in
      pure-IsEnd operation.id (returned operation) exit t s'
        (record { is_current = current; same_id = refl; ended = terminal; finished = refl })
        (rw (← same) h)

  pub loop-IsEnd : (rounds : ℕ) (operation : BridgeOperation) → Ends rounds operation
  loop-IsEnd zero operation s s' exit enough c h =
      absurd (omega (arith, position-le operation.state))
  loop-IsEnd (suc rounds) operation s s' exit enough c h =
      elim (Bool-cases (same_state operation.state completed)) [
        | inl e ↦
            pure-IsEnd operation.id (left operation) exit s s' (completed-IsEnd operation s e c)
              (rw (loop_completed rounds operation e) at h)
        | inr going ↦
            let m = iterate services operation in
            let e =
              chain-eq-ok m (after_round rounds) s s' exit
                (rw (loop_going rounds operation going) at h) in
            after_round-IsEnd rounds operation e.value e.between s' exit (λ o. loop-IsEnd rounds o)
              enough (iterate-IsRound operation s e.between e.value c e.first) e.second
      ]
