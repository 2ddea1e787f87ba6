-- ===== src/LockMint/Runs.antt =====
-- `run` of lock-mint-coordinator.ts as a whole.
use canton_evmcrosschain.Prelude.{
  ℕ, zero, suc, ◌+◌, ◌≤◌, String, ◌≡◌, refl, sym, subst, ap, ◌∙◌, true, some, arith, Bool-cases,
  inl, inr,
}
use canton_evmcrosschain.Failures.{Result, ok, Exec, registry, not_found, require-eq-ok}
use canton_evmcrosschain.Exec.{◌>>=◌, pure, chain-eq-ok, chain-cong, chain-same}
use canton_evmcrosschain.Model.{completed, BridgeOperation, same_state, position}
use canton_evmcrosschain.Transaction.States.{is_terminal}
use canton_evmcrosschain.Transaction.Store.{load}
use canton_evmcrosschain.Transaction.Sound.{IsSound}
use canton_evmcrosschain.Transaction.Audit.{load-IsAudited}
use canton_evmcrosschain.LockMint.Coordinator.{Services, Coordinated, Next, go_on, give_back}
use canton_evmcrosschain.LockMint.Steps.{iterate, loop, finish, find_operation, run}
use canton_evmcrosschain.LockMint.Moves.{IsCurrent, Reached}
use canton_evmcrosschain.LockMint.Termination.{
  position-le, iterate-IsRound, after_round, loop_going, loop_completed, final, loop-IsEnd,
}

module _ {W : Type 0} (services : Services W) where
  -- A loop with `rounds` and one with `more` rounds do the same, if both have enough of them.
  abbrev Agree : ℕ → ℕ → BridgeOperation → Type 0
  Agree rounds more operation =
      (s : Coordinated W)
      → 22 ≤ rounds + position operation.state
      → 22 ≤ more + position operation.state
      → IsCurrent operation s.database
      → loop services rounds operation s ≡ loop services more operation s

  after_round-Agree :
      (rounds more : ℕ) (operation : BridgeOperation) (s : Coordinated W) (next : Next)
      → ((o : BridgeOperation) → Agree rounds more o)
      → 22 ≤ suc rounds + position operation.state
      → 22 ≤ suc more + position operation.state
      → Reached operation next s.database
      → after_round services rounds next s ≡ after_round services more next s
  after_round-Agree rounds more operation s (go_on o) agree enough plenty r =
      agree o s (omega (arith, r.later)) (omega (arith, r.later)) r.is_current
  after_round-Agree rounds more operation s (give_back o) agree enough plenty r = refl

  continue-Agree :
      (rounds more : ℕ) (operation : BridgeOperation) (s : Coordinated W)
      → ((o : BridgeOperation) → Agree rounds more o)
      → 22 ≤ suc rounds + position operation.state
      → 22 ≤ suc more + position operation.state
      → IsCurrent operation s.database
      → (iterate services operation >>= after_round services rounds) s
        ≡ (iterate services operation >>= after_round services more) s
  continue-Agree rounds more operation s agree enough plenty c =
      chain-cong (iterate services operation) (after_round services rounds)
        (after_round services more) s
        (λ next t made.
          after_round-Agree rounds more operation t next agree enough plenty
            (iterate-IsRound services operation s t next c made))

  loop-Agree : (rounds more : ℕ) (operation : BridgeOperation) → Agree rounds more operation
  loop-Agree zero more operation s enough plenty c =
      absurd (omega (arith, position-le operation.state))
  loop-Agree (suc rounds) zero operation s enough plenty c =
      absurd (omega (arith, position-le operation.state))
  loop-Agree (suc rounds) (suc more) operation s enough plenty c =
      elim (Bool-cases (same_state operation.state completed)) [
        | inl e ↦
            rw
              (loop_completed services rounds operation e, loop_completed services more operation e)
              refl
        | inr going ↦
            rw
              (loop_going services rounds operation going, loop_going services more operation going)
              (continue-Agree rounds more operation s (λ o. loop-Agree rounds more o) enough plenty
                c)
      ]

  -- `run` with its own number of rounds, and without the check after the loop.
  unfoldable pub run_rounds : ℕ → String → Exec (Coordinated W) BridgeOperation
  run_rounds rounds id = do
    operation ← find_operation services id
    exit ← loop services rounds operation
    pure (final services exit)

  found-IsCurrent :
      (id : String) (operation : BridgeOperation) (s s' : Coordinated W)
      → find_operation services id s ≡ (ok operation, s')
      → IsSound s.database
      → (operation.id ≡ id) × IsCurrent operation s'.database
  unfolding find_operation
  found-IsCurrent id operation s s' h sound =
      let found : load id s.database ≡ some operation =
        require-eq-ok (load id s.database) (registry not_found) operation
          (ap (λ (p : Result BridgeOperation × Coordinated W). p.0) h) in
      let same : s ≡ s' = ap (λ (p : Result BridgeOperation × Coordinated W). p.1) h in
      let identifier = (load-IsAudited s.database id operation sound found).identifier in
      (
        identifier,
        subst (λ (u : Coordinated W). IsCurrent operation u.database) same
            (record {
              sound = sound;
              current = subst (λ i. load i s.database ≡ some operation) (sym identifier) found;
            }),
      )

  -- On sound tables `run` does what its loop does with any number of rounds from 22 on, without the
  -- check after the loop: the limit of 24 rounds and the final CONFLICT have no effect.
  pub run-eq-run_rounds :
      (rounds : ℕ) (id : String) (s : Coordinated W)
      → 22 ≤ rounds
      → IsSound s.database
      → run services id s ≡ run_rounds rounds id s
  unfolding run run_rounds
  run-eq-run_rounds rounds id s enough sound =
      chain-cong (find_operation services id) _ _ s (λ operation t found.
        let c = (found-IsCurrent id operation s t found sound).1 in
        chain-cong (loop services 24 operation) (finish services)
          (λ exit. pure (final services exit)) t
          (λ exit u ended.
            ap (λ (m : Exec (Coordinated W) BridgeOperation). m u)
              (loop-IsEnd services 24 operation t u exit (omega arith) c ended).finished)
        ∙ chain-same (loop services 24 operation) (loop services rounds operation)
            (λ exit. pure (final services exit)) t
            (loop-Agree 24 rounds operation t (omega arith) (omega arith) c))

  -- What a run that returns has reached.
  pub record IsSettled (id : String) (operation : BridgeOperation) (s : Coordinated W)
      : Type 0 where
    pub same_id : operation.id ≡ id
    pub ended : is_terminal operation.state ≡ true
    pub is_current : IsCurrent operation s.database

  -- A `run` that returns on sound tables leaves them sound, and returns the operation that was asked
  -- for, as the tables now hold it, in a terminal state.
  pub run-IsSettled :
      (id : String) (operation : BridgeOperation) (s s' : Coordinated W)
      → IsSound s.database
      → run services id s ≡ (ok operation, s')
      → IsSettled id operation s'
  unfolding run_rounds
  run-IsSettled id operation s s' sound h =
      let h' = sym (run-eq-run_rounds 24 id s (omega arith) sound) ∙ h in
      let e = chain-eq-ok (find_operation services id) _ s s' operation h' in
      let f = chain-eq-ok (loop services 24 e.value) _ e.between s' operation e.second in
      let (same, c) = found-IsCurrent id e.value s e.between e.first sound in
      let end =
        loop-IsEnd services 24 e.value e.between f.between f.value (omega arith) c f.first in
      let made : final services f.value ≡ operation = ground arith in
      let after : f.between ≡ s' =
        ap (λ (p : Result BridgeOperation × Coordinated W). p.1) f.second in
      subst (λ (o : BridgeOperation). IsSettled id o s') made
        (subst (λ (u : Coordinated W). IsSettled id (final services f.value) u) after
          (record { same_id = end.same_id ∙ same; ended = end.ended; is_current = end.is_current }))
