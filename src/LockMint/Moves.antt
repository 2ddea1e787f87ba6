-- ===== src/LockMint/Moves.antt =====
-- What a round of the loop of lock-mint-coordinator.ts can do: the calls of services leave the
-- tables of the engine alone, and every transition of the coordinator is legal.
use canton_evmcrosschain.Prelude.{
  concat, ℕ, ◌<◌, String, ◌≡◌, refl, sym, subst, ap, ◌∙◌, true, Option, some, arith, Option-cases,
  inl, inr,
}
use canton_evmcrosschain.Failures.{Result, ok, err, Exec, Result-cases}
use canton_evmcrosschain.Exec.{◌>>=◌, pure, lift, continue, chain-eq-ok}
use canton_evmcrosschain.Model.{BridgeState, PolicyDecision, BridgeOperation, position}
use canton_evmcrosschain.Transaction.States.{is_terminal, can_transition}
use canton_evmcrosschain.Transaction.Paths.{can_transition-position-lt}
use canton_evmcrosschain.Transaction.Store.{Database, load, TransitionCommand}
use canton_evmcrosschain.Transaction.Engine.{transition}
use canton_evmcrosschain.Transaction.Sound.{IsSound}
use canton_evmcrosschain.Transaction.Audit.{load-IsAudited}
use canton_evmcrosschain.Transaction.Visited.{Advanced, transition-Advanced}
use canton_evmcrosschain.LockMint.Evidence.{
  LockMintStage, LockMintStageEvidence, get_evidence, put_evidence,
}
use canton_evmcrosschain.LockMint.Coordinator.{
  Services, Coordinated, Data, ask, now, on_database, transition_to, put_stage, produce_stage,
  stage_evidence, required_evidence, state_text, Next, go_on, give_back,
}

-- The tables are sound and hold the operation as it is.
pub record IsCurrent (operation : BridgeOperation) (db : Database) : Type 0 where
  pub sound : IsSound db
  pub current : load operation.id db ≡ some operation

-- Where a round can lead.
pub record IsLater (operation operation' : BridgeOperation) (db : Database) : Type 0 where
  pub is_current : IsCurrent operation' db
  pub same_id : operation'.id ≡ operation.id
  pub later : position operation.state < position operation'.state

abbrev pub Reached : BridgeOperation → Next → Database → Type 0
Reached operation (go_on operation') db = IsLater operation operation' db
Reached operation (give_back operation') db =
    (operation' ≡ operation) × (is_terminal operation.state ≡ true) × IsCurrent operation db

module _ {W : Type 0} where
  -- An action that leaves the tables of the engine alone.
  abbrev pub IsQuiet : {A : Type 0} → Exec (Coordinated W) A → Type 0
  IsQuiet m = (s : Coordinated W) → (m s).1.database ≡ s.database

  continue-IsQuiet :
      {A B : Type 0} (r : Result A) (t : Coordinated W) (f : A → Exec (Coordinated W) B)
      → ((a : A) → IsQuiet (f a))
      → (continue (r, t) f).1.database ≡ t.database
  continue-IsQuiet (ok a) t f q = q a t
  continue-IsQuiet (err e) t f q = refl

  pub chain-IsQuiet :
      {A B : Type 0} (m : Exec (Coordinated W) A) (f : A → Exec (Coordinated W) B)
      → IsQuiet m
      → ((a : A) → IsQuiet (f a))
      → IsQuiet (m >>= f)
  unfolding ◌>>=◌
  chain-IsQuiet m f qm qf s = continue-IsQuiet (m s).0 (m s).1 f qf ∙ qm s

  -- A round that starts at the current operation leads where a round can lead.
  abbrev pub IsRound : BridgeOperation → Exec (Coordinated W) Next → Type 0
  IsRound operation m =
      (s s' : Coordinated W) (next : Next)
      → IsCurrent operation s.database
      → m s ≡ (ok next, s')
      → Reached operation next s'.database

  pub chain-IsRound :
      {A : Type 0} (operation : BridgeOperation) (m : Exec (Coordinated W) A)
      (f : A → Exec (Coordinated W) Next)
      → IsQuiet m
      → ((a : A) → IsRound operation (f a))
      → IsRound operation (m >>= f)
  chain-IsRound {A = A} operation m f q r s s' next c h =
      let e = chain-eq-ok m f s s' next h in
      let same : e.between.database ≡ s.database =
        sym (ap (λ (p : Result A × Coordinated W). p.1.database) e.first) ∙ q s in
      r e.value e.between s' next (subst (IsCurrent operation) (sym same) c) e.second

module _ {W : Type 0} (services : Services W) where
  pub ask-IsQuiet : {A : Type 0} (m : Exec W A) → IsQuiet (ask services m)
  unfolding ask
  ask-IsQuiet m s = refl

  pub now-IsQuiet : IsQuiet (now services)
  unfolding now
  now-IsQuiet s = refl

  pub lift-IsQuiet : {A : Type 0} (r : Result A) → IsQuiet {W = W} (lift r)
  lift-IsQuiet r s = refl

  pub required_evidence-IsQuiet :
      (id : String) (stage : LockMintStage) → IsQuiet (required_evidence services id stage)
  unfolding required_evidence
  required_evidence-IsQuiet id stage s = refl

  put_stage-IsQuiet : (e : LockMintStageEvidence) → IsQuiet (put_stage services e)
  unfolding put_stage
  put_stage-IsQuiet e s = elim (Result-cases (put_evidence e s.evidence)) [
    | inl (stored, done) ↦ rw (done, put_stage) refl
    | inr (failure, failed) ↦ rw (failed, put_stage) refl
  ]

  produce_stage-IsQuiet :
      (operation : BridgeOperation) (stage : LockMintStage) (produce : Exec (Coordinated W) Data)
      → IsQuiet produce
      → IsQuiet (produce_stage services operation stage produce)
  unfolding produce_stage
  produce_stage-IsQuiet operation stage produce q =
      chain-IsQuiet produce _ q
        (λ produced. chain-IsQuiet (now services) _ now-IsQuiet (λ t. put_stage-IsQuiet _))

  pub stage_evidence-IsQuiet :
      (operation : BridgeOperation) (stage : LockMintStage) (produce : Exec (Coordinated W) Data)
      → IsQuiet produce
      → IsQuiet (stage_evidence services operation stage produce)
  unfolding stage_evidence
  stage_evidence-IsQuiet operation stage produce q s =
      elim (Option-cases (get_evidence operation.id stage s.evidence)) [
        | inl new ↦ rw (new, stage_evidence) (produce_stage-IsQuiet operation stage produce q s)
        | inr (existing, found) ↦ rw (found, stage_evidence) refl
      ]

  -- The command of `transition_to`, at the time `t`.
  abbrev command_of :
      BridgeOperation → BridgeState → String → Option PolicyDecision → ℕ → TransitionCommand
  command_of operation to reason decision t = record {
    operation_id = operation.id;
    transition_key = concat operation.id (concat ":" (state_text to));
    expected_version = operation.version;
    to = to;
    occurred_at = services.dates.to_iso t;
    reason = reason;
    actor = services.actor;
    attempt = 1;
    policy_decision = decision;
  }

  Advanced-IsLater :
      (operation operation' : BridgeOperation) (command : TransitionCommand) (db' : Database)
      → command.operation_id ≡ operation.id
      → can_transition operation.state command.to ≡ true
      → Advanced command operation' db'
      → IsLater operation operation' db'
  Advanced-IsLater operation operation' command db' same legal a =
      let identifier =
        (load-IsAudited db' command.operation_id operation' a.sound a.current).identifier in
      record {
        is_current = record {
          sound = a.sound;
          current = subst (λ id. load id db' ≡ some operation') (sym identifier) a.current;
        };
        same_id = identifier ∙ same;
        later = omega (
          arith,
          can_transition-position-lt operation.state command.to legal,
          ap position a.state,
        );
      }

  on_database-IsRound :
      (operation : BridgeOperation) (to : BridgeState) (reason : String)
      (decision : Option PolicyDecision) (t : ℕ)
      → can_transition operation.state to ≡ true
      → IsRound operation (
          on_database services (transition (command_of operation to reason decision t))
          >>= λ operation'. pure (go_on operation'))
  unfolding on_database
  on_database-IsRound operation to reason decision t legal s s' next c h =
      let command = command_of operation to reason decision t in
      let m = on_database services (transition command) in
      let e = chain-eq-ok m (λ operation'. pure (go_on operation')) s s' next h in
      let made : transition command s.database ≡ (ok e.value, e.between.database) =
        ap (λ (p : Result BridgeOperation × Coordinated W). (p.0, p.1.database)) e.first in
      let a =
        transition-Advanced command operation e.value s.database e.between.database c.sound
          c.current legal made in
      let later = Advanced-IsLater operation e.value command e.between.database refl legal a in
      let same : go_on e.value ≡ next = ground arith in
      let after : e.between ≡ s' = ap (λ (p : Result Next × Coordinated W). p.1) e.second in
      subst (λ (n : Next). Reached operation n s'.database) same
        (subst (λ (u : Coordinated W). IsLater operation e.value u.database) after later)

  -- A legal transition is a round.
  pub move-IsRound :
      (operation : BridgeOperation) (to : BridgeState) (reason : String)
      (decision : Option PolicyDecision)
      → can_transition operation.state to ≡ true
      → IsRound operation (
          transition_to services operation to reason decision >>= λ operation'.
          pure (go_on operation'))
  unfolding transition_to now ◌>>=◌
  move-IsRound operation to reason decision legal s s' next c h =
      on_database-IsRound operation to reason decision (services.clock s.world).0 legal
        (record s { world = (services.clock s.world).1 }) s' next c h
