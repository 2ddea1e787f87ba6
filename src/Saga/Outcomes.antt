-- ===== src/Saga/Outcomes.antt =====
-- What the cases of `advance` of cross-network-settlement.ts end with, and what an expiry and a
-- failure end with.
use canton_evmcrosschain.Prelude.{
  String, ◌≡◌, refl, sym, subst, Bool, true, false, List, [], if◌then◌else◌,
}
use canton_evmcrosschain.Failures.{Failure, Result, ok, err, Exec}
use canton_evmcrosschain.Saga.States.{
  CrossNetworkSettlementState, created, policy_checked, delivery_reserved,
  delivery_reservation_verified, payment_submitted, payment_finalized, payment_attested,
  delivery_released, delivery_finalized, reconciled, completed, compensated, failed, manual_review,
  SettlementStepEvidence, CrossNetworkSettlementRecord, is_terminal,
}
use canton_evmcrosschain.Saga.Service.{
  Services, Settling, ask, move, evidenced, effect, on_created, on_delivery_finalized, advance,
  cancelled, cancel, compensated_at, all_evidence, stamp,
}
use canton_evmcrosschain.Saga.Graph.{follows}
use canton_evmcrosschain.Saga.History.{IsCurrent}
use canton_evmcrosschain.Saga.Progress.{
  IsLater, Outcome, went_on, threw, Ticks, made, broke, stamp-IsQuiet, enter-Moves, chain-Outcome,
  Moves, ask-IsQuiet, evidenced-IsQuiet, move-Moves,
}

follows_at :
    (r : CrossNetworkSettlementRecord) (from to : CrossNetworkSettlementState)
    → r.state ≡ from
    → follows from to ≡ true
    → follows r.state to ≡ true
follows_at r from to e f = subst (λ a. follows a to ≡ true) (sym e) f

-- A record in a terminal state that follows another, or what a clock has thrown.
pub data Ends {W : Type 0} (services : Services W) (r : CrossNetworkSettlementRecord)
    (p : Result CrossNetworkSettlementRecord × Settling W) : Type 0 where
  closed :
      (r' : CrossNetworkSettlementRecord)
      → p.0 ≡ ok r'
      → is_terminal r'.state ≡ true
      → IsLater r r' p.1.records
      → Ends services r p
  stopped :
      (e : Failure)
      → p.0 ≡ err e
      → IsCurrent r p.1.records
      → (Ticks services → ⊥)
      → Ends services r p

Ends-Moves :
    {W : Type 0} (services : Services W) (r : CrossNetworkSettlementRecord)
    (state : CrossNetworkSettlementState) (p : Result CrossNetworkSettlementRecord × Settling W)
    → is_terminal state ≡ true
    → Moves services r state p
    → Ends services r p
Ends-Moves services r state p t (made r' e reached l) =
    closed r' e (subst (λ a. is_terminal a ≡ true) (sym reached) t) l
Ends-Moves services r state p t (broke x e c bad) = stopped x e c bad

Outcome-Moves :
    {W : Type 0} (services : Services W) (r : CrossNetworkSettlementRecord)
    (state : CrossNetworkSettlementState) (p : Result CrossNetworkSettlementRecord × Settling W)
    → Moves services r state p
    → Outcome r p
Outcome-Moves services r state p (made r' e reached l) = went_on r' e l
Outcome-Moves services r state p (broke x e c bad) = threw x e c

module _ {W : Type 0} (services : Services W) where
  move-Outcome :
      (r : CrossNetworkSettlementRecord) (state : CrossNetworkSettlementState)
      (evidence : List String) (reason : String)
      → follows r.state state ≡ true
      → (s : Settling W) → IsCurrent r s.records
      → Outcome r (move services r state evidence reason s)
  move-Outcome r state evidence reason f s c =
      Outcome-Moves services r state _ (move-Moves services r state evidence reason f s c)

  effect-Outcome :
      (r : CrossNetworkSettlementRecord) (state : CrossNetworkSettlementState)
      (work : Exec W SettlementStepEvidence)
      → follows r.state state ≡ true
      → (s : Settling W) → IsCurrent r s.records
      → Outcome r (effect services r state work s)
  unfolding effect
  effect-Outcome r state work f =
      chain-Outcome r (evidenced services work) _ (evidenced-IsQuiet services work)
        (λ result. move-Outcome r state _ _ f)

  either-Outcome :
      (b : Bool) (r : CrossNetworkSettlementRecord)
      (m k : Exec (Settling W) CrossNetworkSettlementRecord)
      → ((s : Settling W) → IsCurrent r s.records → Outcome r (m s))
      → ((s : Settling W) → IsCurrent r s.records → Outcome r (k s))
      → (s : Settling W) → IsCurrent r s.records
      → Outcome r ((if b then m else k) s)
  either-Outcome true r m k p q = p
  either-Outcome false r m k p q = q

  on_created-Outcome :
      (r : CrossNetworkSettlementRecord)
      → follows r.state policy_checked ≡ true
      → follows r.state failed ≡ true
      → (s : Settling W) → IsCurrent r s.records
      → Outcome r (on_created services r s)
  unfolding on_created
  on_created-Outcome r y n =
      chain-Outcome r (ask services (services.check r.request)) _ (ask-IsQuiet services _) (λ a.
        either-Outcome a.allowed r _ _ (move-Outcome r policy_checked _ _ y)
          (move-Outcome r failed _ _ n))

  on_delivery_finalized-Outcome :
      (r : CrossNetworkSettlementRecord)
      → follows r.state reconciled ≡ true
      → follows r.state manual_review ≡ true
      → (s : Settling W) → IsCurrent r s.records
      → Outcome r (on_delivery_finalized services r s)
  unfolding on_delivery_finalized
  on_delivery_finalized-Outcome r y n =
      chain-Outcome r (ask services (services.reconcile r.request)) _ (ask-IsQuiet services _) (λ a.
        either-Outcome a.matched r _ _ (move-Outcome r reconciled _ _ y)
          (move-Outcome r manual_review _ _ n))

  pub advance-Outcome :
      (state : CrossNetworkSettlementState) (r : CrossNetworkSettlementRecord)
      → r.state ≡ state
      → is_terminal state ≡ false
      → (s : Settling W) → IsCurrent r s.records
      → Outcome r (advance services state r s)
  unfolding advance follows is_terminal
  advance-Outcome created r e n =
      on_created-Outcome r (follows_at r created policy_checked e refl)
        (follows_at r created failed e refl)
  advance-Outcome policy_checked r e n =
      effect-Outcome r delivery_reserved (services.reserve_delivery r.request)
        (follows_at r policy_checked delivery_reserved e refl)
  advance-Outcome delivery_reserved r e n =
      effect-Outcome r delivery_reservation_verified
        (services.verify_delivery_reservation r.request)
        (follows_at r delivery_reserved delivery_reservation_verified e refl)
  advance-Outcome delivery_reservation_verified r e n =
      effect-Outcome r payment_submitted (services.reserve_or_transfer_payment r.request)
        (follows_at r delivery_reservation_verified payment_submitted e refl)
  advance-Outcome payment_submitted r e n =
      effect-Outcome r payment_finalized (services.verify_payment_finality r.request)
        (follows_at r payment_submitted payment_finalized e refl)
  advance-Outcome payment_finalized r e n =
      effect-Outcome r payment_attested (services.attest_payment r.request)
        (follows_at r payment_finalized payment_attested e refl)
  advance-Outcome payment_attested r e n =
      effect-Outcome r delivery_released (services.release_delivery r.request)
        (follows_at r payment_attested delivery_released e refl)
  advance-Outcome delivery_released r e n =
      effect-Outcome r delivery_finalized (services.verify_delivery r.request)
        (follows_at r delivery_released delivery_finalized e refl)
  advance-Outcome delivery_finalized r e n =
      on_delivery_finalized-Outcome r (follows_at r delivery_finalized reconciled e refl)
        (follows_at r delivery_finalized manual_review e refl)
  advance-Outcome reconciled r e n =
      move-Outcome r completed [] "saga completed" (follows_at r reconciled completed e refl)
  advance-Outcome _ r e n = absurd (cc n)

  pub end_move :
      (r : CrossNetworkSettlementRecord) (state : CrossNetworkSettlementState)
      (evidence : List String) (reason : String)
      → is_terminal state ≡ true
      → follows r.state state ≡ true
      → (s : Settling W) → IsCurrent r s.records
      → Ends services r (move services r state evidence reason s)
  end_move r state evidence reason t f s c =
      Ends-Moves services r state _ t (move-Moves services r state evidence reason f s c)

  compensated_at-Ends :
      (r : CrossNetworkSettlementRecord) (done uncertain : String) (result : SettlementStepEvidence)
      → follows r.state compensated ≡ true
      → follows r.state manual_review ≡ true
      → (q : Result String) (s : Settling W) → IsCurrent r s.records
      → Ends services r (compensated_at services r done uncertain result (q, s))
  unfolding is_terminal
  compensated_at-Ends r done uncertain result y n (ok at) s c =
      Ends-Moves services r compensated _ refl
        (enter-Moves services r compensated (all_evidence services result) done at y s c)
  compensated_at-Ends r done uncertain result y n (err e) s c =
      end_move r manual_review _ _ refl n s c

  cancelled-Ends :
      (r : CrossNetworkSettlementRecord) (done uncertain : String)
      → follows r.state compensated ≡ true
      → follows r.state manual_review ≡ true
      → (q : Result SettlementStepEvidence) (s : Settling W) → IsCurrent r s.records
      → Ends services r (cancelled services r done uncertain (q, s))
  unfolding is_terminal
  cancelled-Ends r done uncertain y n (ok result) s c =
      let p = stamp services s in
      compensated_at-Ends r done uncertain result y n p.0 p.1
        (subst (IsCurrent r) (sym (stamp-IsQuiet services s)) c)
  cancelled-Ends r done uncertain y n (err e) s c = end_move r manual_review _ _ refl n s c

  pub cancel-Ends :
      (r : CrossNetworkSettlementRecord) (done uncertain : String)
      → follows r.state compensated ≡ true
      → follows r.state manual_review ≡ true
      → (s : Settling W) → IsCurrent r s.records
      → Ends services r (cancel services r done uncertain s)
  unfolding cancel
  cancel-Ends r done uncertain y n s c =
      let work = evidenced services (services.cancel_delivery_reservation r.request) in
      cancelled-Ends r done uncertain y n (work s).0 (work s).1
        (subst (IsCurrent r) (sym (evidenced-IsQuiet services _ s)) c)
