-- ===== src/Saga/Rounds.antt =====
-- The loop of cross-network-settlement.ts ends, in a terminal state.
use canton_evmcrosschain.Prelude.{
  ℕ, Option, ◌≡◌, refl, subst, Bool, true, false, ◌&&◌, Bool-cases, inl, inr,
}
use canton_evmcrosschain.Failures.{Failure, Result, ok, err}
use canton_evmcrosschain.Exec.{◌>>=◌, continue}
use canton_evmcrosschain.Saga.States.{
  CrossNetworkSettlementState, created, policy_checked, delivery_reserved,
  delivery_reservation_verified, payment_submitted, payment_finalized, payment_attested,
  delivery_released, delivery_finalized, reconciled, compensated, failed, expired, manual_review,
  CrossNetworkSettlementRecord, is_terminal, before_payment_finality, may_be_reserved,
}
use canton_evmcrosschain.Saga.Service.{
  Services, Settling, Next, go_on, give_back, now, advance, expire_or_compensate, handle_failure,
}
use canton_evmcrosschain.Saga.Graph.{follows}
use canton_evmcrosschain.Saga.History.{IsCurrent}
use canton_evmcrosschain.Saga.Progress.{IsLater, Outcome, went_on, threw, Ticks}
use canton_evmcrosschain.Dates.{time_le}
use canton_evmcrosschain.Saga.States.{CrossNetworkSettlementRequest}
use canton_evmcrosschain.Saga.Service.{
  caught, given_back, after_clock, try_advance, expire, iterate,
}
use canton_evmcrosschain.Saga.Outcomes.{
  Ends, closed, stopped, advance-Outcome, cancel-Ends, end_move,
}

abbrev is_reserved_state : CrossNetworkSettlementState → Bool
is_reserved_state state = before_payment_finality state && may_be_reserved state

reserved_follows :
    (a : CrossNetworkSettlementState)
    → is_reserved_state a ≡ true
    → (follows a compensated ≡ true) × (follows a manual_review ≡ true)
unfolding before_payment_finality may_be_reserved follows
reserved_follows delivery_reserved h = (refl, refl)
reserved_follows delivery_reservation_verified h = (refl, refl)
reserved_follows payment_submitted h = (refl, refl)
reserved_follows _ h = cc

early_follows :
    (a : CrossNetworkSettlementState)
    → is_reserved_state a ≡ false
    → before_payment_finality a ≡ true
    → (follows a failed ≡ true) × (follows a expired ≡ true)
unfolding before_payment_finality may_be_reserved follows
early_follows created h b = (refl, refl)
early_follows policy_checked h b = (refl, refl)
early_follows delivery_reserved h b = cc
early_follows delivery_reservation_verified h b = cc
early_follows payment_submitted h b = cc
early_follows _ h b = cc

late_follows :
    (a : CrossNetworkSettlementState)
    → before_payment_finality a ≡ false
    → is_terminal a ≡ false
    → follows a manual_review ≡ true
unfolding before_payment_finality follows is_terminal
late_follows payment_finalized b n = refl
late_follows payment_attested b n = refl
late_follows delivery_released b n = refl
late_follows delivery_finalized b n = refl
late_follows reconciled b n = refl
late_follows created b n = cc
late_follows policy_checked b n = cc
late_follows delivery_reserved b n = cc
late_follows delivery_reservation_verified b n = cc
late_follows payment_submitted b n = cc
late_follows _ b n = cc

-- What an iteration ends with.
pub data Round {W : Type 0} (services : Services W) (r : CrossNetworkSettlementRecord)
    (p : Result Next × Settling W) : Type 0 where
  went :
      (r' : CrossNetworkSettlementRecord)
      → p.0 ≡ ok (go_on r')
      → IsLater r r' p.1.records
      → Round services r p
  ended :
      (r' : CrossNetworkSettlementRecord)
      → p.0 ≡ ok (give_back r')
      → is_terminal r'.state ≡ true
      → IsLater r r' p.1.records
      → Round services r p
  undated :
      (e : Failure)
      → p.0 ≡ err e
      → IsCurrent r p.1.records
      → (Ticks services → ⊥)
      → Round services r p

module _ {W : Type 0} (services : Services W) where
  expire-Ends :
      (r : CrossNetworkSettlementRecord)
      → is_terminal r.state ≡ false
      → (s : Settling W) → IsCurrent r s.records
      → Ends services r (expire_or_compensate services r s)
  unfolding expire_or_compensate is_terminal
  expire-Ends r n s c = elim (Bool-cases (is_reserved_state r.state)) [
    | inl held ↦
        let (y, m) = reserved_follows r.state held in
        rw (held, expire_or_compensate) (cancel-Ends services r _ _ y m s c)
    | inr free ↦ elim (Bool-cases (before_payment_finality r.state)) [
      | inl early ↦
          rw (free, early, expire_or_compensate)
            (end_move services r expired _ _ refl (early_follows r.state free early).1 s c)
      | inr late ↦
          rw (free, late, expire_or_compensate)
            (end_move services r manual_review _ _ refl (late_follows r.state late n) s c)
    ]
  ]

  failure-Ends :
      (r : CrossNetworkSettlementRecord) (e : Failure)
      → is_terminal r.state ≡ false
      → (s : Settling W) → IsCurrent r s.records
      → Ends services r (handle_failure services r e s)
  unfolding handle_failure is_terminal
  failure-Ends r e n s c = elim (Bool-cases (is_reserved_state r.state)) [
    | inl held ↦
        let (y, m) = reserved_follows r.state held in
        rw (held, handle_failure) (cancel-Ends services r _ _ y m s c)
    | inr free ↦ elim (Bool-cases (before_payment_finality r.state)) [
      | inl early ↦
          rw (free, early, handle_failure)
            (end_move services r failed _ _ refl (early_follows r.state free early).0 s c)
      | inr late ↦
          rw (free, late, handle_failure)
            (end_move services r manual_review _ _ refl (late_follows r.state late n) s c)
    ]
  ]

  given_back-Round :
      (r : CrossNetworkSettlementRecord) (p : Result CrossNetworkSettlementRecord × Settling W)
      → Ends services r p
      → Round services r (given_back services p)
  given_back-Round r (ok x, s) (closed r' e t l) =
      let same : r' ≡ x = cc e in
      ended x refl (subst (λ (y : CrossNetworkSettlementRecord). is_terminal y.state ≡ true) same t)
        (subst (λ (y : CrossNetworkSettlementRecord). IsLater r y s.records) same l)
  given_back-Round r (ok x, s) (stopped f e c bad) = cc e
  given_back-Round r (err x, s) (closed r' e t l) = cc e
  given_back-Round r (err x, s) (stopped f e c bad) = undated x refl c bad

  caught-Round :
      (r : CrossNetworkSettlementRecord) (p : Result CrossNetworkSettlementRecord × Settling W)
      → is_terminal r.state ≡ false
      → Outcome r p
      → Round services r (caught services r p)
  caught-Round r (ok x, s) n (went_on r' e l) =
      let same : r' ≡ x = cc e in
      went x refl (subst (λ (y : CrossNetworkSettlementRecord). IsLater r y s.records) same l)
  caught-Round r (ok x, s) n (threw f e c) = cc e
  caught-Round r (err x, s) n (went_on r' e l) = cc e
  caught-Round r (err x, s) n (threw f e c) =
      given_back-Round r (handle_failure services r x s) (failure-Ends r x n s c)

  try_advance-Round :
      (r : CrossNetworkSettlementRecord)
      → is_terminal r.state ≡ false
      → (s : Settling W) → IsCurrent r s.records
      → Round services r (try_advance services r s)
  unfolding try_advance
  try_advance-Round r n s c =
      caught-Round r (advance services r.state r s) n
        (advance-Outcome services r.state r refl n s c)

  timed-Round :
      (request : CrossNetworkSettlementRequest) (r : CrossNetworkSettlementRecord)
      (q : Result (Option ℕ)) (s : Settling W)
      → is_terminal r.state ≡ false
      → ((e : Failure) → q ≡ err e → (Ticks services → ⊥))
      → IsCurrent r s.records
      → Round services r (continue (q, s) (after_clock services request r))
  unfolding expire
  timed-Round request r (err e) s n k c = undated e refl c (k e refl)
  timed-Round request r (ok t) s n k c =
      elim (Bool-cases (time_le (services.dates.parse request.expires_at) t)) [
        | inl over ↦
            rw over (given_back-Round r (expire_or_compensate services r s) (expire-Ends r n s c))
        | inr on ↦ rw on (try_advance-Round r n s c)
      ]

  pub iterate-Round :
      (request : CrossNetworkSettlementRequest) (r : CrossNetworkSettlementRecord)
      → is_terminal r.state ≡ false
      → (s : Settling W) → IsCurrent r s.records
      → Round services r (iterate services request r s)
  unfolding iterate now ◌>>=◌
  iterate-Round request r n s c =
      let (t, w) = services.clock s.world in
      timed-Round request r t (record s { world = w }) n
        (λ e h ticks. let (time, good) = ticks s.world in cc (h, good)) c
