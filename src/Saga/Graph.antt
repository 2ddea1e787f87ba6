-- ===== src/Saga/Graph.antt =====
-- The graph that the states of cross-network-settlement.ts follow, described apart from the code.
use canton_evmcrosschain.Prelude.{
  ℕ, ◌≤◌, ◌<◌, ◌≡◌, Bool, true, false, List, [], ◌∷◌, eqb, any, arith,
}
use canton_evmcrosschain.Saga.States.{
  CrossNetworkSettlementState, created, policy_checked, delivery_reserved,
  delivery_reservation_verified, payment_submitted, payment_finalized, payment_attested,
  delivery_released, delivery_finalized, reconciled, completed, compensated, failed, expired,
  manual_review, is_terminal,
}

-- The place of a state in the order of its declaration.
unfoldable pub position : CrossNetworkSettlementState → ℕ
position created = 0
position policy_checked = 1
position delivery_reserved = 2
position delivery_reservation_verified = 3
position payment_submitted = 4
position payment_finalized = 5
position payment_attested = 6
position delivery_released = 7
position delivery_finalized = 8
position reconciled = 9
position completed = 10
position compensated = 11
position failed = 12
position expired = 13
position manual_review = 14

-- The states after a state. A compensation is possible only while the delivery may be reserved and
-- the payment is not final; from there on the only way out is a review.
unfoldable pub targets : CrossNetworkSettlementState → List CrossNetworkSettlementState
targets created = policy_checked ∷ failed ∷ expired ∷ []
targets policy_checked = delivery_reserved ∷ failed ∷ expired ∷ []
targets delivery_reserved = delivery_reservation_verified ∷ compensated ∷ manual_review ∷ []
targets delivery_reservation_verified = payment_submitted ∷ compensated ∷ manual_review ∷ []
targets payment_submitted = payment_finalized ∷ compensated ∷ manual_review ∷ []
targets payment_finalized = payment_attested ∷ manual_review ∷ []
targets payment_attested = delivery_released ∷ manual_review ∷ []
targets delivery_released = delivery_finalized ∷ manual_review ∷ []
targets delivery_finalized = reconciled ∷ manual_review ∷ []
targets reconciled = completed ∷ manual_review ∷ []
targets _ = []

unfoldable pub follows : CrossNetworkSettlementState → CrossNetworkSettlementState → Bool
unfolding targets position
follows a b = any (λ t. eqb (position t) (position b)) (targets a)

pub position-follows :
    (a b : CrossNetworkSettlementState) → follows a b ≡ true → position a < position b
unfolding follows
position-follows created b h = ground arith
position-follows _ b h = ground arith

pub position-terminal : (a : CrossNetworkSettlementState) → is_terminal a ≡ false → position a ≤ 9
unfolding is_terminal position
position-terminal created h = omega arith
position-terminal completed h = cc
position-terminal compensated h = cc
position-terminal failed h = cc
position-terminal expired h = cc
position-terminal manual_review h = cc
position-terminal _ h = omega arith

-- From the finality of the payment on, a state is followed by a later one of the order or by a
-- review.
pub follows-final :
    (a b : CrossNetworkSettlementState)
    → 5 ≤ position a
    → follows a b ≡ true
    → (5 ≤ position b)
      × (eqb (position b) 11 ≡ false)
      × (eqb (position b) 12 ≡ false)
      × (eqb (position b) 13 ≡ false)
unfolding follows
follows-final created b h f = absurd (omega arith)
follows-final _ b h f = ground arith
