-- ===== src/Saga/History.antt =====
-- The records of settlements and their histories.
use canton_evmcrosschain.Prelude.{
  ℕ, ◌+◌, String, ◌≡◌, refl, sym, ap, subst, ◌∙◌, true, some, List, [], ◌∷◌, ◌++◌, eqb_iff, inl,
  inr,
}
use canton_evmcrosschain.Failures.{ok}
use canton_evmcrosschain.Dict
use canton_evmcrosschain.Saga.States.{
  CrossNetworkSettlementState, created, CrossNetworkTransition, CrossNetworkSettlementRecord,
}
use canton_evmcrosschain.Saga.Store.{Records, moved, transition_record}
use canton_evmcrosschain.Saga.Graph.{follows}

-- Transitions from the state `a` and the sequence number `n` on lead to the state `b` along the
-- graph, with consecutive numbers below `m`.
abbrev pub IsPath :
    CrossNetworkSettlementState
    → ℕ
    → List CrossNetworkTransition
    → CrossNetworkSettlementState
    → ℕ
    → Type 0
IsPath a n [] b m = (a ≡ b) × (n ≡ m)
IsPath a n (t ∷ ts) b m =
    (t.sequence ≡ n) × (follows a t.state ≡ true) × IsPath t.state (n + 1) ts b m

pub IsPath-append :
    (a b : CrossNetworkSettlementState) (n m : ℕ) (ts : List CrossNetworkTransition)
    (t : CrossNetworkTransition)
    → IsPath a n ts b m
    → t.sequence ≡ m
    → follows b t.state ≡ true
    → IsPath a n (ts ++ t ∷ []) t.state (m + 1)
IsPath-append a b n m [] t h e f =
    (e ∙ sym h.1, subst (λ x. follows x t.state ≡ true) (sym h.0) f, (refl, ap (λ k. k + 1) h.1))
IsPath-append a b n m (x ∷ ts) t h e f = (h.0, h.1, IsPath-append x.state b (n + 1) m ts t h.2 e f)

-- The history of a record: the creation, and transitions along the graph up to its state, numbered
-- without a gap up to its version.
pub record HasHistory (r : CrossNetworkSettlementRecord) : Type 0 where
  pub first : CrossNetworkTransition
  pub later : List CrossNetworkTransition
  pub split : r.transitions ≡ first ∷ later
  pub first_state : first.state ≡ created
  pub first_sequence : first.sequence ≡ 0
  pub path : IsPath created 1 later r.state (r.version + 1)

-- Records stand under the identifiers of their requests, with their histories.
abbrev pub IsSound : Records → Type 0
IsSound records =
    (id : String) (r : CrossNetworkSettlementRecord)
    → Dict.lookup id records ≡ some r
    → (r.request.id ≡ id) × HasHistory r

pub record IsCurrent (r : CrossNetworkSettlementRecord) (records : Records) : Type 0 where
  pub sound : IsSound records
  pub found : Dict.lookup r.request.id records ≡ some r

pub insert-IsCurrent :
    (r : CrossNetworkSettlementRecord) (records : Records)
    → IsSound records
    → HasHistory r
    → IsCurrent r (Dict.insert r.request.id r records)
insert-IsCurrent r records s h = record {
  sound = λ j x e. elim (Dict.insert-cases r.request.id j r x records e) [
    | inl (here, same) ↦
        subst (λ (y : CrossNetworkSettlementRecord). (y.request.id ≡ j) × HasHistory y) same
          (here, h)
    | inr (there, old) ↦ s j x old
  ];
  found = Dict.lookup-insert_self r.request.id r.request.id r records refl;
}

pub moved-HasHistory :
    (r : CrossNetworkSettlementRecord) (t : CrossNetworkTransition)
    → HasHistory r
    → t.sequence ≡ r.version + 1
    → follows r.state t.state ≡ true
    → HasHistory (moved r r.version t)
moved-HasHistory r t h e f = record {
  first = h.first;
  later = h.later ++ t ∷ [];
  split = ap (λ ts. ts ++ t ∷ []) h.split;
  first_state = h.first_state;
  first_sequence = h.first_sequence;
  path = IsPath-append created r.state 1 (r.version + 1) h.later t h.path e f;
}

-- A transition of the current record is made.
pub transition_record-current :
    (r : CrossNetworkSettlementRecord) (t : CrossNetworkTransition) (records : Records)
    → IsCurrent r records
    → transition_record r.request.id r.version t records
      ≡ (ok (moved r r.version t), Dict.insert r.request.id (moved r r.version t) records)
unfolding transition_record
transition_record-current r t records c = rw (c.found, (eqb_iff r.version r.version).1 refl) refl
