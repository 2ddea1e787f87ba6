-- ===== src/Transaction/History.antt =====
-- The stored history of an operation is a chain of legal transitions that ends in its state.
use canton_evmcrosschain.Prelude.{
  ℕ, ◌+◌, ◌≡◌, refl, sym, ap, subst, true, Option, none, some, List, [], ◌∷◌, ◌++◌, arith, length,
  ◌∙◌,
}
use canton_evmcrosschain.Model.{BridgeState, created}
use canton_evmcrosschain.Transaction.States.{can_transition}
use canton_evmcrosschain.Transaction.Store.{TransitionRow, insert_by_sequence, order_by_sequence}

-- What may follow: `created` at the start, and then a legal transition.
abbrev pub IsLegal : Option BridgeState → BridgeState → Type 0
IsLegal none to = to ≡ created
IsLegal (some from) to = can_transition from to ≡ true

-- The rows lead from the state before them to `last`, with sequence numbers from `n` up to `next`.
abbrev pub IsChain : Option BridgeState → ℕ → List TransitionRow → Option BridgeState → ℕ → Type 0
IsChain from n [] last next = (from ≡ last) × (n ≡ next)
IsChain from n (r ∷ rows) last next =
    (r.from_state ≡ from)
    × (r.sequence ≡ n)
    × IsLegal from r.to_state
    × IsChain (some r.to_state) (n + 1) rows last next

pub IsChain-append :
    (from last : Option BridgeState) (n next : ℕ) (rows : List TransitionRow) (r : TransitionRow)
    → IsChain from n rows last next
    → r.from_state ≡ last
    → r.sequence ≡ next
    → IsLegal last r.to_state
    → IsChain from n (rows ++ r ∷ []) (some r.to_state) (next + 1)
IsChain-append from last n next [] r h p q l =
    (p ∙ sym h.0, q ∙ sym h.1, subst (λ s. IsLegal s r.to_state) (sym h.0) l, (refl, omega arith))
IsChain-append from last n next (x ∷ rows) r h p q l =
    (h.0, h.1, h.2, IsChain-append (some x.to_state) last (n + 1) next rows r h.3 p q l)

-- The rows stand in the order in which ORDER BY returns them.
pub order_by_sequence-IsChain :
    (from last : Option BridgeState) (n next : ℕ) (rows : List TransitionRow)
    → IsChain from n rows last next
    → order_by_sequence rows ≡ rows
unfolding order_by_sequence
order_by_sequence-IsChain from last n next [] h = refl
order_by_sequence-IsChain from last n next (x ∷ []) h = refl
order_by_sequence-IsChain from last n next (x ∷ y ∷ rows) h =
    ap (insert_by_sequence x)
      (order_by_sequence-IsChain (some x.to_state) last (n + 1) next (y ∷ rows) h.3)
    ∙ ground arith

pub IsChain-length :
    (from last : Option BridgeState) (n next : ℕ) (rows : List TransitionRow)
    → IsChain from n rows last next
    → n + length rows ≡ next
IsChain-length from last n next [] h = omega arith
IsChain-length from last n next (x ∷ rows) h =
    omega (arith, IsChain-length (some x.to_state) last (n + 1) next rows h.3)
