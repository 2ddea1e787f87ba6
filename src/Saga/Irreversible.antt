-- ===== src/Saga/Irreversible.antt =====
-- A settlement of cross-network-settlement.ts whose payment is final is not taken back.
use canton_evmcrosschain.Prelude.{
  ℕ, zero, suc, ◌+◌, ◌≤◌, String, ◌≡◌, refl, subst, Bool, true, false, Option, none, some, List, [],
  ◌∷◌, ◌||◌, eqb, any, eq_iff, ◌==◌, arith, Bool-cases, inl, inr,
}
use canton_evmcrosschain.Failures.{Result, ok, err, Result-cases}
use canton_evmcrosschain.Exec.{◌>>=◌, continue}
use canton_evmcrosschain.Dict
use canton_evmcrosschain.Saga.States.{
  CrossNetworkSettlementState, created, payment_finalized, compensated, failed, expired,
  CrossNetworkSettlementRequest, CrossNetworkTransition, CrossNetworkSettlementRecord, is_terminal,
  request_json,
}
use canton_evmcrosschain.Idempotency.Canonical.{request_fingerprint}
use canton_evmcrosschain.Saga.Checks.{validate}
use canton_evmcrosschain.Saga.Store.{Records, get_record}
use canton_evmcrosschain.Saga.Service.{
  Services, Settling, Next, go_on, give_back, on_records, iterate, loop, opened, execute,
}
use canton_evmcrosschain.Saga.Graph.{position, follows-final}
use canton_evmcrosschain.Saga.History.{IsPath, IsSound, IsCurrent}
use canton_evmcrosschain.Saga.Rounds.{Round, went, ended, undated, iterate-Round}
use canton_evmcrosschain.Saga.Termination.{
  after_round, loop_going, loop_ended, Opened, CanOpen, opened-Opened,
}

abbrev pub is_payment_final : CrossNetworkTransition → Bool
is_payment_final t = eqb (position t.state) (position payment_finalized)

-- COMPENSATED, FAILED and EXPIRED.
abbrev pub is_taken_back : CrossNetworkSettlementState → Bool
is_taken_back state =
    eqb (position state) (position compensated)
    || eqb (position state) (position failed)
    || eqb (position state) (position expired)

final_path :
    (a b : CrossNetworkSettlementState) (n m : ℕ) (ts : List CrossNetworkTransition)
    → IsPath a n ts b m
    → 5 ≤ position a
    → is_taken_back a ≡ false
    → is_taken_back b ≡ false
unfolding position
final_path a b n m [] h f t = subst (λ s. is_taken_back s ≡ false) h.0 t
final_path a b n m (x ∷ ts) h f t =
    let (near, p, q, r) = follows-final a x.state f h.1 in
    final_path x.state b (n + 1) m ts h.2 near (rw (p, q, r) refl)

finalized_path :
    (a b : CrossNetworkSettlementState) (n m : ℕ) (ts : List CrossNetworkTransition)
    → IsPath a n ts b m
    → any is_payment_final ts ≡ true
    → is_taken_back b ≡ false
unfolding position
finalized_path a b n m [] h f = cc
finalized_path a b n m (x ∷ ts) h f = elim (Bool-cases (is_payment_final x)) [
  | inl now ↦ final_path x.state b (n + 1) m ts h.2 (ground arith) (ground arith)
  | inr later ↦ finalized_path x.state b (n + 1) m ts h.2 (ground arith)
]

-- Sound records with the finality of a payment in their history are in no state that takes the
-- settlement back.
pub IsSound-taken_back :
    (records : Records) (id : String) (r : CrossNetworkSettlementRecord)
    → IsSound records
    → Dict.lookup id records ≡ some r
    → any is_payment_final r.transitions ≡ true
    → is_taken_back r.state ≡ false
unfolding position
IsSound-taken_back records id r sound found final =
    let h = (sound id r found).1 in
    let whole = subst (λ ts. any is_payment_final ts ≡ true) h.split final in
    let start = h.first_state in
    finalized_path created r.state 1 (r.version + 1) h.later h.path (
      subst
        (λ s.
          (eqb (position s) (position payment_finalized) || any is_payment_final h.later) ≡ true)
        start whole)

-- A call of `execute`: the rounds of its loop, and the request.
abbrev pub Call : Type 0
Call = ℕ × CrossNetworkSettlementRequest

module _ {W : Type 0} (services : Services W) where
  continue-IsSound :
      (rounds : ℕ) (request : CrossNetworkSettlementRequest) (r : CrossNetworkSettlementRecord)
      (q : Result Next) (s : Settling W)
      → ((x : CrossNetworkSettlementRecord)
          → IsCurrent x s.records
          → IsSound (loop services rounds request x s).1.records)
      → Round services r (q, s)
      → IsSound (continue (q, s) (after_round services rounds request)).1.records
  continue-IsSound rounds request r (ok (go_on x)) s ih (went r' e l) =
      ih x (subst (λ (y : CrossNetworkSettlementRecord). IsCurrent y s.records) (cc e) l.is_current)
  continue-IsSound rounds request r (ok (give_back x)) s ih (ended r' e t l) = l.is_current.sound
  continue-IsSound rounds request r (ok (go_on x)) s ih (ended r' e t l) = cc e
  continue-IsSound rounds request r (ok (give_back x)) s ih (went r' e l) = cc e
  continue-IsSound rounds request r (err x) s ih (went r' e l) = cc e
  continue-IsSound rounds request r (err x) s ih (ended r' e t l) = cc e
  continue-IsSound rounds request r (err x) s ih (undated f e c bad) = c.sound
  continue-IsSound rounds request r (ok x) s ih (undated f e c bad) = cc e

  pub loop-IsSound :
      (rounds : ℕ) (request : CrossNetworkSettlementRequest) (r : CrossNetworkSettlementRecord)
      (s : Settling W)
      → IsCurrent r s.records
      → IsSound (loop services rounds request r s).1.records
  unfolding loop ◌>>=◌
  loop-IsSound zero request r s c = c.sound
  loop-IsSound (suc rounds) request r s c = elim (Bool-cases (is_terminal r.state)) [
    | inl over ↦ rw (loop_ended services rounds request r over) c.sound
    | inr going ↦
        let p = iterate services request r s in
        rw (loop_going services rounds request r going) (
          continue-IsSound rounds request r p.0 p.1 (λ x. loop-IsSound rounds request x p.1)
            (iterate-Round services request r going s c))
  ]

  Opened-IsSound :
      (rounds : ℕ) (request : CrossNetworkSettlementRequest)
      (q : Result CrossNetworkSettlementRecord) (s : Settling W)
      → Opened services request (q, s)
      → IsSound (continue (q, s) (loop services rounds request)).1.records
  Opened-IsSound rounds request (ok x) s o = loop-IsSound rounds request x s (
      subst (λ (y : CrossNetworkSettlementRecord). IsCurrent y s.records) (cc (o.returned))
        o.is_current)
  Opened-IsSound rounds request (err e) s o = cc (o.returned)

  opened-IsSound :
      (rounds : ℕ) (request : CrossNetworkSettlementRequest) (hash : String) (s : Settling W)
      → IsSound s.records
      → (found : Option CrossNetworkSettlementRecord) → Dict.lookup request.id s.records ≡ found
      → IsSound ((opened services request hash found >>= loop services rounds request) s).1.records
  unfolding opened ◌>>=◌
  opened-IsSound rounds request hash s sound none e =
      let p = opened services request hash none s in
      Opened-IsSound rounds request p.0 p.1
        (opened-Opened services request hash s sound (λ x f. cc (e, f)) none e)
  opened-IsSound rounds request hash s sound (some r) e =
      elim (Bool-cases (r.request_hash == hash)) [
        | inl same ↦
            let can : CanOpen services request hash s.records = λ x f.
              let one : r ≡ x = cc (e, f) in
              subst (λ (y : CrossNetworkSettlementRecord). y.request_hash ≡ hash) one
                ((eq_iff r.request_hash hash).0 same) in
            let p = opened services request hash (some r) s in
            Opened-IsSound rounds request p.0 p.1
              (opened-Opened services request hash s sound can (some r) e)
        | inr other ↦ rw other sound
      ]

  -- A call of `execute`, with any number of rounds, keeps records sound, also when it throws: every
  -- record stands under its request's identifier, and its history begins with the creation and goes
  -- along the graph of states, numbered without a gap, up to the state and the version of the record.
  pub execute-IsSound :
      (rounds : ℕ) (request : CrossNetworkSettlementRequest) (s : Settling W)
      → IsSound s.records
      → IsSound (execute services rounds request s).1.records
  unfolding execute ◌>>=◌ on_records get_record
  execute-IsSound rounds request s sound = elim (Result-cases (validate services.dates request)) [
    | inr (e, bad) ↦ rw bad sound
    | inl (u, good) ↦
        elim (Result-cases (request_fingerprint services.texts (request_json request))) [
          | inr (e, bad) ↦ rw (good, bad) sound
          | inl (hash, printed) ↦
              rw (good, printed)
                (opened-IsSound rounds request hash s sound (Dict.lookup request.id s.records) refl)
        ]
  ]

  -- The calls one after another, each going on from what the one before has left, thrown or not.
  abbrev pub executes : List Call → Settling W → Settling W
  executes [] s = s
  executes ((rounds, request) ∷ calls) s = executes calls (execute services rounds request s).1

  executes-IsSound :
      (calls : List Call) (s : Settling W) → IsSound s.records → IsSound (executes calls s).records
  executes-IsSound [] s sound = sound
  executes-IsSound ((rounds, request) ∷ calls) s sound =
      executes-IsSound calls (execute services rounds request s).1
        (execute-IsSound rounds request s sound)

  -- After any calls of `execute` on sound records, whatever the policy, the actions and the clock
  -- answer or throw, a settlement in whose history the payment has become final is not compensated,
  -- failed or expired.
  pub executes-taken_back :
      (calls : List Call) (s : Settling W) (id : String) (r : CrossNetworkSettlementRecord)
      → IsSound s.records
      → Dict.lookup id (executes calls s).records ≡ some r
      → any is_payment_final r.transitions ≡ true
      → is_taken_back r.state ≡ false
  executes-taken_back calls s id r sound =
      IsSound-taken_back (executes calls s).records id r (executes-IsSound calls s sound)
