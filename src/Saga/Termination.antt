-- ===== src/Saga/Termination.antt =====
-- `execute` of cross-network-settlement.ts returns.
use canton_evmcrosschain.Prelude.{
  ℕ, zero, suc, ◌+◌, ◌≤◌, String, ◌≡◌, refl, sym, subst, true, false, Option, none, some, [], ◌==◌,
  eq_iff, arith, Bool-cases, inl, inr,
}
use canton_evmcrosschain.Failures.{Result, ok, err, Exec}
use canton_evmcrosschain.Exec.{◌>>=◌, pure, continue}
use canton_evmcrosschain.Dict
use canton_evmcrosschain.Idempotency.Canonical.{request_fingerprint}
use canton_evmcrosschain.Saga.States.{
  created, CrossNetworkSettlementRequest, CrossNetworkTransition, CrossNetworkSettlementRecord,
  request_json, is_terminal,
}
use canton_evmcrosschain.Saga.Checks.{validate}
use canton_evmcrosschain.Saga.Store.{Records, new_record, create_record, get_record}
use canton_evmcrosschain.Saga.Service.{
  Services, Settling, Next, go_on, give_back, on_records, iterate, loop, create_new, opened,
  execute,
}
use canton_evmcrosschain.Saga.Graph.{position, position-follows, position-terminal}
use canton_evmcrosschain.Saga.History.{IsSound, IsCurrent, insert-IsCurrent}
use canton_evmcrosschain.Saga.Progress.{IsLater, Ticks}
use canton_evmcrosschain.Saga.Rounds.{Round, went, ended, undated, iterate-Round}

-- The end of a loop for the settlement `id`: a record in a terminal state, which the store holds.
pub record IsSettled {W : Type 0} (id : String)
    (p : Result (Option CrossNetworkSettlementRecord) × Settling W) : Type 0 where
  pub settled : CrossNetworkSettlementRecord
  pub returned : p.0 ≡ ok (some settled)
  pub ended : is_terminal settled.state ≡ true
  pub same_id : settled.request.id ≡ id
  pub is_current : IsCurrent settled p.1.records

module _ {W : Type 0} (services : Services W) where
  abbrev pub after_round :
      ℕ
      → CrossNetworkSettlementRequest
      → Next
      → Exec (Settling W) (Option CrossNetworkSettlementRecord)
  after_round rounds request (go_on r) = loop services rounds request r
  after_round rounds request (give_back r) = pure (some r)

  pub loop_going :
      (rounds : ℕ) (request : CrossNetworkSettlementRequest) (r : CrossNetworkSettlementRecord)
      → is_terminal r.state ≡ false
      → loop services (suc rounds) request r
        ≡ (iterate services request r >>= after_round rounds request)
  unfolding loop
  loop_going rounds request r n = rw (n, loop) refl

  pub loop_ended :
      (rounds : ℕ) (request : CrossNetworkSettlementRequest) (r : CrossNetworkSettlementRecord)
      → is_terminal r.state ≡ true
      → loop services (suc rounds) request r ≡ pure (some r)
  unfolding loop
  loop_ended rounds request r e = rw (e, loop) refl

  -- Enough rounds for a record.
  pub record HasRounds (rounds : ℕ) (r : CrossNetworkSettlementRecord) : Type 0 where
    pub one : 1 ≤ rounds
    pub enough : 11 ≤ rounds + position r.state

  abbrev Settles : ℕ → CrossNetworkSettlementRequest → Type 0
  Settles rounds request =
      (r : CrossNetworkSettlementRecord) (s : Settling W)
      → HasRounds rounds r
      → IsCurrent r s.records
      → IsSettled r.request.id (loop services rounds request r s)

  continue-IsSettled :
      (rounds : ℕ) (request : CrossNetworkSettlementRequest) (r : CrossNetworkSettlementRecord)
      (q : Result Next) (s : Settling W)
      → Settles rounds request
      → is_terminal r.state ≡ false
      → HasRounds (suc rounds) r
      → Ticks services
      → Round services r (q, s)
      → IsSettled r.request.id (continue (q, s) (after_round rounds request))
  continue-IsSettled rounds request r (ok (go_on x)) s ih n h ticks (went r' e l) =
      let same : r' ≡ x = cc e in
      let later = subst (λ (y : CrossNetworkSettlementRecord). IsLater r y s.records) same l in
      let near = position-terminal r.state n in
      let far = position-follows r.state x.state later.step in
      subst (λ id. IsSettled id (loop services rounds request x s)) later.same_id
        (ih x s
          (record { one = omega (arith, h.enough, near); enough = omega (arith, h.enough, far) })
          later.is_current)
  continue-IsSettled rounds request r (ok (give_back x)) s ih n h ticks (ended r' e t l) =
      let same : r' ≡ x = cc e in
      let later = subst (λ (y : CrossNetworkSettlementRecord). IsLater r y s.records) same l in
      record {
        settled = x;
        returned = refl;
        ended = subst (λ (y : CrossNetworkSettlementRecord). is_terminal y.state ≡ true) same t;
        same_id = later.same_id;
        is_current = later.is_current;
      }
  continue-IsSettled rounds request r (ok (go_on x)) s ih n h ticks (ended r' e t l) = cc e
  continue-IsSettled rounds request r (ok (give_back x)) s ih n h ticks (went r' e l) = cc e
  continue-IsSettled rounds request r (err x) s ih n h ticks (went r' e l) = cc e
  continue-IsSettled rounds request r (err x) s ih n h ticks (ended r' e t l) = cc e
  continue-IsSettled rounds request r q s ih n h ticks (undated x e c bad) = absurd (bad ticks)

  pub loop-IsSettled :
      Ticks services
      → (rounds : ℕ) (request : CrossNetworkSettlementRequest) → Settles rounds request
  unfolding ◌>>=◌
  loop-IsSettled ticks zero request r s h c = absurd (omega (arith, h.one))
  loop-IsSettled ticks (suc rounds) request r s h c = elim (Bool-cases (is_terminal r.state)) [
    | inl over ↦
        rw (loop_ended rounds request r over)
          (record { settled = r; returned = refl; ended = over; same_id = refl; is_current = c })
    | inr going ↦
        let p = iterate services request r s in
        rw (loop_going rounds request r going) (
          continue-IsSettled rounds request r p.0 p.1 (loop-IsSettled ticks rounds request) going h
            ticks (iterate-Round services request r going s c))
  ]

  -- The settlement of a request can be opened: there is none with its identifier, or one with its
  -- content.
  abbrev pub CanOpen : CrossNetworkSettlementRequest → String → Records → Type 0
  CanOpen request hash records =
      (r : CrossNetworkSettlementRecord)
      → Dict.lookup request.id records ≡ some r
      → r.request_hash ≡ hash

  -- The record that a call starts from.
  pub record Opened (request : CrossNetworkSettlementRequest)
      (p : Result CrossNetworkSettlementRecord × Settling W) : Type 0 where
    pub start : CrossNetworkSettlementRecord
    pub returned : p.0 ≡ ok start
    pub same_id : start.request.id ≡ request.id
    pub is_current : IsCurrent start p.1.records

  create_record_new :
      (request : CrossNetworkSettlementRequest) (hash : String) (t : CrossNetworkTransition)
      (records : Records)
      → Dict.lookup request.id records ≡ none
      → create_record request hash t records ≡ (
        ok (new_record request hash t),
        Dict.insert request.id (new_record request hash t) records,
      )
  unfolding create_record
  create_record_new request hash t records new = rw (new, create_record) refl

  create_new-Opened :
      (request : CrossNetworkSettlementRequest) (hash : String) (s : Settling W)
      → IsSound s.records
      → Dict.lookup request.id s.records ≡ none
      → Opened request (create_new services request hash s)
  unfolding create_new on_records
  create_new-Opened request hash s sound new =
      let t : CrossNetworkTransition = record {
        sequence = 0;
        state = created;
        occurred_at = request.created_at;
        evidence = [];
        reason = "saga created";
      } in
      rw (create_record_new request hash t s.records new) (record {
        start = new_record request hash t;
        returned = refl;
        same_id = refl;
        is_current = insert-IsCurrent (new_record request hash t) s.records sound (record {
          first = t;
          later = [];
          split = refl;
          first_state = refl;
          first_sequence = refl;
          path = (refl, refl);
        });
      })

  pub opened-Opened :
      (request : CrossNetworkSettlementRequest) (hash : String) (s : Settling W)
      → IsSound s.records
      → CanOpen request hash s.records
      → (found : Option CrossNetworkSettlementRecord) → Dict.lookup request.id s.records ≡ found
      → Opened request (opened services request hash found s)
  unfolding opened ◌>>=◌
  opened-Opened request hash s sound can none e = create_new-Opened request hash s sound e
  opened-Opened request hash s sound can (some r) e =
      let same : (r.request_hash == hash) ≡ true = (eq_iff r.request_hash hash).1 (can r e) in
      let id = (sound request.id r e).0 in
      rw same (record {
        start = r;
        returned = refl;
        same_id = id;
        is_current = record {
          sound = sound;
          found = subst (λ i. Dict.lookup i s.records ≡ some r) (sym id) e;
        };
      })

  after_open :
      (rounds : ℕ) (request : CrossNetworkSettlementRequest)
      (q : Result CrossNetworkSettlementRecord) (s : Settling W)
      → Ticks services
      → 11 ≤ rounds
      → Opened request (q, s)
      → IsSettled request.id (continue (q, s) (loop services rounds request))
  after_open rounds request (ok x) s ticks n o =
      let same : o.start ≡ x = cc (o.returned) in
      let current =
        subst (λ (y : CrossNetworkSettlementRecord). IsCurrent y s.records) same o.is_current in
      let id : x.request.id ≡ request.id = cc (same, o.same_id) in
      subst (λ i. IsSettled i (loop services rounds request x s)) id
        (loop-IsSettled ticks rounds request x s
          (record { one = omega (arith, n); enough = omega (arith, n) }) current)
  after_open rounds request (err e) s ticks n o = cc (o.returned)

  -- On sound records `execute` with at least 11 rounds returns a record of the settlement in a terminal
  -- state, which the sound store then holds, whatever the policy and the actions answer or throw: if
  -- the clock always gives a valid date, the request is valid and has a fingerprint, and its identifier
  -- is not taken by a settlement with another fingerprint.
  pub execute-IsSettled :
      (rounds : ℕ) (request : CrossNetworkSettlementRequest) (hash : String) (s : Settling W)
      → Ticks services
      → 11 ≤ rounds
      → IsSound s.records
      → validate services.dates request ≡ ok tt
      → request_fingerprint services.texts (request_json request) ≡ ok hash
      → CanOpen request hash s.records
      → IsSettled request.id (execute services rounds request s)
  unfolding execute ◌>>=◌ on_records get_record
  execute-IsSettled rounds request hash s ticks n sound valid printed can =
      let p = opened services request hash (Dict.lookup request.id s.records) s in
      rw (valid, printed)
        (after_open rounds request p.0 p.1 ticks n
          (opened-Opened request hash s sound can (Dict.lookup request.id s.records) refl))
