-- ===== src/SameNetwork/Ends.antt =====
-- How a call of `execute` of same-network-settlement.ts ends.
use canton_evmcrosschain.Prelude.{
  String, ◌≡◌, refl, subst, true, false, some, List, [], eq_iff, if◌then◌else◌, Bool-cases, inl,
  inr,
}
use canton_evmcrosschain.Failures.{Failure, Result, ok, err}
use canton_evmcrosschain.Exec.{◌>>=◌, continue}
use canton_evmcrosschain.Served.{Served, ask_world, on_stored, read_clock}
use canton_evmcrosschain.Dict
use canton_evmcrosschain.Dates.{time_le}
use canton_evmcrosschain.Idempotency.Canonical.{request_fingerprint}
use canton_evmcrosschain.SameNetwork.Settlement.{
  SameNetworkSettlementRequest, NativeAtomicSettlementResult, rejected, in_progress,
  SameNetworkSettlementRecord, request_json, assert_request, assert_result, status_of,
  is_in_progress,
}
use canton_evmcrosschain.SameNetwork.Store.{SettlementClaim, Settlements, claim}
use canton_evmcrosschain.SameNetwork.Service.{
  Executor, Services, suitable, is_refused, timestamp, attempt, settle, proceed, after_claim,
  execute,
}
use canton_evmcrosschain.SameNetwork.Kept.{executes}
use canton_evmcrosschain.SameNetwork.Agreement.{IsFinal, executes-IsFinal}
use canton_evmcrosschain.SameNetwork.Kept.{expired_result}
use canton_evmcrosschain.SameNetwork.Decisions.{
  answer_of, IsGoing, IsClaimed, CanClaim, claim-IsClaimed, IsDecided, finish_now-IsDecided,
  settle-IsDecided, caught-answer_of,
}

-- The end of a call that throws and leaves the settlement in progress.
pub record IsUndecided {W : Type 0} (id hash : String) (e : Failure)
    (p : Result SameNetworkSettlementRecord × Served Settlements W) : Type 0 where
  pub returned : p.0 ≡ err e
  pub left : SameNetworkSettlementRecord
  pub is_going : IsGoing id hash left p.1.stored

module _ {W : Type 0} (services : Services W) where
  -- What becomes of a settlement that goes on: a rejection once it has expired, and else the answer
  -- of the executor.
  abbrev pub decision : Executor W → SameNetworkSettlementRequest → W → NativeAtomicSettlementResult
  decision executor request w =
      if time_le (services.dates.parse request.expires_at) (some (services.clock w).0)
      then rejected "SETTLEMENT_EXPIRED" []
      else answer_of (executor.execute_atomically request (services.clock w).1).0

  proceed-IsDecided :
      (executor : Executor W) (request : SameNetworkSettlementRequest) (hash : String)
      (r : SameNetworkSettlementRecord) (s : Served Settlements W)
      → IsGoing request.id hash r s.stored
      → assert_result services.dates (decision executor request s.world) ≡ ok tt
      → IsDecided services.dates request.id
          (decision executor request s.world)
          (proceed services executor request hash s)
  unfolding proceed read_clock ◌>>=◌ status_of
  proceed-IsDecided executor request hash r s g =
      let (t, w) = services.clock s.world in
      elim (Bool-cases (time_le (services.dates.parse request.expires_at) (some t))) [
        | inl late ↦
            rw (late, proceed)
              (λ good.
                finish_now-IsDecided services request.id hash (rejected "SETTLEMENT_EXPIRED" []) r
                  (record { stored = s.stored; world = w }) g good)
        | inr early ↦
            rw (early, proceed)
              (settle-IsDecided services executor request hash r
                (record { stored = s.stored; world = w }) g)
      ]

  proceed-IsUndecided :
      (executor : Executor W) (request : SameNetworkSettlementRequest) (hash : String) (e : Failure)
      (r : SameNetworkSettlementRecord) (s : Served Settlements W)
      → IsGoing request.id hash r s.stored
      → assert_result services.dates (decision executor request s.world) ≡ err e
      → IsUndecided request.id hash e (proceed services executor request hash s)
  unfolding proceed read_clock settle attempt ask_world ◌>>=◌
  proceed-IsUndecided executor request hash e r s g =
      let (t, w) = services.clock s.world in
      let p = executor.execute_atomically request w in
      elim (Bool-cases (time_le (services.dates.parse request.expires_at) (some t))) [
        | inl late ↦ rw (late, proceed) (λ bad. cc (expired_result services.dates, bad))
        | inr early ↦
            rw (early, proceed)
              (λ bad.
                rw (caught-answer_of p.0 p.1, bad)
                  (record { returned = refl; left = r; is_going = g }))
      ]

  -- The state in which `execute` goes on after the claim.
  abbrev granted_state : Settlements → Served Settlements W → Served Settlements W
  granted_state table s = record { stored = table; world = (services.clock s.world).1 }

  after_claim_granted :
      (executor : Executor W) (request : SameNetworkSettlementRequest) (hash : String)
      (c : SettlementClaim) (s : Served Settlements W)
      → is_refused c.outcome ≡ false
      → c.claim_record.status ≡ in_progress
      → after_claim services executor request hash c s ≡ proceed services executor request hash s
  unfolding after_claim ◌>>=◌
  after_claim_granted executor request hash c s granted going =
      let goes : is_in_progress c.claim_record.status ≡ true = rw going refl in
      rw (granted, goes) refl

  -- The request is valid, there is an executor for it, and it has a fingerprint.
  pub record IsReady (executor : Executor W) (request : SameNetworkSettlementRequest)
      (hash : String) : Type 0 where
    pub valid : assert_request services.dates request ≡ ok tt
    pub suits : suitable (Dict.lookup request.network_id services.executors) request ≡ ok executor
    pub printed : request_fingerprint services.texts (request_json request) ≡ ok hash

  execute_ready :
      (executor : Executor W) (request : SameNetworkSettlementRequest) (hash : String)
      (s : Served Settlements W)
      → IsReady executor request hash
      → let at = services.dates.to_iso (services.clock s.world).0 in
        let p = claim request hash at s.stored in
        execute services request s
        ≡ continue (p.0, granted_state p.1 s) (after_claim services executor request hash)
  unfolding execute timestamp read_clock on_stored ◌>>=◌
  execute_ready executor request hash s h = rw (h.valid, h.suits, h.printed) refl

  -- The decision that a call of `execute` comes to, after its first reading of the clock.
  abbrev pub decided :
      Executor W
      → SameNetworkSettlementRequest
      → Served Settlements W
      → NativeAtomicSettlementResult
  decided executor request s = decision executor request (services.clock s.world).1

  claimed-IsDecided :
      (executor : Executor W) (request : SameNetworkSettlementRequest) (hash : String)
      (q : Result SettlementClaim) (s : Served Settlements W)
      → IsClaimed request.id hash (q, s.stored)
      → assert_result services.dates (decision executor request s.world) ≡ ok tt
      → IsDecided services.dates request.id
          (decision executor request s.world)
          (continue (q, s) (after_claim services executor request hash))
  claimed-IsDecided executor request hash (ok c) s k good =
      let same : k.c ≡ c = cc (k.returned) in
      let granted : is_refused c.outcome ≡ false =
        subst (λ (d : SettlementClaim). is_refused d.outcome ≡ false) same k.granted in
      let g : IsGoing request.id hash c.claim_record s.stored =
        subst (λ (d : SettlementClaim). IsGoing request.id hash d.claim_record s.stored) same
          k.is_going in
      rw (after_claim_granted executor request hash c s granted g.going)
        (proceed-IsDecided executor request hash c.claim_record s g good)
  claimed-IsDecided executor request hash (err e) s k good = cc (k.returned)

  claimed-IsUndecided :
      (executor : Executor W) (request : SameNetworkSettlementRequest) (hash : String) (e : Failure)
      (q : Result SettlementClaim) (s : Served Settlements W)
      → IsClaimed request.id hash (q, s.stored)
      → assert_result services.dates (decision executor request s.world) ≡ err e
      → IsUndecided request.id hash e (continue (q, s) (after_claim services executor request hash))
  claimed-IsUndecided executor request hash e (ok c) s k bad =
      let same : k.c ≡ c = cc (k.returned) in
      let granted : is_refused c.outcome ≡ false =
        subst (λ (d : SettlementClaim). is_refused d.outcome ≡ false) same k.granted in
      let g : IsGoing request.id hash c.claim_record s.stored =
        subst (λ (d : SettlementClaim). IsGoing request.id hash d.claim_record s.stored) same
          k.is_going in
      rw (after_claim_granted executor request hash c s granted g.going)
        (proceed-IsUndecided executor request hash e c.claim_record s g bad)
  claimed-IsUndecided executor request hash e (err x) s k bad = cc (k.returned)

  -- `execute` of a ready request that can be claimed decides the settlement: by a rejection if it has
  -- expired, and else by the answer of the executor, where an executor that throws counts as
  -- uncertain. If that result passes `assertResult`, the call returns a record with it and with its
  -- status, and stores that record: COMPLETED with a commit and its complete evidence, FAILED with a
  -- rejection or in MANUAL_REVIEW with an uncertain end, for a reason that is not blank.
  pub execute-IsDecided :
      (executor : Executor W) (request : SameNetworkSettlementRequest) (hash : String)
      (s : Served Settlements W)
      → IsReady executor request hash
      → CanClaim request.id hash s.stored
      → assert_result services.dates (decided executor request s) ≡ ok tt
      → IsDecided services.dates request.id
          (decided executor request s)
          (execute services request s)
  execute-IsDecided executor request hash s h can good =
      let p = claim request hash (services.dates.to_iso (services.clock s.world).0) s.stored in
      rw (execute_ready executor request hash s h) (
        claimed-IsDecided executor request hash p.0 (granted_state p.1 s)
          (claim-IsClaimed request hash _ s.stored can) good)

  -- If the decision does not pass `assertResult`, `execute` throws what that throws, and leaves a
  -- record of the settlement in progress with the fingerprint of the request.
  pub execute-IsUndecided :
      (executor : Executor W) (request : SameNetworkSettlementRequest) (hash : String) (e : Failure)
      (s : Served Settlements W)
      → IsReady executor request hash
      → CanClaim request.id hash s.stored
      → assert_result services.dates (decided executor request s) ≡ err e
      → IsUndecided request.id hash e (execute services request s)
  execute-IsUndecided executor request hash e s h can bad =
      let p = claim request hash (services.dates.to_iso (services.clock s.world).0) s.stored in
      rw (execute_ready executor request hash s h) (
        claimed-IsUndecided executor request hash e p.0 (granted_state p.1 s)
          (claim-IsClaimed request hash _ s.stored can) bad)

  -- The state after one reading of the clock.
  abbrev pub after_reading : Served Settlements W → Served Settlements W
  after_reading s = record { stored = s.stored; world = (services.clock s.world).1 }

  execute_final :
      (executor : Executor W) (request : SameNetworkSettlementRequest) (hash : String)
      (r : SameNetworkSettlementRecord) (s : Served Settlements W)
      → IsReady executor request hash
      → r.request_hash ≡ hash
      → IsFinal request.id r s.stored
      → execute services request s ≡ (ok r, after_reading s)
  unfolding claim after_claim ◌>>=◌
  execute_final executor request hash r s h same f =
      let fits = (eq_iff r.request_hash hash).1 same in
      rw (execute_ready executor request hash s h, f.found, claim) (rw (fits, f.over) refl)

  -- Once the record of a settlement has a final status, then after any calls of `execute`, thrown or
  -- not, `execute` of a ready request with its identifier and fingerprint returns that record, and does
  -- nothing but read the clock once: the executor is not called and nothing is written.
  pub executes-replays :
      (executor : Executor W) (request : SameNetworkSettlementRequest) (hash : String)
      (r : SameNetworkSettlementRecord) (requests : List SameNetworkSettlementRequest)
      (s : Served Settlements W)
      → IsReady executor request hash
      → r.request_hash ≡ hash
      → IsFinal request.id r s.stored
      → execute services request (executes services requests s)
        ≡ (ok r, after_reading (executes services requests s))
  executes-replays executor request hash r requests s h same f =
      execute_final executor request hash r (executes services requests s) h same
        (executes-IsFinal services request.id r requests s f)
