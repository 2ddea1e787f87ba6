-- ===== src/Saga/Service.antt =====
-- CrossNetworkSettlementService of cross-network-settlement.ts, over the store in memory. The policy,
-- the actions on the networks and the clock keep a world of their own, and may answer differently each
-- time or throw.
use canton_evmcrosschain.Prelude.{
  ℕ, zero, suc, ◌+◌, String, Bool, true, false, not, ◌&&◌, Option, none, some, List, [], ◌∷◌, ◌++◌,
  ◌==◌, concat, if◌then◌else◌,
}
use canton_evmcrosschain.Failures.{
  registry, external, conflict, Failure, Result, ok, err, reject_if, Exec,
}
use canton_evmcrosschain.Exec.{◌>>=◌, ◌>>◌, pure, lift}
use canton_evmcrosschain.Dates.{Dates, time_le}
use canton_evmcrosschain.Idempotency.Canonical.{Texts, request_fingerprint}
use canton_evmcrosschain.Saga.States.{
  CrossNetworkSettlementState, created, policy_checked, delivery_reserved,
  delivery_reservation_verified, payment_submitted, payment_finalized, payment_attested,
  delivery_released, delivery_finalized, reconciled, completed, compensated, failed, expired,
  manual_review, CrossNetworkSettlementRequest, SettlementStepEvidence,
  CrossNetworkSettlementRecord, request_json, is_terminal, before_payment_finality, may_be_reserved,
  state_text,
}
use canton_evmcrosschain.Saga.Checks.{validate, validate_evidence}
use canton_evmcrosschain.Saga.Store.{Records, create_record, get_record, transition_record}

pub record PolicyAnswer : Type 0 where
  pub allowed : Bool
  pub evidence : List String
  pub reason : String

pub record Reconciliation : Type 0 where
  pub matched : Bool
  pub evidence : List String

-- CrossNetworkSettlementPolicy, CrossNetworkSettlementActions and what else the service is given.
-- `message` is the message of a thrown error, or the text for a value that is no error. `clock` gives
-- the time of a date, or none for an invalid one.
pub record Services (W : Type 0) : Type 0 where
  pub dates : Dates
  pub texts : Texts
  pub message : Failure → String
  pub clock : Exec W (Option ℕ)
  pub check : CrossNetworkSettlementRequest → Exec W PolicyAnswer
  pub reserve_delivery : CrossNetworkSettlementRequest → Exec W SettlementStepEvidence
  pub verify_delivery_reservation : CrossNetworkSettlementRequest → Exec W SettlementStepEvidence
  pub reserve_or_transfer_payment : CrossNetworkSettlementRequest → Exec W SettlementStepEvidence
  pub verify_payment_finality : CrossNetworkSettlementRequest → Exec W SettlementStepEvidence
  pub attest_payment : CrossNetworkSettlementRequest → Exec W SettlementStepEvidence
  pub release_delivery : CrossNetworkSettlementRequest → Exec W SettlementStepEvidence
  pub verify_delivery : CrossNetworkSettlementRequest → Exec W SettlementStepEvidence
  pub reconcile : CrossNetworkSettlementRequest → Exec W Reconciliation
  pub cancel_delivery_reservation : CrossNetworkSettlementRequest → Exec W SettlementStepEvidence

-- What the service works on.
pub record Settling (W : Type 0) : Type 0 where
  pub records : Records
  pub world : W

-- What `execute` does after an iteration of its loop.
pub data Next : Type 0 where
  go_on : CrossNetworkSettlementRecord → Next
  give_back : CrossNetworkSettlementRecord → Next

module _ {W : Type 0} (services : Services W) where
  -- A call of a service.
  unfoldable pub ask : {A : Type 0} → Exec W A → Exec (Settling W) A
  ask m s = let (r, w) = m s.world in (r, record s { world = w })

  unfoldable pub now : Exec (Settling W) (Option ℕ)
  now s = let (t, w) = services.clock s.world in (t, record s { world = w })

  -- `toISOString`, which throws for an invalid date
  abbrev pub iso : Option ℕ → Result String
  iso none = err (external "Invalid time value")
  iso (some t) = ok (services.dates.to_iso t)

  unfoldable pub stamp : Exec (Settling W) String
  unfolding now
  stamp = do t ← now; lift (iso t)

  unfoldable pub on_records : {A : Type 0} → Exec Records A → Exec (Settling W) A
  on_records m s = let (r, records) = m s.records in (r, record s { records = records })

  -- The transition of the store that `move` makes, at the time `at`.
  unfoldable pub enter :
      CrossNetworkSettlementRecord
      → CrossNetworkSettlementState
      → List String
      → String
      → String
      → Exec (Settling W) CrossNetworkSettlementRecord
  unfolding on_records
  enter r state evidence reason at = on_records (
      transition_record r.request.id r.version (record {
        sequence = r.version + 1;
        state = state;
        occurred_at = at;
        evidence = evidence;
        reason = reason;
      }))

  -- `move`
  unfoldable pub move :
      CrossNetworkSettlementRecord
      → CrossNetworkSettlementState
      → List String
      → String
      → Exec (Settling W) CrossNetworkSettlementRecord
  unfolding stamp enter
  move r state evidence reason = stamp >>= enter r state evidence reason

  -- A call of an action, with the check of what it returns.
  unfoldable pub evidenced :
      Exec W SettlementStepEvidence → Exec (Settling W) SettlementStepEvidence
  evidenced work = do result ← ask work; lift (validate_evidence services.dates result); pure result

  abbrev pub all_evidence : SettlementStepEvidence → List String
  all_evidence result = result.evidence ++ result.transaction_id ∷ result.position ∷ []

  -- `effect`
  unfoldable pub effect :
      CrossNetworkSettlementRecord
      → CrossNetworkSettlementState
      → Exec W SettlementStepEvidence
      → Exec (Settling W) CrossNetworkSettlementRecord
  unfolding evidenced
  effect r state work = do
    result ← evidenced work
    move r state (all_evidence result) (concat "entered " (state_text state))

  abbrev pub or_text : String → String → String
  or_text text other = if text == "" then other else text

  unfoldable pub on_created :
      CrossNetworkSettlementRecord → Exec (Settling W) CrossNetworkSettlementRecord
  on_created r = do
    result ← ask (services.check r.request)
    (if result.allowed
        then move r policy_checked result.evidence "policy allowed"
        else move r failed result.evidence (or_text result.reason "policy denied"))

  unfoldable pub on_delivery_finalized :
      CrossNetworkSettlementRecord → Exec (Settling W) CrossNetworkSettlementRecord
  on_delivery_finalized r = do
    result ← ask (services.reconcile r.request)
    (if result.matched
        then move r reconciled result.evidence "reconciled"
        else move r manual_review result.evidence "reconciliation mismatch")

  -- `advance`
  unfoldable pub advance :
      CrossNetworkSettlementState
      → CrossNetworkSettlementRecord
      → Exec (Settling W) CrossNetworkSettlementRecord
  unfolding on_created on_delivery_finalized
  advance created r = on_created r
  advance policy_checked r = effect r delivery_reserved (services.reserve_delivery r.request)
  advance delivery_reserved r =
      effect r delivery_reservation_verified (services.verify_delivery_reservation r.request)
  advance delivery_reservation_verified r =
      effect r payment_submitted (services.reserve_or_transfer_payment r.request)
  advance payment_submitted r =
      effect r payment_finalized (services.verify_payment_finality r.request)
  advance payment_finalized r = effect r payment_attested (services.attest_payment r.request)
  advance payment_attested r = effect r delivery_released (services.release_delivery r.request)
  advance delivery_released r = effect r delivery_finalized (services.verify_delivery r.request)
  advance delivery_finalized r = on_delivery_finalized r
  advance reconciled r = move r completed [] "saga completed"
  advance _ r = pure r

  -- `return this.move(record, "COMPENSATED", …)`, with what the clock has given. `move` is not async,
  -- so what the clock throws is caught; the transition is returned without `await`, so what it throws
  -- is not.
  abbrev pub compensated_at :
      CrossNetworkSettlementRecord
      → String
      → String
      → SettlementStepEvidence
      → Result String × Settling W
      → Result CrossNetworkSettlementRecord × Settling W
  compensated_at r done uncertain result (ok at, s) =
      enter r compensated (all_evidence result) done at s
  compensated_at r done uncertain result (err e, s) = move r manual_review [] uncertain s

  -- What is made of the cancellation: its success, or anything that it or the check has thrown.
  abbrev pub cancelled :
      CrossNetworkSettlementRecord
      → String
      → String
      → Result SettlementStepEvidence × Settling W
      → Result CrossNetworkSettlementRecord × Settling W
  cancelled r done uncertain (ok result, s) = compensated_at r done uncertain result (stamp s)
  cancelled r done uncertain (err e, s) = move r manual_review [] uncertain s

  -- The `try` of `expireOrCompensate` and of `handleFailure`.
  unfoldable pub cancel :
      CrossNetworkSettlementRecord
      → String
      → String
      → Exec (Settling W) CrossNetworkSettlementRecord
  unfolding evidenced
  cancel r done uncertain s =
      cancelled r done uncertain (evidenced (services.cancel_delivery_reservation r.request) s)

  abbrev pub is_reserved : CrossNetworkSettlementState → Bool
  is_reserved state = before_payment_finality state && may_be_reserved state

  unfoldable pub expire_or_compensate :
      CrossNetworkSettlementRecord → Exec (Settling W) CrossNetworkSettlementRecord
  unfolding cancel
  expire_or_compensate r =
      if is_reserved r.state
      then cancel r "expired; delivery reservation cancelled" "expiry compensation uncertain"
      else if before_payment_finality r.state
      then move r expired [] "expired before reservation"
      else move r manual_review [] "expired after payment finality; automatic reversal prohibited"

  unfoldable pub handle_failure :
      CrossNetworkSettlementRecord → Failure → Exec (Settling W) CrossNetworkSettlementRecord
  unfolding cancel
  handle_failure r e =
      let reason = services.message e in
      if is_reserved r.state
      then cancel r (concat "failure compensated: " reason)
          (concat "failure and compensation uncertain: " reason)
      else if before_payment_finality r.state
      then move r failed [] reason
      else move r manual_review [] (concat "post-payment-finality failure: " reason)

  abbrev pub given_back :
      Result CrossNetworkSettlementRecord × Settling W → Result Next × Settling W
  given_back (ok r, s) = (ok (give_back r), s)
  given_back (err e, s) = (err e, s)

  -- `try { record = await this.advance(record) } catch (error) { return this.handleFailure(…) }`
  abbrev pub caught :
      CrossNetworkSettlementRecord
      → Result CrossNetworkSettlementRecord × Settling W
      → Result Next × Settling W
  caught r (ok r', s) = (ok (go_on r'), s)
  caught r (err e, s) = given_back (handle_failure r e s)

  unfoldable pub try_advance : CrossNetworkSettlementRecord → Exec (Settling W) Next
  unfolding handle_failure advance
  try_advance r s = caught r (advance r.state r s)

  unfoldable pub expire : CrossNetworkSettlementRecord → Exec (Settling W) Next
  unfolding expire_or_compensate
  expire r s = given_back (expire_or_compensate r s)

  abbrev pub after_clock :
      CrossNetworkSettlementRequest
      → CrossNetworkSettlementRecord
      → Option ℕ
      → Exec (Settling W) Next
  after_clock request r t =
      if time_le (services.dates.parse request.expires_at) t then expire r else try_advance r

  -- One iteration of the loop, for the request of the call.
  unfoldable pub iterate :
      CrossNetworkSettlementRequest → CrossNetworkSettlementRecord → Exec (Settling W) Next
  unfolding try_advance expire
  iterate request r = now >>= after_clock request r

  -- The loop, with rounds; `none` is a loop that has used them up.
  unfoldable pub loop :
      ℕ
      → CrossNetworkSettlementRequest
      → CrossNetworkSettlementRecord
      → Exec (Settling W) (Option CrossNetworkSettlementRecord)
  unfolding iterate
  loop zero request r = pure none
  loop (suc rounds) request r = elim (is_terminal r.state) [
    | true ↦ pure (some r)
    | false ↦ iterate request r >>= λ next. elim next [
      | go_on r' ↦ loop rounds request r'
      | give_back r' ↦ pure (some r')
    ]
  ]

  unfoldable pub create_new :
      CrossNetworkSettlementRequest → String → Exec (Settling W) CrossNetworkSettlementRecord
  create_new request hash = on_records (
      create_record request hash (record {
        sequence = 0;
        state = created;
        occurred_at = request.created_at;
        evidence = [];
        reason = "saga created";
      }))

  -- `if (!record) … else if (record.requestHash !== hash) throw …`
  unfoldable pub opened :
      CrossNetworkSettlementRequest
      → String
      → Option CrossNetworkSettlementRecord
      → Exec (Settling W) CrossNetworkSettlementRecord
  unfolding create_new
  opened request hash none = create_new request hash
  opened request hash (some r) =
      lift (reject_if (not (r.request_hash == hash)) (registry conflict)) >> pure r

  -- `execute`, with rounds for its loop
  unfoldable pub execute :
      ℕ → CrossNetworkSettlementRequest → Exec (Settling W) (Option CrossNetworkSettlementRecord)
  unfolding opened loop
  execute rounds request = do
    lift (validate services.dates request)
    hash ← lift (request_fingerprint services.texts (request_json request))
    found ← on_records (get_record request.id)
    r ← opened request hash found
    loop rounds request r
