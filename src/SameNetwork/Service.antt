-- ===== src/SameNetwork/Service.antt =====
-- SameNetworkSettlementService of same-network-settlement.ts.
use canton_evmcrosschain.Prelude.{
  ℕ, String, Bool, true, false, Option, none, some, List, [], ◌∷◌, ◌==◌, is_some, if◌then◌else◌,
}
use canton_evmcrosschain.Failures.{registry, conflict, not_found, Result, ok, err, reject_if, Exec}
use canton_evmcrosschain.Exec.{◌>>=◌, ◌>>◌, pure, lift}
use canton_evmcrosschain.Served.{Served, ask_world, on_stored, read_clock}
use canton_evmcrosschain.Dict
use canton_evmcrosschain.Dict.{Dict}
use canton_evmcrosschain.Dates.{Dates, time_le}
use canton_evmcrosschain.Idempotency.Canonical.{Texts, request_fingerprint}
use canton_evmcrosschain.SameNetwork.Settlement.{
  SameNetworkSettlementRequest, NativeAtomicSettlementResult, rejected, uncertain,
  SameNetworkSettlementStatus, failed, SameNetworkSettlementRecord, request_json, assert_request,
  assert_result, status_of, is_in_progress,
}
use canton_evmcrosschain.SameNetwork.Store.{
  ClaimOutcome, refused, SettlementClaim, Settlements, claim, finish,
}

-- NativeAtomicSettlementExecutor
pub record Executor (W : Type 0) : Type 0 where
  pub network_id : String
  pub network_type : String
  pub execute_atomically : SameNetworkSettlementRequest → Exec W NativeAtomicSettlementResult

-- What the service is given: the executors by their networks, and the platform.
pub record Services (W : Type 0) : Type 0 where
  pub dates : Dates
  pub texts : Texts
  pub clock : W → ℕ × W
  pub executors : Dict (Executor W)

-- The constructor's map of executors.
unfoldable pub configure :
    {W : Type 0} → List (Executor W) → Dict (Executor W) → Result (Dict (Executor W))
configure [] configured = ok configured
configure (e ∷ executors) configured =
    if is_some (Dict.lookup e.network_id configured)
    then err (registry conflict)
    else configure executors (Dict.insert e.network_id e configured)

-- `!executor || executor.networkType !== request.networkType`
abbrev pub suitable :
    {W : Type 0} → Option (Executor W) → SameNetworkSettlementRequest → Result (Executor W)
suitable none request = err (registry not_found)
suitable (some e) request =
    if e.network_type == request.network_type then ok e else err (registry not_found)

abbrev pub is_refused : ClaimOutcome → Bool
is_refused refused = true
is_refused _ = false

-- `try { result = await … } catch { result = … }`
abbrev pub caught :
    {W : Type 0} → Result NativeAtomicSettlementResult × W → Result NativeAtomicSettlementResult × W
caught (ok result, w) = (ok result, w)
caught (err e, w) = (ok (uncertain "EXECUTOR_ERROR" []), w)

module _ {W : Type 0} (services : Services W) where
  -- `this.now().toISOString()`
  unfoldable pub timestamp : Exec (Served Settlements W) String
  timestamp = do t ← read_clock services.clock; pure (services.dates.to_iso t)

  unfoldable pub finish_now :
      String
      → String
      → SameNetworkSettlementStatus
      → NativeAtomicSettlementResult
      → Exec (Served Settlements W) SameNetworkSettlementRecord
  finish_now id hash status result = do at ← timestamp; on_stored (finish id hash status result at)

  unfoldable pub attempt :
      Executor W
      → SameNetworkSettlementRequest
      → Exec (Served Settlements W) NativeAtomicSettlementResult
  attempt executor request = ask_world (λ w. caught (executor.execute_atomically request w))

  -- The call of the executor, and what follows it.
  unfoldable pub settle :
      Executor W
      → SameNetworkSettlementRequest
      → String
      → Exec (Served Settlements W) SameNetworkSettlementRecord
  unfolding attempt finish_now
  settle executor request hash = do
    result ← attempt executor request
    lift (assert_result services.dates result)
    finish_now request.id hash (status_of result) result

  -- What follows the claim of a settlement that is in progress.
  unfoldable pub proceed :
      Executor W
      → SameNetworkSettlementRequest
      → String
      → Exec (Served Settlements W) SameNetworkSettlementRecord
  unfolding settle finish_now
  proceed executor request hash = do
    t ← read_clock services.clock
    (if time_le (services.dates.parse request.expires_at) (some t)
        then finish_now request.id hash failed (rejected "SETTLEMENT_EXPIRED" [])
        else settle executor request hash)

  -- What follows the claim.
  unfoldable pub after_claim :
      Executor W
      → SameNetworkSettlementRequest
      → String
      → SettlementClaim
      → Exec (Served Settlements W) SameNetworkSettlementRecord
  unfolding proceed
  after_claim executor request hash c = do
    lift (reject_if (is_refused c.outcome) (registry conflict))
    (if is_in_progress c.claim_record.status
        then proceed executor request hash
        else pure c.claim_record)

  -- `execute`
  unfoldable pub execute :
      SameNetworkSettlementRequest → Exec (Served Settlements W) SameNetworkSettlementRecord
  unfolding after_claim timestamp
  execute request = do
    lift (assert_request services.dates request)
    executor ← lift (suitable (Dict.lookup request.network_id services.executors) request)
    hash ← lift (request_fingerprint services.texts (request_json request))
    at ← timestamp
    c ← on_stored (claim request hash at)
    after_claim executor request hash c
