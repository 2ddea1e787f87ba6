-- ===== src/SameNetwork/Kept.antt =====
-- What the calls of the store keep is kept by the service of same-network-settlement.ts.
use canton_evmcrosschain.Prelude.{String, ◌≡◌, refl, some, List, [], ◌∷◌, is_blank}
use canton_evmcrosschain.Failures.{ok}
use canton_evmcrosschain.Exec.{◌>>◌, pure, lift}
use canton_evmcrosschain.Served.{
  Served, on_stored, read_clock, Keeps, ask_world-Keeps, read_clock-Keeps, on_stored-Keeps,
  if-Keeps, chain-Keeps, lift-Keeps,
}
use canton_evmcrosschain.Dates.{Dates, time_le}
use canton_evmcrosschain.SameNetwork.Settlement.{
  SameNetworkSettlementRequest, NativeAtomicSettlementResult, rejected, assert_request,
  assert_result, status_of, is_in_progress,
}
use canton_evmcrosschain.SameNetwork.Store.{SettlementClaim, Settlements, claim, finish}
use canton_evmcrosschain.SameNetwork.Service.{
  Executor, Services, timestamp, finish_now, attempt, settle, proceed, after_claim, execute,
}

-- The calls that the service makes keep `P`.
pub record IsKept (dates : Dates) (P : Settlements → Type 0) : Type 0 where
  pub claims :
      (request : SameNetworkSettlementRequest) (hash at : String) (table : Settlements)
      → P table
      → P (claim request hash at table).1
  pub finishes :
      (id hash at : String) (result : NativeAtomicSettlementResult) (table : Settlements)
      → assert_result dates result ≡ ok tt
      → P table
      → P (finish id hash (status_of result) result at table).1

pub expired_result :
    (dates : Dates) → assert_result dates (rejected "SETTLEMENT_EXPIRED" []) ≡ ok tt
unfolding assert_result is_blank
expired_result dates = refl

module _ {W : Type 0} (services : Services W) where
  -- The state after calls of `execute`, each going on from what the one before has left, thrown or
  -- not.
  abbrev pub executes :
      List SameNetworkSettlementRequest → Served Settlements W → Served Settlements W
  executes [] s = s
  executes (request ∷ requests) s = executes requests (execute services request s).1

module _ {W : Type 0} (services : Services W) (P : Settlements → Type 0)
    (kept : IsKept services.dates P) where
  timestamp-Keeps : Keeps P (timestamp services)
  unfolding timestamp
  timestamp-Keeps =
      chain-Keeps P (λ t. pure (services.dates.to_iso t)) (read_clock services.clock)
        (read_clock-Keeps P services.clock) (λ t s h. h)

  finish_now-Keeps :
      (id hash : String) (result : NativeAtomicSettlementResult)
      → assert_result services.dates result ≡ ok tt
      → Keeps P (finish_now services id hash (status_of result) result)
  unfolding finish_now
  finish_now-Keeps id hash result good =
      chain-Keeps P (λ at. on_stored (finish id hash (status_of result) result at))
        (timestamp services) timestamp-Keeps
        (λ at.
          on_stored-Keeps P (finish id hash (status_of result) result at)
            (λ table. kept.finishes id hash at result table good))

  settle-Keeps :
      (executor : Executor W) (request : SameNetworkSettlementRequest) (hash : String)
      → Keeps P (settle services executor request hash)
  unfolding settle attempt
  settle-Keeps executor request hash =
      chain-Keeps P
        (λ result.
          lift (assert_result services.dates result)
          >> finish_now services request.id hash (status_of result) result)
        (attempt services executor request) (λ s h. ask_world-Keeps P _ s h)
        (λ result.
          lift-Keeps P (λ u. finish_now services request.id hash (status_of result) result)
            (assert_result services.dates result)
            (λ u good. finish_now-Keeps request.id hash result good))

  proceed-Keeps :
      (executor : Executor W) (request : SameNetworkSettlementRequest) (hash : String)
      → Keeps P (proceed services executor request hash)
  unfolding proceed status_of
  proceed-Keeps executor request hash =
      chain-Keeps P _ (read_clock services.clock) (read_clock-Keeps P services.clock) (λ t.
        if-Keeps P (time_le (services.dates.parse request.expires_at) (some t)) _ _
          (finish_now-Keeps request.id hash (rejected "SETTLEMENT_EXPIRED" [])
            (expired_result services.dates))
          (settle-Keeps executor request hash))

  after_claim-Keeps :
      (executor : Executor W) (request : SameNetworkSettlementRequest) (hash : String)
      (c : SettlementClaim)
      → Keeps P (after_claim services executor request hash c)
  unfolding after_claim
  after_claim-Keeps executor request hash c = lift-Keeps P _ _ (λ u e.
      if-Keeps P (is_in_progress c.claim_record.status) _ _ (proceed-Keeps executor request hash)
        (λ s h. h))

  pub execute-Keeps : (request : SameNetworkSettlementRequest) → Keeps P (execute services request)
  unfolding execute
  execute-Keeps request = lift-Keeps P _ (assert_request services.dates request) (λ u e.
      lift-Keeps P _ _ (λ executor f. lift-Keeps P _ _ (λ hash g.
        chain-Keeps P _ (timestamp services) timestamp-Keeps (λ at.
          chain-Keeps P _ (on_stored (claim request hash at))
            (on_stored-Keeps P (claim request hash at) (kept.claims request hash at))
            (after_claim-Keeps executor request hash)))))

  pub executes-Keeps :
      (requests : List SameNetworkSettlementRequest) (s : Served Settlements W)
      → P s.stored
      → P (executes services requests s).stored
  executes-Keeps [] s h = h
  executes-Keeps (request ∷ requests) s h =
      executes-Keeps requests (execute services request s).1 (execute-Keeps request s h)
