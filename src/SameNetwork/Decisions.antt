-- ===== src/SameNetwork/Decisions.antt =====
-- What `execute` of same-network-settlement.ts does with a settlement, on each of its branches.
use canton_evmcrosschain.Prelude.{
  String, ◌≡◌, refl, true, false, some, [], ◌==◌, eq_iff, if◌then◌else◌, Option-cases, inl, inr,
}
use canton_evmcrosschain.Failures.{Result, ok, err}
use canton_evmcrosschain.Exec.{◌>>=◌}
use canton_evmcrosschain.Served.{Served, ask_world, on_stored, read_clock}
use canton_evmcrosschain.Dict
use canton_evmcrosschain.Dates.{Dates}
use canton_evmcrosschain.SameNetwork.Settlement.{
  SameNetworkSettlementRequest, NativeAtomicSettlementResult, uncertain,
  SameNetworkSettlementStatus, in_progress, SameNetworkSettlementRecord, assert_result, status_of,
  is_in_progress,
}
use canton_evmcrosschain.SameNetwork.Store.{
  claimed, replay, refused, SettlementClaim, Settlements, claimed_record, claim, finished,
  finish_body, finish,
}
use canton_evmcrosschain.SameNetwork.Service.{
  Executor, Services, is_refused, caught, timestamp, finish_now, attempt, settle,
}
use canton_evmcrosschain.SameNetwork.Agreement.{HasEnd, status_of-HasEnd}

-- The answer of an executor; what it throws is an uncertain end.
abbrev pub answer_of : Result NativeAtomicSettlementResult → NativeAtomicSettlementResult
answer_of (ok result) = result
answer_of (err e) = uncertain "EXECUTOR_ERROR" []

pub caught-answer_of :
    {W : Type 0} (q : Result NativeAtomicSettlementResult) (w : W)
    → caught (q, w) ≡ (ok (answer_of q), w)
caught-answer_of (ok result) w = refl
caught-answer_of (err e) w = refl

-- The record of a settlement that goes on.
pub record IsGoing (id hash : String) (r : SameNetworkSettlementRecord) (table : Settlements)
    : Type 0 where
  pub found : Dict.lookup id table ≡ some r
  pub same_hash : r.request_hash ≡ hash
  pub going : r.status ≡ in_progress

finish_going :
    (id hash at : String) (status : SameNetworkSettlementStatus)
    (result : NativeAtomicSettlementResult) (r : SameNetworkSettlementRecord) (table : Settlements)
    → IsGoing id hash r table
    → finish id hash status result at table
      ≡ (ok (finished r status result at), Dict.insert id (finished r status result at) table)
unfolding finish finish_body
finish_going id hash at status result r table g =
    let same = (eq_iff r.request_hash hash).1 g.same_hash in
    let going : is_in_progress r.status ≡ true = rw (g.going) refl in rw (g.found, same, going) refl

-- A claim that is granted.
pub record IsClaimed (id hash : String) (p : Result SettlementClaim × Settlements) : Type 0 where
  pub c : SettlementClaim
  pub returned : p.0 ≡ ok c
  pub granted : is_refused c.outcome ≡ false
  pub is_going : IsGoing id hash c.claim_record p.1

-- A settlement can be claimed if there is none with its identifier, or one in progress with its
-- content.
abbrev pub CanClaim : String → String → Settlements → Type 0
CanClaim id hash table =
    (r : SameNetworkSettlementRecord)
    → Dict.lookup id table ≡ some r
    → (r.request_hash ≡ hash) × (r.status ≡ in_progress)

pub claim-IsClaimed :
    (request : SameNetworkSettlementRequest) (hash at : String) (table : Settlements)
    → CanClaim request.id hash table
    → IsClaimed request.id hash (claim request hash at table)
unfolding claim
claim-IsClaimed request hash at table can = elim (Option-cases (Dict.lookup request.id table)) [
  | inl new ↦
      let r = claimed_record request hash at in
      rw (new, claim)
        (record {
          c = record { outcome = claimed; claim_record = r };
          returned = refl;
          granted = refl;
          is_going = record {
            found = Dict.lookup-insert_self request.id request.id r table refl;
            same_hash = refl;
            going = refl;
          };
        })
  | inr (existing, found) ↦
      let (same_hash, going) = can existing found in
      let same = (eq_iff existing.request_hash hash).1 same_hash in
      rw (found, claim)
        (record {
          c = record {
            outcome = if existing.request_hash == hash then replay else refused;
            claim_record = existing;
          };
          returned = refl;
          granted = rw same refl;
          is_going = record { found = found; same_hash = same_hash; going = going };
        })
]

-- The end of a settlement: the record that is returned is stored, with the result and its status.
pub record IsDecided {W : Type 0} (dates : Dates) (id : String)
    (result : NativeAtomicSettlementResult)
    (p : Result SameNetworkSettlementRecord × Served Settlements W) : Type 0 where
  pub settled : SameNetworkSettlementRecord
  pub returned : p.0 ≡ ok settled
  pub is_stored : Dict.lookup id p.1.stored ≡ some settled
  pub status_is : settled.status ≡ status_of result
  pub result_is : settled.result ≡ some result
  pub has_end : HasEnd dates settled.status result

module _ {W : Type 0} (services : Services W) where
  pub finish_now-IsDecided :
      (id hash : String) (result : NativeAtomicSettlementResult) (r : SameNetworkSettlementRecord)
      (s : Served Settlements W)
      → IsGoing id hash r s.stored
      → assert_result services.dates result ≡ ok tt
      → IsDecided services.dates id result (finish_now services id hash (status_of result) result s)
  unfolding finish_now timestamp read_clock on_stored ◌>>=◌
  finish_now-IsDecided id hash result r s g good =
      let at = services.dates.to_iso (services.clock s.world).0 in
      let u = finished r (status_of result) result at in
      rw (finish_going id hash at (status_of result) result r s.stored g) (record {
        settled = u;
        returned = refl;
        is_stored = Dict.lookup-insert_self id id u s.stored refl;
        status_is = refl;
        result_is = refl;
        has_end = status_of-HasEnd services.dates result good;
      })

  pub settle-IsDecided :
      (executor : Executor W) (request : SameNetworkSettlementRequest) (hash : String)
      (r : SameNetworkSettlementRecord) (s : Served Settlements W)
      → IsGoing request.id hash r s.stored
      → assert_result services.dates (answer_of (executor.execute_atomically request s.world).0)
        ≡ ok tt
      → IsDecided services.dates request.id
          (answer_of (executor.execute_atomically request s.world).0)
          (settle services executor request hash s)
  unfolding settle attempt ask_world ◌>>=◌
  settle-IsDecided executor request hash r s g good =
      let p = executor.execute_atomically request s.world in
      rw (caught-answer_of p.0 p.1, good)
        (finish_now-IsDecided request.id hash (answer_of p.0) r
          (record { stored = s.stored; world = p.1 }) g good)
