-- ===== src/SameNetwork/Store.antt =====
-- PostgresSameNetworkSettlementStore of same-network-settlement.ts, over the table of
-- packages/core/sql/008_same_network_settlements.sql: its records under their identifiers, the
-- primary key. The other columns repeat the record and are not read. A row lock makes each
-- transaction one step, so the record that an insert has met cannot disappear before it is read.
use canton_evmcrosschain.Prelude.{String, not, Option, none, some, ◌==◌, if◌then◌else◌}
use canton_evmcrosschain.Failures.{
  registry, conflict, Result, ok, ◌>>=◌, ◌>>◌, reject_if, require, Exec, transaction,
}
use canton_evmcrosschain.Dict
use canton_evmcrosschain.Dict.{Dict}
use canton_evmcrosschain.SameNetwork.Settlement.{
  SameNetworkSettlementRequest, NativeAtomicSettlementResult, SameNetworkSettlementStatus,
  in_progress, SameNetworkSettlementRecord, is_in_progress,
}

pub data ClaimOutcome : Type 0 where
  claimed replay refused : ClaimOutcome

pub record SettlementClaim : Type 0 where
  pub outcome : ClaimOutcome
  pub claim_record : SameNetworkSettlementRecord

abbrev pub Settlements : Type 0
Settlements = Dict SameNetworkSettlementRecord

abbrev pub claimed_record :
    SameNetworkSettlementRequest → String → String → SameNetworkSettlementRecord
claimed_record request request_hash recorded_at = record {
  request = request;
  request_hash = request_hash;
  status = in_progress;
  result = none;
  recorded_at = recorded_at;
}

-- `claim`; nothing in it throws.
unfoldable pub claim :
    SameNetworkSettlementRequest → String → String → Exec Settlements SettlementClaim
claim request request_hash recorded_at table = elim (Dict.lookup request.id table) [
  | none ↦
      let r = claimed_record request request_hash recorded_at in
      (ok (record { outcome = claimed; claim_record = r }), Dict.insert request.id r table)
  | some existing ↦ (
    ok (record {
      outcome = if existing.request_hash == request_hash then replay else refused;
      claim_record = existing;
    }),
    table,
  )
]

-- `{ ...existing, status, result, recordedAt }`
abbrev pub finished :
    SameNetworkSettlementRecord
    → SameNetworkSettlementStatus
    → NativeAtomicSettlementResult
    → String
    → SameNetworkSettlementRecord
finished existing status result recorded_at = record existing {
  status = status;
  result = some result;
  recorded_at = recorded_at;
}

unfoldable pub finish_body :
    String
    → String
    → SameNetworkSettlementStatus
    → NativeAtomicSettlementResult
    → String
    → Settlements
    → Result (SameNetworkSettlementRecord × Settlements)
finish_body id request_hash status result recorded_at table = do
  existing ← require (Dict.lookup id table) (registry conflict)
  reject_if (not (existing.request_hash == request_hash)) (registry conflict)
  let r = finished existing status result recorded_at
  ok (if is_in_progress existing.status then (r, Dict.insert id r table) else (existing, table))

unfoldable pub finish :
    String
    → String
    → SameNetworkSettlementStatus
    → NativeAtomicSettlementResult
    → String
    → Exec Settlements SameNetworkSettlementRecord
unfolding finish_body
finish id request_hash status result recorded_at table =
    transaction (finish_body id request_hash status result recorded_at) table

unfoldable pub get : String → Exec Settlements (Option SameNetworkSettlementRecord)
get id table = (ok (Dict.lookup id table), table)
