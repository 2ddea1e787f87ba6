-- ===== src/Idempotency/Writes.antt =====
-- IdempotentWriteCoordinator and ReplayProtectedDestination of idempotency.ts.
use canton_evmcrosschain.Prelude.{ℕ, String, not, ◌||◌, Option, none, ◌==◌, is_blank, has_prefix}
use canton_evmcrosschain.Failures.{
  registry, invalid_argument, Result, ok, err, ◌>>=◌, ◌>>◌, reject_if, Exec,
}
use canton_evmcrosschain.Exec.{continue}
use canton_evmcrosschain.Dates.{Dates}
use canton_evmcrosschain.Idempotency.Canonical.{Texts, Json, request_fingerprint}
use canton_evmcrosschain.Idempotency.Store.{
  in_progress, IdempotencyRecord, IdempotencyClaim, completed_with, failed_with, Records,
  assert_idempotency_key, claim, finish,
}

pub record BeginInput : Type 0 where
  pub scope : String
  pub key : String
  pub operation_id : String
  pub request : Json

-- The record of a write that begins at the time `at`.
abbrev pub started : {Response : Type 0} → BeginInput → String → String → IdempotencyRecord Response
started input hash at = record {
  scope = input.scope;
  key = input.key;
  request_hash = hash;
  status = in_progress;
  operation_id = input.operation_id;
  response = none;
  error_code = none;
  created_at = at;
  updated_at = at;
}

module _ {Response : Type 0} (dates : Dates) (texts : Texts) where
  -- The checks of `begin`, and the record that it claims at the time `now`.
  unfoldable pub begin_record : BeginInput → ℕ → Result (IdempotencyRecord Response)
  unfolding assert_idempotency_key request_fingerprint
  begin_record input now = do
    assert_idempotency_key input.key
    reject_if (is_blank input.scope) (registry invalid_argument)
    reject_if
        (not (has_prefix "IW:BRIDGE:" input.operation_id) || input.operation_id == "IW:BRIDGE:")
        (registry invalid_argument)
    hash ← request_fingerprint texts input.request
    ok (started input hash (dates.to_iso now))

  unfoldable pub claim_result :
      Result (IdempotencyRecord Response) → Exec (Records Response) (IdempotencyClaim Response)
  claim_result (ok r) table = let (c, table') = claim r table in (ok c, table')
  claim_result (err e) table = (err e, table)

  unfoldable pub begin : BeginInput → ℕ → Exec (Records Response) (IdempotencyClaim Response)
  unfolding begin_record claim_result
  begin input now = claim_result (begin_record input now)

  unfoldable pub complete_claim :
      (Response → Result (Option Response))
      → IdempotencyRecord Response
      → Response
      → ℕ
      → Exec (Records Response) (IdempotencyRecord Response)
  complete_claim through_json r response now =
      finish through_json r.scope r.key r.request_hash (completed_with response) (dates.to_iso now)

  unfoldable pub fail_claim :
      (Response → Result (Option Response))
      → IdempotencyRecord Response
      → String
      → ℕ
      → Exec (Records Response) (IdempotencyRecord Response)
  fail_claim through_json r code now =
      finish_checked (reject_if (is_blank code) (registry invalid_argument))
    where
      finish_checked : Result (Unit {0}) → Exec (Records Response) (IdempotencyRecord Response)
      finish_checked (err e) table = (err e, table)
      finish_checked (ok done) table =
          finish through_json r.scope r.key r.request_hash (failed_with code) (dates.to_iso now)
            table

pub data DestinationEffect : Type 0 where
  mint release payment settlement : DestinationEffect

pub record DestinationExecutionRequest : Type 0 where
  pub operation_id : String
  pub effect : DestinationEffect
  pub payload_hash : String

pub data DestinationOutcome : Type 0 where
  executed already_processed : DestinationOutcome

pub record DestinationExecutionResult : Type 0 where
  pub outcome : DestinationOutcome
  pub operation_id : String
  pub effect : DestinationEffect
  pub transaction_id : Option String

-- `execute` of the facade, over the `executeOnce` of the destination
unfoldable pub execute_protected :
    {W : Type 0}
    → (DestinationExecutionRequest → Exec W DestinationExecutionResult)
    → DestinationExecutionRequest
    → Exec W DestinationExecutionResult
execute_protected execute_once request w =
    continue
      (
        reject_if
            (not (has_prefix "IW:BRIDGE:" request.operation_id) || is_blank request.payload_hash)
            (registry invalid_argument),
        w,
      )
      (λ done. execute_once request)
