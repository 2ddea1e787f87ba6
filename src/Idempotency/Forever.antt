-- ===== src/Idempotency/Forever.antt =====
-- What is completed stays completed, and a claim of the same request replays it.
use canton_evmcrosschain.Prelude.{
  String, Option, sym, false, ◌∙◌, ◌≡◌, ◌≢◌, refl, subst, ap, not, ◌&&◌, some, List, [], ◌∷◌, ◌==◌,
  if◌then◌else◌, arith, Bool-cases, inl, inr,
}
use canton_evmcrosschain.Failures.{
  registry, conflict, not_found, ok, Result, ◌>>=◌, >>=-eq-ok, reject_if, require, require-eq-ok,
  transaction_keeps,
}
use canton_evmcrosschain.Idempotency.Store.{
  in_progress, completed, IdempotencyRecord, claimed, replay, refused, IdempotencyClaim, Patch,
  completed_with, failed_with, Records, find_record, update_record, claim_of, claim_same,
  claim_existing, claim, patched, as_kept, written, finish_existing, is_completed, finish_body,
  finish,
}
use canton_evmcrosschain.Idempotency.Held.{IsHeld, update-IsHeld, claim_found, claim-IsHeld}

-- A call of the store.
pub data Call (Response : Type 0) : Type 0 where
  claim_call : IdempotencyRecord Response → Call Response
  finish_call : String → String → String → Patch Response → String → Call Response

module _ {Response : Type 0} where
  unfoldable pub call :
      (Response → Result (Option Response)) → Call Response → Records Response → Records Response
  call through_json (claim_call r) table = (claim r table).1
  call through_json (finish_call scope key request_hash patch at) table =
      (finish through_json scope key request_hash patch at table).1

  unfoldable pub run_calls :
      (Response → Result (Option Response))
      → List (Call Response)
      → Records Response
      → Records Response
  run_calls through_json [] table = table
  run_calls through_json (c ∷ calls) table =
      run_calls through_json calls (call through_json c table)

  -- The record that is written stands at the same place.
  written-place :
      (through_json : Response → Result (Option Response)) (existing r : IdempotencyRecord Response)
      (patch : Patch Response) (at : String)
      → written through_json existing patch at ≡ ok r
      → (r.scope ≡ existing.scope) × (r.key ≡ existing.key)
  unfolding written
  written-place through_json existing r (completed_with response) at h =
      let (kept, converted, done) = >>=-eq-ok (through_json response) _ h in
      let same : as_kept (patched existing (completed_with response) at) kept ≡ r =
        ground (arith, done) in
      (
        ap (λ (x : IdempotencyRecord Response). x.scope) (sym same),
        ap (λ (x : IdempotencyRecord Response). x.key) (sym same),
      )
  written-place through_json existing r (failed_with code) at h =
      let same : patched existing (failed_with code) at ≡ r = ground (arith, h) in
      (
        ap (λ (x : IdempotencyRecord Response). x.scope) (sym same),
        ap (λ (x : IdempotencyRecord Response). x.key) (sym same),
      )

  finish_existing-going :
      (through_json : Response → Result (Option Response)) (s k at : String)
      (existing : IdempotencyRecord Response) (patch : Patch Response) (table : Records Response)
      → is_completed existing.status ≡ false
      → finish_existing through_json s k existing patch at table ≡ (
          written through_json existing patch at >>= λ row.
          ok (patched existing patch at, update_record s k row table))
  finish_existing-going through_json s k at existing patch table going = rw going refl

  -- What `finish` does when it returns.
  finish_body-IsHeld :
      (through_json : Response → Result (Option Response)) (scope key s k hash at : String)
      (patch : Patch Response) (r answer : IdempotencyRecord Response)
      (table table' : Records Response)
      → finish_body through_json s k hash patch at table ≡ ok (answer, table')
      → IsHeld completed scope key r table
      → IsHeld completed scope key r table'
  unfolding finish_body
  finish_body-IsHeld through_json scope key s k hash at patch r answer table table' h d =
      let (existing, there, rest) =
        >>=-eq-ok (require (find_record s k table) (registry not_found)) _ h in
      let (u, checked, last) =
        >>=-eq-ok (reject_if (not (existing.request_hash == hash)) (registry conflict)) _ rest in
      elim (Bool-cases (is_completed existing.status)) [
        | inl over ↦
            let same : table ≡ table' = ground arith in subst (IsHeld completed scope key r) same d
        | inr going ↦
            let found : find_record s k table ≡ some existing =
              require-eq-ok (find_record s k table) (registry not_found) existing there in
            let writes : (written through_json existing patch at >>= λ row.
            ok (patched existing patch at, update_record s k row table))
                ≡ ok (answer, table') =
              sym (finish_existing-going through_json s k at existing patch table going) ∙ last in
            let (row, wrote, done) = >>=-eq-ok (written through_json existing patch at) _ writes in
            let same : update_record s k row table ≡ table' = ground (arith, done) in
            let (same_scope, same_key) = written-place through_json existing row patch at wrote in
            subst (IsHeld completed scope key r) same (
              update-IsHeld completed scope key s k r existing row table d found
                (λ over. cc (ap is_completed over, going)) same_scope same_key)
      ]

  finish-IsHeld :
      (through_json : Response → Result (Option Response)) (scope key s k hash at : String)
      (patch : Patch Response) (r : IdempotencyRecord Response) (table : Records Response)
      → IsHeld completed scope key r table
      → IsHeld completed scope key r (finish through_json s k hash patch at table).1
  unfolding finish
  finish-IsHeld through_json scope key s k hash at patch r table d =
      transaction_keeps (IsHeld completed scope key r) (finish_body through_json s k hash patch at)
        table
        (λ answer table' h.
          finish_body-IsHeld through_json scope key s k hash at patch r answer table table' h d)
        d

  run_calls-IsHeld :
      (through_json : Response → Result (Option Response)) (scope key : String)
      (r : IdempotencyRecord Response) (calls : List (Call Response)) (table : Records Response)
      → IsHeld completed scope key r table
      → IsHeld completed scope key r (run_calls through_json calls table)
  unfolding run_calls call
  run_calls-IsHeld through_json scope key r [] table d = d
  run_calls-IsHeld through_json scope key r (claim_call x ∷ calls) table d =
      run_calls-IsHeld through_json scope key r calls (claim x table).1
        (claim-IsHeld completed scope key r x table (λ e. cc e) d)
  run_calls-IsHeld through_json scope key r (finish_call s k hash patch at ∷ calls) table d =
      run_calls-IsHeld through_json scope key r calls
        (finish through_json s k hash patch at table).1
        (finish-IsHeld through_json scope key s k hash at patch r table d)

  -- The claim of a request on a completed record.
  abbrev pub replayed :
      IdempotencyRecord Response → IdempotencyRecord Response → IdempotencyClaim Response
  replayed r x =
      claim_of
        (if r.request_hash == x.request_hash && r.operation_id == x.operation_id
          then replay
          else refused)
        r

  claim-done :
      (r x : IdempotencyRecord Response) (table : Records Response)
      → IsHeld completed x.scope x.key r table
      → claim x table ≡ (replayed r x, table)
  unfolding claim_existing claim_same
  claim-done r x table d = rw (claim_found x r table d.found, d.done) (ground (arith, d.done))

  -- Once the record of a scope and key is completed, no series of calls changes it: afterwards a
  -- claim of that scope and key is answered with the record as it was and changes nothing. It is a
  -- replay for the same request hash and operation, and a conflict otherwise.
  pub run_calls-replays :
      (through_json : Response → Result (Option Response)) (r x : IdempotencyRecord Response)
      (calls : List (Call Response)) (table : Records Response)
      → IsHeld completed x.scope x.key r table
      → claim x (run_calls through_json calls table)
        ≡ (replayed r x, run_calls through_json calls table)
  run_calls-replays through_json r x calls table d =
      claim-done r x (run_calls through_json calls table)
        (run_calls-IsHeld through_json x.scope x.key r calls table d)

  -- The table after a series of claims.
  unfoldable pub run_claims :
      List (IdempotencyRecord Response) → Records Response → Records Response
  run_claims [] table = table
  run_claims (x ∷ claims) table = run_claims claims (claim x table).1

  run_claims-IsHeld :
      (scope key : String) (r : IdempotencyRecord Response)
      (claims : List (IdempotencyRecord Response)) (table : Records Response)
      → IsHeld in_progress scope key r table
      → IsHeld in_progress scope key r (run_claims claims table)
  unfolding run_claims
  run_claims-IsHeld scope key r [] table d = d
  run_claims-IsHeld scope key r (x ∷ claims) table d =
      run_claims-IsHeld scope key r claims (claim x table).1
        (claim-IsHeld in_progress scope key r x table (λ e. cc e) d)

  claim-busy :
      (r x : IdempotencyRecord Response) (table : Records Response)
      → IsHeld in_progress x.scope x.key r table
      → (claim x table).0.outcome ≢ claimed
  unfolding claim_existing claim_same
  claim-busy r x table d = rw (claim_found x r table d.found, d.done) (ground (arith, d.done))

  -- While the record of a scope and key is in progress, no claim on it is granted, whatever claims
  -- are made before.
  pub run_claims-claimed :
      (r x : IdempotencyRecord Response) (claims : List (IdempotencyRecord Response))
      (table : Records Response)
      → IsHeld in_progress x.scope x.key r table
      → (claim x (run_claims claims table)).0.outcome ≢ claimed
  run_claims-claimed r x claims table d =
      claim-busy r x (run_claims claims table) (run_claims-IsHeld x.scope x.key r claims table d)
