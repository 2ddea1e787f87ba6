-- ===== src/Idempotency/Tests.antt =====
-- A key that is claimed, completed and claimed again, and the theorems at it.
use canton_evmcrosschain.Prelude.{
  String, Option, ◌==◌, if◌then◌else◌, ◌≡◌, ◌≢◌, refl, false, concat, has_prefix, is_blank, none,
  some, List, [], ◌∷◌,
}
use canton_evmcrosschain.Failures.{Result, ok}
use canton_evmcrosschain.Idempotency.Store.{
  in_progress, completed, IdempotencyRecord, claimed, replay, IdempotencyClaim, claim_of, patched,
  completed_with, failed_with, Records, find_record, update_record, claim_same, claim_existing,
  claim, as_kept, written, finish_body, finish, assert_idempotency_key, is_idempotency_key,
}
use canton_evmcrosschain.Samples.{numbered}
use canton_evmcrosschain.Idempotency.Canonical.{
  Texts, string, object, member, no_members, canonical_json, request_fingerprint,
}
use canton_evmcrosschain.Idempotency.Writes.{BeginInput, started, begin_record, claim_result, begin}
use canton_evmcrosschain.Idempotency.RoundTrip.{later, begin-replays}
use canton_evmcrosschain.Idempotency.Held.{IsHeld}
use canton_evmcrosschain.Idempotency.Forever.{
  Call, claim_call, finish_call, run_calls, call, replayed, run_calls-replays, run_claims,
  run_claims-claimed,
}

-- A response that is `undefined` would be left out; no other text changes.
abbrev through_json : String → Result (Option String)
through_json s = ok (if s == "undefined" then none else some s)

abbrev request : String → IdempotencyRecord String
request hash = record {
  scope = "tenant";
  key = "key-0001";
  request_hash = hash;
  status = in_progress;
  operation_id = "IW:BRIDGE:1";
  response = none;
  error_code = none;
  created_at = "100";
  updated_at = "100";
}

-- Opens the store for a test.
machine : Unit {0}
unfolding find_record update_record claim_same claim_existing claim finish_body finish written
    run_calls call run_claims assert_idempotency_key is_idempotency_key
machine = tt

abbrev one_claim : Records String
one_claim = (claim (request "hash-1") []).1

abbrev one_completion : Records String
one_completion =
    (finish through_json "tenant" "key-0001" "hash-1" (completed_with "done") "120" one_claim).1

abbrev completed_record : IdempotencyRecord String
completed_record = record (request "hash-1") {
  status = completed;
  response = some "done";
  updated_at = "120";
}

accepts_key : assert_idempotency_key "key-0001" ≡ ok tt
unfolding machine
accepts_key = refl

one_claim-IsHeld : IsHeld in_progress "tenant" "key-0001" (request "hash-1") one_claim
unfolding machine
one_claim-IsHeld = record { found = refl; done = refl }

one_completion-IsHeld : IsHeld completed "tenant" "key-0001" completed_record one_completion
unfolding machine
one_completion-IsHeld = record { found = refl; done = refl }

-- Calls that would change the record, were it not completed.
abbrev later_calls : List (Call String)
later_calls =
    finish_call "tenant" "key-0001" "hash-1" (failed_with "TIMEOUT") "130"
    ∷ claim_call (request "hash-2")
    ∷ claim_call (record (request "hash-1") { key = "key-0002" })
    ∷ []

run_calls-replays_example :
    claim (request "hash-1") (run_calls through_json later_calls one_completion) ≡ (
      replayed completed_record (request "hash-1"),
      run_calls through_json later_calls one_completion,
    )
run_calls-replays_example =
    run_calls-replays through_json completed_record (request "hash-1") later_calls one_completion
      one_completion-IsHeld

run_claims-claimed_example :
    (claim
      (request "hash-1")
      (run_claims (request "hash-2" ∷ request "hash-1" ∷ []) one_claim)).0.outcome
    ≢ claimed
run_claims-claimed_example =
    run_claims-claimed (request "hash-1") (request "hash-1")
      (request "hash-2" ∷ request "hash-1" ∷ []) one_claim one_claim-IsHeld

abbrev texts : Texts
texts = record { quote = λ s. s; before = λ a b. false; sha256 = λ s. s }

abbrev write : BeginInput
write = record {
  scope = "tenant";
  key = "key-0001";
  operation_id = "IW:BRIDGE:1";
  request = object (member "amount" (string "250") no_members);
}

abbrev granted : IdempotencyClaim String
granted = claim_of claimed (started write "sha256:{amount:250}" "0")

begins : begin numbered texts write 100 [] ≡ (ok granted, granted.claim_record ∷ [])
unfolding machine begin begin_record claim_result claim request_fingerprint canonical_json concat
    has_prefix is_blank
begins = refl

begin-replays_example :
    begin numbered texts write 140 (
      later numbered texts through_json granted.claim_record "done" 120 later_calls
        (granted.claim_record ∷ []))
    ≡ (
      ok (
          claim_of replay
            (as_kept (patched granted.claim_record (completed_with "done") "0") (some "done"))),
      later numbered texts through_json granted.claim_record "done" 120 later_calls
          (granted.claim_record ∷ []),
    )
begin-replays_example =
    begin-replays numbered texts through_json write 100 120 140 "done" (some "done") []
      (granted.claim_record ∷ []) granted later_calls begins refl refl
