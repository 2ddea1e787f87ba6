-- ===== src/Idempotency/Store.antt =====
-- IdempotentWriteCoordinator and PostgresIdempotencyStore of idempotency.ts, over the table of
-- packages/core/sql/002_idempotency.sql. A row lock makes each transaction one step, so the record
-- that an insert has met cannot disappear before it is read. `through_json` is what `JSON.stringify`, a
-- jsonb column and its reading make of a response: a value, none if the member is left out, or what
-- they (or `structuredClone`, which else gives the same value) throw. A record that is claimed has no
-- response yet. The column `updated_at`, which is given what `toISOString` writes and which nothing
-- reads, is left out.
use canton_evmcrosschain.Prelude.{
  ℕ, String, Bool, true, false, not, ◌&&◌, ◌||◌, Option, none, some, List, [], ◌∷◌, ◌++◌, ◌==◌, leb,
  eqb, all, length, codes, find?, is_digit_code, is_upper_code, is_lower_code, if◌then◌else◌,
}
use canton_evmcrosschain.Failures.{
  registry, invalid_argument, conflict, not_found, Result, ok, ◌>>=◌, ◌>>◌, reject_if, require,
  Exec, transaction,
}

pub data IdempotencyStatus : Type 0 where
  in_progress completed failed : IdempotencyStatus

pub record IdempotencyRecord (Response : Type 0) : Type 0 where
  pub scope : String
  pub key : String
  pub request_hash : String
  pub status : IdempotencyStatus
  pub operation_id : String
  pub response : Option Response
  pub error_code : Option String
  pub created_at : String
  pub updated_at : String

pub data ClaimOutcome : Type 0 where
  claimed replay busy refused : ClaimOutcome

pub record IdempotencyClaim (Response : Type 0) : Type 0 where
  pub outcome : ClaimOutcome
  pub claim_record : IdempotencyRecord Response

-- The patch of `#finish`, but for its time.
pub data Patch (Response : Type 0) : Type 0 where
  completed_with : Response → Patch Response
  failed_with : String → Patch Response

abbrev is_letter_or_digit : ℕ → Bool
is_letter_or_digit c = is_upper_code c || is_lower_code c || is_digit_code c

abbrev is_key_char : ℕ → Bool
is_key_char c = is_letter_or_digit c || eqb c 46 || eqb c 95 || eqb c 58 || eqb c 45

-- /^[A-Za-z0-9][A-Za-z0-9._:-]{7,127}$/
unfoldable pub is_idempotency_key : List ℕ → Bool
is_idempotency_key [] = false
is_idempotency_key (c ∷ rest) =
    is_letter_or_digit c && leb 7 (length rest) && leb (length rest) 127 && all is_key_char rest

unfoldable pub assert_idempotency_key : String → Result (Unit {0})
unfolding is_idempotency_key
assert_idempotency_key key =
    reject_if (not (is_idempotency_key (codes key))) (registry invalid_argument)

abbrev pub Records : Type 0 → Type 0
Records Response = List (IdempotencyRecord Response)

abbrev pub is_completed : IdempotencyStatus → Bool
is_completed completed = true
is_completed _ = false

module _ {Response : Type 0} where
  -- WHERE scope=$1 AND key=$2
  abbrev pub is_at : String → String → IdempotencyRecord Response → Bool
  is_at scope key r = r.scope == scope && r.key == key

  unfoldable pub find_record :
      String → String → Records Response → Option (IdempotencyRecord Response)
  find_record scope key table = find? (is_at scope key) table

  -- UPDATE of the row of a scope and key
  unfoldable pub update_record :
      String → String → IdempotencyRecord Response → Records Response → Records Response
  update_record scope key updated [] = []
  update_record scope key updated (r ∷ table) =
      (if is_at scope key r then updated else r) ∷ update_record scope key updated table

  abbrev pub retry_of :
      IdempotencyRecord Response → IdempotencyRecord Response → IdempotencyRecord Response
  retry_of existing r = record existing {
    status = in_progress;
    response = none;
    error_code = none;
    updated_at = r.updated_at;
  }

  abbrev pub claim_of : ClaimOutcome → IdempotencyRecord Response → IdempotencyClaim Response
  claim_of outcome r = record { outcome = outcome; claim_record = r }

  -- What a claim does to a record of the same request.
  unfoldable pub claim_same :
      IdempotencyStatus
      → IdempotencyRecord Response
      → IdempotencyRecord Response
      → Records Response
      → IdempotencyClaim Response × Records Response
  unfolding update_record
  claim_same failed existing r table = (
    claim_of claimed (retry_of existing r),
    update_record r.scope r.key (retry_of existing r) table,
  )
  claim_same completed existing r table = (claim_of replay existing, table)
  claim_same in_progress existing r table = (claim_of busy existing, table)

  unfoldable pub claim_existing :
      IdempotencyRecord Response
      → IdempotencyRecord Response
      → Records Response
      → IdempotencyClaim Response × Records Response
  unfolding claim_same
  claim_existing existing r table =
      if not (existing.request_hash == r.request_hash)
        || not (existing.operation_id == r.operation_id)
      then (claim_of refused existing, table)
      else claim_same existing.status existing r table

  -- `claim`; nothing in it throws.
  unfoldable pub claim :
      IdempotencyRecord Response → Records Response → IdempotencyClaim Response × Records Response
  unfolding find_record claim_existing
  claim r table = elim (find_record r.scope r.key table) [
    | none ↦ (claim_of claimed r, table ++ r ∷ [])
    | some existing ↦ claim_existing existing r table
  ]

  -- `{ ...existing, ...patch }`: an error code or a response that was there stays.
  abbrev pub patched :
      IdempotencyRecord Response → Patch Response → String → IdempotencyRecord Response
  patched existing (completed_with response) at = record existing {
    status = completed;
    response = some response;
    updated_at = at;
  }
  patched existing (failed_with code) at = record existing {
    status = failed;
    error_code = some code;
    updated_at = at;
  }

  abbrev pub as_kept : IdempotencyRecord Response → Option Response → IdempotencyRecord Response
  as_kept r kept = record r { response = kept }

  -- The record as it is written. Of its members, a new response may change on the way.
  unfoldable pub written :
      (Response → Result (Option Response))
      → IdempotencyRecord Response
      → Patch Response
      → String
      → Result (IdempotencyRecord Response)
  written through_json existing (completed_with response) at = do
    kept ← through_json response
    ok (as_kept (patched existing (completed_with response) at) kept)
  written through_json existing (failed_with code) at = ok (patched existing (failed_with code) at)

  -- `#finish` from its check of the status on
  abbrev pub finish_existing :
      (Response → Result (Option Response))
      → String
      → String
      → IdempotencyRecord Response
      → Patch Response
      → String
      → Records Response
      → Result (IdempotencyRecord Response × Records Response)
  finish_existing through_json scope key existing patch at table =
      if is_completed existing.status
      then ok (existing, table)
      else written through_json existing patch at >>= λ row.
          ok (patched existing patch at, update_record scope key row table)

  unfoldable pub finish_body :
      (Response → Result (Option Response))
      → String
      → String
      → String
      → Patch Response
      → String
      → Records Response
      → Result (IdempotencyRecord Response × Records Response)
  unfolding find_record update_record written
  finish_body through_json scope key request_hash patch at table = do
    existing ← require (find_record scope key table) (registry not_found)
    reject_if (not (existing.request_hash == request_hash)) (registry conflict)
    finish_existing through_json scope key existing patch at table

  -- `#finish`, and so `complete` and `fail` of the store
  unfoldable pub finish :
      (Response → Result (Option Response))
      → String
      → String
      → String
      → Patch Response
      → String
      → Exec (Records Response) (IdempotencyRecord Response)
  unfolding finish_body
  finish through_json scope key request_hash patch at table =
      transaction (finish_body through_json scope key request_hash patch at) table
