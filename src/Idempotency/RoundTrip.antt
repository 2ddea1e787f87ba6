-- ===== src/Idempotency/RoundTrip.antt =====
-- What a write of idempotency.ts has completed is what a repeated request is answered with.
use canton_evmcrosschain.Prelude.{
  ℕ, String, ◌≡◌, refl, sym, ap, subst, ◌∙◌, false, not, ◌||◌, Option, none, some, List, [], ◌∷◌,
  ◌++◌, ◌==◌, eq_iff, arith, Bool-cases, Option-cases, inl, inr, is_blank, has_prefix,
}
use canton_evmcrosschain.Failures.{
  registry, invalid_argument, Result, ok, err, >>=-eq-ok, reject_if,
}
use canton_evmcrosschain.Dates.{Dates}
use canton_evmcrosschain.Idempotency.Canonical.{Texts, request_fingerprint}
use canton_evmcrosschain.Idempotency.Store.{
  IdempotencyStatus, in_progress, completed, failed, IdempotencyRecord, claimed, replay, refused,
  IdempotencyClaim, completed_with, Records, find_record, update_record, retry_of, claim_of,
  claim_same, claim_existing, claim, patched, as_kept, written, is_completed, finish_body, finish,
  assert_idempotency_key,
}
use canton_evmcrosschain.Idempotency.Held.{IsHeld, claim_found, claim_new, find_record-at}
use canton_evmcrosschain.Idempotency.Forever.{Call, run_calls, run_calls-replays}
use canton_evmcrosschain.Idempotency.Writes.{
  BeginInput, begin_record, claim_result, begin, complete_claim, started,
}

module _ {Response : Type 0} where
  find_record-new :
      (x : IdempotencyRecord Response) (table : Records Response)
      → find_record x.scope x.key table ≡ none
      → find_record x.scope x.key (table ++ x ∷ []) ≡ some x
  unfolding find_record
  find_record-new x [] h = ground (arith, eq_iff x.scope x.scope, eq_iff x.key x.key)
  find_record-new x (y ∷ table) h = ground (arith, find_record-new x table)

  find_record-update_self :
      (scope key : String) (table : Records Response) (u existing : IdempotencyRecord Response)
      → u.scope ≡ scope
      → u.key ≡ key
      → find_record scope key table ≡ some existing
      → find_record scope key (update_record scope key u table) ≡ some u
  unfolding find_record update_record
  find_record-update_self scope key [] u existing a b h = cc
  find_record-update_self scope key (y ∷ table) u existing a b h = ground (
    arith,
    find_record-update_self scope key table u existing a b,
    eq_iff u.scope scope,
    eq_iff u.key key,
  )

  -- What a granted claim leaves: its record, in progress, for the request.
  record IsGranted (x r : IdempotencyRecord Response) (table : Records Response) : Type 0 where
    held : IsHeld in_progress x.scope x.key r table
    same_scope : r.scope ≡ x.scope
    same_key : r.key ≡ x.key
    same_hash : r.request_hash ≡ x.request_hash
    same_operation : r.operation_id ≡ x.operation_id

  claim_same-IsGranted :
      (status : IdempotencyStatus) (existing x : IdempotencyRecord Response)
      (table : Records Response)
      → find_record x.scope x.key table ≡ some existing
      → existing.request_hash ≡ x.request_hash
      → existing.operation_id ≡ x.operation_id
      → (claim_same status existing x table).0.outcome ≡ claimed
      → IsGranted x
          (claim_same status existing x table).0.claim_record
          (claim_same status existing x table).1
  unfolding claim_same
  claim_same-IsGranted failed existing x table found hash operation h =
      let (s, k) = find_record-at x.scope x.key table existing found in
      record {
        held = record {
          found =
              find_record-update_self x.scope x.key table (retry_of existing x) existing s k found;
          done = refl;
        };
        same_scope = s;
        same_key = k;
        same_hash = hash;
        same_operation = operation;
      }
  claim_same-IsGranted completed existing x table found hash operation h = cc h
  claim_same-IsGranted in_progress existing x table found hash operation h = cc h

  claim_existing-IsGranted :
      (existing x : IdempotencyRecord Response) (table : Records Response)
      → find_record x.scope x.key table ≡ some existing
      → (claim_existing existing x table).0.outcome ≡ claimed
      → IsGranted x
          (claim_existing existing x table).0.claim_record
          (claim_existing existing x table).1
  unfolding claim_existing
  claim_existing-IsGranted existing x table found h =
      elim (Bool-cases (
        not (existing.request_hash == x.request_hash)
        || not (existing.operation_id == x.operation_id))) [
          | inl differs ↦
              let refusal : (claim_existing existing x table).0.outcome ≡ refused =
                rw (differs, claim_existing) refl in
              cc (refusal, h)
          | inr agrees ↦
              let hash = (eq_iff existing.request_hash x.request_hash).0 (ground arith) in
              let operation = (eq_iff existing.operation_id x.operation_id).0 (ground arith) in
              let same : claim_existing existing x table
                  ≡ claim_same existing.status existing x table =
                rw (agrees, claim_existing) refl in
              rw same (
                claim_same-IsGranted existing.status existing x table found hash operation (
                  subst
                    (λ (q : IdempotencyClaim Response × Records Response). q.0.outcome ≡ claimed)
                    same h))
        ]

  claim-IsGranted :
      (x : IdempotencyRecord Response) (table : Records Response)
      → x.status ≡ in_progress
      → (claim x table).0.outcome ≡ claimed
      → IsGranted x (claim x table).0.claim_record (claim x table).1
  claim-IsGranted x table p h = elim (Option-cases (find_record x.scope x.key table)) [
    | inl new ↦ rw (claim_new x table new) (record {
      held = record { found = find_record-new x table new; done = p };
      same_scope = refl;
      same_key = refl;
      same_hash = refl;
      same_operation = refl;
    })
    | inr (existing, found) ↦
        let c = claim_found x existing table found in
        rw c (
          claim_existing-IsGranted existing x table found (
            subst (λ (q : IdempotencyClaim Response × Records Response). q.0.outcome ≡ claimed) c
              h))
  ]

  -- A granted claim is completed.
  complete-IsHeld :
      (dates : Dates) (texts : Texts) (through_json : Response → Result (Option Response))
      (x r : IdempotencyRecord Response) (response : Response) (kept : Option Response) (now : ℕ)
      (table : Records Response)
      → through_json response ≡ ok kept
      → IsGranted x r table
      → IsHeld completed x.scope x.key
          (as_kept (patched r (completed_with response) (dates.to_iso now)) kept)
          (complete_claim dates texts through_json r response now table).1
  unfolding complete_claim finish finish_body written
  complete-IsHeld dates texts through_json x r response kept now table converted g =
      let u = as_kept (patched r (completed_with response) (dates.to_iso now)) kept in
      let found : find_record r.scope r.key table ≡ some r =
        subst (λ s. find_record s r.key table ≡ some r) (sym g.same_scope)
          (subst (λ k. find_record x.scope k table ≡ some r) (sym g.same_key) g.held.found) in
      let written : find_record x.scope x.key (update_record r.scope r.key u table) ≡ some u =
        subst (λ s. find_record x.scope x.key (update_record s r.key u table) ≡ some u)
          (sym g.same_scope)
          (subst (λ k. find_record x.scope x.key (update_record x.scope k u table) ≡ some u)
            (sym g.same_key)
            (find_record-update_self x.scope x.key table u r g.same_scope g.same_key
              g.held.found)) in
      let status : is_completed r.status ≡ false = rw (g.held.done) refl in
      rw (found, (eq_iff r.request_hash r.request_hash).1 refl, status, converted)
        (record { found = written; done = refl })

  -- The checks of `begin` and the fingerprint do not depend on the time.
  begin_record_again :
      (dates : Dates) (texts : Texts) (input : BeginInput) (t t' : ℕ)
      (x : IdempotencyRecord Response)
      → begin_record dates texts input t ≡ ok x
      → (hash : String) × (started input hash (dates.to_iso t) ≡ x)
        × (begin_record {Response = Response} dates texts input t'
            ≡ ok (started input hash (dates.to_iso t')))
  unfolding begin_record
  begin_record_again dates texts input t t' x h =
      let (u, key, rest) = >>=-eq-ok (assert_idempotency_key input.key) _ h in
      let (v, scope, rest') =
        >>=-eq-ok (reject_if (is_blank input.scope) (registry invalid_argument)) _ rest in
      let (w, id, last) =
        >>=-eq-ok
          (reject_if
            (not (has_prefix "IW:BRIDGE:" input.operation_id) || input.operation_id == "IW:BRIDGE:")
            (registry invalid_argument))
          _ rest' in
      let (hash, printed, done) = >>=-eq-ok (request_fingerprint texts input.request) _ last in
      (hash, cc done, rw (key, scope, id, printed) refl)

  -- The table after a completion and further calls.
  abbrev pub later :
      Dates
      → Texts
      → (Response → Result (Option Response))
      → IdempotencyRecord Response
      → Response
      → ℕ
      → List (Call Response)
      → Records Response
      → Records Response
  later dates texts through_json r response t calls table =
      run_calls through_json calls (complete_claim dates texts through_json r response t table).1

  claimed_again :
      (dates : Dates) (texts : Texts) (through_json : Response → Result (Option Response))
      (input : BeginInput) (hash at : String) (t t' : ℕ) (response : Response)
      (kept : Option Response) (table : Records Response) (calls : List (Call Response))
      (r : IdempotencyRecord Response)
      → through_json response ≡ ok kept
      → IsGranted (started input hash at) r table
      → claim
          (started input hash (dates.to_iso t'))
          (later dates texts through_json r response t calls table)
        ≡ (
          claim_of replay (as_kept (patched r (completed_with response) (dates.to_iso t)) kept),
          later dates texts through_json r response t calls table,
        )
  claimed_again dates texts through_json input hash at t t' response kept table calls r converted
        g =
      let u = as_kept (patched r (completed_with response) (dates.to_iso t)) kept in
      let y : IdempotencyRecord Response = started input hash (dates.to_iso t') in
      let table' = (complete_claim dates texts through_json r response t table).1 in
      let done =
        complete-IsHeld dates texts through_json (started input hash at) r response kept t table
          converted g in
      let same_hash = (eq_iff r.request_hash hash).1 g.same_hash in
      let same_operation = (eq_iff r.operation_id input.operation_id).1 g.same_operation in
      run_calls-replays through_json u y calls table' done ∙ rw (same_hash, same_operation) refl

  claim_result-eq-ok :
      (dates : Dates) (texts : Texts) (q : Result (IdempotencyRecord Response))
      (table table' : Records Response) (c : IdempotencyClaim Response)
      → claim_result dates texts q table ≡ (ok c, table')
      → (x : IdempotencyRecord Response) × (q ≡ ok x) × (claim x table ≡ (c, table'))
  unfolding claim_result
  claim_result-eq-ok dates texts (ok x) table table' c h = (x, refl, ground arith)
  claim_result-eq-ok dates texts (err e) table table' c h = ground arith

  -- If `begin` is granted a claim and the claim is completed with a response that can be written, then
  -- after any further calls of the store `begin` with the same input, at any time, is answered with a
  -- replay of the claimed record with that response as JSON keeps it, and changes nothing.
  pub begin-replays :
      (dates : Dates) (texts : Texts) (through_json : Response → Result (Option Response))
      (input : BeginInput) (t t' t'' : ℕ) (response : Response) (kept : Option Response)
      (table table' : Records Response) (c : IdempotencyClaim Response)
      (calls : List (Call Response))
      → begin dates texts input t table ≡ (ok c, table')
      → c.outcome ≡ claimed
      → through_json response ≡ ok kept
      → begin dates texts input t''
          (later dates texts through_json c.claim_record response t' calls table')
        ≡ (
          ok (
              claim_of replay (
                as_kept (patched c.claim_record (completed_with response) (dates.to_iso t')) kept)),
          later dates texts through_json c.claim_record response t' calls table',
        )
  unfolding begin claim_result
  begin-replays dates texts through_json input t t' t'' response kept table table' c calls h g
        converted =
      let (x, made, claims) =
        claim_result-eq-ok dates texts (begin_record dates texts input t) table table' c h in
      let (hash, start, again) = begin_record_again dates texts input t t'' x made in
      let s : IdempotencyRecord Response = started input hash (dates.to_iso t) in
      let same : claim s table ≡ (c, table') =
        subst (λ (y : IdempotencyRecord Response). claim y table ≡ (c, table')) (sym start)
          claims in
      let granted : IsGranted s c.claim_record table' =
        subst
          (λ (q : IdempotencyClaim Response × Records Response). IsGranted s q.0.claim_record q.1)
          same
          (claim-IsGranted s table refl (
            subst (λ (q : IdempotencyClaim Response × Records Response). q.0.outcome ≡ claimed)
              (sym same) g)) in
      rw again (
        ap (λ (q : IdempotencyClaim Response × Records Response). (ok q.0, q.1))
          (claimed_again dates texts through_json input hash (dates.to_iso t) t' t'' response kept
            table' calls c.claim_record converted granted))
