-- ===== src/Idempotency/Held.antt =====
-- A record that is not failed outlives the claims of idempotency.ts.
use canton_evmcrosschain.Prelude.{
  String, ◌≡◌, ◌≢◌, refl, ◌∙◌, false, not, ◌&&◌, ◌||◌, none, some, [], ◌∷◌, ◌++◌, ◌==◌, eq_iff,
  arith, Bool-cases, Option-cases, inl, inr,
}
use canton_evmcrosschain.Idempotency.Store.{
  IdempotencyStatus, in_progress, completed, failed, IdempotencyRecord, claimed, Records, is_at,
  find_record, update_record, retry_of, claim_of, claim_same, claim_existing, claim,
}

module _ {Response : Type 0} where
  find_record-append :
      (scope key : String) (table : Records Response) (r existing : IdempotencyRecord Response)
      → find_record scope key table ≡ some existing
      → find_record scope key (table ++ r ∷ []) ≡ some existing
  unfolding find_record
  find_record-append scope key [] r existing h = cc
  find_record-append scope key (x ∷ table) r existing h =
      ground (arith, find_record-append scope key table r existing)

  -- An update of another scope or key leaves a record alone.
  find_record-update :
      (scope key s k : String) (table : Records Response) (u : IdempotencyRecord Response)
      → u.scope ≡ s
      → u.key ≡ k
      → (scope == s && key == k) ≡ false
      → find_record scope key (update_record s k u table) ≡ find_record scope key table
  unfolding find_record update_record
  find_record-update scope key s k [] u a b other = refl
  find_record-update scope key s k (x ∷ table) u a b other = ground (
    arith,
    find_record-update scope key s k table u a b other,
    eq_iff x.scope scope,
    eq_iff x.key key,
    eq_iff x.scope s,
    eq_iff x.key k,
    eq_iff scope s,
    eq_iff key k,
    eq_iff u.scope scope,
    eq_iff u.key key,
  )

  pub find_record-at :
      (scope key : String) (table : Records Response) (r : IdempotencyRecord Response)
      → find_record scope key table ≡ some r
      → (r.scope ≡ scope) × (r.key ≡ key)
  unfolding find_record
  find_record-at scope key [] r h = cc
  find_record-at scope key (x ∷ table) r h = elim (Bool-cases (is_at scope key x)) [
    | inl here ↦
        let same : x ≡ r = ground arith in
        rw (← same) (ground (arith, eq_iff x.scope scope), ground (arith, eq_iff x.key key))
    | inr there ↦ find_record-at scope key table r (ground arith)
  ]

  -- The record of a scope and key, which has the status.
  pub record IsHeld (status : IdempotencyStatus) (scope key : String)
      (r : IdempotencyRecord Response) (table : Records Response) : Type 0 where
    pub found : find_record scope key table ≡ some r
    pub done : r.status ≡ status

  -- An update of a record with another status.
  pub update-IsHeld :
      (held : IdempotencyStatus) (scope key s k : String) (r other u : IdempotencyRecord Response)
      (table : Records Response)
      → IsHeld held scope key r table
      → find_record s k table ≡ some other
      → other.status ≢ held
      → u.scope ≡ other.scope
      → u.key ≡ other.key
      → IsHeld held scope key r (update_record s k u table)
  update-IsHeld held scope key s k r other u table d found going us uk =
      elim (Bool-cases (scope == s && key == k)) [
        | inl same ↦
            let a : scope ≡ s = ground (arith, eq_iff scope s) in
            let b : key ≡ k = ground (arith, eq_iff key k) in
            let one : r ≡ other = cc (d.found, found, a, b) in absurd (going (cc (one, d.done)))
        | inr apart ↦
            let (at_s, at_k) = find_record-at s k table other found in
            record {
              found =
                  find_record-update scope key s k table u (us ∙ at_s) (uk ∙ at_k) apart ∙ d.found;
              done = d.done;
            }
      ]

  pub claim_new :
      (r : IdempotencyRecord Response) (table : Records Response)
      → find_record r.scope r.key table ≡ none
      → claim r table ≡ (claim_of claimed r, table ++ r ∷ [])
  unfolding claim
  claim_new r table new = rw (claim, new) refl

  pub claim_found :
      (r existing : IdempotencyRecord Response) (table : Records Response)
      → find_record r.scope r.key table ≡ some existing
      → claim r table ≡ claim_existing existing r table
  unfolding claim
  claim_found r existing table found = rw (claim, found) refl

  claim_same-IsHeld :
      (held status : IdempotencyStatus) (scope key : String)
      (r x existing : IdempotencyRecord Response) (table : Records Response)
      → existing.status ≡ status
      → find_record x.scope x.key table ≡ some existing
      → held ≢ failed
      → IsHeld held scope key r table
      → IsHeld held scope key r (claim_same status existing x table).1
  unfolding claim_same
  claim_same-IsHeld held completed scope key r x existing table e found n d = d
  claim_same-IsHeld held in_progress scope key r x existing table e found n d = d
  claim_same-IsHeld held failed scope key r x existing table e found n d =
      update-IsHeld held scope key x.scope x.key r existing (retry_of existing x) table d found
        (λ same. n (cc (e, same))) refl refl

  claim_existing-IsHeld :
      (held : IdempotencyStatus) (scope key : String) (r x existing : IdempotencyRecord Response)
      (table : Records Response)
      → find_record x.scope x.key table ≡ some existing
      → held ≢ failed
      → IsHeld held scope key r table
      → IsHeld held scope key r (claim_existing existing x table).1
  unfolding claim_existing
  claim_existing-IsHeld held scope key r x existing table found n d =
      elim (Bool-cases (
        not (existing.request_hash == x.request_hash)
        || not (existing.operation_id == x.operation_id))) [
          | inl differs ↦ rw (differs, claim_existing) d
          | inr agrees ↦
              rw (agrees, claim_existing)
                (claim_same-IsHeld held existing.status scope key r x existing table refl found n d)
        ]

  pub claim-IsHeld :
      (held : IdempotencyStatus) (scope key : String) (r x : IdempotencyRecord Response)
      (table : Records Response)
      → held ≢ failed
      → IsHeld held scope key r table
      → IsHeld held scope key r (claim x table).1
  claim-IsHeld held scope key r x table n d =
      elim (Option-cases (find_record x.scope x.key table)) [
        | inl new ↦
            rw (claim_new x table new)
              (record { found = find_record-append scope key table x r d.found; done = d.done })
        | inr (existing, found) ↦
            rw (claim_found x existing table found)
              (claim_existing-IsHeld held scope key r x existing table found n d)
      ]
