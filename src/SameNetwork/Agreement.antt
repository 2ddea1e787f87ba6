-- ===== src/SameNetwork/Agreement.antt =====
-- What the records of same-network-settlement.ts say of their results, and that a final record stays.
use canton_evmcrosschain.Prelude.{
  String, Bool, is_blank, ◌≡◌, refl, ap, subst, ◌∙◌, true, false, not, Option, none, some, List,
  ◌==◌, eq_iff, arith, is_some, Bool-cases, Option-cases, inl, inr,
}
use canton_evmcrosschain.Failures.{
  registry, conflict, ok, >>=-eq-ok, reject_if, require, require-eq-ok, transaction_keeps,
}
use canton_evmcrosschain.Served.{Served}
use canton_evmcrosschain.Dict
use canton_evmcrosschain.Dates.{Dates}
use canton_evmcrosschain.SameNetwork.Settlement.{
  SameNetworkSettlementRequest, NativeAtomicSettlementResult, committed, already_committed,
  rejected, uncertain, SameNetworkSettlementStatus, completed, failed, manual_review, incomplete,
  check, in_progress, SameNetworkSettlementRecord, assert_result, status_of, is_in_progress,
}
use canton_evmcrosschain.SameNetwork.Store.{
  Settlements, claimed_record, claim, finished, finish_body, finish,
}
use canton_evmcrosschain.SameNetwork.Service.{Services}
use canton_evmcrosschain.SameNetwork.Kept.{IsKept, executes, executes-Keeps}

-- What a call of `finish` that writes has met.
record Finished (id hash : String) (table : Settlements) (existing : SameNetworkSettlementRecord)
    : Type 0 where
  found : Dict.lookup id table ≡ some existing
  same_hash : existing.request_hash ≡ hash
  going : existing.status ≡ in_progress

in_progress_only : (s : SameNetworkSettlementStatus) → is_in_progress s ≡ true → s ≡ in_progress
in_progress_only in_progress h = refl
in_progress_only _ h = cc

-- `finish` leaves the table alone, or finishes a record that is in progress.
finish_table :
    (P : Settlements → Type 0) (id hash at : String) (status : SameNetworkSettlementStatus)
    (result : NativeAtomicSettlementResult) (table : Settlements)
    → P table
    → ((existing : SameNetworkSettlementRecord)
        → Finished id hash table existing
        → P (Dict.insert id (finished existing status result at) table))
    → P (finish id hash status result at table).1
unfolding finish finish_body
finish_table P id hash at status result table same written =
    transaction_keeps P (finish_body id hash status result at) table
      (λ r table' h.
        let (existing, there, rest) =
          >>=-eq-ok (require (Dict.lookup id table) (registry conflict)) _ h in
        let (u, checked, last) =
          >>=-eq-ok (reject_if (not (existing.request_hash == hash)) (registry conflict)) _ rest in
        elim (Bool-cases (is_in_progress existing.status)) [
          | inl going ↦
              let done : Dict.insert id (finished existing status result at) table ≡ table' =
                ground arith in
              subst P done (
                written existing (record {
                  found = require-eq-ok (Dict.lookup id table) (registry conflict) existing there;
                  same_hash = (eq_iff existing.request_hash hash).0 (ground arith);
                  going = in_progress_only existing.status going;
                }))
          | inr over ↦ let done : table ≡ table' = ground arith in subst P done same
        ])
      same

-- `claim` leaves the table alone, or adds a record that is in progress.
claim_table :
    (P : Settlements → Type 0) (request : SameNetworkSettlementRequest) (hash at : String)
    (table : Settlements)
    → P table
    → (Dict.lookup request.id table ≡ none
        → P (Dict.insert request.id (claimed_record request hash at) table))
    → P (claim request hash at table).1
unfolding claim
claim_table P request hash at table same written =
    elim (Option-cases (Dict.lookup request.id table)) [
      | inl new ↦ rw (new, claim) (written new)
      | inr (existing, found) ↦ rw (found, claim) same
    ]

-- The status that goes with a result, and what the result holds: a commit completes the settlement, by
-- complete evidence; a rejection fails it and an uncertain end sends it to review, each for a reason.
abbrev pub HasEnd : Dates → SameNetworkSettlementStatus → NativeAtomicSettlementResult → Type 0
HasEnd dates status (committed e) = (status ≡ completed) × (incomplete dates e ≡ false)
HasEnd dates status (already_committed e) = (status ≡ completed) × (incomplete dates e ≡ false)
HasEnd dates status (rejected reason_code evidence) =
    (status ≡ failed) × (is_blank reason_code ≡ false)
HasEnd dates status (uncertain reason_code evidence) =
    (status ≡ manual_review) × (is_blank reason_code ≡ false)

-- The result of a record: none while it is in progress, and else one that goes with its status.
abbrev pub HasResult :
    Dates → SameNetworkSettlementStatus → Option NativeAtomicSettlementResult → Type 0
HasResult dates status none = status ≡ in_progress
HasResult dates status (some result) = HasEnd dates status result

check_good : (bad : Bool) → check bad ≡ ok tt → bad ≡ false
check_good true h = cc h
check_good false h = refl

-- A result that passes the checks goes with the status that `execute` gives it.
pub status_of-HasEnd :
    (dates : Dates) (result : NativeAtomicSettlementResult)
    → assert_result dates result ≡ ok tt
    → HasEnd dates (status_of result) result
unfolding status_of assert_result
status_of-HasEnd dates (committed e) good = (refl, check_good (incomplete dates e) good)
status_of-HasEnd dates (already_committed e) good = (refl, check_good (incomplete dates e) good)
status_of-HasEnd dates (rejected reason_code evidence) good =
    (refl, check_good (is_blank reason_code) good)
status_of-HasEnd dates (uncertain reason_code evidence) good =
    (refl, check_good (is_blank reason_code) good)

-- Records stand under the identifiers of their requests, with their results.
abbrev pub IsAgreed : Dates → Settlements → Type 0
IsAgreed dates table =
    (id : String) (r : SameNetworkSettlementRecord)
    → Dict.lookup id table ≡ some r
    → (r.request.id ≡ id) × HasResult dates r.status r.result

insert-IsAgreed :
    (dates : Dates) (id : String) (r : SameNetworkSettlementRecord) (table : Settlements)
    → IsAgreed dates table
    → r.request.id ≡ id
    → HasResult dates r.status r.result
    → IsAgreed dates (Dict.insert id r table)
insert-IsAgreed dates id r table a e h j x f = elim (Dict.insert-cases id j r x table f) [
  | inl (here, same) ↦
      subst
        (λ (y : SameNetworkSettlementRecord).
          (y.request.id ≡ j) × HasResult dates y.status y.result)
        same (e ∙ here, h)
  | inr (there, old) ↦ a j x old
]

IsAgreed-IsKept : (dates : Dates) → IsKept dates (IsAgreed dates)
IsAgreed-IsKept dates = record {
  claims = λ request hash at table a.
      claim_table (IsAgreed dates) request hash at table a (λ new.
        insert-IsAgreed dates request.id (claimed_record request hash at) table a refl refl);
  finishes = λ id hash at result table good a.
      finish_table (IsAgreed dates) id hash at (status_of result) result table a (λ existing f.
        insert-IsAgreed dates id (finished existing (status_of result) result at) table a
          (a id existing f.found).0 (status_of-HasEnd dates result good));
}

-- A record with a final status.
pub record IsFinal (id : String) (r : SameNetworkSettlementRecord) (table : Settlements)
    : Type 0 where
  pub found : Dict.lookup id table ≡ some r
  pub over : is_in_progress r.status ≡ false

IsFinal-IsKept :
    (dates : Dates) (id : String) (r : SameNetworkSettlementRecord) → IsKept dates (IsFinal id r)
IsFinal-IsKept dates id r = record {
  claims = λ request hash at table f. claim_table (IsFinal id r) request hash at table f (λ new.
      record {
        found =
            Dict.lookup-insert_new request.id id (claimed_record request hash at) r table
              (ap is_some new) f.found;
        over = f.over;
      });
  finishes = λ j hash at result table good f.
      finish_table (IsFinal id r) j hash at (status_of result) result table f (λ existing g.
        elim (Bool-cases (j == id)) [
          | inl same ↦
              let i = (eq_iff j id).0 same in
              let one : existing ≡ r =
                cc (subst (λ k. Dict.lookup k table ≡ some existing) i g.found, f.found) in
              absurd (
                cc (
                  ap (λ (y : SameNetworkSettlementRecord). is_in_progress y.status) one,
                  f.over,
                  ap is_in_progress g.going,
                ))
          | inr other ↦ record {
            found =
                Dict.lookup-insert j id (finished existing (status_of result) result at) table
                ∙ rw other f.found;
            over = f.over;
          }
        ]);
}

module _ {W : Type 0} (services : Services W) where
  -- Any calls of `execute`, thrown or not, keep the table such that every record stands under its
  -- request's identifier, a record without a result is in progress, and a record with one is COMPLETED
  -- with the complete evidence of a commit (new or found), FAILED with a rejection for a reason that is
  -- not blank, or in MANUAL_REVIEW with an uncertain end for such a reason.
  pub executes-IsAgreed :
      (requests : List SameNetworkSettlementRequest) (s : Served Settlements W)
      → IsAgreed services.dates s.stored
      → IsAgreed services.dates (executes services requests s).stored
  executes-IsAgreed =
      executes-Keeps services (IsAgreed services.dates) (IsAgreed-IsKept services.dates)

  pub executes-IsFinal :
      (id : String) (r : SameNetworkSettlementRecord) (requests : List SameNetworkSettlementRequest)
      (s : Served Settlements W)
      → IsFinal id r s.stored
      → IsFinal id r (executes services requests s).stored
  executes-IsFinal id r =
      executes-Keeps services (IsFinal id r) (IsFinal-IsKept services.dates id r)
