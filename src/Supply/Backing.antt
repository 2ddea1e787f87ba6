-- ===== src/Supply/Backing.antt =====
-- Whatever is recorded, and in whatever order the database returns it, supply stays backed.
use text.Mathlib.TextPositions.{eq_refl}
use mathlib.Core.List.{append-nil}
use canton_evmcrosschain.Prelude.{
  eq_iff, ℕ, ◌+◌, String, ◌≡◌, refl, sym, subst, ◌∙◌, ◌&&◌, List, [], ◌∷◌, ◌++◌, ◌==◌, find?,
  filter-append, if◌then◌else◌, arith, Bool-cases, Option-cases, inl, inr,
}
use canton_evmcrosschain.Failures.{ok, >>=-eq-ok, reject_if, registry, conflict, transaction_keeps}
use canton_evmcrosschain.Dates.{Dates}
use canton_evmcrosschain.Supply.Assess.{
  SupplyEffect, lock, mint, burn, release, SupplyEffectRecord, same_key, assess,
}
use canton_evmcrosschain.Supply.Store.{
  Storage, Committed, Table, rows_for, insert_in_order, in_order, list_records, insert_record,
  append_prior, append_candidate, append_validated, is_violation, assert_record, record_body,
  record_effect,
}
use canton_evmcrosschain.Supply.Totals.{share, total, IsBacked, assess-valid_iff}

total-append :
    (e : SupplyEffect) (xs ys : List SupplyEffectRecord)
    → total e (xs ++ ys) ≡ total e xs + total e ys
unfolding total
total-append e [] ys = omega arith
total-append e (x ∷ xs) ys = omega (arith, total-append e xs ys)

total-insert_in_order :
    (storage : Storage) (e : SupplyEffect) (r : SupplyEffectRecord) (xs : List SupplyEffectRecord)
    → total e (insert_in_order storage r xs) ≡ share e r + total e xs
unfolding total insert_in_order
total-insert_in_order storage e r [] = refl
total-insert_in_order storage e r (x ∷ xs) = elim (Bool-cases (storage.before r x)) [
  | inl first ↦ rw first
  | inr later ↦ rw later (omega (arith, total-insert_in_order storage e r xs))
]

-- The order of the rows does not change a sum.
total-in_order :
    (storage : Storage) (e : SupplyEffect) (xs : List SupplyEffectRecord)
    → total e (in_order storage xs) ≡ total e xs
unfolding in_order total
total-in_order storage e [] = refl
total-in_order storage e (x ∷ xs) =
    omega
      (arith, total-insert_in_order storage e x (in_order storage xs), total-in_order storage e xs)

total-candidate :
    (storage : Storage) (r : SupplyEffectRecord) (xs : List SupplyEffectRecord) (e : SupplyEffect)
    → total e (in_order storage xs ++ r ∷ []) ≡ total e (xs ++ r ∷ [])
total-candidate storage r xs e = omega (
  arith,
  total-append e xs (r ∷ []),
  total-append e (in_order storage xs) (r ∷ []),
  total-in_order storage e xs,
)

IsBacked-candidate :
    (storage : Storage) (r : SupplyEffectRecord) (xs : List SupplyEffectRecord)
    → IsBacked (in_order storage xs ++ r ∷ [])
    → IsBacked (xs ++ r ∷ [])
IsBacked-candidate storage r xs b =
    let c = total-candidate storage r xs in omega (arith, c lock, c mint, c burn, c release)

-- Each asset and representation is backed.
abbrev pub IsBackedTable : Table → Type 0
IsBackedTable table =
    (asset_id representation_id : String) → IsBacked (rows_for asset_id representation_id table)

rows_for-append :
    (a p : String) (table : Table) (r : SupplyEffectRecord)
    → rows_for a p (table ++ r ∷ [])
      ≡ rows_for a p table ++ (if r.asset_id == a && r.representation_id == p then r ∷ [] else [])
rows_for-append a p table r =
    filter-append (λ x. x.asset_id == a && x.representation_id == p) table (r ∷ [])

-- What a successful `append_candidate` has checked and done.
record Inserted (r : SupplyEffectRecord) (records : List SupplyEffectRecord) (table table' : Table)
    : Type 0 where
  backed : IsBacked (records ++ r ∷ [])
  written : table' ≡ table ++ r ∷ []

insert_record-eq-ok :
    (r : SupplyEffectRecord) (table table' : Table)
    → insert_record r table ≡ ok table'
    → table' ≡ table ++ r ∷ []
unfolding insert_record
insert_record-eq-ok r table table' h = ground arith

append_candidate-eq-ok :
    (r : SupplyEffectRecord) (records : List SupplyEffectRecord) (at : String)
    (table table' : Table) (c : Committed)
    → append_candidate r records at table ≡ ok (c, table')
    → Inserted r records table table'
unfolding append_candidate
append_candidate-eq-ok r records at table table' c h =
    let (a, assessed, rest) =
      >>=-eq-ok (assess r.asset_id r.representation_id (records ++ r ∷ []) at) _ h in
    let (u, passed, more) =
      >>=-eq-ok (reject_if (is_violation a.outcome) (registry conflict)) _ rest in
    let (t, stored, done) = >>=-eq-ok (insert_record r table) _ more in
    record {
      backed =
          ((assess-valid_iff r.asset_id r.representation_id at (records ++ r ∷ []) a assessed).0
            (ground arith)).1;
      written = insert_record-eq-ok r table table' (ground arith);
    }

IsBackedTable-append :
    (storage : Storage) (r : SupplyEffectRecord) (table : Table)
    → IsBacked (list_records storage r.asset_id r.representation_id table ++ r ∷ [])
    → IsBackedTable table
    → IsBackedTable (table ++ r ∷ [])
unfolding list_records
IsBackedTable-append storage r table b h a p =
    elim (Bool-cases (r.asset_id == a && r.representation_id == p)) [
      | inl same ↦
          let parts : (r.asset_id ≡ a) × (r.representation_id ≡ p) =
            ground (arith, eq_iff r.asset_id a, eq_iff r.representation_id p) in
          subst (λ q. IsBacked (rows_for a q (table ++ r ∷ []))) parts.1
            (subst (λ q. IsBacked (rows_for q r.representation_id (table ++ r ∷ []))) parts.0 own)
      | inr other ↦
          subst IsBacked
            (sym (rows_for-append a p table r ∙ rw other (append-nil (rows_for a p table)))) (h a p)
    ]
  where
    own : IsBacked (rows_for r.asset_id r.representation_id (table ++ r ∷ []))
    own =
        subst IsBacked
          (sym (
            rows_for-append r.asset_id r.representation_id table r
            ∙ rw (eq_refl r.asset_id, eq_refl r.representation_id)))
          (IsBacked-candidate storage r (rows_for r.asset_id r.representation_id table) b)

append_prior-eq-ok :
    (storage : Storage) (prior r : SupplyEffectRecord) (records : List SupplyEffectRecord)
    (table table' : Table) (c : Committed)
    → append_prior storage prior r records table ≡ ok (c, table')
    → table' ≡ table
unfolding append_prior
append_prior-eq-ok storage prior r records table table' c h = ground arith

append_validated-IsBackedTable :
    (storage : Storage) (r : SupplyEffectRecord) (at : String) (table table' : Table)
    (c : Committed)
    → append_validated storage r at table ≡ ok (c, table')
    → IsBackedTable table
    → IsBackedTable table'
unfolding append_validated
append_validated-IsBackedTable storage r at table table' c h b =
    let records = list_records storage r.asset_id r.representation_id table in
    elim (Option-cases (find? (same_key r) records)) [
      | inl new ↦
          let i = append_candidate-eq-ok r records at table table' c (ground arith) in
          subst IsBackedTable (sym i.written) (IsBackedTable-append storage r table i.backed b)
      | inr (prior, old) ↦
          subst IsBackedTable
            (sym (append_prior-eq-ok storage prior r records table table' c (ground arith))) b
    ]

record_body-IsBackedTable :
    (dates : Dates) (storage : Storage) (r : SupplyEffectRecord) (at : String)
    (table table' : Table) (c : Committed)
    → record_body dates storage r at table ≡ ok (c, table')
    → IsBackedTable table
    → IsBackedTable table'
unfolding record_body
record_body-IsBackedTable dates storage r at table table' c h b =
    let (u, checked, stored) =
      >>=-eq-ok (assert_record dates r) (λ _. append_validated storage r at table) h in
    append_validated-IsBackedTable storage r at table table' c stored b

record_effect-IsBackedTable :
    (dates : Dates) (storage : Storage) (now : ℕ) (r : SupplyEffectRecord) (table : Table)
    → IsBackedTable table
    → IsBackedTable (record_effect dates storage now r table).1
unfolding record_effect
record_effect-IsBackedTable dates storage now r table b =
    transaction_keeps IsBackedTable (record_body dates storage r (dates.to_iso now)) table
      (λ c table' h.
        record_body-IsBackedTable dates storage r (dates.to_iso now) table table' c h b)
      b

-- The table after a series of effects, each recorded at its time, refused or not.
unfoldable pub record_all : Dates → Storage → List (ℕ × SupplyEffectRecord) → Table → Table
record_all dates storage [] table = table
record_all dates storage ((now, r) ∷ rest) table =
    record_all dates storage rest (record_effect dates storage now r table).1

record_all-IsBackedTable :
    (dates : Dates) (storage : Storage) (effects : List (ℕ × SupplyEffectRecord)) (table : Table)
    → IsBackedTable table
    → IsBackedTable (record_all dates storage effects table)
unfolding record_all
record_all-IsBackedTable dates storage [] table b = b
record_all-IsBackedTable dates storage ((now, r) ∷ rest) table b =
    record_all-IsBackedTable dates storage rest (record_effect dates storage now r table).1
      (record_effect-IsBackedTable dates storage now r table b)

empty-IsBackedTable : IsBackedTable []
unfolding total
empty-IsBackedTable a p = omega arith

-- After any series of recorded effects on an empty table, refused or not, and whatever order the
-- database returns rows in: for each asset and representation released ≤ burned ≤ minted ≤ locked.
pub record_all-IsBacked :
    (dates : Dates) (storage : Storage) (effects : List (ℕ × SupplyEffectRecord))
    (asset_id representation_id : String)
    → IsBacked (rows_for asset_id representation_id (record_all dates storage effects []))
record_all-IsBacked dates storage effects =
    record_all-IsBackedTable dates storage effects [] empty-IsBackedTable
