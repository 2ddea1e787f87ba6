-- ===== src/Supply/Totals.antt =====
-- The assessment against sums that are taken one effect at a time.
use canton_evmcrosschain.Prelude.{
  ℕ, ◌+◌, ◌≤◌, String, ◌≡◌, sym, subst, ap, ◌∙◌, ◌↔◌, Bool, true, false, List, [], ◌∷◌, any,
  if◌then◌else◌, arith, Bool-cases, inl, inr,
}
use canton_evmcrosschain.Failures.{Result, ok, err, >>=-eq-ok}
use canton_evmcrosschain.Amount.{parse_atomic_amount}
use canton_evmcrosschain.Supply.Assess.{
  SupplyEffect, lock, mint, burn, release, SupplyEffectRecord, SupplyTotals,
  SupplyInvariantAssessment, valid, same_effect, same_key, tally, add_effect, violations_of, assess,
  zero_totals, outcome_of,
}

abbrev pub amount_or_zero : Result ℕ → ℕ
amount_or_zero (ok n) = n
amount_or_zero (err e) = 0

unfoldable pub amount_of : SupplyEffectRecord → ℕ
amount_of r = amount_or_zero (parse_atomic_amount r.amount)

-- What is added to the sum of `e` by one record.
unfoldable pub share : SupplyEffect → SupplyEffectRecord → ℕ
share e r = if same_effect r.effect e then amount_of r else 0

-- The sum of the amounts of all records with the effect `e`.
unfoldable pub total : SupplyEffect → List SupplyEffectRecord → ℕ
total e [] = 0
total e (r ∷ records) = share e r + total e records

-- No record repeats an operation and effect of `seen` or of an earlier one, and all amounts parse.
abbrev pub IsFresh : List SupplyEffectRecord → List SupplyEffectRecord → Type 0
IsFresh seen [] = Unit
IsFresh seen (r ∷ records) =
    (any (same_key r) seen ≡ false)
    × (parse_atomic_amount r.amount ≡ ok (amount_of r))
    × IsFresh (r ∷ seen) records

abbrev pub plus_totals : SupplyTotals → List SupplyEffectRecord → SupplyTotals
plus_totals t records = record {
  locked = t.locked + total lock records;
  minted = t.minted + total mint records;
  burned = t.burned + total burn records;
  released = t.released + total release records;
}

plus_totals-nil : (t : SupplyTotals) → plus_totals t [] ≡ t
unfolding total
plus_totals-nil t = ground arith

plus_totals-cons :
    (t : SupplyTotals) (r : SupplyEffectRecord) (records : List SupplyEffectRecord)
    → plus_totals (add_effect r.effect (amount_of r) t) records ≡ plus_totals t (r ∷ records)
unfolding total share add_effect same_effect
plus_totals-cons t r records = ground arith

-- Fresh records are counted one by one, and no duplicate is reported.
pub tally-IsFresh :
    (seen records : List SupplyEffectRecord) (duplicate : Bool) (t : SupplyTotals)
    → IsFresh seen records
    → tally seen duplicate t records ≡ ok (plus_totals t records, duplicate)
unfolding tally
tally-IsFresh seen [] duplicate t h =
    ap (λ (x : SupplyTotals). ok (x, duplicate)) (sym (plus_totals-nil t))
tally-IsFresh seen (r ∷ records) duplicate t h =
    rw (h.0, h.1)
      (tally-IsFresh (r ∷ seen) records duplicate (add_effect r.effect (amount_of r) t) h.2
        ∙ ap (λ (x : SupplyTotals). ok (x, duplicate)) (plus_totals-cons t r records))

amount_of-eq :
    (r : SupplyEffectRecord) (n : ℕ) → parse_atomic_amount r.amount ≡ ok n → amount_of r ≡ n
unfolding amount_of
amount_of-eq r n h = rw h

-- A tally that reports no duplicate has met fresh records only.
pub IsFresh-tally :
    (seen records : List SupplyEffectRecord) (duplicate : Bool) (t t' : SupplyTotals)
    → tally seen duplicate t records ≡ ok (t', false)
    → (duplicate ≡ false) × IsFresh seen records
unfolding tally
IsFresh-tally seen [] duplicate t t' h = (ground arith, tt)
IsFresh-tally seen (r ∷ records) duplicate t t' h = elim (Bool-cases (any (same_key r) seen)) [
  | inl again ↦ cc (IsFresh-tally seen records true t t' (rw again at h)).0
  | inr new ↦
      let (n, parsed, rest) = >>=-eq-ok (parse_atomic_amount r.amount) _ (rw new at h) in
      let (clear, fresh) =
        IsFresh-tally (r ∷ seen) records duplicate (add_effect r.effect n t) t' rest in
      (clear, (new, rw (amount_of-eq r n parsed) parsed, fresh))
]

-- The order of the sums that backs a representation.
pub record IsBacked (records : List SupplyEffectRecord) : Type 0 where
  pub minted : total mint records ≤ total lock records
  pub burned : total burn records ≤ total mint records
  pub released : total release records ≤ total burn records

-- `released ≤ burned ≤ minted ≤ locked`
pub record IsOrdered (t : SupplyTotals) : Type 0 where
  pub minted : t.minted ≤ t.locked
  pub burned : t.burned ≤ t.minted
  pub released : t.released ≤ t.burned

violations-nil :
    (t : SupplyTotals) (duplicate : Bool)
    → outcome_of (violations_of t duplicate) ≡ valid
    → (duplicate ≡ false) × IsOrdered t
unfolding violations_of
violations-nil t duplicate h =
    (ground arith, record { minted = ground arith; burned = ground arith; released = ground arith })

no_violations : (t : SupplyTotals) → IsOrdered t → outcome_of (violations_of t false) ≡ valid
unfolding violations_of
no_violations t o = ground arith

-- What an assessment is computed from.
pub record Assessed (records : List SupplyEffectRecord) (a : SupplyInvariantAssessment)
    : Type 0 where
  pub sums : SupplyTotals
  pub repeated : Bool
  pub tallied : tally [] false zero_totals records ≡ ok (sums, repeated)
  pub outcome : a.outcome ≡ outcome_of (violations_of sums repeated)

pub assess-eq-ok :
    (asset_id representation_id assessed_at : String) (records : List SupplyEffectRecord)
    (a : SupplyInvariantAssessment)
    → assess asset_id representation_id records assessed_at ≡ ok a
    → Assessed records a
unfolding assess
assess-eq-ok asset_id representation_id assessed_at records a h =
    let ((t, repeated), tallied, rest) = >>=-eq-ok (tally [] false zero_totals records) _ h in
    record { sums = t; repeated = repeated; tallied = tallied; outcome = ground arith }

zero-plus :
    (records : List SupplyEffectRecord)
    → IsOrdered (plus_totals zero_totals records)
    → IsBacked records
zero-plus records o = omega arith

plus-zero :
    (records : List SupplyEffectRecord)
    → IsBacked records
    → IsOrdered (plus_totals zero_totals records)
plus-zero records b = omega arith

valid_sound :
    (records : List SupplyEffectRecord) (a : SupplyInvariantAssessment)
    → Assessed records a
    → a.outcome ≡ valid
    → IsFresh [] records × IsBacked records
valid_sound records a e v =
    let (single, ordered) = violations-nil e.sums e.repeated (sym e.outcome ∙ v) in
    let fresh =
      (IsFresh-tally [] records false zero_totals e.sums
        (e.tallied ∙ ap (λ (b : Bool). ok (e.sums, b)) single)).1 in
    let same : plus_totals zero_totals records ≡ e.sums =
      cc (tally-IsFresh [] records false zero_totals fresh, e.tallied) in
    (fresh, zero-plus records (subst IsOrdered (sym same) ordered))

valid_complete :
    (records : List SupplyEffectRecord) (a : SupplyInvariantAssessment)
    → Assessed records a
    → IsFresh [] records
    → IsBacked records
    → a.outcome ≡ valid
valid_complete records a e fresh backed =
    let same : ok (plus_totals zero_totals records, false) ≡ ok (e.sums, e.repeated) =
      sym (tally-IsFresh [] records false zero_totals fresh) ∙ e.tallied in
    let sums : plus_totals zero_totals records ≡ e.sums = cc same in
    let single : false ≡ e.repeated = cc same in
    e.outcome
    ∙ (ap (λ b. outcome_of (violations_of e.sums b)) (sym single)
        ∙ no_violations e.sums (subst IsOrdered sums (plus-zero records backed)))

-- An assessment that returns answers VALID exactly if no operation and effect is repeated, all amounts
-- parse, and the separate sums satisfy released ≤ burned ≤ minted ≤ locked.
pub assess-valid_iff :
    (asset_id representation_id assessed_at : String) (records : List SupplyEffectRecord)
    (a : SupplyInvariantAssessment)
    → assess asset_id representation_id records assessed_at ≡ ok a
    → (a.outcome ≡ valid) ↔ (IsFresh [] records × IsBacked records)
assess-valid_iff asset_id representation_id assessed_at records a h =
    let e = assess-eq-ok asset_id representation_id assessed_at records a h in
    (valid_sound records a e, λ p. valid_complete records a e p.0 p.1)
