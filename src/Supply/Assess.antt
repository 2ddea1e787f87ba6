-- ===== src/Supply/Assess.antt =====
-- The assessment of a list of supply effects. Amounts are summed as numbers; a total that can be
-- negative is compared by moving the subtracted sum to the other side, and is kept as its two sums.
use canton_evmcrosschain.Prelude.{
  ℕ, ◌+◌, String, Bool, true, false, ◌&&◌, List, [], ◌∷◌, ◌++◌, ◌==◌, ltb, eqb, any, if◌then◌else◌,
}
use canton_evmcrosschain.Failures.{Result, ok, ◌>>=◌}
use canton_evmcrosschain.Amount.{parse_atomic_amount}

pub data SupplyEffect : Type 0 where
  lock mint burn release : SupplyEffect

abbrev effect_number : SupplyEffect → ℕ
effect_number lock = 0
effect_number mint = 1
effect_number burn = 2
effect_number release = 3

-- `===` on effects
unfoldable pub same_effect : SupplyEffect → SupplyEffect → Bool
same_effect a b = eqb (effect_number a) (effect_number b)

pub record SupplyEffectRecord : Type 0 where
  pub operation_id : String
  pub effect : SupplyEffect
  pub asset_id : String
  pub representation_id : String
  pub amount : String
  pub evidence_id : String
  pub finalized_at : String

-- SupplyTotals; verifiedBacking is `locked - released` and representationSupply is
-- `minted - burned`.
pub record SupplyTotals : Type 0 where
  pub locked : ℕ
  pub minted : ℕ
  pub burned : ℕ
  pub released : ℕ

pub data Violation : Type 0 where
  duplicate_operation_effect mint_exceeds_locked_backing burn_exceeds_minted_supply : Violation
  release_exceeds_verified_burn release_exceeds_locked_backing : Violation
  representation_supply_exceeds_backing : Violation

pub data AssessmentOutcome : Type 0 where
  valid violation : AssessmentOutcome

pub record SupplyInvariantAssessment : Type 0 where
  pub asset_id : String
  pub representation_id : String
  pub totals : SupplyTotals
  pub outcome : AssessmentOutcome
  pub violations : List Violation
  pub assessed_at : String

-- Two records have the key `${operationId}|${effect}` in common. No effect holds a "|", so the key
-- is the pair.
unfoldable pub same_key : SupplyEffectRecord → SupplyEffectRecord → Bool
unfolding same_effect
same_key a b = a.operation_id == b.operation_id && same_effect a.effect b.effect

unfoldable pub add_effect : SupplyEffect → ℕ → SupplyTotals → SupplyTotals
add_effect lock amount t = record t { locked = t.locked + amount }
add_effect mint amount t = record t { minted = t.minted + amount }
add_effect burn amount t = record t { burned = t.burned + amount }
add_effect release amount t = record t { released = t.released + amount }

-- The loop over the records: `seen` holds the records met before, in place of their keys, and the
-- Boolean tells whether a duplicate was met.
unfoldable pub tally :
    List SupplyEffectRecord
    → Bool
    → SupplyTotals
    → List SupplyEffectRecord
    → Result (SupplyTotals × Bool)
unfolding same_key add_effect
tally seen duplicate t [] = ok (t, duplicate)
tally seen duplicate t (r ∷ records) =
    let skipped = tally seen true t records in
    let counted =
      (λ (amount : ℕ). tally (r ∷ seen) duplicate (add_effect r.effect amount t) records) in
    if any (same_key r) seen then skipped else (parse_atomic_amount r.amount >>= counted)

abbrev pub when : Bool → Violation → List Violation
when true v = v ∷ []
when false v = []

-- The violations, each once, in the order of the checks.
unfoldable pub violations_of : SupplyTotals → Bool → List Violation
violations_of t duplicate =
    when duplicate duplicate_operation_effect
    ++ (when (ltb t.locked t.minted) mint_exceeds_locked_backing
        ++ (when (ltb t.minted t.burned) burn_exceeds_minted_supply
            ++ (when (ltb t.burned t.released) release_exceeds_verified_burn
                ++ (when (ltb t.locked t.released) release_exceeds_locked_backing
                    ++ when (ltb (t.locked + t.burned) (t.minted + t.released))
                        representation_supply_exceeds_backing))))

abbrev pub outcome_of : List Violation → AssessmentOutcome
outcome_of [] = valid
outcome_of (v ∷ vs) = violation

abbrev pub zero_totals : SupplyTotals
zero_totals = record { locked = 0; minted = 0; burned = 0; released = 0 }

unfoldable pub assess :
    String → String → List SupplyEffectRecord → String → Result SupplyInvariantAssessment
unfolding tally violations_of
assess asset_id representation_id records assessed_at = do
  (t, duplicate) ← tally [] false zero_totals records
  let violations = violations_of t duplicate
  ok (record {
    asset_id = asset_id;
    representation_id = representation_id;
    totals = t;
    outcome = outcome_of violations;
    violations = violations;
    assessed_at = assessed_at;
  })
