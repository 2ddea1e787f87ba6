-- ===== src/Supply/Tests.antt =====
-- Effects on a concrete table, and the theorems at them.
use canton_evmcrosschain.Prelude.{
  ℕ, ◌≡◌, refl, ◌==◌, ◌&&◌, false, List, [], ◌∷◌, ◌↔◌, length, is_blank, has_prefix,
}
use canton_evmcrosschain.Failures.{ok, err, registry, conflict}
use canton_evmcrosschain.Amount.{parse_atomic_amount}
use canton_evmcrosschain.Samples.{numbered}
use canton_evmcrosschain.Supply.Assess.{
  SupplyEffect, lock, mint, burn, SupplyEffectRecord, SupplyInvariantAssessment, valid, same_key,
  same_effect, tally, add_effect, violations_of, assess,
}
use canton_evmcrosschain.Supply.Store.{
  Storage, rows_for, insert_in_order, in_order, list_records, insert_record, append_prior,
  append_candidate, append_validated, assert_record, record_body, record_effect, assessed,
}
use canton_evmcrosschain.Supply.Totals.{IsFresh, IsBacked, assess-valid_iff}
use canton_evmcrosschain.Supply.Backing.{record_all, record_all-IsBacked}

-- Rows in the order of insertion, and a comparison of the members that the tests vary.
abbrev storage : Storage
storage = record {
  before = λ a b. false;
  same_json = λ a b. a.amount == b.amount && a.evidence_id == b.evidence_id;
}

abbrev effect_of : SupplyEffect → SupplyEffectRecord
effect_of e = record {
  operation_id = "IW:BRIDGE:1";
  effect = e;
  asset_id = "IW:ASSET:1";
  representation_id = "token";
  amount = "250";
  evidence_id = "evidence-1";
  finalized_at = "100";
}

-- A lock, its mint, a mint without backing, and a burn that repeats.
abbrev effects : List (ℕ × SupplyEffectRecord)
effects =
    (150, effect_of lock)
    ∷ (151, effect_of mint)
    ∷ (152, record (effect_of mint) { operation_id = "IW:BRIDGE:2" })
    ∷ (153, effect_of burn)
    ∷ (154, effect_of burn)
    ∷ []

-- Opens the ledger and the store for a test.
machine : Unit {0}
unfolding record_all record_effect record_body assert_record append_validated append_candidate
    append_prior insert_record list_records in_order insert_in_order assess violations_of tally
    add_effect same_key same_effect parse_atomic_amount is_blank assessed has_prefix
machine = tt

keeps_three : length (record_all numbered storage effects []) ≡ 3
unfolding machine
keeps_three = refl

refuses_unbacked_mint :
    (record_effect numbered storage 150 (effect_of mint) []).0 ≡ err (registry conflict)
unfolding machine
refuses_unbacked_mint = refl

record_all-IsBacked_example :
    IsBacked (rows_for "IW:ASSET:1" "token" (record_all numbered storage effects []))
record_all-IsBacked_example = record_all-IsBacked numbered storage effects "IW:ASSET:1" "token"

abbrev two_records : List SupplyEffectRecord
two_records = effect_of lock ∷ effect_of mint ∷ []

abbrev assessment : SupplyInvariantAssessment
assessment = record {
  asset_id = "IW:ASSET:1";
  representation_id = "token";
  totals = record { locked = 250; minted = 250; burned = 0; released = 0 };
  outcome = valid;
  violations = [];
  assessed_at = "150";
}

assesses : assess "IW:ASSET:1" "token" two_records "150" ≡ ok assessment
unfolding machine
assesses = refl

assess-valid_iff_example :
    (assessment.outcome ≡ valid) ↔ (IsFresh [] two_records × IsBacked two_records)
assess-valid_iff_example =
    assess-valid_iff "IW:ASSET:1" "token" "150" two_records assessment assesses
