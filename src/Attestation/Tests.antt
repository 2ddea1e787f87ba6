-- ===== src/Attestation/Tests.antt =====
-- A validator set, an attestation with two signatures, and the theorems at them.
use canton_evmcrosschain.Prelude.{
  ℕ, ◌≤◌, String, ◌≡◌, refl, true, false, none, some, [], ◌∷◌, ◌==◌, eq_iff, arith, concat,
  has_prefix, is_blank,
}
use canton_evmcrosschain.Failures.{ok}
use canton_evmcrosschain.Dict
use canton_evmcrosschain.Amount.{parse_atomic_amount}
use canton_evmcrosschain.Samples.{numbered}
use canton_evmcrosschain.Idempotency.Canonical.{canonical_json}
use canton_evmcrosschain.Attestation.Protocol.{
  UnsignedAttestation, ValidatorSignature, Attestation, SignatureInput, is_nonce,
  assert_unsigned_attestation, attestation_domain, canonical_attestation_object,
  canonical_attestation_bytes, verify_attestation_signature, insert_signature, sort_signatures,
}
use canton_evmcrosschain.Attestation.ValidatorSets.{
  ValidatorMember, ValidatorSet, available, check_members, member_boundaries, check_boundaries,
  assert_validator_set, intervals_overlap, register_body, register, resolve,
}
use canton_evmcrosschain.Attestation.ValidatorSets
use canton_evmcrosschain.Attestation.Aggregator.{
  Services, satisfied, members_by_id, verification_of, verdict, check_loop, check_signatures,
  verified, resolved, verify,
}
use canton_evmcrosschain.Attestation.Achievable.{assert_validator_set-available}
use canton_evmcrosschain.Attestation.Intervals.{registers, resolve_unique}
use canton_evmcrosschain.Attestation.Signed.{IsBacked, verify-IsBacked}

abbrev a_member : String → String → ValidatorMember
a_member id key = record {
  validator_id = id;
  algorithm = "ed25519";
  public_key_id = key;
  enabled_from = "100";
  disabled_at = none;
}

abbrev set : ValidatorSet
set = record {
  id = "set-1";
  version = "1";
  threshold = 2;
  valid_from = "100";
  valid_until = some "1000";
  members =
      a_member "v1" "k1"
      ∷ record (a_member "v2" "k2") { disabled_at = some "1000" }
      ∷ a_member "v3" "k3"
      ∷ [];
}

-- Overlaps with the first, so it is refused.
abbrev late_set : ValidatorSet
late_set = record set { id = "set-2"; valid_from = "900"; valid_until = none }

abbrev signed_by : String → String → ValidatorSignature
signed_by id key = record {
  validator_id = id;
  algorithm = "ed25519";
  public_key_id = key;
  signature = "signed";
  signed_at = "120";
}

abbrev unsigned : UnsignedAttestation
unsigned = record {
  version = "1";
  id = "IW:ATTESTATION:1";
  operation_id = "IW:BRIDGE:1";
  source_network_type = "CANTON";
  source_network_id = "IW:NETWORK:canton";
  source_transaction_id = "tx-1";
  source_event_position = "1";
  event_type = "LOCK";
  asset_id = "IW:ASSET:1";
  amount = "250";
  sender = "IW:IDENTITY:a";
  receiver = "IW:IDENTITY:b";
  destination_network_type = "EVM";
  destination_network_id = "IW:NETWORK:evm";
  nonce = "0123456789abcdef";
  observed_state_position = "1";
  observed_at = "110";
  valid_from = "120";
  expires_at = "200";
  policy_version = "1";
}

abbrev attestation : Attestation
attestation = record {
  unsigned = unsigned;
  signatures = signed_by "v2" "k2" ∷ signed_by "v1" "k1" ∷ [];
}

abbrev services : Services ℕ
services = record {
  dates = numbered;
  texts = record { quote = λ s. s; before = λ a b. false; sha256 = λ s. s };
  before = λ a b. a == "v1";
  clock = λ n. (150, n);
  verifier = λ input w. (ok (input.signature == "signed"), w);
}

abbrev IsGenuine : SignatureInput → Type 0
IsGenuine input = input.signature ≡ "signed"

genuine :
    (input : SignatureInput) (w : ℕ) → (services.verifier input w).0 ≡ ok true → IsGenuine input
genuine input w h =
    let says : (input.signature == "signed") ≡ true = cc h in
    (eq_iff input.signature "signed").0 says

-- Opens the registry and the aggregator for a test.
machine : Unit {0}
unfolding parse_atomic_amount concat has_prefix is_blank Dict.lookup Dict.insert Dict.values
    canonical_json is_nonce assert_unsigned_attestation attestation_domain
    canonical_attestation_object canonical_attestation_bytes verify_attestation_signature
    insert_signature sort_signatures available check_members member_boundaries check_boundaries
    assert_validator_set intervals_overlap register_body register resolve members_by_id
    verification_of verdict check_loop check_signatures verified resolved verify
machine = tt

verifies :
    (verify services (registers numbered (set ∷ late_set ∷ []) []) attestation "set-1" 0).0
    ≡ ok (satisfied "set-1" 2 ("v1" ∷ "v2" ∷ []))
unfolding machine
verifies = refl

verify-IsBacked_example :
    IsBacked services IsGenuine genuine
      (registers numbered (set ∷ late_set ∷ []) [])
      unsigned
      "set-1"
      attestation.signatures
      2
      ("v1" ∷ "v2" ∷ [])
verify-IsBacked_example =
    verify-IsBacked services IsGenuine genuine (registers numbered (set ∷ late_set ∷ []) [])
      attestation "set-1" 0 "set-1" 2 ("v1" ∷ "v2" ∷ []) verifies

resolves : resolve numbered "set-1" "120" (registers numbered (set ∷ late_set ∷ []) []) ≡ ok set
unfolding machine
resolves = refl

resolve_unique_example : set.id ≡ set.id
resolve_unique_example =
    resolve_unique numbered (set ∷ late_set ∷ []) "set-1" "set-1" "120" set set resolves resolves

accepts : assert_validator_set numbered set ≡ ok tt
unfolding machine
accepts = refl

parses : numbered.parse "100" ≡ some 100
unfolding parse_atomic_amount
parses = refl

in_interval :
    ValidatorSets.is_before_end numbered (some 700) (ValidatorSets.given set.valid_until) ≡ true
unfolding parse_atomic_amount
in_interval = refl

assert_validator_set-available_example : 2 ≤ available numbered 700 set.members
assert_validator_set-available_example =
    assert_validator_set-available numbered set 100 700 accepts parses (omega arith) in_interval
