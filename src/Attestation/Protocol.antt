-- ===== src/Attestation/Protocol.antt =====
-- attestation-protocol.ts. The bytes of a text stand as the text: `TextEncoder` tells different texts
-- apart.
use canton_evmcrosschain.Prelude.{
  ℕ, String, Bool, false, not, ◌&&◌, ◌||◌, List, [], ◌∷◌, ◌++◌, ◌==◌, leb, eqb, all, any, length,
  codes, is_some, is_blank, has_prefix, is_digit_code, is_upper_code, is_lower_code, concat,
  if◌then◌else◌,
}
use canton_evmcrosschain.Failures.{
  registry, invalid_argument, conflict, Result, ok, ◌>>=◌, ◌>>◌, reject_if, Exec,
}
use canton_evmcrosschain.Exec.{continue}
use canton_evmcrosschain.Dates.{Dates, time_lt, time_le}
use canton_evmcrosschain.Amount.{parse_atomic_amount}
use canton_evmcrosschain.Idempotency.Canonical.{
  Texts, Json, string, object, no_members, member, canonical_json,
}

pub record UnsignedAttestation : Type 0 where
  pub version : String
  pub id : String
  pub operation_id : String
  pub source_network_type : String
  pub source_network_id : String
  pub source_transaction_id : String
  pub source_event_position : String
  pub event_type : String
  pub asset_id : String
  pub amount : String
  pub sender : String
  pub receiver : String
  pub destination_network_type : String
  pub destination_network_id : String
  pub nonce : String
  pub observed_state_position : String
  pub observed_at : String
  pub valid_from : String
  pub expires_at : String
  pub policy_version : String

pub record ValidatorSignature : Type 0 where
  pub validator_id : String
  pub algorithm : String
  pub public_key_id : String
  pub signature : String
  pub signed_at : String

pub record Attestation : Type 0 where
  pub unsigned : UnsignedAttestation
  pub signatures : List ValidatorSignature

-- What a verifier is asked.
pub record SignatureInput : Type 0 where
  pub algorithm : String
  pub public_key_id : String
  pub signature : String
  pub bytes : String

abbrev pub check : Bool → Result (Unit {0})
check bad = reject_if bad (registry invalid_argument)

-- `assertId`
abbrev pub assert_id : String → String → Result (Unit {0})
assert_id value prefix = check (not (has_prefix prefix value) || value == prefix)

-- /^[A-Za-z0-9_-]{16,256}$/
abbrev is_nonce_char : ℕ → Bool
is_nonce_char c = is_upper_code c || is_lower_code c || is_digit_code c || eqb c 95 || eqb c 45

unfoldable pub is_nonce : List ℕ → Bool
is_nonce cs = leb 16 (length cs) && leb (length cs) 256 && all is_nonce_char cs

-- `assertUnsignedAttestation`
unfoldable pub assert_unsigned_attestation : Dates → UnsignedAttestation → Result (Unit {0})
unfolding is_nonce
assert_unsigned_attestation dates a = do
  check (not (a.version == "1"))
  assert_id a.id "IW:ATTESTATION:"
  assert_id a.operation_id "IW:BRIDGE:"
  assert_id a.asset_id "IW:ASSET:"
  assert_id a.sender "IW:IDENTITY:"
  assert_id a.receiver "IW:IDENTITY:"
  assert_id a.source_network_id "IW:NETWORK:"
  assert_id a.destination_network_id "IW:NETWORK:"
  check (a.source_network_id == a.destination_network_id)
  check (
      any is_blank (
        a.source_network_type ∷ a.destination_network_type ∷ a.source_transaction_id
        ∷ a.source_event_position ∷ a.event_type ∷ a.observed_state_position ∷ a.policy_version
        ∷ []))
  check (not (is_nonce (codes a.nonce)))
  amount ← parse_atomic_amount a.amount
  check (leb amount 0)
  check (not (is_some (dates.parse a.observed_at)))
  check (not (is_some (dates.parse a.valid_from)))
  check (not (is_some (dates.parse a.expires_at)))
  check (
      time_lt (dates.parse a.valid_from) (dates.parse a.observed_at)
      || time_le (dates.parse a.expires_at) (dates.parse a.valid_from))

-- `canonicalAttestationObject`, without its check
abbrev pub canonical_members : UnsignedAttestation → Json
canonical_members a = object (
    member "amount" (string a.amount) (
      member "assetId" (string a.asset_id) (
        member "attestationId" (string a.id) (
          member "destinationNetworkId" (string a.destination_network_id) (
            member "destinationNetworkType" (string a.destination_network_type) (
              member "eventType" (string a.event_type) (
                member "expiresAt" (string a.expires_at) (
                  member "nonce" (string a.nonce) (
                    member "observedAt" (string a.observed_at) (
                      member "observedStatePosition" (string a.observed_state_position) (
                        member "operationId" (string a.operation_id) (
                          member "policyVersion" (string a.policy_version) (
                            member "receiver" (string a.receiver) (
                              member "sender" (string a.sender) (
                                member "sourceEventPosition" (string a.source_event_position) (
                                  member "sourceNetworkId" (string a.source_network_id) (
                                    member "sourceNetworkType" (string a.source_network_type) (
                                      member "sourceTransactionId" (string a.source_transaction_id)
                                        (member "validFrom" (string a.valid_from) (
                                          member "version" (string a.version)
                                            no_members))))))))))))))))))))

abbrev between : String → String → String
between a b = concat a (concat "|" b)

-- `attestationDomain`
unfoldable pub attestation_domain : UnsignedAttestation → String
attestation_domain a =
    between "INTERWEAVE_ATTESTATION"
      (between a.version (between a.source_network_id a.destination_network_id))

module _ (dates : Dates) (texts : Texts) where
  unfoldable pub canonical_attestation_object : UnsignedAttestation → Result Json
  unfolding assert_unsigned_attestation
  canonical_attestation_object a =
      assert_unsigned_attestation dates a >>= λ done. ok (canonical_members a)

  unfoldable pub canonical_attestation_bytes : UnsignedAttestation → Result String
  unfolding canonical_attestation_object canonical_json attestation_domain
  canonical_attestation_bytes a = do
    json ← canonical_attestation_object a
    payload ← canonical_json texts json
    ok (concat (attestation_domain a) (concat "\0" payload))

  unfoldable pub attestation_digest : UnsignedAttestation → Result String
  unfolding canonical_attestation_bytes
  attestation_digest a = do
    bytes ← canonical_attestation_bytes a
    ok (concat "sha256:" (texts.sha256 bytes))

  unfoldable pub attestation_replay_key : UnsignedAttestation → String
  attestation_replay_key a =
      texts.sha256
        (between a.version (between a.operation_id (between a.nonce a.destination_network_id)))

  -- `timestamp(…)` of a signature, with the window of the attestation
  abbrev pub outside : UnsignedAttestation → String → Bool
  outside a signed_at =
      time_lt (dates.parse signed_at) (dates.parse a.observed_at)
      || time_le (dates.parse a.expires_at) (dates.parse signed_at)

  -- `signAttestation`, by the signer with an identity, an algorithm and a key, and its `sign`
  unfoldable pub sign_attestation :
      {W : Type 0}
      → UnsignedAttestation
      → String
      → String
      → String
      → (String → Exec W String)
      → String
      → Exec W ValidatorSignature
  unfolding canonical_attestation_bytes
  sign_attestation a validator_id algorithm public_key_id sign signed_at w =
      continue
        (
          check (not (is_some (dates.parse signed_at)) || outside a signed_at)
              >> check (is_blank validator_id || is_blank algorithm || is_blank public_key_id)
              >> canonical_attestation_bytes a,
          w,
        )
        (λ bytes w'. continue (sign bytes w') (λ signature w''. (
          ok (record {
            validator_id = validator_id;
            algorithm = algorithm;
            public_key_id = public_key_id;
            signature = signature;
            signed_at = signed_at;
          }),
          w'',
        )))

  abbrev pub input_of : ValidatorSignature → String → SignatureInput
  input_of s bytes = record {
    algorithm = s.algorithm;
    public_key_id = s.public_key_id;
    signature = s.signature;
    bytes = bytes;
  }

  -- `verifyAttestationSignature`
  unfoldable pub verify_attestation_signature :
      {W : Type 0}
      → (SignatureInput → Exec W Bool)
      → UnsignedAttestation
      → ValidatorSignature
      → Exec W Bool
  unfolding assert_unsigned_attestation canonical_attestation_bytes
  verify_attestation_signature verifier a s w =
      continue
        (assert_unsigned_attestation dates a >> check (not (is_some (dates.parse s.signed_at))), w)
        (λ done w'.
          if outside a s.signed_at
          then (ok false, w')
          else continue (canonical_attestation_bytes a, w') (λ bytes. verifier (input_of s bytes)))

-- `sort` by `localeCompare` of the validators' identifiers, which says what stands before what
unfoldable pub insert_signature :
    (String → String → Bool)
    → ValidatorSignature
    → List ValidatorSignature
    → List ValidatorSignature
insert_signature before s [] = s ∷ []
insert_signature before s (x ∷ rest) =
    if before s.validator_id x.validator_id
    then s ∷ x ∷ rest
    else x ∷ insert_signature before s rest

unfoldable pub sort_signatures :
    (String → String → Bool)
    → List ValidatorSignature
    → List ValidatorSignature
    → List ValidatorSignature
unfolding insert_signature
sort_signatures before sorted [] = sorted
sort_signatures before sorted (s ∷ rest) =
    sort_signatures before (insert_signature before s sorted) rest

-- `attachAttestationSignature`
unfoldable pub attach_attestation_signature :
    Dates → (String → String → Bool) → Attestation → ValidatorSignature → Result Attestation
unfolding assert_unsigned_attestation sort_signatures
attach_attestation_signature dates before a s = do
  assert_unsigned_attestation dates a.unsigned
  reject_if (any (λ x. x.validator_id == s.validator_id) a.signatures) (registry conflict)
  ok (record a { signatures = sort_signatures before [] (a.signatures ++ s ∷ []) })
