-- ===== src/Attestation/Aggregator.antt =====
-- AttestationAggregator of threshold-attestation.ts. The verifier of signatures and the clock keep
-- their own world, and the verifier may throw.
use canton_evmcrosschain.Prelude.{
  ℕ, String, Bool, true, false, not, ◌&&◌, ◌||◌, Option, none, some, List, [], ◌∷◌, ◌==◌, map, any,
  length, ltb, is_some, if◌then◌else◌,
}
use canton_evmcrosschain.Failures.{Result, ok, err, ◌>>=◌, ◌>>◌, Exec}
use canton_evmcrosschain.Exec.{continue}
use canton_evmcrosschain.Dict
use canton_evmcrosschain.Dict.{Dict}
use canton_evmcrosschain.Dates.{Dates, time_lt, time_le}
use canton_evmcrosschain.Idempotency.Canonical.{Texts}
use canton_evmcrosschain.Attestation.Protocol.{
  UnsignedAttestation, ValidatorSignature, Attestation, SignatureInput, assert_unsigned_attestation,
  verify_attestation_signature, sort_signatures, attach_attestation_signature,
}
use canton_evmcrosschain.Attestation.ValidatorSets.{
  ValidatorMember, ValidatorSet, Sets, given, resolve,
}

pub data SignatureRejectionCode : Type 0 where
  duplicate_validator not_a_member member_disabled : SignatureRejectionCode
  key_mismatch invalid_signature : SignatureRejectionCode

pub record RejectedValidatorSignature : Type 0 where
  pub rejected_id : String
  pub rejected_for : SignatureRejectionCode

pub data RejectionReason : Type 0 where
  insufficient_threshold invalid_signatures expired : RejectionReason

-- The set's identifier, its threshold and the validators with a valid signature; for a rejection
-- also the rejected signatures and the reason.
pub data ThresholdVerification : Type 0 where
  satisfied : String → ℕ → List String → ThresholdVerification
  rejected :
      String
      → ℕ
      → List String
      → List RejectedValidatorSignature
      → RejectionReason
      → ThresholdVerification

pub record Checked : Type 0 where
  pub valid_signatures : List ValidatorSignature
  pub rejected_signatures : List RejectedValidatorSignature

-- What the aggregator is given: `before` is the order of `localeCompare`.
pub record Services (W : Type 0) : Type 0 where
  pub dates : Dates
  pub texts : Texts
  pub before : String → String → Bool
  pub clock : W → ℕ × W
  pub verifier : SignatureInput → Exec W Bool

-- `new Map(set.members.map(…))`
unfoldable pub members_by_id : Dict ValidatorMember → List ValidatorMember → Dict ValidatorMember
members_by_id found [] = found
members_by_id found (m ∷ members) = members_by_id (Dict.insert m.validator_id m found) members

abbrev pub is_empty : List RejectedValidatorSignature → Bool
is_empty [] = true
is_empty (r ∷ rest) = false

abbrev pub ids_of : List ValidatorSignature → List String
ids_of signatures = map (λ (s : ValidatorSignature). s.validator_id) signatures

-- `result`
unfoldable pub verification_of : ValidatorSet → Checked → Bool → ThresholdVerification
verification_of set checked over =
    let ids = ids_of checked.valid_signatures in
    if over
    then rejected set.id set.threshold ids checked.rejected_signatures expired
    else if not (is_empty checked.rejected_signatures)
    then rejected set.id set.threshold ids checked.rejected_signatures invalid_signatures
    else if ltb (length checked.valid_signatures) set.threshold
    then rejected set.id set.threshold ids [] insufficient_threshold
    else satisfied set.id set.threshold ids

module _ {W : Type 0} (services : Services W) where
  abbrev pub has_ended : Option ℕ → Option String → Bool
  has_ended time none = false
  has_ended time (some until) = time_le (services.dates.parse until) time

  -- `signedAt < Date.parse(member.enabledFrom) || (member.disabledAt && signedAt >= …)`
  abbrev pub is_disabled : ValidatorMember → Option ℕ → Bool
  is_disabled m time =
      time_lt time (services.dates.parse m.enabled_from) || has_ended time (given m.disabled_at)

  abbrev pub has_key : ValidatorMember → ValidatorSignature → Bool
  has_key m s = s.algorithm == m.algorithm && s.public_key_id == m.public_key_id

  -- `try { if (!await verifyAttestationSignature(…)) … } catch { … }`
  abbrev pub caught : Result Bool × W → Option SignatureRejectionCode × W
  caught (ok true, w) = (none, w)
  caught (ok false, w) = (some invalid_signature, w)
  caught (err e, w) = (some invalid_signature, w)

  -- Why the signature of a validator who has not signed yet is rejected, if it is.
  unfoldable pub verdict :
      UnsignedAttestation
      → Option ValidatorMember
      → ValidatorSignature
      → W
      → Option SignatureRejectionCode × W
  verdict a none s w = (some not_a_member, w)
  verdict a (some m) s w =
      if not (is_some (services.dates.parse s.signed_at))
      then (some invalid_signature, w)
      else if is_disabled m (services.dates.parse s.signed_at)
      then (some member_disabled, w)
      else if not (has_key m s)
      then (some key_mismatch, w)
      else caught
          (verify_attestation_signature services.dates services.texts services.verifier a s w)

  abbrev pub with_rejected : ValidatorSignature → SignatureRejectionCode → Checked → Checked
  with_rejected s code c = record c {
    rejected_signatures =
        record { rejected_id = s.validator_id; rejected_for = code } ∷ c.rejected_signatures;
  }

  abbrev pub with_verdict : Option SignatureRejectionCode → ValidatorSignature → Checked → Checked
  with_verdict none s c = record c { valid_signatures = s ∷ c.valid_signatures }
  with_verdict (some code) s c = with_rejected s code c

  -- The loop of `#check`, with the validators that it has seen.
  unfoldable pub check_loop :
      UnsignedAttestation
      → Dict ValidatorMember
      → List String
      → List ValidatorSignature
      → W
      → Checked × W
  unfolding verdict
  check_loop a members seen [] w = (record { valid_signatures = []; rejected_signatures = [] }, w)
  check_loop a members seen (s ∷ rest) w = elim (any (λ i. i == s.validator_id) seen) [
    | true ↦
        let (c, w') = check_loop a members seen rest w in
        (with_rejected s duplicate_validator c, w')
    | false ↦
        let (v, w') = verdict a (Dict.lookup s.validator_id members) s w in
        let (c, w'') = check_loop a members (s.validator_id ∷ seen) rest w' in
        (with_verdict v s c, w'')
  ]

  -- `#check`
  unfoldable pub check_signatures :
      UnsignedAttestation → ValidatorSet → List ValidatorSignature → W → Checked × W
  unfolding check_loop members_by_id sort_signatures
  check_signatures a set signatures w =
      let (c, w') = check_loop a (members_by_id [] set.members) [] signatures w in
      (record c { valid_signatures = sort_signatures services.before [] c.valid_signatures }, w')

  -- The verification at the time of the clock.
  unfoldable pub verified :
      UnsignedAttestation → ValidatorSet → Checked × W → Result ThresholdVerification × W
  unfolding verification_of
  verified a set (c, w) =
      let (t, w') = services.clock w in
      (ok (verification_of set c (time_le (services.dates.parse a.expires_at) (some t))), w')

  unfoldable pub resolved : Sets → UnsignedAttestation → String → Result ValidatorSet
  unfolding assert_unsigned_attestation resolve
  resolved sets a validator_set_id =
      assert_unsigned_attestation services.dates a
      >> resolve services.dates validator_set_id a.valid_from sets

  -- `verify`
  unfoldable pub verify : Sets → Attestation → String → Exec W ThresholdVerification
  unfolding resolved check_signatures verified
  verify sets attestation validator_set_id w =
      let a = attestation.unsigned in
      continue (resolved sets a validator_set_id, w)
        (λ set w'. verified a set (check_signatures a set attestation.signatures w'))

  unfoldable pub attach_all : Attestation → List ValidatorSignature → Result Attestation
  unfolding attach_attestation_signature
  attach_all attestation [] = ok attestation
  attach_all attestation (s ∷ rest) = do
    attestation' ← attach_attestation_signature services.dates services.before attestation s
    attach_all attestation' rest

  -- `aggregate`
  unfoldable pub aggregate :
      Sets
      → UnsignedAttestation
      → String
      → List ValidatorSignature
      → Exec W (Attestation × ThresholdVerification)
  unfolding resolved check_signatures verified attach_all
  aggregate sets a validator_set_id signatures w =
      continue (resolved sets a validator_set_id, w)
        (λ set w'.
          let (c, w'') = check_signatures a set signatures w' in
          continue (attach_all (record { unsigned = a; signatures = [] }) c.valid_signatures, w'')
            (λ attestation w3.
              continue (verified a set (c, w3)) (λ v w4. (ok (attestation, v), w4))))
