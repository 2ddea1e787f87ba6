-- ===== src/Attestation/Counts.antt =====
-- Which signatures count for threshold-attestation.ts.
use canton_evmcrosschain.Prelude.{
  String, ◌≡◌, ◌⊎◌, refl, subst, Bool, true, false, not, Option, none, some, List, [], ◌∷◌, is_some,
  Bool-cases, inl, inr,
}
use canton_evmcrosschain.Failures.{Result, ok, err, ◌>>◌, Result-cases}
use canton_evmcrosschain.Dict
use canton_evmcrosschain.Dict.{Dict}
use canton_evmcrosschain.Attestation.Protocol.{
  UnsignedAttestation, ValidatorSignature, SignatureInput, check, outside, input_of,
  assert_unsigned_attestation, canonical_attestation_bytes, verify_attestation_signature,
}
use canton_evmcrosschain.Attestation.ValidatorSets.{ValidatorMember}
use canton_evmcrosschain.Attestation.Aggregator.{
  Services, members_by_id, is_disabled, has_key, caught, verdict,
}
use canton_evmcrosschain.Attestation.Lists.{Has}

members_by_id-cases :
    (id : String) (m : ValidatorMember) (found : Dict ValidatorMember)
    (members : List ValidatorMember)
    → Dict.lookup id (members_by_id found members) ≡ some m
    → ((m.validator_id ≡ id) × Has m members) ⊎ (Dict.lookup id found ≡ some m)
unfolding members_by_id
members_by_id-cases id m found [] h = inr h
members_by_id-cases id m found (x ∷ members) h =
    elim (members_by_id-cases id m (Dict.insert x.validator_id x found) members h) [
      | inl (named, later) ↦ inl (named, inr later)
      | inr old ↦ elim (Dict.insert-cases x.validator_id id x m found old) [
        | inl (here, same) ↦ inl (
            subst (λ (y : ValidatorMember). (y.validator_id ≡ id) × Has y (x ∷ members)) same
              (here, inl refl))
        | inr (there, older) ↦ inr older
      ]
    ]

-- `IsGenuine` is what the verifier answers for.
module _ {W : Type 0} (services : Services W) (IsGenuine : SignatureInput → Type 0)
    (sound : (input : SignatureInput) (w : W)
      → (services.verifier input w).0 ≡ ok true
      → IsGenuine input) where
  -- A signature counts: its validator is a member that is enabled when it is signed, with its key, it
  -- is signed in the window of the attestation, and it is genuine for the bytes of the attestation.
  pub record Counts (a : UnsignedAttestation) (members : List ValidatorMember)
      (s : ValidatorSignature) : Type 0 where
    pub signer : ValidatorMember
    pub is_signer : (signer.validator_id ≡ s.validator_id) × Has signer members
    pub is_enabled : is_disabled services signer (services.dates.parse s.signed_at) ≡ false
    pub same_key : has_key services signer s ≡ true
    pub in_window : outside services.dates services.texts a s.signed_at ≡ false
    pub bytes : String
    pub has_bytes : canonical_attestation_bytes services.dates services.texts a ≡ ok bytes
    pub is_genuine : IsGenuine (input_of services.dates services.texts s bytes)

  caught-none : (q : Result Bool) (w : W) → (caught services (q, w)).0 ≡ none → q ≡ ok true
  caught-none (ok true) w h = refl
  caught-none (ok false) w h = cc h
  caught-none (err e) w h = cc h

  -- A verification that answers true.
  record Answered (a : UnsignedAttestation) (s : ValidatorSignature) : Type 0 where
    window : outside services.dates services.texts a s.signed_at ≡ false
    text : String
    has_text : canonical_attestation_bytes services.dates services.texts a ≡ ok text
    genuine : IsGenuine (input_of services.dates services.texts s text)

  verify_attestation_signature-Answered :
      (a : UnsignedAttestation) (s : ValidatorSignature) (w : W)
      → (verify_attestation_signature services.dates services.texts services.verifier a s w).0
        ≡ ok true
      → Answered a s
  unfolding verify_attestation_signature
  verify_attestation_signature-Answered a s w =
      elim (Result-cases (
        assert_unsigned_attestation services.dates a
        >> check (not (is_some (services.dates.parse s.signed_at))))) [
          | inr (e, bad) ↦ rw (bad, verify_attestation_signature) (λ h. cc h)
          | inl (u, good) ↦
              elim (Bool-cases (outside services.dates services.texts a s.signed_at)) [
                | inl out ↦ rw (good, out, verify_attestation_signature) (λ h. cc h)
                | inr inside ↦
                    elim (Result-cases
                      (canonical_attestation_bytes services.dates services.texts a)) [
                        | inr (e, bad) ↦
                            rw (good, inside, bad, verify_attestation_signature) (λ h. cc h)
                        | inl (bytes, printed) ↦
                            rw (good, inside, printed, verify_attestation_signature)
                              (λ h. record {
                                window = inside;
                                text = bytes;
                                has_text = printed;
                                genuine =
                                    sound (input_of services.dates services.texts s bytes) w h;
                              })
                      ]
              ]
        ]

  pub verdict-Counts :
      (a : UnsignedAttestation) (members : List ValidatorMember) (found : Option ValidatorMember)
      (s : ValidatorSignature) (w : W)
      → Dict.lookup s.validator_id (members_by_id [] members) ≡ found
      → (verdict services a found s w).0 ≡ none
      → Counts a members s
  unfolding verdict Dict.lookup
  verdict-Counts a members none s w e = λ h. cc h
  verdict-Counts a members (some m) s w e =
      elim (Bool-cases (is_some (services.dates.parse s.signed_at))) [
        | inr nan ↦ rw (nan, verdict) (λ h. cc h)
        | inl dated ↦
            elim (Bool-cases (is_disabled services m (services.dates.parse s.signed_at))) [
              | inl off ↦ rw (dated, off, verdict) (λ h. cc h)
              | inr on ↦ elim (Bool-cases (has_key services m s)) [
                | inr wrong ↦ rw (dated, on, wrong, verdict) (λ h. cc h)
                | inl key ↦
                    let p =
                      verify_attestation_signature services.dates services.texts services.verifier a
                        s w in
                    rw (dated, on, key, verdict)
                      (λ h.
                        let answer =
                          verify_attestation_signature-Answered a s w (caught-none p.0 p.1 h) in
                        record {
                          signer = m;
                          is_signer = elim (members_by_id-cases s.validator_id m [] members e) [
                            | inl member ↦ member
                            | inr nothing ↦ cc nothing
                          ];
                          is_enabled = on;
                          same_key = key;
                          in_window = answer.window;
                          bytes = answer.text;
                          has_bytes = answer.has_text;
                          is_genuine = answer.genuine;
                        })
              ]
            ]
      ]
