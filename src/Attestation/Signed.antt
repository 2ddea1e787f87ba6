-- ===== src/Attestation/Signed.antt =====
-- What a satisfied verification of threshold-attestation.ts says.
use canton_evmcrosschain.Prelude.{
  ℕ, ◌≤◌, String, ◌≡◌, refl, Bool, true, false, Option, none, some, List, [], ◌∷◌, ◌==◌, any,
  length, All, arith, Bool-cases, inl, inr,
}
use canton_evmcrosschain.Failures.{ok, >>=-eq-ok, Result-cases}
use canton_evmcrosschain.Dict
use canton_evmcrosschain.Dict.{Dict}
use canton_evmcrosschain.Dates.{time_le}
use canton_evmcrosschain.Attestation.Protocol.{
  UnsignedAttestation, ValidatorSignature, Attestation, SignatureInput, assert_unsigned_attestation,
  sort_signatures,
}
use canton_evmcrosschain.Attestation.ValidatorSets.{ValidatorMember, ValidatorSet, Sets, resolve}
use canton_evmcrosschain.Attestation.Aggregator.{
  SignatureRejectionCode, duplicate_validator, satisfied, Checked, Services, members_by_id, ids_of,
  verification_of, verdict, with_verdict, with_rejected, check_loop, check_signatures, verified,
  resolved, verify,
}
use canton_evmcrosschain.Attestation.Counts.{Counts, verdict-Counts}
use canton_evmcrosschain.Attestation.Lists.{Has, All-map, IsDistinct, sort-All, sort-IsDistinct}

-- `IsGenuine` is what the verifier answers for.
module _ {W : Type 0} (services : Services W) (IsGenuine : SignatureInput → Type 0)
    (sound : (input : SignatureInput) (w : W)
      → (services.verifier input w).0 ≡ ok true
      → IsGenuine input) where
  abbrev Unseen : List String → ValidatorSignature → Type 0
  Unseen seen s = any (λ i. i == s.validator_id) seen ≡ false

  -- What the loop of `#check` gives: signatures that count, of validators not seen before, each once.
  record IsChecked (a : UnsignedAttestation) (members : List ValidatorMember) (seen : List String)
      (signatures : List ValidatorSignature) (c : Checked) : Type 0 where
    each :
        All (λ s. Has s signatures × Counts services IsGenuine sound a members s) c.valid_signatures
    distinct : IsDistinct c.valid_signatures
    unseen : All (Unseen seen) c.valid_signatures

  skipped-IsChecked :
      (a : UnsignedAttestation) (members : List ValidatorMember) (seen : List String)
      (s : ValidatorSignature) (code : SignatureRejectionCode) (rest : List ValidatorSignature)
      (c : Checked)
      → IsChecked a members seen rest c
      → IsChecked a members seen (s ∷ rest) (with_rejected services s code c)
  skipped-IsChecked a members seen s code rest c h = record {
    each = All-map c.valid_signatures (λ x k. (inr k.0, k.1)) h.each;
    distinct = h.distinct;
    unseen = h.unseen;
  }

  fewer_seen :
      (a : UnsignedAttestation) (members : List ValidatorMember) (seen : List String) (i : String)
      (rest : List ValidatorSignature) (c : Checked)
      → IsChecked a members (i ∷ seen) rest c
      → IsChecked a members seen rest c
  fewer_seen a members seen i rest c h = record {
    each = h.each;
    distinct = h.distinct;
    unseen = All-map c.valid_signatures (λ x k. ground arith) h.unseen;
  }

  judged-IsChecked :
      (a : UnsignedAttestation) (members : List ValidatorMember) (seen : List String)
      (s : ValidatorSignature) (v : Option SignatureRejectionCode) (rest : List ValidatorSignature)
      (c : Checked)
      → Unseen seen s
      → (v ≡ none → Counts services IsGenuine sound a members s)
      → IsChecked a members (s.validator_id ∷ seen) rest c
      → IsChecked a members seen (s ∷ rest) (with_verdict services v s c)
  judged-IsChecked a members seen s none rest c new counts h = record {
    each = ((inl refl, counts refl), All-map c.valid_signatures (λ x k. (inr k.0, k.1)) h.each);
    distinct = (All-map c.valid_signatures (λ x k. ground arith) h.unseen, h.distinct);
    unseen = (new, All-map c.valid_signatures (λ x k. ground arith) h.unseen);
  }
  judged-IsChecked a members seen s (some code) rest c new counts h =
      skipped-IsChecked a members seen s code rest c
        (fewer_seen a members seen s.validator_id rest c h)

  check_loop-IsChecked :
      (a : UnsignedAttestation) (members : List ValidatorMember) (seen : List String)
      (signatures : List ValidatorSignature) (w : W)
      → IsChecked a members seen signatures
          (check_loop services a (members_by_id [] members) seen signatures w).0
  unfolding check_loop
  check_loop-IsChecked a members seen [] w = record { each = tt; distinct = tt; unseen = tt }
  check_loop-IsChecked a members seen (s ∷ rest) w =
      elim (Bool-cases (any (λ i. i == s.validator_id) seen)) [
        | inl again ↦
            rw (again, check_loop)
              (skipped-IsChecked a members seen s duplicate_validator rest
                (check_loop services a (members_by_id [] members) seen rest w).0
                (check_loop-IsChecked a members seen rest w))
        | inr new ↦
            let found = Dict.lookup s.validator_id (members_by_id [] members) in
            let p = verdict services a found s w in
            rw (new, check_loop)
              (judged-IsChecked a members seen s p.0 rest
                (check_loop services a (members_by_id [] members) (s.validator_id ∷ seen) rest
                  p.1).0
                new (verdict-Counts services IsGenuine sound a members found s w refl)
                (check_loop-IsChecked a members (s.validator_id ∷ seen) rest p.1))
      ]

  -- The signatures that back a satisfied verification.
  pub record IsBacked (sets : Sets) (a : UnsignedAttestation) (id : String)
      (signatures : List ValidatorSignature) (threshold : ℕ) (ids : List String) : Type 0 where
    pub set : ValidatorSet
    pub is_resolved : resolve services.dates id a.valid_from sets ≡ ok set
    pub is_threshold : set.threshold ≡ threshold
    pub backing : List ValidatorSignature
    pub ids_are : ids_of backing ≡ ids
    pub enough : threshold ≤ length backing
    pub distinct : IsDistinct backing
    pub each : All (λ s. Has s signatures × Counts services IsGenuine sound a set.members s) backing

  verification_of-satisfied :
      (set : ValidatorSet) (c : Checked) (over : Bool) (id : String) (threshold : ℕ)
      (ids : List String)
      → verification_of set c over ≡ satisfied id threshold ids
      → (set.threshold ≡ threshold)
        × (ids_of c.valid_signatures ≡ ids)
        × (set.threshold ≤ length c.valid_signatures)
  unfolding verification_of
  verification_of-satisfied set c over id threshold ids h =
      (ground arith, ground arith, ground arith)

  -- If `verify` says SATISFIED for the identifier of a validator set, with a threshold and
  -- identifiers of validators, then the set resolves at the start of the attestation's validity, the
  -- threshold is that of the set, and the identifiers are those of at least so many signatures of the
  -- attestation, each by a different validator, and each by a member of the set that is enabled when it
  -- is signed, with the member's algorithm and key, in the window of the attestation, and genuine for
  -- the bytes of the attestation: if the verifier, in whatever state, answers true only for what is
  -- genuine.
  pub verify-IsBacked :
      (sets : Sets) (attestation : Attestation) (id : String) (w : W) (set_id : String)
      (threshold : ℕ) (ids : List String)
      → (verify services sets attestation id w).0 ≡ ok (satisfied set_id threshold ids)
      → IsBacked sets attestation.unsigned id attestation.signatures threshold ids
  unfolding verify resolved check_signatures verified
  verify-IsBacked sets attestation id w set_id threshold ids =
      let a = attestation.unsigned in
      elim (Result-cases (resolved services sets a id)) [
        | inr (e, bad) ↦ rw (bad, verify) (λ h. cc h)
        | inl (set, found) ↦
            rw (found, verify)
              (λ h.
                let (u, valid, resolves) =
                  >>=-eq-ok (assert_unsigned_attestation services.dates a) _ found in
                let q =
                  check_loop services a (members_by_id [] set.members) [] attestation.signatures
                    w in
                let c = q.0 in
                let sorted = sort_signatures services.before [] c.valid_signatures in
                let c' : Checked = record c { valid_signatures = sorted } in
                let over =
                  time_le (services.dates.parse a.expires_at) (some (services.clock q.1).0) in
                let says : verification_of set c' over ≡ satisfied set_id threshold ids = cc h in
                let (same, names, many) =
                  verification_of-satisfied set c' over set_id threshold ids says in
                let k = check_loop-IsChecked a set.members [] attestation.signatures w in
                record {
                  set = set;
                  is_resolved = resolves;
                  is_threshold = same;
                  backing = sorted;
                  ids_are = names;
                  enough = omega (arith, many, same);
                  distinct =
                      sort-IsDistinct services.before [] c.valid_signatures tt k.distinct
                        (All-map c.valid_signatures (λ x d. tt) k.each);
                  each =
                      sort-All services.before
                        (λ s.
                          Has s attestation.signatures
                          × Counts services IsGenuine sound a set.members s)
                        [] c.valid_signatures tt k.each;
                })
      ]
