-- ===== src/Identity/Registry.antt =====
-- InMemoryIdentityRegistry of identity-registry.ts. The registry of networks is one that stays as it
-- is; the clock, the random identifiers and the verifiers of proofs keep their own world.
use canton_evmcrosschain.Prelude.{
  ℕ, ◌+◌, ◌*◌, String, Bool, true, false, not, ◌&&◌, ◌||◌, Option, none, some, List, [], ◌∷◌, ◌++◌,
  ◌==◌, ltb, any, filter, find?, is_some, is_blank, has_prefix, map, concat, if◌then◌else◌,
}
use canton_evmcrosschain.Failures.{
  registry, invalid_argument, already_exists, not_found, conflict, Result, ok, err, reject_if,
  require, Exec,
}
use canton_evmcrosschain.Exec.{◌>>=◌, ◌>>◌, pure, lift}
use canton_evmcrosschain.Served.{Served, ask_world, read_clock}
use canton_evmcrosschain.Dict
use canton_evmcrosschain.Dict.{Dict}
use canton_evmcrosschain.Dates.{Dates, time_lt, time_le}
use canton_evmcrosschain.Network.Registry.{Network, Networks}
use canton_evmcrosschain.Identity.Challenges.{
  NetworkIdentityLocator, IdentityProofKind, IdentityChallenge, IdentityProof,
  VerifiedIdentityProof, NetworkIdentity, Identity, AuditAction, identity_created, challenge_issued,
  binding_verified, binding_revoked, IdentityBindingAuditEvent, check, is_missing, kind_of,
  proof_kind_of, same_kind, normalize_locator, locator_key, identity_challenge_message,
}

pub record Identities : Type 0 where
  pub identities : Dict Identity
  pub challenges : Dict IdentityChallenge
  pub audit : List IdentityBindingAuditEvent

-- IdentityRegistryDependencies, and `toLowerCase`. A number of seconds that is no safe natural one
-- is refused as 0 is, and stands as 0.
pub record Services (W : Type 0) : Type 0 where
  pub dates : Dates
  pub lower : String → String
  pub networks : Networks
  pub clock : W → ℕ × W
  pub random_id : Exec W String
  pub verifier_for :
      IdentityProofKind
      → Option (IdentityChallenge → IdentityProof → Exec W (Option VerifiedIdentityProof))

abbrev pub all_bindings : Dict Identity → List NetworkIdentity
all_bindings [] = []
all_bindings ((id, identity) ∷ rest) = identity.bindings ++ all_bindings rest

module _ {W : Type 0} where
  unfoldable pub on_identities : (Identities → Identities) → Exec (Served Identities W) (Unit {0})
  on_identities f s = (ok tt, record s { stored = f s.stored })

  unfoldable pub stored_identities : Exec (Served Identities W) Identities
  stored_identities s = (ok s.stored, s)

module _ {W : Type 0} (services : Services W) where
  abbrev pub Registered : Type 0
  Registered = Served Identities W

  abbrev pub iso : ℕ → String
  iso t = services.dates.to_iso t

  -- `#assertActor`
  abbrev pub assert_actor : String → Exec Registered (Unit {0})
  assert_actor actor = lift (check (is_blank actor))

  abbrev pub random_with : String → Exec Registered String
  random_with prefix = ask_world services.random_id >>= λ id. pure (concat prefix id)

  -- `#record`
  unfoldable pub record_event :
      String
      → Option String
      → Option String
      → AuditAction
      → String
      → String
      → Option String
      → Exec Registered (Unit {0})
  unfolding on_identities
  record_event identity_id binding_id challenge_id action actor occurred_at proof_fingerprint = do
    assert_actor actor
    event_id ← random_with "IW:IDENTITY_AUDIT:"
    on_identities (λ s. record s {
      audit =
          s.audit
          ++ record {
            event_id = event_id;
            identity_id = identity_id;
            binding_id = binding_id;
            challenge_id = challenge_id;
            action = action;
            actor = actor;
            occurred_at = occurred_at;
            proof_fingerprint = proof_fingerprint;
          }
            ∷ [];
    })

  abbrev pub is_blank_name : Option String → Bool
  is_blank_name none = false
  is_blank_name (some name) = is_blank name

  unfoldable pub create_identity : String → Option String → String → Exec Registered Identity
  unfolding stored_identities on_identities record_event
  create_identity id display_name actor = do
    lift (check (not (has_prefix "IW:IDENTITY:" id) || id == "IW:IDENTITY:"))
    assert_actor actor
    lift (check (is_blank_name display_name))
    s ← stored_identities
    lift (reject_if (is_some (Dict.lookup id s.identities)) (registry already_exists))
    t ← read_clock services.clock
    let identity : Identity = record {
      id = id;
      display_name = display_name;
      bindings = [];
      created_at = iso t;
    }
    on_identities (λ s. record s { identities = Dict.insert id identity s.identities })
    record_event id none none identity_created actor (iso t) none
    pure identity

  unfoldable pub get_identity : String → Exec Registered (Option Identity)
  unfolding stored_identities
  get_identity id = stored_identities >>= λ s. pure (Dict.lookup id s.identities)

  abbrev pub enabled_network : Option Network → Result Network
  enabled_network none = err (registry not_found)
  enabled_network (some n) = if n.enabled then ok n else err (registry not_found)

  unfoldable pub issue_challenge :
      String → String → NetworkIdentityLocator → ℕ → String → Exec Registered IdentityChallenge
  unfolding stored_identities on_identities record_event normalize_locator
      identity_challenge_message
  issue_challenge identity_id network_id locator ttl_seconds actor = do
    assert_actor actor
    s ← stored_identities
    lift (reject_if (not (is_some (Dict.lookup identity_id s.identities))) (registry not_found))
    network ← lift (enabled_network (Dict.lookup network_id services.networks))
    lift (check (not (network.network_type == kind_of locator)))
    lift (check (ltb ttl_seconds 1 || ltb 900 ttl_seconds))
    normal ← lift (normalize_locator services.lower locator)
    t ← read_clock services.clock
    id ← random_with "IW:IDENTITY_CHALLENGE:"
    nonce ← ask_world services.random_id
    let base : IdentityChallenge = record {
      id = id;
      identity_id = identity_id;
      network_id = network_id;
      locator = normal;
      proof_kind = proof_kind_of normal;
      nonce = nonce;
      message = "";
      issued_at = iso t;
      expires_at = iso (t + ttl_seconds * 1000);
      consumed_at = none;
    }
    let challenge = record base { message = identity_challenge_message services.lower base }
    on_identities (λ s. record s { challenges = Dict.insert id challenge s.challenges })
    record_event identity_id none (some id) challenge_issued actor (iso t) none
    pure challenge

  abbrev pub is_unexpired : ℕ → Option String → Bool
  is_unexpired t none = true
  is_unexpired t (some e) = e == "" || time_lt (some t) (services.dates.parse e)

  -- A binding is active at a time: it is not revoked and not expired.
  abbrev pub is_active : ℕ → NetworkIdentity → Bool
  is_active t b = is_missing b.revoked_at && is_unexpired t b.expires_at

  abbrev pub key_of : NetworkIdentity → String
  key_of b = locator_key services.lower b.network_id b.locator

  abbrev pub bad_expiry : ℕ → Option String → Bool
  bad_expiry t none = false
  bad_expiry t (some e) =
      not (is_some (services.dates.parse e)) || time_le (services.dates.parse e) (some t)

  -- `verifyChallenge` up to the answer of the verifier: the challenge, the time, and the answer.
  -- Other calls may come between this part and the next.
  unfoldable pub begin_verification :
      String
      → IdentityProof
      → Option String
      → String
      → Exec Registered (IdentityChallenge × ℕ × VerifiedIdentityProof)
  unfolding stored_identities
  begin_verification challenge_id proof binding_expires_at actor = do
    assert_actor actor
    s ← stored_identities
    challenge ← lift (require (Dict.lookup challenge_id s.challenges) (registry not_found))
    lift (reject_if (not (is_missing challenge.consumed_at)) (registry conflict))
    t ← read_clock services.clock
    lift (
        reject_if (time_le (services.dates.parse challenge.expires_at) (some t))
          (registry conflict))
    lift (check (not (same_kind proof.kind challenge.proof_kind)))
    lift (check (bad_expiry t binding_expires_at))
    verify ← lift (require (services.verifier_for proof.kind) (registry invalid_argument))
    answer ← ask_world (verify challenge proof)
    verified ← lift (require answer (registry invalid_argument))
    pure (challenge, t, verified)

  abbrev pub is_active_for : ℕ → String → NetworkIdentity → Bool
  is_active_for t key b = is_active t b && key_of b == key

  abbrev pub has_active : ℕ → String → Dict Identity → Bool
  has_active t key identities = any (is_active_for t key) (all_bindings identities)

  -- `verifyChallenge` from the answer of the verifier on
  unfoldable pub finish_verification :
      String
      → IdentityChallenge
      → ℕ
      → VerifiedIdentityProof
      → Option String
      → String
      → Exec Registered NetworkIdentity
  unfolding stored_identities on_identities record_event locator_key
  finish_verification challenge_id challenge t verified binding_expires_at actor = do
    s ← stored_identities
    identity ← lift (require (Dict.lookup challenge.identity_id s.identities) (registry not_found))
    lift (
        reject_if
          (has_active t (locator_key services.lower challenge.network_id challenge.locator)
            s.identities)
          (registry conflict))
    binding_id ← random_with "IW:BINDING:"
    let binding : NetworkIdentity = record {
      binding_id = binding_id;
      network_id = challenge.network_id;
      locator = challenge.locator;
      proof_method = verified.method;
      verified_at = iso t;
      expires_at = binding_expires_at;
      revoked_at = none;
    }
    on_identities (λ s. record s {
      identities =
          Dict.insert identity.id (record identity { bindings = identity.bindings ++ binding ∷ [] })
            s.identities;
      challenges =
          Dict.insert challenge_id (record challenge { consumed_at = some (iso t) }) s.challenges;
    })
    record_event identity.id (some binding_id) (some challenge_id) binding_verified actor (iso t)
        (some verified.proof_fingerprint)
    pure binding

  unfoldable pub verify_challenge :
      String → IdentityProof → Option String → String → Exec Registered NetworkIdentity
  unfolding begin_verification finish_verification
  verify_challenge challenge_id proof binding_expires_at actor =
      begin_verification challenge_id proof binding_expires_at actor >>= λ p.
      finish_verification challenge_id p.0 p.1 p.2 binding_expires_at actor

  abbrev pub with_revoked : String → NetworkIdentity → Identity → Identity
  with_revoked binding_id revoked identity = record identity {
    bindings = map (λ b. if b.binding_id == binding_id then revoked else b) identity.bindings;
  }

  unfoldable pub revoke_binding : String → String → String → Exec Registered NetworkIdentity
  unfolding stored_identities on_identities record_event
  revoke_binding identity_id binding_id actor = do
    assert_actor actor
    s ← stored_identities
    identity ← lift (require (Dict.lookup identity_id s.identities) (registry not_found))
    binding ←
        lift
          (require (find? (λ b. b.binding_id == binding_id) identity.bindings) (registry not_found))
    lift (reject_if (not (is_missing binding.revoked_at)) (registry conflict))
    t ← read_clock services.clock
    let revoked = record binding { revoked_at = some (iso t) }
    on_identities (λ s. record s {
      identities = Dict.insert identity_id (with_revoked binding_id revoked identity) s.identities;
    })
    record_event identity_id (some binding_id) none binding_revoked actor (iso t) none
    pure revoked

  abbrev pub is_on : Option String → NetworkIdentity → Bool
  is_on none b = true
  is_on (some network_id) b = b.network_id == network_id

  unfoldable pub active_bindings : String → Option String → Exec Registered (List NetworkIdentity)
  unfolding stored_identities
  active_bindings identity_id network_id = do
    s ← stored_identities
    identity ← lift (require (Dict.lookup identity_id s.identities) (registry not_found))
    t ← read_clock services.clock
    pure (filter (λ b. is_active t b && is_on network_id b) identity.bindings)

  unfoldable pub audit_trail : String → Exec Registered (List IdentityBindingAuditEvent)
  unfolding stored_identities
  audit_trail identity_id =
      stored_identities >>= λ s. pure (filter (λ e. e.identity_id == identity_id) s.audit)
