-- ===== src/Identity/Calls.antt =====
-- Calls of the registry of identity-registry.ts, in any order, keep the bindings exclusive.
use canton_evmcrosschain.Prelude.{
  ℕ, ◌≤◌, String, ◌≡◌, refl, sym, ap, subst, Bool, true, false, Option, none, some, [], ◌∷◌, ◌++◌,
  ◌==◌, is_some, arith, Option-cases, inl, inr,
}
use canton_evmcrosschain.Failures.{Failure, registry, not_found, ok, reject_if, require-eq-ok, Exec}
use canton_evmcrosschain.Exec.{◌>>◌, pure}
use canton_evmcrosschain.Served.{Served, Keeps, read_clock, chain-Keeps}
use canton_evmcrosschain.Dict
use canton_evmcrosschain.Dict.{Dict}
use canton_evmcrosschain.Identity.Challenges.{
  IdentityChallenge, VerifiedIdentityProof, NetworkIdentity, Identity, AuditAction,
  binding_verified, binding_revoked, identity_created,
}
use canton_evmcrosschain.Identity.Registry.{
  Identities, Services, iso, random_with, record_event, create_identity, is_active_for,
  finish_verification, with_revoked, revoke_binding,
}
use canton_evmcrosschain.Identity.Counting.{count-insert_new, count-map}
use canton_evmcrosschain.Identity.Leads.{Leads, lift-Leads, quiet-Leads, read-Leads, write-Leads}
use canton_evmcrosschain.Identity.Exclusive.{
  IsExclusive, random_with-Keeps, record_event-Keeps, insert-IsExclusive, bound_few,
}

not_rejected : {u : Unit {0}} (e : Failure) (b : Bool) → reject_if b e ≡ ok u → b ≡ false
not_rejected e true h = cc h
not_rejected e false h = refl

module _ {W : Type 0} (services : Services W) (T : ℕ) where
  abbrev pub Exclusive : Identities → Type 0
  Exclusive = IsExclusive services T

  abbrev pub Ends : {A : Type 0} → Identities → Exec (Served Identities W) A → Type 0
  Ends s m = (h : Exclusive s) → Leads s Exclusive h m

  pub Ends-Keeps :
      {A : Type 0} (m : Exec (Served Identities W) A)
      → ((s : Identities) → Ends s m)
      → Keeps Exclusive m
  Ends-Keeps m k s h = k s.stored h s refl

  pub random_with-IsQuiet :
      (prefix : String) (s : Served Identities W)
      → (random_with services prefix s).1.stored ≡ s.stored
  random_with-IsQuiet prefix s = random_with-Keeps services T (λ r. r ≡ s.stored) prefix s refl

  pub recorded :
      {A : Type 0} (identity_id : String) (binding_id challenge_id : Option String)
      (action : AuditAction) (actor at : String) (fingerprint : Option String) (a : A)
      → Keeps Exclusive (
          record_event services identity_id binding_id challenge_id action actor at fingerprint
          >> pure a)
  recorded identity_id binding_id challenge_id action actor at fingerprint a =
      chain-Keeps Exclusive (λ u. pure a) _
        (record_event-Keeps services T identity_id binding_id challenge_id action actor at
          fingerprint)
        (λ u s h. h)

  pub read_clock-IsQuiet :
      (s : Served Identities W) → (read_clock services.clock s).1.stored ≡ s.stored
  unfolding read_clock
  read_clock-IsQuiet s = refl

  created-IsExclusive :
      (s : Identities) (identity : Identity)
      → Exclusive s
      → is_some (Dict.lookup identity.id s.identities) ≡ false
      → Exclusive (record s {
        identities = Dict.insert identity.id (record identity { bindings = [] }) s.identities;
      })
  created-IsExclusive s identity h new =
      elim (Option-cases (Dict.lookup identity.id s.identities)) [
        | inr (old, there) ↦ cc (ap is_some there, new)
        | inl missing ↦
            let v = record identity { bindings = [] } in
            record {
              keyed = λ j x e. elim (Dict.insert-cases identity.id j v x s.identities e) [
                | inl (here, same) ↦ subst (λ (y : Identity). y.id ≡ j) same here
                | inr (there, old) ↦ h.keyed j x old
              ];
              single = λ t key q.
                  let total =
                    count-insert_new (is_active_for services t key) identity.id v s.identities
                      missing in
                  let single = h.single t key q in omega (arith, total, single);
            }
      ]

  pub finish_verification-Keeps :
      (challenge_id : String) (challenge : IdentityChallenge) (now : ℕ)
      (verified : VerifiedIdentityProof) (expires : Option String) (actor : String)
      → now ≤ T
      → Keeps Exclusive
          (finish_verification services challenge_id challenge now verified expires actor)
  unfolding finish_verification
  finish_verification-Keeps challenge_id challenge now verified expires actor p =
      Ends-Keeps (finish_verification services challenge_id challenge now verified expires actor)
        (λ s h. read-Leads s Exclusive h _ (
          lift-Leads s Exclusive h _ _ (λ identity there.
            let found =
              require-eq-ok (Dict.lookup challenge.identity_id s.identities) (registry not_found)
                identity there in
            let named = h.keyed challenge.identity_id identity found in
            lift-Leads s Exclusive h _ _ (λ u free.
              quiet-Leads s Exclusive h _ (random_with services "IW:BINDING:")
                (random_with-IsQuiet "IW:BINDING:")
                (λ binding_id.
                  let b : NetworkIdentity = record {
                    binding_id = binding_id;
                    network_id = challenge.network_id;
                    locator = challenge.locator;
                    proof_method = verified.method;
                    verified_at = iso services now;
                    expires_at = expires;
                    revoked_at = none;
                  } in
                  write-Leads s Exclusive h _ _
                    (λ v.
                      recorded identity.id (some binding_id) (some challenge_id) binding_verified
                        actor (iso services now) (some verified.proof_fingerprint) b)
                    (insert-IsExclusive services T s identity
                      (record identity { bindings = identity.bindings ++ b ∷ [] })
                      (Dict.insert challenge_id
                        (record challenge { consumed_at = some (iso services now) }) s.challenges)
                      h (subst (λ k. Dict.lookup k s.identities ≡ some identity) (sym named) found)
                      (bound_few services T s identity b now h p (not_rejected _ _ free))))))))

  pub revoke_binding-Keeps :
      (identity_id binding_id actor : String)
      → ((t : ℕ) → (iso services t == "") ≡ false)
      → Keeps Exclusive (revoke_binding services identity_id binding_id actor)
  unfolding revoke_binding
  revoke_binding-Keeps identity_id binding_id actor written =
      Ends-Keeps (revoke_binding services identity_id binding_id actor) (λ s h.
        lift-Leads s Exclusive h _ _ (λ u e. read-Leads s Exclusive h _ (
          lift-Leads s Exclusive h _ _ (λ identity there.
            let found =
              require-eq-ok (Dict.lookup identity_id s.identities) (registry not_found) identity
                there in
            let named = h.keyed identity_id identity found in
            lift-Leads s Exclusive h _ _ (λ binding has.
              lift-Leads s Exclusive h _ _ (λ v unrevoked.
                quiet-Leads s Exclusive h _ (read_clock services.clock) (read_clock-IsQuiet) (λ t.
                  let revoked : NetworkIdentity = record binding {
                    revoked_at = some (iso services t);
                  } in
                  let w = with_revoked services binding_id revoked identity in
                  write-Leads s Exclusive h _ _
                    (λ x.
                      recorded identity_id (some binding_id) none binding_revoked actor
                        (iso services t) none revoked)
                    (subst (λ k. Exclusive (record s { identities = Dict.insert k w s.identities }))
                      named
                      (insert-IsExclusive services T s identity w s.challenges h
                        (subst (λ k. Dict.lookup k s.identities ≡ some identity) (sym named) found)
                        (λ r key q.
                          let p = is_active_for services r key in
                          let off : p revoked ≡ false = rw (written t) refl in
                          let single = h.single r key q in
                          let fewer = count-map p binding_id revoked identity.bindings off in
                          omega (arith, single, fewer)))))))))))

  pub create_identity-Keeps :
      (id : String) (display_name : Option String) (actor : String)
      → Keeps Exclusive (create_identity services id display_name actor)
  unfolding create_identity
  create_identity-Keeps id display_name actor =
      Ends-Keeps (create_identity services id display_name actor) (λ s h.
        lift-Leads s Exclusive h _ _ (λ u1 e1. lift-Leads s Exclusive h _ _ (λ u2 e2.
          lift-Leads s Exclusive h _ _ (λ u3 e3. read-Leads s Exclusive h _ (
            lift-Leads s Exclusive h _ _ (λ u4 new.
              quiet-Leads s Exclusive h _ (read_clock services.clock) read_clock-IsQuiet (λ t.
                let identity : Identity = record {
                  id = id;
                  display_name = display_name;
                  bindings = [];
                  created_at = iso services t;
                } in
                write-Leads s Exclusive h _ _
                  (λ x. recorded id none none identity_created actor (iso services t) none identity)
                  (created-IsExclusive s identity h (not_rejected _ _ new)))))))))
