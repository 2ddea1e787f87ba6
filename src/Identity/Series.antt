-- ===== src/Identity/Series.antt =====
-- Any series of calls of the registry of identity-registry.ts keeps the bindings exclusive.
use canton_evmcrosschain.Prelude.{
  ℕ, ◌≤◌, String, ◌≡◌, refl, sym, subst, false, Option, none, some, List, [], ◌∷◌, ◌==◌, arith,
}
use canton_evmcrosschain.Failures.{Exec}
use canton_evmcrosschain.Served.{Served, Keeps, ask_world, ask_world-Keeps, read_clock}
use canton_evmcrosschain.Dict
use canton_evmcrosschain.Dict.{Dict}
use canton_evmcrosschain.Identity.Challenges.{
  NetworkIdentityLocator, IdentityChallenge, IdentityProof, VerifiedIdentityProof, challenge_issued,
}
use canton_evmcrosschain.Identity.Registry.{
  Identities, Services, all_bindings, iso, random_with, create_identity, issue_challenge,
  is_active_for, begin_verification, finish_verification, revoke_binding,
}
use canton_evmcrosschain.Identity.Counting.{count}
use canton_evmcrosschain.Identity.Leads.{lift-Leads, quiet-Leads, read-Leads, write-Leads}
use canton_evmcrosschain.Identity.Calls.{
  Exclusive, Ends-Keeps, random_with-IsQuiet, read_clock-IsQuiet, recorded,
  finish_verification-Keeps, revoke_binding-Keeps, create_identity-Keeps,
}

-- A call of the registry. A verification is two, since other calls may come while the verifier is
-- waited for: `finish_call` has the challenge, the time and the answer that were found before.
pub data Call : Type 0 where
  create_call : String → Option String → String → Call
  issue_call : String → String → NetworkIdentityLocator → ℕ → String → Call
  begin_call : String → IdentityProof → Option String → String → Call
  finish_call :
      String → IdentityChallenge → ℕ → VerifiedIdentityProof → Option String → String → Call
  revoke_call : String → String → String → Call

module _ {W : Type 0} (services : Services W) where
  -- The state after a call, thrown or not.
  abbrev pub call : Call → Served Identities W → Served Identities W
  call (create_call id name actor) s = (create_identity services id name actor s).1
  call (issue_call id network_id locator ttl actor) s =
      (issue_challenge services id network_id locator ttl actor s).1
  call (begin_call id proof expires actor) s =
      (begin_verification services id proof expires actor s).1
  call (finish_call id challenge now verified expires actor) s =
      (finish_verification services id challenge now verified expires actor s).1
  call (revoke_call id binding_id actor) s = (revoke_binding services id binding_id actor s).1

  abbrev pub calls : List Call → Served Identities W → Served Identities W
  calls [] s = s
  calls (c ∷ rest) s = calls rest (call c s)

  -- The times at which verifications began, whose end is in the series, are at most `T`.
  abbrev pub AreBefore : ℕ → List Call → Type 0
  AreBefore T [] = Unit
  AreBefore T (finish_call id challenge now verified expires actor ∷ rest) =
      (now ≤ T) × AreBefore T rest
  AreBefore T (c ∷ rest) = AreBefore T rest

  module _ (T : ℕ) where
    ask_world-IsQuiet :
        {A : Type 0} (m : Exec W A) (s : Served Identities W) → (ask_world m s).1.stored ≡ s.stored
    ask_world-IsQuiet m s = ask_world-Keeps (λ r. r ≡ s.stored) m s refl

    issue_challenge-Keeps :
        (id network_id : String) (locator : NetworkIdentityLocator) (ttl : ℕ) (actor : String)
        → Keeps (Exclusive services T) (issue_challenge services id network_id locator ttl actor)
    unfolding issue_challenge
    issue_challenge-Keeps id network_id locator ttl actor =
        let E = Exclusive services T in
        Ends-Keeps services T (issue_challenge services id network_id locator ttl actor) (λ s h.
          lift-Leads s E h _ _ (λ u1 e1. read-Leads s E h _ (
            lift-Leads s E h _ _ (λ u2 e2. lift-Leads s E h _ _ (λ network e3.
              lift-Leads s E h _ _ (λ u4 e4. lift-Leads s E h _ _ (λ u5 e5.
                lift-Leads s E h _ _ (λ normal e6.
                  quiet-Leads s E h _ (read_clock services.clock) (read_clock-IsQuiet services T)
                    (λ t.
                      quiet-Leads s E h _ (random_with services "IW:IDENTITY_CHALLENGE:")
                        (random_with-IsQuiet services T "IW:IDENTITY_CHALLENGE:")
                        (λ challenge_id.
                          quiet-Leads s E h _ (ask_world services.random_id)
                            (ask_world-IsQuiet services.random_id)
                            (λ nonce.
                              write-Leads s E h _ _
                                (λ x.
                                  recorded services T id none (some challenge_id) challenge_issued
                                    actor (iso services t) none _)
                                (record { keyed = h.keyed; single = h.single }))))))))))))

    begin_verification-Keeps :
        (id : String) (proof : IdentityProof) (expires : Option String) (actor : String)
        → Keeps (Exclusive services T) (begin_verification services id proof expires actor)
    unfolding begin_verification
    begin_verification-Keeps id proof expires actor =
        let E = Exclusive services T in
        Ends-Keeps services T (begin_verification services id proof expires actor) (λ s h.
          lift-Leads s E h _ _ (λ u1 e1. read-Leads s E h _ (
            lift-Leads s E h _ _ (λ challenge e2. lift-Leads s E h _ _ (λ u3 e3.
              quiet-Leads s E h _ (read_clock services.clock) (read_clock-IsQuiet services T) (λ t.
                lift-Leads s E h _ _ (λ u4 e4. lift-Leads s E h _ _ (λ u5 e5.
                  lift-Leads s E h _ _ (λ u6 e6. lift-Leads s E h _ _ (λ verify e7.
                    quiet-Leads s E h _ (ask_world (verify challenge proof))
                      (ask_world-IsQuiet (verify challenge proof))
                      (λ answer.
                        lift-Leads s E h _ _ (λ verified e8 r e. subst E (sym e) h))))))))))))

    calls-Exclusive :
        (rest : List Call) (s : Served Identities W)
        → ((t : ℕ) → (iso services t == "") ≡ false)
        → AreBefore T rest
        → Exclusive services T s.stored
        → Exclusive services T (calls rest s).stored
    calls-Exclusive [] s w b h = h
    calls-Exclusive (create_call id name actor ∷ rest) s w b h =
        calls-Exclusive rest _ w b (create_identity-Keeps services T id name actor s h)
    calls-Exclusive (issue_call id network_id locator ttl actor ∷ rest) s w b h =
        calls-Exclusive rest _ w b (issue_challenge-Keeps id network_id locator ttl actor s h)
    calls-Exclusive (begin_call id proof expires actor ∷ rest) s w b h =
        calls-Exclusive rest _ w b (begin_verification-Keeps id proof expires actor s h)
    calls-Exclusive (finish_call id challenge now verified expires actor ∷ rest) s w b h =
        calls-Exclusive rest _ w b.1
          (finish_verification-Keeps services T id challenge now verified expires actor b.0 s h)
    calls-Exclusive (revoke_call id binding_id actor ∷ rest) s w b h =
        calls-Exclusive rest _ w b (revoke_binding-Keeps services T id binding_id actor w s h)

    nothing-Exclusive :
        Exclusive services T (record { identities = []; challenges = []; audit = [] })
    unfolding Dict.lookup
    nothing-Exclusive = record { keyed = λ id i h. cc h; single = λ t key p. omega arith }

  abbrev pub empty : W → Served Identities W
  empty w = record { stored = record { identities = []; challenges = []; audit = [] }; world = w }

  -- After any calls of an empty registry, thrown or not, with the two parts of a verification
  -- anywhere in the series, at a time that is not before the beginning of any verification in it a
  -- locator of a network has at most one active binding among all identities: if no date is written as
  -- the empty text.
  pub calls_single :
      (rest : List Call) (w : W) (T : ℕ) (key : String)
      → ((t : ℕ) → (services.dates.to_iso t == "") ≡ false)
      → AreBefore T rest
      → count (is_active_for services T key) (all_bindings (calls rest (empty w)).stored.identities)
        ≤ 1
  calls_single rest w T key written b =
      let h = calls-Exclusive T rest (empty w) written b (nothing-Exclusive T) in
      h.single T key (omega arith)
