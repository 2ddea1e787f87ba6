-- ===== src/Finality/Kept.antt =====
-- What the assessments that finality-service.ts has stored say, and that they stay.
use canton_evmcrosschain.Prelude.{
  String, ◌≡◌, refl, sym, ap, subst, ◌∙◌, false, not, ◌||◌, is_blank, has_prefix, none, some, List,
  [], ◌∷◌, ◌==◌, is_some, arith, Bool-cases, Option-cases, inl, inr,
}
use canton_evmcrosschain.Failures.{
  registry, not_found, conflict, ok, err, >>=-eq-ok, require, require-eq-ok,
}
use canton_evmcrosschain.Exec.{lift, chain-eq-ok}
use canton_evmcrosschain.Served.{
  Served, on_stored, read_clock, Keeps, read_clock-Keeps, on_stored-Keeps, chain-Keeps, lift-Keeps,
}
use canton_evmcrosschain.Dict
use canton_evmcrosschain.Dates.{Dates}
use canton_evmcrosschain.Finality.Evaluation.{NetworkFinalityObservation, evm, canton}
use canton_evmcrosschain.Finality.Checks.{
  AssessInput, FinalityNetworkConfiguration, network_of, assert_common, bad_confirmations, check,
  transaction_of, kind_of, observed_of,
}
use canton_evmcrosschain.Finality.Service.{
  FinalityAssessment, Assessments, Services, stored_observation, as_stored, save, assessment_of,
  assess,
}
use canton_evmcrosschain.Finality.Satisfied.{
  is_satisfied, is_final, stored-is_final, evaluate-is_final,
}

stored-network_of :
    (o : NetworkFinalityObservation) → network_of (stored_observation o) ≡ network_of o
stored-network_of (evm o) = refl
stored-network_of (canton o) = refl

save-Keeps :
    (P : Assessments → Type 0) (a : FinalityAssessment) (table : Assessments)
    → (is_some (Dict.lookup a.id table) ≡ false
        → P table
        → P (Dict.insert a.id (as_stored a) table))
    → P table
    → P (save a table).1
unfolding save
save-Keeps P a table written h = elim (Bool-cases (is_some (Dict.lookup a.id table))) [
  | inl old ↦ rw (old, save) h
  | inr new ↦ rw (new, save) (written new h)
]

save_new :
    (a : FinalityAssessment) (table : Assessments)
    → Dict.lookup a.id table ≡ none
    → save a table ≡ (ok tt, Dict.insert a.id (as_stored a) table)
unfolding save
save_new a table new = rw (new, save) refl

save_old :
    (a old : FinalityAssessment) (table : Assessments)
    → Dict.lookup a.id table ≡ some old
    → save a table ≡ (err (registry conflict), table)
unfolding save
save_old a old table there = rw (there, save) refl

assert_common-good :
    (dates : Dates) (input : AssessInput) (configuration : FinalityNetworkConfiguration)
    (at : String)
    → assert_common dates input configuration at ≡ ok tt
    → bad_confirmations configuration.policy ≡ false
unfolding assert_common
assert_common-good dates input configuration at h =
    let (u1, a1, r1) =
      >>=-eq-ok (check (not (has_prefix "IW:FINALITY:" input.id) || input.id == "IW:FINALITY:")) _
        h in
    let (u2, a2, r2) =
      >>=-eq-ok
        (check (
          is_blank input.transaction_id
          || not (input.transaction_id == transaction_of input.observation)))
        _ r1 in
    let (u3, a3, r3) =
      >>=-eq-ok (check (not (configuration.network_type == kind_of input.observation))) _ r2 in
    let (u4, a4, r4) =
      >>=-eq-ok
        (check (
          not (is_some (dates.parse (observed_of input.observation)))
          || not (is_some (dates.parse at))))
        _ r3 in
    elim (Bool-cases (bad_confirmations configuration.policy)) [
      | inr good ↦ good
      | inl bad ↦ cc (subst (λ b. check b ≡ ok tt) bad r4)
    ]

module _ {W : Type 0} (services : Services W) where
  -- What the writes of `assess` keep.
  record IsKept (P : Assessments → Type 0) : Type 0 where
    writes :
        (input : AssessInput) (configuration : FinalityNetworkConfiguration) (at : String)
        (table : Assessments)
        → Dict.lookup (network_of input.observation) services.networks ≡ some configuration
        → bad_confirmations configuration.policy ≡ false
        → is_some (Dict.lookup input.id table) ≡ false
        → P table
        → P (
            Dict.insert input.id
              (as_stored (assessment_of services.writing input configuration at))
              table)

  assess-Keeps :
      (P : Assessments → Type 0)
      → IsKept P
      → (input : AssessInput) → Keeps P (assess services input)
  unfolding assess
  assess-Keeps P kept input =
      chain-Keeps P _ (read_clock services.clock) (read_clock-Keeps P services.clock) (λ t.
        lift-Keeps P _
          (require (Dict.lookup (network_of input.observation) services.networks)
            (registry not_found))
          (λ configuration found.
            lift-Keeps P _
              (assert_common services.dates input configuration (services.dates.to_iso t))
              (λ u good.
                chain-Keeps P _
                  (on_stored (
                    save (
                      assessment_of services.writing input configuration
                        (services.dates.to_iso t))))
                  (on_stored-Keeps P _ (λ table.
                    save-Keeps P
                      (assessment_of services.writing input configuration (services.dates.to_iso t))
                      table
                      (kept.writes input configuration (services.dates.to_iso t) table
                        (require-eq-ok
                          (Dict.lookup (network_of input.observation) services.networks)
                          (registry not_found) configuration found)
                        (assert_common-good services.dates input configuration
                          (services.dates.to_iso t) good))))
                  (λ v s h. h))))

  -- The state after calls of `assess`, thrown or not.
  abbrev pub assesses : List AssessInput → Served Assessments W → Served Assessments W
  assesses [] s = s
  assesses (input ∷ inputs) s = assesses inputs (assess services input s).1

  assesses-Keeps :
      (P : Assessments → Type 0)
      → IsKept P
      → (inputs : List AssessInput) (s : Served Assessments W) → P s.stored
      → P (assesses inputs s).stored
  assesses-Keeps P kept [] s h = h
  assesses-Keeps P kept (input ∷ inputs) s h =
      assesses-Keeps P kept inputs (assess services input s).1 (assess-Keeps P kept input s h)

  -- The network that an assessment was made for, as it is configured.
  pub record IsAssessed (a : FinalityAssessment) : Type 0 where
    pub configuration : FinalityNetworkConfiguration
    pub is_configured :
        Dict.lookup (network_of a.observation) services.networks ≡ some configuration
    pub same_policy : a.policy ≡ configuration.policy
    pub decides :
        is_satisfied a.result.outcome ≡ is_final services.writing configuration a.observation

  abbrev pub AllAssessed : Assessments → Type 0
  AllAssessed table =
      (id : String) (a : FinalityAssessment) → Dict.lookup id table ≡ some a → IsAssessed a

  AllAssessed-IsKept : IsKept AllAssessed
  AllAssessed-IsKept = record {
    writes = λ input configuration at table found good new h id a e.
        let b = as_stored (assessment_of services.writing input configuration at) in
        elim (Dict.insert-cases input.id id b a table e) [
          | inl (here, same) ↦ subst IsAssessed same (record {
            configuration = configuration;
            is_configured = rw (stored-network_of input.observation) found;
            same_policy = refl;
            decides =
                evaluate-is_final services.writing configuration input.observation good
                ∙ sym (stored-is_final services.writing configuration input.observation);
          })
          | inr (there, old) ↦ h id a old
        ];
  }

  -- After any calls of `assess`, thrown or not, every stored assessment is one for a configured
  -- network, with the policy of the network, and its outcome is SATISFIED if, and only if, its
  -- observation is final for that network: if this held of the assessments that were there before.
  pub assesses-AllAssessed :
      (inputs : List AssessInput) (s : Served Assessments W)
      → AllAssessed s.stored
      → AllAssessed (assesses inputs s).stored
  assesses-AllAssessed = assesses-Keeps AllAssessed AllAssessed-IsKept

  abbrev Holds : String → FinalityAssessment → Assessments → Type 0
  Holds id a table = Dict.lookup id table ≡ some a

  Holds-IsKept : (id : String) (a : FinalityAssessment) → IsKept (Holds id a)
  Holds-IsKept id a = record {
    writes = λ input configuration at table found good new h.
        Dict.lookup-insert_new input.id id
          (as_stored (assessment_of services.writing input configuration at)) a table new h;
  }

  on_stored-save :
      (b : FinalityAssessment) (u : Unit {0}) (s s' : Served Assessments W)
      → on_stored (save b) s ≡ (ok u, s')
      → (Dict.lookup b.id s.stored ≡ none) × (Dict.lookup b.id s'.stored ≡ some (as_stored b))
  unfolding on_stored
  on_stored-save b u s s' h = elim (Option-cases (Dict.lookup b.id s.stored)) [
    | inl new ↦
        let after : Dict.insert b.id (as_stored b) s.stored ≡ s'.stored =
          sym (ap (λ q. q.1) (save_new b s.stored new)) ∙ ap (λ q. q.1.stored) h in
        (
          new,
          subst (λ table. Dict.lookup b.id table ≡ some (as_stored b)) after
              (Dict.lookup-insert_self b.id b.id (as_stored b) s.stored refl),
        )
    | inr (old, there) ↦
        let refused = ap (λ q. q.0) (save_old b old s.stored there) in
        let returned = ap (λ q. q.0) h in cc (refused, returned)
  ]

  assess-saved :
      (input : AssessInput) (s s' : Served Assessments W) (a : FinalityAssessment)
      → assess services input s ≡ (ok a, s')
      → (Dict.lookup input.id s.stored ≡ none)
        × (Dict.lookup input.id s'.stored ≡ some (as_stored a))
  unfolding assess read_clock
  assess-saved input s s' a h =
      let c1 = chain-eq-ok (read_clock services.clock) _ s s' a h in
      let at = services.dates.to_iso c1.value in
      let c2 =
        chain-eq-ok
          (lift (
            require (Dict.lookup (network_of input.observation) services.networks)
              (registry not_found)))
          _ c1.between s' a c1.second in
      let c3 =
        chain-eq-ok (lift (assert_common services.dates input c2.value at)) _ c2.between s' a
          c2.second in
      let b = assessment_of services.writing input c2.value at in
      let c4 = chain-eq-ok (on_stored (save b)) _ c3.between s' a c3.second in
      let (new, there) = on_stored-save b c4.value c3.between c4.between c4.first in
      let same_stored : s.stored ≡ c3.between.stored =
        ap (λ p. p.1.stored) c1.first
        ∙ ap (λ p. p.1.stored) c2.first
        ∙ ap (λ p. p.1.stored) c3.first in
      let same_answer : b ≡ a = ground (arith, c4.second) in
      let same_state : c4.between ≡ s' = ground (arith, c4.second) in
      (
        subst (λ table. Dict.lookup input.id table ≡ none) (sym same_stored) new,
        subst (λ y. Dict.lookup input.id s'.stored ≡ some (as_stored y)) same_answer
            (subst
              (λ (z : Served Assessments W). Dict.lookup input.id z.stored ≡ some (as_stored b))
              same_state there),
      )

  -- If `assess` returns an assessment, there was none with its identifier before; and after any
  -- further calls of `assess`, thrown or not, what is stored under that identifier is the assessment
  -- as JSON keeps it: itself, but with null for confirmations that are NaN or infinite.
  pub assess-Holds :
      (input : AssessInput) (inputs : List AssessInput) (s s' : Served Assessments W)
      (a : FinalityAssessment)
      → assess services input s ≡ (ok a, s')
      → (Dict.lookup input.id s.stored ≡ none)
        × (Dict.lookup input.id (assesses inputs s').stored ≡ some (as_stored a))
  assess-Holds input inputs s s' a h =
      let (new, there) = assess-saved input s s' a h in
      (
        new,
        assesses-Keeps (Holds input.id (as_stored a)) (Holds-IsKept input.id (as_stored a)) inputs
            s' there,
      )
