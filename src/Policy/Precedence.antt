-- ===== src/Policy/Precedence.antt =====
-- A denial overrides an approval requirement, which overrides a permission; without a match the
-- default decides, and it never allows.
use canton_evmcrosschain.Prelude.{
  not, is_some, ◌≡◌, ◌≢◌, refl, sym, ap, ◌∙◌, Bool, true, false, List, [], ◌∷◌, any, All,
  if◌then◌else◌, arith, Bool-cases, inl, inr,
}
use canton_evmcrosschain.Failures.{registry, invalid_argument, ok, >>=-eq-ok, reject_if}
use canton_evmcrosschain.Dates.{Dates}
use canton_evmcrosschain.Amount.{parse_atomic_amount}
use canton_evmcrosschain.Model.{PolicyOutcome, allow, deny, requires_approval, PolicyDecision}
use canton_evmcrosschain.Policy.Definition.{
  PolicyInput, PolicyRule, PolicyDefinition, default_outcome_of, assert_policy_definition,
}
use canton_evmcrosschain.Policy.Engine.{
  matching, strongest, same_outcome, is_active, decide, not_active, evaluate_active, evaluate,
}

-- Some rule has the outcome.
abbrev pub has_outcome : PolicyOutcome → List PolicyRule → Bool
has_outcome outcome rules = any (λ r. same_outcome r.outcome outcome) rules

-- The precedence, without the order of the rules.
abbrev pub precedence : List PolicyRule → PolicyOutcome
precedence rules =
    if has_outcome deny rules
    then deny
    else if has_outcome requires_approval rules
    then requires_approval
    else allow

strongest_deny : (rules : List PolicyRule) → strongest deny rules ≡ deny
unfolding strongest
strongest_deny [] = refl
strongest_deny (r ∷ rules) = ground (arith, strongest_deny rules)

strongest_approval :
    (rules : List PolicyRule)
    → strongest requires_approval rules
      ≡ (if has_outcome deny rules then deny else requires_approval)
unfolding strongest
strongest_approval [] = refl
strongest_approval (r ∷ rules) = ground (arith, strongest_deny rules, strongest_approval rules)

pub strongest-eq-precedence : (rules : List PolicyRule) → strongest allow rules ≡ precedence rules
unfolding strongest
strongest-eq-precedence [] = refl
strongest-eq-precedence (r ∷ rules) =
    ground (arith, strongest_deny rules, strongest_approval rules, strongest-eq-precedence rules)

-- The outcome that a policy owes to the rules that match.
abbrev pub owed : PolicyDefinition → List PolicyRule → PolicyOutcome
owed policy [] = default_outcome_of policy.default_outcome
owed policy (r ∷ rules) = precedence (r ∷ rules)

outcome-decide :
    (policy : PolicyDefinition) (input : PolicyInput) (rules : List PolicyRule)
    → (decide policy input rules).outcome ≡ owed policy rules
unfolding decide
outcome-decide policy input [] = refl
outcome-decide policy input (r ∷ rules) = strongest-eq-precedence (r ∷ rules)

-- What stands behind a decision.
pub data Evaluated (policy : PolicyDefinition) (input : PolicyInput) (d : PolicyDecision)
    : Type 0 where
  inactive : is_active policy.status ≡ false → d.outcome ≡ deny → Evaluated policy input d
  matched :
      (rules : List PolicyRule)
      → is_active policy.status ≡ true
      → matching policy.rules input ≡ ok rules
      → d.outcome ≡ owed policy rules
      → Evaluated policy input d

evaluate_active-eq-ok :
    (dates : Dates) (policy : PolicyDefinition) (input : PolicyInput) (d : PolicyDecision)
    → evaluate_active dates policy input ≡ ok d
    → (rules : List PolicyRule) × (matching policy.rules input ≡ ok rules)
      × (decide policy input rules ≡ d)
unfolding evaluate_active
evaluate_active-eq-ok dates policy input d h =
    let (a, parsed, more) = >>=-eq-ok (parse_atomic_amount input.amount) _ h in
    let (u, checked, rest) =
      >>=-eq-ok
        (reject_if (not (is_some (dates.parse input.evaluated_at))) (registry invalid_argument)) _
        more in
    let (rules, found, done) = >>=-eq-ok (matching policy.rules input) _ rest in (rules, found, cc)

-- A decision of the engine is a denial if the policy is not active. Otherwise it is the default if
-- no rule matches, and if some match it is a denial if one of them denies, else an approval
-- requirement if one of them requires approval, else a permission.
pub evaluate-Evaluated :
    (dates : Dates) (policy : PolicyDefinition) (input : PolicyInput) (d : PolicyDecision)
    → evaluate dates policy input ≡ ok d
    → Evaluated policy input d
unfolding evaluate
evaluate-Evaluated dates policy input d h =
    let (u, checked, rest) = >>=-eq-ok (assert_policy_definition policy) _ h in
    elim (Bool-cases (is_active policy.status)) [
      | inl on ↦
          let (rules, found, made) = evaluate_active-eq-ok dates policy input d (rw on at rest) in
          matched rules on found
            (sym (ap (λ (x : PolicyDecision). x.outcome) made) ∙ outcome-decide policy input rules)
      | inr off ↦
          let made : ok (not_active policy input) ≡ ok d = rw off at rest in
          inactive off (ground arith)
    ]

All-allow :
    (rules : List PolicyRule) → precedence rules ≡ allow → All (λ r. r.outcome ≡ allow) rules
All-allow [] h = tt
All-allow (r ∷ rules) h = (ground arith, All-allow rules (ground arith))

owed_allow :
    (policy : PolicyDefinition) (rules : List PolicyRule)
    → owed policy rules ≡ allow
    → (rules ≢ []) × All (λ r. r.outcome ≡ allow) rules
owed_allow policy [] h = ground arith
owed_allow policy (r ∷ rules) h = (ground arith, All-allow (r ∷ rules) h)

-- Why an operation was allowed.
pub record IsPermitted (policy : PolicyDefinition) (input : PolicyInput) : Type 0 where
  pub rules : List PolicyRule
  pub active : is_active policy.status ≡ true
  pub found : matching policy.rules input ≡ ok rules
  pub some_match : rules ≢ []
  pub all_permit : All (λ r. r.outcome ≡ allow) rules

IsPermitted-of :
    (policy : PolicyDefinition) (input : PolicyInput) (d : PolicyDecision)
    → Evaluated policy input d
    → d.outcome ≡ allow
    → IsPermitted policy input
IsPermitted-of policy input d (inactive off denied) a = ground arith
IsPermitted-of policy input d (matched rules on found outcome) a =
    let (nonempty, permit) = owed_allow policy rules (sym outcome ∙ a) in
    record { rules = rules; active = on; found = found; some_match = nonempty; all_permit = permit }

-- The engine allows an operation only by an active policy of which a rule matches and all rules
-- that match allow it.
pub evaluate-IsPermitted :
    (dates : Dates) (policy : PolicyDefinition) (input : PolicyInput) (d : PolicyDecision)
    → evaluate dates policy input ≡ ok d
    → d.outcome ≡ allow
    → IsPermitted policy input
evaluate-IsPermitted dates policy input d h a =
    IsPermitted-of policy input d (evaluate-Evaluated dates policy input d h) a
