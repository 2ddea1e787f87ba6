-- ===== src/Policy/Engine.antt =====
-- DeterministicPolicyEngine of policy-engine.ts.
use text.Mathlib.Text.{is_lt}
use Prim.Native.String.{compare}
use canton_evmcrosschain.Prelude.{
  ℕ, String, Bool, true, false, not, ◌&&◌, ◌||◌, Option, none, some, List, [], ◌∷◌, map, ◌==◌, ltb,
  leb, any, filter, is_some, if◌then◌else◌,
}
use canton_evmcrosschain.Failures.{registry, invalid_argument, Result, ok, ◌>>=◌, ◌>>◌, reject_if}
use canton_evmcrosschain.Dates.{Dates}
use canton_evmcrosschain.Amount.{parse_atomic_amount}
use canton_evmcrosschain.Model.{PolicyOutcome, allow, deny, requires_approval, PolicyDecision}
use canton_evmcrosschain.Policy.Definition.{
  AssetStatus, PolicyInput, BindingSide, PolicyCondition, PolicyRule, PolicyStatus,
  PolicyDefinition, default_outcome_of, assert_policy_definition, always, amount_greater_than,
  amount_at_most, asset_status_in, operation_in, network_pair_in, missing_required_binding,
  metadata_equals, metadata_missing,
}

abbrev same_status : AssetStatus → AssetStatus → Bool
same_status AssetStatus.active AssetStatus.active = true
same_status AssetStatus.paused AssetStatus.paused = true
same_status AssetStatus.degraded AssetStatus.degraded = true
same_status AssetStatus.retired AssetStatus.retired = true
same_status _ _ = false

abbrev same_optional : Option String → Option String → Bool
same_optional none none = true
same_optional (some a) (some b) = a == b
same_optional _ _ = false

-- `metadata[key]`
unfoldable pub member : String → List (String × String) → Option String
member key [] = none
member key ((k, v) ∷ rest) = if k == key then some v else member key rest

abbrev missing_binding : BindingSide → PolicyInput → Bool
missing_binding BindingSide.sender input = not input.sender_has_active_source_binding
missing_binding BindingSide.receiver input = not input.receiver_has_active_destination_binding
missing_binding BindingSide.either input =
    not input.sender_has_active_source_binding || not input.receiver_has_active_destination_binding

unfoldable pub condition_matches : PolicyCondition → PolicyInput → Result Bool
unfolding member
condition_matches always input = ok true
condition_matches (amount_greater_than amount) input = do
  a ← parse_atomic_amount input.amount
  b ← parse_atomic_amount amount
  ok (ltb b a)
condition_matches (amount_at_most amount) input = do
  a ← parse_atomic_amount input.amount
  b ← parse_atomic_amount amount
  ok (leb a b)
condition_matches (asset_status_in statuses) input =
    ok (any (λ s. same_status s input.asset_status) statuses)
condition_matches (operation_in operations) input = ok (any (λ o. o == input.operation) operations)
condition_matches (network_pair_in pairs) input = ok (
    any
      (λ p.
        p.source == input.source_network_id
        && same_optional p.destination input.destination_network_id)
      pairs)
condition_matches (missing_required_binding side) input = ok (missing_binding side input)
condition_matches (metadata_equals key value) input =
    ok (same_optional (member key input.metadata) (some value))
condition_matches (metadata_missing key) input = ok (not (is_some (member key input.metadata)))

-- `policy.rules.filter(…)`
unfoldable pub matching : List PolicyRule → PolicyInput → Result (List PolicyRule)
matching [] input = ok []
matching (rule ∷ rules) input = do
  matched ← condition_matches rule.when input
  rest ← matching rules input
  ok (if matched then rule ∷ rest else rest)

unfoldable pub strength : PolicyOutcome → ℕ
strength deny = 3
strength requires_approval = 2
strength allow = 1

-- `matched.reduce(…, "ALLOW")`
unfoldable pub strongest : PolicyOutcome → List PolicyRule → PolicyOutcome
unfolding strength
strongest outcome [] = outcome
strongest outcome (rule ∷ rules) =
    strongest (if ltb (strength outcome) (strength rule.outcome) then rule.outcome else outcome)
      rules

abbrev pub same_outcome : PolicyOutcome → PolicyOutcome → Bool
same_outcome deny deny = true
same_outcome requires_approval requires_approval = true
same_outcome allow allow = true
same_outcome _ _ = false

-- `[...new Set(texts)]`
unfoldable pub distinct : List String → List String → List String
distinct seen [] = []
distinct seen (s ∷ rest) =
    let kept = distinct (s ∷ seen) rest in
    let dropped = distinct seen rest in if any (λ t. t == s) seen then dropped else s ∷ kept

-- `sort()`; all that is sorted here is ASCII, where the order of code units is that of code points.
unfoldable pub insert_text : String → List String → List String
insert_text s [] = s ∷ []
insert_text s (t ∷ rest) = if is_lt (compare t s) then t ∷ insert_text s rest else s ∷ t ∷ rest

unfoldable pub sort_texts : List String → List String
unfolding insert_text
sort_texts [] = []
sort_texts (s ∷ rest) = insert_text s (sort_texts rest)

abbrev pub is_active : PolicyStatus → Bool
is_active PolicyStatus.active = true
is_active _ = false

-- The decision from the rules that match.
unfoldable pub decide : PolicyDefinition → PolicyInput → List PolicyRule → PolicyDecision
unfolding strongest distinct sort_texts
decide policy input [] = record {
  outcome = default_outcome_of policy.default_outcome;
  reason_codes = policy.default_reason_code ∷ [];
  policy_id = policy.id;
  policy_version = policy.version;
  decided_at = input.evaluated_at;
  matched_rule_ids = [];
}
decide policy input (r ∷ rules) =
    let outcome = strongest allow (r ∷ rules) in
    let decisive = filter (λ x. same_outcome x.outcome outcome) (r ∷ rules) in
    record {
      outcome = outcome;
      reason_codes = sort_texts (distinct [] (map (λ x. x.reason_code) decisive));
      policy_id = policy.id;
      policy_version = policy.version;
      decided_at = input.evaluated_at;
      matched_rule_ids = sort_texts (map (λ x. x.id) decisive);
    }

unfoldable pub not_active : PolicyDefinition → PolicyInput → PolicyDecision
not_active policy input = record {
  outcome = deny;
  reason_codes = "POLICY_NOT_ACTIVE" ∷ [];
  policy_id = policy.id;
  policy_version = policy.version;
  decided_at = input.evaluated_at;
  matched_rule_ids = [];
}

-- `evaluate`, for an active policy
unfoldable pub evaluate_active : Dates → PolicyDefinition → PolicyInput → Result PolicyDecision
unfolding matching decide
evaluate_active dates policy input = do
  amount ← parse_atomic_amount input.amount
  reject_if (not (is_some (dates.parse input.evaluated_at))) (registry invalid_argument)
  matched ← matching policy.rules input
  ok (decide policy input matched)

unfoldable pub evaluate : Dates → PolicyDefinition → PolicyInput → Result PolicyDecision
unfolding evaluate_active not_active
evaluate dates policy input =
    assert_policy_definition policy
    >> (if is_active policy.status
        then evaluate_active dates policy input
        else ok (not_active policy input))
