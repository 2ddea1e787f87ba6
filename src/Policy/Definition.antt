-- ===== src/Policy/Definition.antt =====
-- The data of policy-engine.ts and assertPolicyDefinition.
use canton_evmcrosschain.Prelude.{
  ℕ, zero, suc, String, Bool, true, false, not, ◌&&◌, ◌||◌, Option, List, [], ◌∷◌, ◌==◌, leb, eqb,
  all, any, length, codes, is_blank, has_prefix, is_digit_code, is_upper_code, is_lower_code,
  if◌then◌else◌,
}
use canton_evmcrosschain.Failures.{
  registry, invalid_argument, Result, ok, err, ◌>>=◌, ◌>>◌, reject_if,
}
use canton_evmcrosschain.Amount.{parse_atomic_amount}
use canton_evmcrosschain.Model.{PolicyOutcome, deny, requires_approval}

pub data AssetStatus : Type 0 where
  active paused degraded retired : AssetStatus

pub record PolicyInput : Type 0 where
  pub asset_id : String
  pub asset_status : AssetStatus
  pub sender : String
  pub receiver : String
  pub sender_has_active_source_binding : Bool
  pub receiver_has_active_destination_binding : Bool
  pub amount : String
  pub operation : String
  pub source_network_id : String
  pub destination_network_id : Option String
  pub metadata : List (String × String)
  pub evaluated_at : String

pub data BindingSide : Type 0 where
  sender receiver either : BindingSide

pub record NetworkPair : Type 0 where
  pub source : String
  pub destination : Option String

pub data PolicyCondition : Type 0 where
  always : PolicyCondition
  amount_greater_than : String → PolicyCondition
  amount_at_most : String → PolicyCondition
  asset_status_in : List AssetStatus → PolicyCondition
  operation_in : List String → PolicyCondition
  network_pair_in : List NetworkPair → PolicyCondition
  missing_required_binding : BindingSide → PolicyCondition
  metadata_equals : String → String → PolicyCondition
  metadata_missing : String → PolicyCondition

pub record PolicyRule : Type 0 where
  pub id : String
  pub when : PolicyCondition
  pub outcome : PolicyOutcome
  pub reason_code : String

pub data PolicyStatus : Type 0 where
  draft active retired : PolicyStatus

-- Exclude<PolicyOutcome, "ALLOW">
pub data DefaultOutcome : Type 0 where
  default_deny default_requires_approval : DefaultOutcome

abbrev pub default_outcome_of : DefaultOutcome → PolicyOutcome
default_outcome_of default_deny = deny
default_outcome_of default_requires_approval = requires_approval

pub record PolicyDefinition : Type 0 where
  pub id : String
  pub version : String
  pub status : PolicyStatus
  pub document_hash : String
  pub created_at : String
  pub default_outcome : DefaultOutcome
  pub default_reason_code : String
  pub rules : List PolicyRule

-- Up to `n` groups of a dot and digits; `inside` tells that a digit has come since the last dot.
version_tail : ℕ → Bool → List ℕ → Bool
version_tail n inside [] = inside
version_tail zero inside (c ∷ rest) = is_digit_code c && version_tail zero true rest
version_tail (suc n) inside (c ∷ rest) =
    let digit = version_tail (suc n) true rest in
    let dot = version_tail n false rest in
    if is_digit_code c then digit else (eqb c 46 && inside && dot)

-- /^[1-9][0-9]*(\.[0-9]+){0,2}$/
unfoldable pub is_version : List ℕ → Bool
unfolding version_tail
is_version [] = false
is_version (c ∷ rest) = leb 49 c && leb c 57 && version_tail 2 true rest

abbrev is_reason_char : ℕ → Bool
is_reason_char c = is_upper_code c || is_digit_code c || eqb c 95

-- /^[A-Z][A-Z0-9_]{1,63}$/
unfoldable pub is_reason_code : List ℕ → Bool
is_reason_code [] = false
is_reason_code (c ∷ rest) =
    is_upper_code c && leb 1 (length rest) && leb (length rest) 63 && all is_reason_char rest

abbrev is_rule_char : ℕ → Bool
is_rule_char c =
    is_upper_code c || is_lower_code c || is_digit_code c || eqb c 46 || eqb c 95 || eqb c 45

-- /^[A-Za-z0-9._-]+$/
unfoldable pub is_rule_id : List ℕ → Bool
is_rule_id [] = false
is_rule_id (c ∷ rest) = all is_rule_char (c ∷ rest)

abbrev pub invalid : Result (Unit {0})
invalid = err (registry invalid_argument)

abbrev is_empty {ℓ} : {A : Type ℓ} → List A → Bool
is_empty [] = true
is_empty (x ∷ xs) = false

unfoldable pub assert_reason_code : String → Result (Unit {0})
unfolding is_reason_code
assert_reason_code value =
    reject_if (not (is_reason_code (codes value))) (registry invalid_argument)

unfoldable pub assert_condition : PolicyCondition → Result (Unit {0})
assert_condition (amount_greater_than amount) = parse_atomic_amount amount >>= λ _. ok tt
assert_condition (amount_at_most amount) = parse_atomic_amount amount >>= λ _. ok tt
assert_condition (metadata_equals key value) = reject_if (is_blank key) (registry invalid_argument)
assert_condition (metadata_missing key) = reject_if (is_blank key) (registry invalid_argument)
assert_condition (operation_in operations) =
    reject_if (is_empty operations) (registry invalid_argument)
assert_condition (asset_status_in statuses) =
    reject_if (is_empty statuses) (registry invalid_argument)
assert_condition (network_pair_in pairs) = reject_if (is_empty pairs) (registry invalid_argument)
assert_condition always = ok tt
assert_condition (missing_required_binding side) = ok tt

-- The loop over the rules; `ids` are the identifiers met before.
unfoldable pub assert_rules : List String → List PolicyRule → Result (Unit {0})
unfolding assert_reason_code assert_condition is_rule_id
assert_rules ids [] = ok tt
assert_rules ids (rule ∷ rules) =
    reject_if (not (is_rule_id (codes rule.id)) || any (λ i. i == rule.id) ids)
      (registry invalid_argument)
    >> (assert_reason_code rule.reason_code
        >> (assert_condition rule.when >> assert_rules (rule.id ∷ ids) rules))

unfoldable pub assert_policy_definition : PolicyDefinition → Result (Unit {0})
unfolding assert_rules assert_reason_code is_version
assert_policy_definition policy = do
  reject_if (not (has_prefix "IW:POLICY:" policy.id) || policy.id == "IW:POLICY:")
      (registry invalid_argument)
  reject_if (not (is_version (codes policy.version))) (registry invalid_argument)
  reject_if (is_blank policy.document_hash) (registry invalid_argument)
  assert_reason_code policy.default_reason_code
  reject_if (is_empty policy.rules) (registry invalid_argument)
  assert_rules [] policy.rules
