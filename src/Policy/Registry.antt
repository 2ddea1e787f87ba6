-- ===== src/Policy/Registry.antt =====
-- InMemoryPolicyRegistry and TransferPolicyPreflight of policy-engine.ts.
use canton_evmcrosschain.Prelude.{
  String, Bool, true, false, ◌&&◌, Option, none, some, [], ◌∷◌, ◌==◌, any, find?, is_some, concat,
  if◌then◌else◌,
}
use canton_evmcrosschain.Failures.{
  registry, already_exists, not_found, conflict, Result, ok, ◌>>=◌, ◌>>◌, reject_if, require,
}
use canton_evmcrosschain.Dates.{Dates}
use canton_evmcrosschain.Dict
use canton_evmcrosschain.Dict.{Dict}
use canton_evmcrosschain.Model.{deny, PolicyDecision}
use canton_evmcrosschain.Policy.Definition.{
  PolicyInput, PolicyStatus, PolicyDefinition, assert_policy_definition,
}
use canton_evmcrosschain.Policy.Engine.{is_active, evaluate}

abbrev pub Policies : Type 0
Policies = Dict PolicyDefinition

-- #key
unfoldable pub policy_key : String → String → String
policy_key id version = concat id (concat "@" version)

abbrev pub is_active_version : String → PolicyDefinition → Bool
is_active_version id policy = policy.id == id && is_active policy.status

unfoldable pub register : PolicyDefinition → Policies → Result (PolicyDefinition × Policies)
register policy policies = do
  assert_policy_definition policy
  let key = policy_key policy.id policy.version
  reject_if (is_some (Dict.lookup key policies)) (registry already_exists)
  reject_if (is_active policy.status && any (is_active_version policy.id) (Dict.values policies))
      (registry conflict)
  ok (policy, Dict.insert key policy policies)

unfoldable pub get : String → String → Policies → Option PolicyDefinition
get id version policies = Dict.lookup (policy_key id version) policies

unfoldable pub get_active : String → Policies → Option PolicyDefinition
get_active id policies = find? (is_active_version id) (Dict.values policies)

-- The loop of `activate`: every active version of `id` is retired.
unfoldable pub retire_active : String → Policies → Policies
retire_active id [] = []
retire_active id ((k, policy) ∷ rest) =
    (
      k,
      (if is_active_version id policy
          then record policy { status = PolicyStatus.retired }
          else policy),
    )
    ∷ retire_active id rest

abbrev pub is_retired : PolicyStatus → Bool
is_retired PolicyStatus.retired = true
is_retired _ = false

unfoldable pub activate : String → String → Policies → Result (PolicyDefinition × Policies)
unfolding retire_active
activate id version policies = do
  let key = policy_key id version
  selected ← require (Dict.lookup key policies) (registry not_found)
  reject_if (is_retired selected.status) (registry conflict)
  let activated : PolicyDefinition = record selected { status = PolicyStatus.active }
  ok (activated, Dict.insert key activated (retire_active id policies))

-- `canTransfer` of TransferPolicyPreflight
unfoldable pub can_transfer : Dates → String → PolicyInput → Policies → Result PolicyDecision
unfolding get_active
can_transfer dates policy_id input policies = elim (get_active policy_id policies) [
  | none ↦ ok (record {
    outcome = deny;
    reason_codes = "NO_ACTIVE_POLICY" ∷ [];
    policy_id = policy_id;
    policy_version = "NONE";
    decided_at = input.evaluated_at;
    matched_rule_ids = [];
  })
  | some policy ↦ evaluate dates policy input
]
