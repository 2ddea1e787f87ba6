-- ===== src/Policy/Tests.antt =====
-- A policy with three rules, and the theorems at it.
use canton_evmcrosschain.Prelude.{
  ◌≡◌, refl, true, some, [], ◌∷◌, is_blank, has_prefix, concat, arith, String,
}
use canton_evmcrosschain.Failures.{ok}
use canton_evmcrosschain.Amount.{parse_atomic_amount}
use canton_evmcrosschain.Dict
use canton_evmcrosschain.Samples.{numbered}
use canton_evmcrosschain.Model.{PolicyOutcome, allow, deny, requires_approval, PolicyDecision}
use canton_evmcrosschain.Policy.Definition.{
  AssetStatus, PolicyInput, PolicyStatus, PolicyDefinition, default_deny, amount_at_most,
  amount_greater_than, assert_policy_definition, assert_rules, assert_reason_code, assert_condition,
  is_reason_code, is_rule_id, is_version,
}
use canton_evmcrosschain.Policy.Engine.{
  condition_matches, member, matching, strength, strongest, distinct, insert_text, sort_texts,
  decide, not_active, evaluate_active, evaluate,
}
use canton_evmcrosschain.Policy.Precedence.{
  Evaluated, evaluate-Evaluated, IsPermitted, evaluate-IsPermitted,
}
use canton_evmcrosschain.Policy.Registry.{Policies, policy_key, register, retire_active, activate}
use canton_evmcrosschain.Policy.Active.{
  empty-IsSingle, IsSingle, IsKeyed, register-IsSingle, activate-IsSingle,
}

abbrev policy : PolicyDefinition
policy = record {
  id = "IW:POLICY:1";
  version = "1.2";
  status = PolicyStatus.active;
  document_hash = "hash";
  created_at = "90";
  default_outcome = default_deny;
  default_reason_code = "NO_RULE";
  rules =
      record {
        id = "small";
        when = amount_at_most "300";
        outcome = allow;
        reason_code = "SMALL_AMOUNT";
      }
      ∷ record {
        id = "large";
        when = amount_greater_than "300";
        outcome = requires_approval;
        reason_code = "LARGE_AMOUNT";
      }
      ∷ record {
        id = "huge";
        when = amount_greater_than "1000";
        outcome = deny;
        reason_code = "HUGE_AMOUNT";
      }
      ∷ [];
}

abbrev input_of : String → PolicyInput
input_of amount = record {
  asset_id = "IW:ASSET:1";
  asset_status = AssetStatus.active;
  sender = "IW:IDENTITY:a";
  receiver = "IW:IDENTITY:b";
  sender_has_active_source_binding = true;
  receiver_has_active_destination_binding = true;
  amount = amount;
  operation = "BRIDGE";
  source_network_id = "IW:NETWORK:canton";
  destination_network_id = some "IW:NETWORK:evm";
  metadata = [];
  evaluated_at = "100";
}

-- Opens the engine and the registry for a test.
machine : Unit {0}
unfolding assert_policy_definition assert_rules assert_reason_code assert_condition is_reason_code
    is_rule_id is_version condition_matches member matching strength strongest distinct insert_text
    sort_texts decide not_active evaluate_active evaluate parse_atomic_amount is_blank concat
    policy_key register retire_active activate Dict.insert Dict.lookup Dict.values has_prefix
machine = tt

abbrev decision_of : PolicyOutcome → String → String → PolicyDecision
decision_of outcome reason rule = record {
  outcome = outcome;
  reason_codes = reason ∷ [];
  policy_id = "IW:POLICY:1";
  policy_version = "1.2";
  decided_at = "100";
  matched_rule_ids = rule ∷ [];
}

allows_small :
    evaluate numbered policy (input_of "250") ≡ ok (decision_of allow "SMALL_AMOUNT" "small")
unfolding machine
allows_small = refl

denies_huge :
    evaluate numbered policy (input_of "5000") ≡ ok (decision_of deny "HUGE_AMOUNT" "huge")
unfolding machine
denies_huge = refl

evaluate-Evaluated_example :
    Evaluated policy (input_of "5000") (decision_of deny "HUGE_AMOUNT" "huge")
evaluate-Evaluated_example =
    evaluate-Evaluated numbered policy (input_of "5000") (decision_of deny "HUGE_AMOUNT" "huge")
      denies_huge

evaluate-IsPermitted_example : IsPermitted policy (input_of "250")
evaluate-IsPermitted_example =
    evaluate-IsPermitted numbered policy (input_of "250") (decision_of allow "SMALL_AMOUNT" "small")
      allows_small refl

abbrev one_policy : Policies
one_policy = Dict.insert (policy_key "IW:POLICY:1" "1.2") policy []

registers : register policy [] ≡ ok (policy, one_policy)
unfolding machine
registers = refl

register-IsSingle_example : IsSingle one_policy
register-IsSingle_example = register-IsSingle policy policy [] one_policy registers empty-IsSingle

one_policy-IsSingle : IsSingle one_policy
one_policy-IsSingle = register-IsSingle policy policy [] one_policy registers empty-IsSingle

-- The next version, registered as a draft and then activated.
abbrev next_policy : PolicyDefinition
next_policy = record policy { version = "2"; status = PolicyStatus.draft }

abbrev two_policies : Policies
two_policies = Dict.insert (policy_key "IW:POLICY:1" "2") next_policy one_policy

registers_next : register next_policy one_policy ≡ ok (next_policy, two_policies)
unfolding machine
registers_next = refl

abbrev activated : PolicyDefinition
activated = record next_policy { status = PolicyStatus.active }

abbrev after_activation : Policies
after_activation =
    Dict.insert (policy_key "IW:POLICY:1" "2") activated (retire_active "IW:POLICY:1" two_policies)

activates : activate "IW:POLICY:1" "2" two_policies ≡ ok (activated, after_activation)
unfolding machine
activates = refl

keyed : IsKeyed "IW:POLICY:1" "2" two_policies
unfolding machine
keyed p h = ground arith

activate-IsSingle_example : IsSingle after_activation
activate-IsSingle_example =
    activate-IsSingle "IW:POLICY:1" "2" activated two_policies after_activation activates keyed (
      register-IsSingle next_policy next_policy one_policy two_policies registers_next
        one_policy-IsSingle)
