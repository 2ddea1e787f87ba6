-- ===== src/Policy/Active.antt =====
-- No policy has two active versions.
use canton_evmcrosschain.Prelude.{
  ℕ, ◌+◌, ◌≤◌, String, ◌≡◌, refl, sym, subst, ◌∙◌, false, ◌&&◌, Option, none, some, [], ◌∷◌, ◌==◌,
  eq_iff, any, if◌then◌else◌, arith, Bool-cases, Option-cases, inl, inr,
}
use canton_evmcrosschain.Failures.{ok, >>=-eq-ok}
use canton_evmcrosschain.Dict
use canton_evmcrosschain.Dict.{Dict}
use canton_evmcrosschain.Policy.Definition.{
  PolicyStatus, PolicyDefinition, assert_policy_definition,
}
use canton_evmcrosschain.Policy.Engine.{is_active}
use canton_evmcrosschain.Policy.Registry.{
  Policies, policy_key, is_active_version, register, retire_active, activate,
}

-- How many entries are active versions of `id`.
pub active_versions : String → Policies → ℕ
active_versions id [] = 0
active_versions id ((k, policy) ∷ rest) =
    (if is_active_version id policy then 1 else 0) + active_versions id rest

abbrev pub weight : String → Option PolicyDefinition → ℕ
weight id none = 0
weight id (some policy) = if is_active_version id policy then 1 else 0

active_versions-insert :
    (id key : String) (policy : PolicyDefinition) (policies : Policies)
    → active_versions id (Dict.insert key policy policies) + weight id (Dict.lookup key policies)
      ≡ active_versions id policies + weight id (some policy)
unfolding active_versions Dict.insert Dict.lookup
active_versions-insert id key policy [] = omega arith
active_versions-insert id key policy ((k, p) ∷ rest) = elim (Bool-cases (k == key)) [
  | inl same ↦ rw same (omega arith)
  | inr other ↦ rw other (omega (arith, active_versions-insert id key policy rest))
]

none_active :
    (id : String) (policies : Policies)
    → any (is_active_version id) (Dict.values policies) ≡ false
    → active_versions id policies ≡ 0
unfolding active_versions Dict.values
none_active id [] h = refl
none_active id ((k, p) ∷ rest) h = ground (arith, none_active id rest)

active_versions-retire_self :
    (id : String) (policies : Policies) → active_versions id (retire_active id policies) ≡ 0
unfolding active_versions retire_active
active_versions-retire_self id [] = refl
active_versions-retire_self id ((k, p) ∷ rest) = ground (arith, active_versions-retire_self id rest)

active_versions-retire_le :
    (id j : String) (policies : Policies)
    → active_versions j (retire_active id policies) ≤ active_versions j policies
unfolding active_versions retire_active
active_versions-retire_le id j [] = omega arith
active_versions-retire_le id j ((k, p) ∷ rest) = ground (arith, active_versions-retire_le id j rest)

-- At most one version of each policy is active.
abbrev pub IsSingle : Policies → Type 0
IsSingle policies = (id : String) → active_versions id policies ≤ 1

pub empty-IsSingle : IsSingle []
unfolding active_versions
empty-IsSingle id = omega arith

record Registered (policy : PolicyDefinition) (policies policies' : Policies) : Type 0 where
  free :
      (is_active policy.status && any (is_active_version policy.id) (Dict.values policies)) ≡ false
  written : policies' ≡ Dict.insert (policy_key policy.id policy.version) policy policies

register-eq-ok :
    (policy stored : PolicyDefinition) (policies policies' : Policies)
    → register policy policies ≡ ok (stored, policies')
    → Registered policy policies policies'
unfolding register
register-eq-ok policy stored policies policies' h =
    let (u, checked, more) = >>=-eq-ok (assert_policy_definition policy) _ h in
    record { free = ground arith; written = ground arith }

-- An insertion adds at most the weight of what is inserted.
insert_bound :
    (id key : String) (policy : PolicyDefinition) (policies : Policies)
    → active_versions id (Dict.insert key policy policies)
      ≤ active_versions id policies + weight id (some policy)
insert_bound id key policy policies = omega (arith, active_versions-insert id key policy policies)

-- `register` keeps at most one version of each policy active.
pub register-IsSingle :
    (policy stored : PolicyDefinition) (policies policies' : Policies)
    → register policy policies ≡ ok (stored, policies')
    → IsSingle policies
    → IsSingle policies'
register-IsSingle policy stored policies policies' h s id =
    let r = register-eq-ok policy stored policies policies' h in
    let key = policy_key policy.id policy.version in
    rw r.written (
      ground (
        arith,
        insert_bound id key policy policies,
        s id,
        r.free,
        eq_iff policy.id id,
        at_own_id policy policies id,
      ))
  where
    at_own_id :
        (policy : PolicyDefinition) (policies : Policies) (id : String)
        → policy.id ≡ id
        → any (is_active_version policy.id) (Dict.values policies) ≡ false
        → active_versions id policies ≡ 0
    at_own_id policy policies id e a =
        subst (λ j. active_versions j policies ≡ 0) e (none_active policy.id policies a)

record Activated (id version : String) (policies policies' : Policies) : Type 0 where
  selected : PolicyDefinition
  found : Dict.lookup (policy_key id version) policies ≡ some selected
  written :
      policies'
      ≡ Dict.insert
          (policy_key id version)
          (record selected { status = PolicyStatus.active })
          (retire_active id policies)

activate-eq-ok :
    (id version : String) (active : PolicyDefinition) (policies policies' : Policies)
    → activate id version policies ≡ ok (active, policies')
    → Activated id version policies policies'
unfolding activate
activate-eq-ok id version active policies policies' h =
    elim (Option-cases (Dict.lookup (policy_key id version) policies)) [
      | inl missing ↦ ground arith
      | inr (selected, found) ↦ record {
        selected = selected;
        found = found;
        written = ground arith;
      }
    ]

-- The policy that a key leads to has the identifier that the key was made from.
abbrev pub IsKeyed : String → String → Policies → Type 0
IsKeyed id version policies =
    (policy : PolicyDefinition)
    → Dict.lookup (policy_key id version) policies ≡ some policy
    → policy.id ≡ id

weight-le : (id : String) (policy : PolicyDefinition) → weight id (some policy) ≤ 1
weight-le id policy = ground arith

-- After the active versions of its identifier were retired, one more can be active.
insert_one :
    (id j key : String) (policy : PolicyDefinition) (policies : Policies)
    → policy.id ≡ id
    → active_versions j policies ≤ 1
    → active_versions j (Dict.insert key policy (retire_active id policies)) ≤ 1
insert_one id j key policy policies same h = elim (Bool-cases (policy.id == j)) [
  | inl mine ↦
      let e : id ≡ j = sym same ∙ (eq_iff policy.id j).0 mine in
      omega (
        arith,
        insert_bound j key policy (retire_active id policies),
        weight-le j policy,
        subst (λ k. active_versions k (retire_active id policies) ≡ 0) e
            (active_versions-retire_self id policies),
      )
  | inr other ↦
      let none : weight j (some policy) ≡ 0 = ground arith in
      omega (
        arith,
        insert_bound j key policy (retire_active id policies),
        none,
        active_versions-retire_le id j policies,
      )
]

-- `activate` keeps at most one version of each policy active, if its key leads to a policy with
-- the requested identifier.
pub activate-IsSingle :
    (id version : String) (active : PolicyDefinition) (policies policies' : Policies)
    → activate id version policies ≡ ok (active, policies')
    → IsKeyed id version policies
    → IsSingle policies
    → IsSingle policies'
activate-IsSingle id version active policies policies' h keyed s j =
    let a = activate-eq-ok id version active policies policies' h in
    subst (λ d. active_versions j d ≤ 1) (sym a.written)
      (insert_one id j (policy_key id version)
        (record (a.selected) { status = PolicyStatus.active }) policies (keyed a.selected a.found)
        (s j))
