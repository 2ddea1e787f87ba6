-- ===== src/Network/Registry.antt =====
-- assertNetworkConfiguration and InMemoryNetworkRegistry of network-registry.ts.
use canton_evmcrosschain.Prelude.{
  ℕ, String, Bool, true, false, not, ◌&&◌, ◌||◌, Option, none, some, List, [], ◌∷◌, ◌==◌, leb, ltb,
  all, any, codes, filter, is_some, is_blank, has_prefix, is_digit_code,
}
use canton_evmcrosschain.Failures.{
  registry, invalid_argument, already_exists, not_found, conflict, Result, ok, ◌>>=◌, ◌>>◌,
  reject_if, require,
}
use canton_evmcrosschain.Dict
use canton_evmcrosschain.Dict.{Dict}

-- What the program reads of a `URL`.
pub record Url : Type 0 where
  pub protocol : String
  pub username : String
  pub password : String

-- FinalityPolicy. A number of confirmations that is negative or no integer is `none`.
pub data FinalityPolicy : Type 0 where
  evm_confirmations : Option ℕ → Bool → FinalityPolicy
  canton_completion : Option String → FinalityPolicy
  adapter_defined : String → FinalityPolicy

-- The configuration of an adapter is not kept, here and in FinalityPolicy.
pub record Network : Type 0 where
  pub id : String
  pub network_type : String
  pub name : String
  pub environment : String
  pub endpoints : List String
  pub chain_id : Option String
  pub finality_policy : FinalityPolicy
  pub enabled : Bool

abbrev pub Networks : Type 0
Networks = Dict Network

abbrev is_empty : List String → Bool
is_empty [] = true
is_empty (e ∷ endpoints) = false

-- /^(0|[1-9][0-9]*)$/
unfoldable pub is_decimal : List ℕ → Bool
is_decimal [] = false
is_decimal (c ∷ []) = is_digit_code c
is_decimal (c ∷ d ∷ rest) = leb 49 c && leb c 57 && all is_digit_code (d ∷ rest)

abbrev has_decimal : Option String → Bool
has_decimal none = false
has_decimal (some chain) = is_decimal (codes chain)

-- `Number.isSafeInteger(n) && n >= 0`
abbrev is_safe : Option ℕ → Bool
is_safe none = false
is_safe (some n) = ltb n 9007199254740992

abbrev pub bad_finality : FinalityPolicy → Bool
bad_finality (evm_confirmations confirmations finalized_tag) = not (is_safe confirmations)
bad_finality (canton_completion synchronizer) = false
bad_finality (adapter_defined name) = false

abbrev check : Bool → Result (Unit {0})
check bad = reject_if bad (registry invalid_argument)

abbrev pub same_chain : Option String → Option String → Bool
same_chain none none = true
same_chain (some a) (some b) = a == b
same_chain _ _ = false

-- Two EVM networks with one chain.
abbrev pub clashes : Network → Network → Bool
clashes network item =
    item.network_type == "EVM"
    && network.network_type == "EVM"
    && same_chain item.chain_id network.chain_id

module _ (parse_url : String → Option Url) where
  unfoldable pub assert_endpoint : String → Result (Unit {0})
  assert_endpoint endpoint = do
    url ← require (parse_url endpoint) (registry invalid_argument)
    check (
        not (
          url.protocol == "http:"
          || url.protocol == "https:"
          || url.protocol == "ws:"
          || url.protocol == "wss:"))
    check (not (url.username == "") || not (url.password == ""))

  unfoldable pub assert_endpoints : List String → Result (Unit {0})
  unfolding assert_endpoint
  assert_endpoints [] = ok tt
  assert_endpoints (e ∷ endpoints) = assert_endpoint e >> assert_endpoints endpoints

  unfoldable pub assert_network_configuration : Network → Result (Unit {0})
  unfolding assert_endpoints is_decimal
  assert_network_configuration network = do
    check (not (has_prefix "IW:NETWORK:" network.id) || network.id == "IW:NETWORK:")
    check (is_blank network.name)
    check (is_blank network.network_type)
    check (is_empty network.endpoints)
    assert_endpoints network.endpoints
    check (network.network_type == "EVM" && not (has_decimal network.chain_id))
    check (network.network_type == "CANTON" && is_some network.chain_id)
    check (bad_finality network.finality_policy)

  unfoldable pub register : Network → Networks → Result (Network × Networks)
  unfolding assert_network_configuration
  register network networks = do
    assert_network_configuration network
    reject_if (is_some (Dict.lookup network.id networks)) (registry already_exists)
    reject_if (any (clashes network) (Dict.values networks)) (registry conflict)
    ok (network, Dict.insert network.id network networks)

unfoldable pub set_enabled : String → Bool → Networks → Result (Network × Networks)
set_enabled id enabled networks = do
  existing ← require (Dict.lookup id networks) (registry not_found)
  let updated : Network = record existing { enabled = enabled }
  ok (updated, Dict.insert id updated networks)

abbrev absent_or : {A : Type 0} → (A → Bool) → Option A → Bool
absent_or test none = true
absent_or test (some wanted) = test wanted

abbrev same_flag : Bool → Bool → Bool
same_flag true b = b
same_flag false b = not b

unfoldable pub list_networks : Option String → Option String → Option Bool → Networks → List Network
list_networks network_type environment enabled networks =
    filter
      (λ n.
        absent_or (λ t. n.network_type == t) network_type
        && absent_or (λ e. n.environment == e) environment
        && absent_or (λ b. same_flag n.enabled b) enabled)
      (Dict.values networks)
