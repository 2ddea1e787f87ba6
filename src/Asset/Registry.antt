-- ===== src/Asset/Registry.antt =====
-- InMemoryAssetRegistry of asset-registry.ts, over a registry of networks that it only reads.
use canton_evmcrosschain.Prelude.{
  ℕ, String, Bool, true, false, not, ◌&&◌, ◌||◌, Option, none, some, List, [], ◌∷◌, map, ◌==◌, leb,
  eqb, any, filter, is_some, is_blank, has_prefix, if◌then◌else◌,
}
use canton_evmcrosschain.Failures.{
  registry, invalid_argument, already_exists, not_found, Result, ok, ◌>>=◌, ◌>>◌, reject_if,
  require,
}
use canton_evmcrosschain.Dict
use canton_evmcrosschain.Dict.{Dict}
use canton_evmcrosschain.Policy.Definition.{AssetStatus}
use canton_evmcrosschain.Network.Registry.{Network}

pub data AssetCapability : Type 0 where
  transfer mint burn lock unlock freeze settle cross_network_transfer : AssetCapability

unfoldable pub capability_number : AssetCapability → ℕ
capability_number transfer = 0
capability_number mint = 1
capability_number burn = 2
capability_number lock = 3
capability_number unlock = 4
capability_number freeze = 5
capability_number settle = 6
capability_number cross_network_transfer = 7

-- The members that the registry reads; a number of decimals that is negative or no integer is `none`.
pub record Asset : Type 0 where
  pub id : String
  pub name : String
  pub symbol : String
  pub decimals : Option ℕ
  pub canonical_network_id : Option String
  pub capabilities : List AssetCapability
  pub status : AssetStatus

pub data RepresentationLocator : Type 0 where
  evm_locator : String → String → String → RepresentationLocator
  canton_locator : String → String → String → String → RepresentationLocator

pub record AssetRepresentation : Type 0 where
  pub id : String
  pub asset_id : String
  pub network_id : String
  pub locator : RepresentationLocator
  pub discovered_capabilities : List AssetCapability
  pub enabled : Bool

pub record CapabilityEvidence : Type 0 where
  pub capability : AssetCapability
  pub source : String
  pub observed_at : String

pub record Registries : Type 0 where
  pub assets : Dict Asset
  pub representations : Dict AssetRepresentation
  pub evidence : Dict (List CapabilityEvidence)

unfoldable pub has_capability : AssetCapability → List AssetCapability → Bool
unfolding capability_number
has_capability c capabilities =
    any (λ d. eqb (capability_number d) (capability_number c)) capabilities

-- `new Set(capabilities).size === capabilities.length`
unfoldable pub are_distinct : List AssetCapability → Bool
unfolding has_capability
are_distinct [] = true
are_distinct (c ∷ rest) = not (has_capability c rest) && are_distinct rest

abbrev check : Bool → Result (Unit {0})
check bad = reject_if bad (registry invalid_argument)

abbrev fits_byte : Option ℕ → Bool
fits_byte none = false
fits_byte (some n) = leb n 255

-- `locator.kind`
abbrev pub kind_of : RepresentationLocator → String
kind_of (evm_locator chain_id contract_address token_standard) = "EVM"
kind_of (canton_locator instrument_id issuer_party registry_id token_standard) = "CANTON"

abbrev has_chain : Option String → String → Bool
has_chain none chain_id = false
has_chain (some c) chain_id = c == chain_id

abbrev pub chain_agrees : RepresentationLocator → Network → Bool
chain_agrees (evm_locator chain_id contract_address token_standard) network =
    has_chain network.chain_id chain_id
chain_agrees (canton_locator instrument_id issuer_party registry_id token_standard) network = true

module _ (get_network : String → Option Network) where
  abbrev known : Option String → Bool
  known none = true
  known (some id) = id == "" || is_some (get_network id)

  unfoldable pub register_asset : Asset → Registries → Result (Asset × Registries)
  unfolding are_distinct
  register_asset asset s = do
    check (not (has_prefix "IW:ASSET:" asset.id) || asset.id == "IW:ASSET:")
    check (is_blank asset.name || is_blank asset.symbol)
    check (not (fits_byte asset.decimals))
    check (not (are_distinct asset.capabilities))
    reject_if (not (known asset.canonical_network_id)) (registry not_found)
    reject_if (is_some (Dict.lookup asset.id s.assets)) (registry already_exists)
    ok (asset, record s { assets = Dict.insert asset.id asset s.assets })

  unfoldable pub register_representation :
      AssetRepresentation → Registries → Result (AssetRepresentation × Registries)
  register_representation r s = do
    check (not (has_prefix "IW:REPRESENTATION:" r.id) || r.id == "IW:REPRESENTATION:")
    reject_if (not (is_some (Dict.lookup r.asset_id s.assets))) (registry not_found)
    network ← require (get_network r.network_id) (registry not_found)
    check (not (network.network_type == kind_of r.locator))
    check (not (chain_agrees r.locator network))
    reject_if (is_some (Dict.lookup r.id s.representations)) (registry already_exists)
    ok (r, record s { representations = Dict.insert r.id r s.representations })

-- `discoverCapabilities`; `discover` is what the discoverer answers.
unfoldable pub discover_capabilities :
    (AssetRepresentation → Result (List CapabilityEvidence))
    → String
    → Registries
    → Result (List CapabilityEvidence × Registries)
unfolding are_distinct
discover_capabilities discover id s = do
  r ← require (Dict.lookup id s.representations) (registry not_found)
  evidence ← discover r
  let capabilities = map (λ e. e.capability) evidence
  reject_if (not (are_distinct capabilities)) (registry invalid_argument)
  let updated : AssetRepresentation = record r { discovered_capabilities = capabilities }
  ok (
    evidence,
    record s {
      representations = Dict.insert id updated s.representations;
      evidence = Dict.insert id evidence s.evidence;
    },
  )

abbrev pub is_active : AssetStatus → Bool
is_active AssetStatus.active = true
is_active _ = false

unfoldable pub effective_capabilities : String → String → Registries → Result (List AssetCapability)
unfolding has_capability
effective_capabilities asset_id id s = do
  asset ← require (Dict.lookup asset_id s.assets) (registry not_found)
  r ← require (Dict.lookup id s.representations) (registry not_found)
  reject_if (not (r.asset_id == asset_id)) (registry not_found)
  let common = filter (λ c. has_capability c r.discovered_capabilities) asset.capabilities
  ok (
      if not r.enabled || not (is_active asset.status) || not (is_some (Dict.lookup id s.evidence))
      then []
      else common)
