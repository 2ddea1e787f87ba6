-- ===== src/Asset/Tests.antt =====
-- An asset with one representation, whose capabilities are discovered, and the theorem at it.
use canton_evmcrosschain.Prelude.{
  String, ◌≡◌, refl, true, Option, none, some, List, [], ◌∷◌, ◌==◌, is_blank, has_prefix,
  if◌then◌else◌,
}
use canton_evmcrosschain.Failures.{ok}
use canton_evmcrosschain.Dict
use canton_evmcrosschain.Policy.Definition.{AssetStatus}
use canton_evmcrosschain.Network.Registry.{evm_confirmations, Network}
use canton_evmcrosschain.Asset.Registry.{
  transfer, mint, burn, AssetCapability, capability_number, Asset, evm_locator, AssetRepresentation,
  CapabilityEvidence, has_capability, are_distinct, register_asset, register_representation,
  discover_capabilities, effective_capabilities,
}
use canton_evmcrosschain.Asset.Agreement.{IsAgreed}
use canton_evmcrosschain.Asset.Calls.{
  Call, asset_call, representation_call, discovery_call, call, run_calls, nothing,
  run_calls-IsAgreed,
}

abbrev networks : String → Option Network
networks id =
    if id == "IW:NETWORK:evm"
    then some (record {
      id = "IW:NETWORK:evm";
      network_type = "EVM";
      name = "EVM";
      environment = "TESTNET";
      endpoints = "https://evm.example" ∷ [];
      chain_id = some "1";
      finality_policy = evm_confirmations (some 12) true;
      enabled = true;
    })
    else none

abbrev asset : Asset
asset = record {
  id = "IW:ASSET:1";
  name = "Bond";
  symbol = "BND";
  decimals = some 6;
  canonical_network_id = some "IW:NETWORK:evm";
  capabilities = transfer ∷ burn ∷ [];
  status = AssetStatus.active;
}

abbrev representation : AssetRepresentation
representation = record {
  id = "IW:REPRESENTATION:1";
  asset_id = "IW:ASSET:1";
  network_id = "IW:NETWORK:evm";
  locator = evm_locator "1" "0x01" "ERC20";
  discovered_capabilities = [];
  enabled = true;
}

abbrev evidence_of : AssetCapability → CapabilityEvidence
evidence_of c = record { capability = c; source = "chain"; observed_at = "100" }

abbrev calls : List Call
calls =
    asset_call asset
    ∷ representation_call representation
    ∷ representation_call (record representation {
      id = "IW:REPRESENTATION:2";
      locator = evm_locator "2" "0x01" "ERC20";
    })
    ∷ discovery_call (λ r. ok (evidence_of mint ∷ evidence_of transfer ∷ [])) "IW:REPRESENTATION:1"
    ∷ []

-- Opens the registry for a test.
machine : Unit {0}
unfolding capability_number has_capability are_distinct register_asset register_representation
    discover_capabilities effective_capabilities call run_calls Dict.lookup Dict.insert is_blank
    has_prefix
machine = tt

finds_common :
    effective_capabilities "IW:ASSET:1" "IW:REPRESENTATION:1"
      (run_calls networks calls (nothing networks))
    ≡ ok (transfer ∷ [])
unfolding machine
finds_common = refl

run_calls-IsAgreed_example : IsAgreed networks (run_calls networks calls (nothing networks))
run_calls-IsAgreed_example = run_calls-IsAgreed networks calls
