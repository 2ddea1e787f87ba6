-- ===== src/Network/Tests.antt =====
-- A registry with two networks, and the theorem at it.
use canton_evmcrosschain.Prelude.{
  String, ◌≡◌, refl, true, false, Option, none, some, List, [], ◌∷◌, is_blank, has_prefix,
}
use canton_evmcrosschain.Failures.{err, registry, conflict}
use canton_evmcrosschain.Dict
use canton_evmcrosschain.Network.Registry.{
  Url, evm_confirmations, canton_completion, Network, is_decimal, assert_endpoint, assert_endpoints,
  assert_network_configuration, register, set_enabled, list_networks,
}
use canton_evmcrosschain.Network.WellFormed.{
  Call, register_call, enable_call, call, run_calls, IsWellFormed, run_calls-IsWellFormed,
}

-- Every endpoint is read as one over HTTPS.
abbrev secure : String → Option Url
secure endpoint = some (record { protocol = "https:"; username = ""; password = "" })

abbrev evm_network : Network
evm_network = record {
  id = "IW:NETWORK:evm";
  network_type = "EVM";
  name = "EVM";
  environment = "TESTNET";
  endpoints = "https://evm.example" ∷ [];
  chain_id = some "11155111";
  finality_policy = evm_confirmations (some 12) true;
  enabled = true;
}

abbrev canton_network : Network
canton_network = record {
  id = "IW:NETWORK:canton";
  network_type = "CANTON";
  name = "Canton";
  environment = "TESTNET";
  endpoints = "https://canton.example" ∷ [];
  chain_id = none;
  finality_policy = canton_completion none;
  enabled = true;
}

-- Opens the registry for a test.
machine : Unit {0}
unfolding is_decimal assert_endpoint assert_endpoints assert_network_configuration register
    set_enabled list_networks call run_calls Dict.lookup Dict.insert Dict.values is_blank has_prefix
machine = tt

-- The second EVM network has the chain of the first.
abbrev calls : List Call
calls =
    register_call evm_network
    ∷ register_call canton_network
    ∷ register_call (record evm_network { id = "IW:NETWORK:other" })
    ∷ enable_call "IW:NETWORK:evm" false
    ∷ []

refuses_same_chain :
    register secure
      (record evm_network { id = "IW:NETWORK:other" })
      (("IW:NETWORK:evm", evm_network) ∷ [])
    ≡ err (registry conflict)
unfolding machine
refuses_same_chain = refl

lists_enabled :
    list_networks none none (some true) (run_calls secure calls []) ≡ canton_network ∷ []
unfolding machine
lists_enabled = refl

run_calls-IsWellFormed_example : IsWellFormed secure (run_calls secure calls [])
run_calls-IsWellFormed_example = run_calls-IsWellFormed secure calls
