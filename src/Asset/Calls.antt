-- ===== src/Asset/Calls.antt =====
-- The registry of assets after any series of calls.
use canton_evmcrosschain.Prelude.{String, ◌≡◌, refl, sym, subst, ◌∙◌, Option, List, [], ◌∷◌}
use canton_evmcrosschain.Failures.{Result, ok, err}
use canton_evmcrosschain.Dict
use canton_evmcrosschain.Network.Registry.{Network}
use canton_evmcrosschain.Asset.Registry.{
  Asset, AssetRepresentation, CapabilityEvidence, Registries, register_asset,
  register_representation, discover_capabilities,
}
use canton_evmcrosschain.Asset.Agreement.{
  IsAgreed, register_representation-Agrees, register_asset-eq-ok, assets-IsAgreed,
  representations-IsAgreed, discover_capabilities-eq-ok, discovery-IsAgreed,
}

-- A call that changes the registry. A discovery comes with what the discoverer answers then.
pub data Call : Type 0 where
  asset_call : Asset → Call
  representation_call : AssetRepresentation → Call
  discovery_call : (AssetRepresentation → Result (List CapabilityEvidence)) → String → Call

-- A call that throws leaves the registry as it was.
abbrev after : {A : Type 0} → Registries → Result (A × Registries) → Registries
after s (ok (a, s')) = s'
after s (err e) = s

module _ (get_network : String → Option Network) where
  unfoldable pub call : Call → Registries → Registries
  call (asset_call asset) s = after s (register_asset get_network asset s)
  call (representation_call r) s = after s (register_representation get_network r s)
  call (discovery_call discover id) s = after s (discover_capabilities discover id s)

  unfoldable pub run_calls : List Call → Registries → Registries
  run_calls [] s = s
  run_calls (c ∷ calls) s = run_calls calls (call c s)

  after-IsAgreed :
      {A : Type 0} (s : Registries) (r : Result (A × Registries))
      → ((a : A) (s' : Registries) → r ≡ ok (a, s') → IsAgreed get_network s')
      → IsAgreed get_network s
      → IsAgreed get_network (after s r)
  after-IsAgreed s (ok (a, s')) keeps g = keeps a s' refl
  after-IsAgreed s (err e) keeps g = g

  call-IsAgreed :
      (c : Call) (s : Registries) → IsAgreed get_network s → IsAgreed get_network (call c s)
  unfolding call
  call-IsAgreed (asset_call asset) s g =
      after-IsAgreed s (register_asset get_network asset s)
        (λ stored s' h.
          subst (IsAgreed get_network) (sym (register_asset-eq-ok get_network asset stored s s' h))
            (assets-IsAgreed get_network asset s g))
        g
  call-IsAgreed (representation_call r) s g =
      after-IsAgreed s (register_representation get_network r s)
        (λ stored s' h.
          let (a, written, new) = register_representation-Agrees get_network r stored s s' h in
          subst (IsAgreed get_network) (sym written)
            (representations-IsAgreed get_network r s a new g))
        g
  call-IsAgreed (discovery_call discover id) s g =
      after-IsAgreed s (discover_capabilities discover id s)
        (λ answer s' h.
          discovery-IsAgreed get_network id s s'
            (discover_capabilities-eq-ok get_network discover id answer s s' h) g)
        g

  calls-IsAgreed :
      (calls : List Call) (s : Registries)
      → IsAgreed get_network s
      → IsAgreed get_network (run_calls calls s)
  unfolding run_calls
  calls-IsAgreed [] s g = g
  calls-IsAgreed (c ∷ calls) s g = calls-IsAgreed calls (call c s) (call-IsAgreed c s g)

  abbrev pub nothing : Registries
  nothing = record { assets = []; representations = []; evidence = [] }

  nothing-IsAgreed : IsAgreed get_network nothing
  nothing-IsAgreed = record {
    representation = λ id r h. absurd (cc (sym (Dict.lookup-nil id) ∙ h));
    discovered = λ id e h. absurd (cc (sym (Dict.lookup-nil id) ∙ h));
  }

  -- After any series of calls on an empty registry, failing or not: every representation stands under
  -- its identifier, its asset is registered, its network is known, of the type of the locator and, if
  -- it is an EVM network, with the chain ID of the locator; and a representation with evidence has
  -- the capabilities of that evidence.
  pub run_calls-IsAgreed : (calls : List Call) → IsAgreed get_network (run_calls calls nothing)
  run_calls-IsAgreed calls = calls-IsAgreed calls nothing nothing-IsAgreed
