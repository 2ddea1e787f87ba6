-- ===== src/Asset/Agreement.antt =====
-- What holds of the representations in the registry of assets.
use canton_evmcrosschain.Prelude.{
  String, ◌≡◌, sym, subst, ap, ◌∙◌, true, false, not, ◌||◌, Option, some, List, map, ◌==◌, eq_iff,
  is_some, has_prefix, arith, inl, inr,
}
use canton_evmcrosschain.Failures.{
  registry, not_found, invalid_argument, Result, ok, >>=-eq-ok, reject_if, require, require-eq-ok,
}
use canton_evmcrosschain.Dict
use canton_evmcrosschain.Dict.{Dict}
use canton_evmcrosschain.Network.Registry.{Network}
use canton_evmcrosschain.Asset.Registry.{
  AssetCapability, Asset, AssetRepresentation, CapabilityEvidence, Registries, kind_of,
  chain_agrees, register_asset, register_representation, discover_capabilities,
}

module _ (get_network : String → Option Network) where
  -- A representation agrees with its asset and its network.
  pub record Agrees (r : AssetRepresentation) (assets : Dict Asset) : Type 0 where
    pub network : Network
    pub asset_known : is_some (Dict.lookup r.asset_id assets) ≡ true
    pub network_known : get_network r.network_id ≡ some network
    pub same_type : network.network_type ≡ kind_of r.locator
    pub same_chain : chain_agrees r.locator network ≡ true

  pub record IsAgreed (s : Registries) : Type 0 where
    pub representation :
        (id : String) (r : AssetRepresentation)
        → Dict.lookup id s.representations ≡ some r
        → (r.id ≡ id) × Agrees r s.assets
    pub discovered :
        (id : String) (e : List CapabilityEvidence)
        → Dict.lookup id s.evidence ≡ some e
        → (r : AssetRepresentation) × (Dict.lookup id s.representations ≡ some r)
          × (r.discovered_capabilities ≡ map (λ x. x.capability) e)

  pub register_representation-Agrees :
      (r stored : AssetRepresentation) (s s' : Registries)
      → register_representation get_network r s ≡ ok (stored, s')
      → Agrees r s.assets
        × (s' ≡ record s { representations = Dict.insert r.id r s.representations })
        × (is_some (Dict.lookup r.id s.representations) ≡ false)
  unfolding register_representation
  register_representation-Agrees r stored s s' h =
      let (u, a, h1) =
        >>=-eq-ok
          (reject_if (not (has_prefix "IW:REPRESENTATION:" r.id) || r.id == "IW:REPRESENTATION:")
            (registry invalid_argument))
          _ h in
      let (v, b, h2) =
        >>=-eq-ok (reject_if (not (is_some (Dict.lookup r.asset_id s.assets))) (registry not_found))
          _ h1 in
      let (network, there, rest) =
        >>=-eq-ok (require (get_network r.network_id) (registry not_found)) _ h2 in
      (
        record {
          network = network;
          asset_known = ground arith;
          network_known =
              require-eq-ok (get_network r.network_id) (registry not_found) network there;
          same_type = ground (arith, eq_iff network.network_type (kind_of r.locator));
          same_chain = ground arith;
        },
        ground arith,
        ground arith,
      )

  -- More assets do no harm.
  Agrees-insert :
      (id : String) (asset : Asset) (r : AssetRepresentation) (assets : Dict Asset)
      → Agrees r assets
      → Agrees r (Dict.insert id asset assets)
  Agrees-insert id asset r assets a = record {
    network = a.network;
    asset_known = Dict.is_some-insert id r.asset_id asset assets a.asset_known;
    network_known = a.network_known;
    same_type = a.same_type;
    same_chain = a.same_chain;
  }

  pub register_asset-eq-ok :
      (asset stored : Asset) (s s' : Registries)
      → register_asset get_network asset s ≡ ok (stored, s')
      → s' ≡ record s { assets = Dict.insert asset.id asset s.assets }
  unfolding register_asset
  register_asset-eq-ok asset stored s s' h = ground arith

  pub assets-IsAgreed :
      (asset : Asset) (s : Registries)
      → IsAgreed s
      → IsAgreed (record s { assets = Dict.insert asset.id asset s.assets })
  assets-IsAgreed asset s g = record {
    representation = λ id r h.
        let (same, a) = g.representation id r h in
        (same, Agrees-insert asset.id asset r s.assets a);
    discovered = g.discovered;
  }

  pub representations-IsAgreed :
      (r : AssetRepresentation) (s : Registries)
      → Agrees r s.assets
      → is_some (Dict.lookup r.id s.representations) ≡ false
      → IsAgreed s
      → IsAgreed (record s { representations = Dict.insert r.id r s.representations })
  representations-IsAgreed r s a new g = record {
    representation = λ id x h. elim (Dict.insert-cases r.id id r x s.representations h) [
      | inl (here, same) ↦
          subst (λ (y : AssetRepresentation). (y.id ≡ id) × Agrees y s.assets) same (here, a)
      | inr (there, old) ↦ g.representation id x old
    ];
    discovered = λ id e h.
        let (x, found, equal) = g.discovered id e h in
        (x, Dict.lookup-insert_new r.id id r x s.representations new found, equal);
  }

  -- What a successful discovery has read and written.
  pub record Discovered (id : String) (s s' : Registries) : Type 0 where
    old : AssetRepresentation
    evidence : List CapabilityEvidence
    found : Dict.lookup id s.representations ≡ some old
    written : s' ≡ record s {
      representations =
          Dict.insert id
            (record old { discovered_capabilities = map (λ x. x.capability) evidence })
            s.representations;
      evidence = Dict.insert id evidence s.evidence;
    }

  pub discover_capabilities-eq-ok :
      (discover : AssetRepresentation → Result (List CapabilityEvidence)) (id : String)
      (answer : List CapabilityEvidence) (s s' : Registries)
      → discover_capabilities discover id s ≡ ok (answer, s')
      → Discovered id s s'
  unfolding discover_capabilities
  discover_capabilities-eq-ok discover id answer s s' h =
      let (r, there, rest) =
        >>=-eq-ok (require (Dict.lookup id s.representations) (registry not_found)) _ h in
      let (evidence, answered, more) = >>=-eq-ok (discover r) _ rest in
      record {
        old = r;
        evidence = evidence;
        found = require-eq-ok (Dict.lookup id s.representations) (registry not_found) r there;
        written = ground arith;
      }

  Agrees-discovered :
      (r : AssetRepresentation) (capabilities : List AssetCapability) (assets : Dict Asset)
      → Agrees r assets
      → Agrees (record r { discovered_capabilities = capabilities }) assets
  Agrees-discovered r capabilities assets a = record {
    network = a.network;
    asset_known = a.asset_known;
    network_known = a.network_known;
    same_type = a.same_type;
    same_chain = a.same_chain;
  }

  pub discovery-IsAgreed :
      (id : String) (s s' : Registries) → Discovered id s s' → IsAgreed s → IsAgreed s'
  discovery-IsAgreed id s s' d g =
      let capabilities = map (λ x. x.capability) (d.evidence) in
      let updated : AssetRepresentation = record (d.old) {
        discovered_capabilities = capabilities;
      } in
      let (same, a) = g.representation id d.old d.found in
      subst IsAgreed (sym d.written) (record {
        representation = λ j r h. elim (Dict.insert-cases id j updated r s.representations h) [
          | inl (here, now) ↦
              subst (λ (y : AssetRepresentation). (y.id ≡ j) × Agrees y s.assets) now
                (same ∙ here, Agrees-discovered d.old capabilities s.assets a)
          | inr (there, old) ↦ g.representation j r old
        ];
        discovered = λ j e h. elim (Dict.insert-cases id j d.evidence e s.evidence h) [
          | inl (here, now) ↦ (
            updated,
            Dict.lookup-insert_self id j updated s.representations here,
            ap (map (λ (x : CapabilityEvidence). x.capability)) now,
          )
          | inr (there, old) ↦
              let (r, found, equal) = g.discovered j e old in
              (r, Dict.lookup-insert_other id j updated s.representations there ∙ found, equal)
        ];
      })
