-- ===== src/Network/WellFormed.antt =====
-- What holds of a registry of networks.
use canton_evmcrosschain.Prelude.{
  String, ◌≡◌, ◌≢◌, refl, sym, subst, ◌∙◌, Bool, true, false, Option, none, some, List, [], ◌∷◌,
  eq_iff, any, arith, Bool-cases, inl, inr,
}
use canton_evmcrosschain.Failures.{
  registry, not_found, Result, ok, err, >>=-eq-ok, Result-cases, require, require-eq-ok,
}
use canton_evmcrosschain.Dict
use canton_evmcrosschain.Dict.{Dict}
use canton_evmcrosschain.Network.Registry.{
  Url, Network, Networks, assert_network_configuration, same_chain, clashes, register, set_enabled,
}

any-lookup :
    (p : Network → Bool) (id : String) (networks : Networks) (n : Network)
    → any p (Dict.values networks) ≡ false
    → Dict.lookup id networks ≡ some n
    → p n ≡ false
unfolding Dict.lookup Dict.values
any-lookup p id [] n a h = cc
any-lookup p id ((k, x) ∷ rest) n a h = ground (arith, any-lookup p id rest n)

same_chain_sym : (a b : Option String) → same_chain a b ≡ true → same_chain b a ≡ true
same_chain_sym none none h = refl
same_chain_sym none (some b) h = cc
same_chain_sym (some a) none h = cc
same_chain_sym (some a) (some b) h = (eq_iff b a).1 (sym ((eq_iff a b).0 h))

clashes_sym : (n m : Network) → clashes n m ≡ true → clashes m n ≡ true
clashes_sym n m h =
    ground (arith, same_chain_sym m.chain_id n.chain_id, same_chain_sym n.chain_id m.chain_id)

both : (b : Bool) → b ≡ true → b ≡ false → ⊥
both b t f = cc (t, f)

none-some : (n : Network) → none ≡ some n → ⊥
none-some n h = cc

-- A call that changes the registry.
pub data Call : Type 0 where
  register_call : Network → Call
  enable_call : String → Bool → Call

-- A call that throws leaves the registry as it was.
abbrev after : Networks → Result (Network × Networks) → Networks
after networks (ok (n, networks')) = networks'
after networks (err e) = networks

module _ (parse_url : String → Option Url) where
  -- Networks stand under their identifiers, pass the check of their configuration, and no two EVM
  -- networks have one chain.
  pub record IsWellFormed (networks : Networks) : Type 0 where
    pub keyed : (id : String) (n : Network) → Dict.lookup id networks ≡ some n → n.id ≡ id
    pub checked :
        (id : String) (n : Network)
        → Dict.lookup id networks ≡ some n
        → assert_network_configuration parse_url n ≡ ok tt
    pub distinct :
        (id j : String) (n m : Network)
        → Dict.lookup id networks ≡ some n
        → Dict.lookup j networks ≡ some m
        → clashes n m ≡ true
        → id ≡ j

  -- A new entry that fits.
  insert-IsWellFormed :
      (id : String) (n : Network) (networks : Networks)
      → n.id ≡ id
      → assert_network_configuration parse_url n ≡ ok tt
      → ((j : String) (m : Network)
          → id ≢ j
          → Dict.lookup j networks ≡ some m
          → clashes n m ≡ false)
      → IsWellFormed networks
      → IsWellFormed (Dict.insert id n networks)
  insert-IsWellFormed id n networks e c d w = record {
    keyed = λ j m h. elim (Dict.insert-cases id j n m networks h) [
      | inl (here, new) ↦ cc (e, here, new)
      | inr (there, old) ↦ w.keyed j m old
    ];
    checked = λ j m h. elim (Dict.insert-cases id j n m networks h) [
      | inl (here, new) ↦ rw (← new) c
      | inr (there, old) ↦ w.checked j m old
    ];
    distinct = λ i j a b h g x. elim (Dict.insert-cases id i n a networks h) [
      | inl (here, new) ↦ elim (Dict.insert-cases id j n b networks g) [
        | inl (too, same) ↦ sym here ∙ too
        | inr (there, old) ↦ absurd (both (clashes n b) (rw (← new) at x) (d j b there old))
      ]
      | inr (there, old) ↦ elim (Dict.insert-cases id j n b networks g) [
        | inl (too, same) ↦
            absurd (both (clashes n a) (clashes_sym a n (rw (← same) at x)) (d i a there old))
        | inr (away, held) ↦ w.distinct i j a b old held x
      ]
    ];
  }

  -- What a successful `register` has checked and done.
  record Registered (n : Network) (networks networks' : Networks) : Type 0 where
    checked : assert_network_configuration parse_url n ≡ ok tt
    alone : any (clashes n) (Dict.values networks) ≡ false
    written : networks' ≡ Dict.insert n.id n networks

  register-eq-ok :
      (n stored : Network) (networks networks' : Networks)
      → register parse_url n networks ≡ ok (stored, networks')
      → Registered n networks networks'
  unfolding register
  register-eq-ok n stored networks networks' h =
      let (u, checked, rest) = >>=-eq-ok (assert_network_configuration parse_url n) _ h in
      record { checked = ground arith; alone = ground arith; written = ground arith }

  register-IsWellFormed :
      (n stored : Network) (networks networks' : Networks)
      → register parse_url n networks ≡ ok (stored, networks')
      → IsWellFormed networks
      → IsWellFormed networks'
  register-IsWellFormed n stored networks networks' h w =
      let r = register-eq-ok n stored networks networks' h in
      subst IsWellFormed (sym r.written) (
        insert-IsWellFormed n.id n networks refl r.checked
          (λ j m away found. any-lookup (clashes n) j networks m r.alone found) w)

  checked_enabled :
      (n : Network) (enabled : Bool)
      → assert_network_configuration parse_url (record n { enabled = enabled })
        ≡ assert_network_configuration parse_url n
  unfolding assert_network_configuration
  checked_enabled n enabled = refl

  set_enabled-IsWellFormed :
      (id : String) (enabled : Bool) (stored : Network) (networks networks' : Networks)
      → set_enabled id enabled networks ≡ ok (stored, networks')
      → IsWellFormed networks
      → IsWellFormed networks'
  unfolding set_enabled
  set_enabled-IsWellFormed id enabled stored networks networks' h w =
      let (n, there, rest) =
        >>=-eq-ok (require (Dict.lookup id networks) (registry not_found)) _ h in
      let found = require-eq-ok (Dict.lookup id networks) (registry not_found) n there in
      let updated : Network = record n { enabled = enabled } in
      let written : Dict.insert id updated networks ≡ networks' = ground arith in
      subst IsWellFormed written (
        insert-IsWellFormed id updated networks (w.keyed id n found)
          (checked_enabled n enabled ∙ w.checked id n found)
          (λ j m away other. elim (Bool-cases (clashes n m)) [
            | inl clash ↦ absurd (away (w.distinct id j n m found other clash))
            | inr apart ↦ apart
          ])
          w)

  unfoldable pub call : Call → Networks → Networks
  call (register_call n) networks = after networks (register parse_url n networks)
  call (enable_call id enabled) networks = after networks (set_enabled id enabled networks)

  unfoldable pub run_calls : List Call → Networks → Networks
  run_calls [] networks = networks
  run_calls (c ∷ calls) networks = run_calls calls (call c networks)

  call-IsWellFormed :
      (c : Call) (networks : Networks) → IsWellFormed networks → IsWellFormed (call c networks)
  unfolding call
  call-IsWellFormed (register_call n) networks w =
      elim (Result-cases (register parse_url n networks)) [
        | inl ((stored, networks'), done) ↦
            rw (done, after) (register-IsWellFormed n stored networks networks' done w)
        | inr (e, failed) ↦ rw (failed, after) w
      ]
  call-IsWellFormed (enable_call id enabled) networks w =
      elim (Result-cases (set_enabled id enabled networks)) [
        | inl ((stored, networks'), done) ↦
            rw (done, after) (set_enabled-IsWellFormed id enabled stored networks networks' done w)
        | inr (e, failed) ↦ rw (failed, after) w
      ]

  calls-IsWellFormed :
      (calls : List Call) (networks : Networks)
      → IsWellFormed networks
      → IsWellFormed (run_calls calls networks)
  unfolding run_calls
  calls-IsWellFormed [] networks w = w
  calls-IsWellFormed (c ∷ calls) networks w =
      calls-IsWellFormed calls (call c networks) (call-IsWellFormed c networks w)

  empty-IsWellFormed : IsWellFormed []
  empty-IsWellFormed = record {
    keyed = λ id n h. absurd (none-some n (sym (Dict.lookup-nil id) ∙ h));
    checked = λ id n h. absurd (none-some n (sym (Dict.lookup-nil id) ∙ h));
    distinct = λ id j n m h g x. absurd (none-some n (sym (Dict.lookup-nil id) ∙ h));
  }

  -- After any series of registrations and switches on an empty registry, failing or not: every
  -- network stands under its identifier and passes assertNetworkConfiguration, and no two networks of
  -- type EVM have one chain ID.
  pub run_calls-IsWellFormed : (calls : List Call) → IsWellFormed (run_calls calls [])
  run_calls-IsWellFormed calls = calls-IsWellFormed calls [] empty-IsWellFormed
