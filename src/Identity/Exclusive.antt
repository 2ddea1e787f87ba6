-- ===== src/Identity/Exclusive.antt =====
-- An address of a network has at most one active binding in identity-registry.ts.
use canton_evmcrosschain.Prelude.{
  ℕ, ◌+◌, ◌≤◌, String, ◌≡◌, refl, subst, true, false, ◌||◌, Option, none, some, [], ◌∷◌, ◌++◌, ◌==◌,
  eq_iff, is_blank, concat, arith, Bool-cases, Option-cases, inl, inr,
}
use canton_evmcrosschain.Exec.{pure}
use canton_evmcrosschain.Served.{Keeps, ask_world, ask_world-Keeps, chain-Keeps, lift-Keeps}
use canton_evmcrosschain.Dict
use canton_evmcrosschain.Dict.{Dict}
use canton_evmcrosschain.Dates.{time_lt}
use canton_evmcrosschain.Identity.Challenges.{
  IdentityChallenge, NetworkIdentity, Identity, AuditAction, check,
}
use canton_evmcrosschain.Identity.Registry.{
  Identities, Services, all_bindings, on_identities, random_with, record_event, is_unexpired,
  key_of, is_active_for, has_active,
}
use canton_evmcrosschain.Identity.Counting.{count, count-insert_old, count-none, count-snoc}

module _ {W : Type 0} (services : Services W) (T : ℕ) where
  -- Identities stand under their identifiers, and at any time from `T` on a locator of a network has
  -- at most one active binding among all identities.
  pub record IsExclusive (s : Identities) : Type 0 where
    pub keyed : (id : String) (i : Identity) → Dict.lookup id s.identities ≡ some i → i.id ≡ id
    pub single :
        (t : ℕ) (key : String)
        → T ≤ t
        → count (is_active_for services t key) (all_bindings s.identities) ≤ 1

  pub random_with-Keeps :
      (P : Identities → Type 0) (prefix : String) → Keeps P (random_with services prefix)
  random_with-Keeps P prefix =
      chain-Keeps P (λ id. pure (concat prefix id)) (ask_world services.random_id)
        (ask_world-Keeps P services.random_id) (λ id s h. h)

  pub record_event-Keeps :
      (identity_id : String) (binding_id challenge_id : Option String) (action : AuditAction)
      (actor at : String) (fingerprint : Option String)
      → Keeps IsExclusive
          (record_event services identity_id binding_id challenge_id action actor at fingerprint)
  unfolding record_event on_identities
  record_event-Keeps identity_id binding_id challenge_id action actor at fingerprint =
      lift-Keeps IsExclusive _ (check (is_blank actor)) (λ u e.
        chain-Keeps IsExclusive _ (random_with services "IW:IDENTITY_AUDIT:")
          (random_with-Keeps IsExclusive "IW:IDENTITY_AUDIT:")
          (λ event_id s h. record { keyed = h.keyed; single = h.single }))

  -- A change of one identity that does not add to its active bindings, or adds one for a locator that
  -- has none.
  pub insert-IsExclusive :
      (s : Identities) (identity v : Identity) (challenges : Dict IdentityChallenge)
      → IsExclusive s
      → Dict.lookup v.id s.identities ≡ some identity
      → ((t : ℕ) (key : String)
          → T ≤ t
          → count (is_active_for services t key) (all_bindings s.identities)
              + count (is_active_for services t key) v.bindings
            ≤ 1 + count (is_active_for services t key) identity.bindings)
      → IsExclusive
          (record s { identities = Dict.insert v.id v s.identities; challenges = challenges })
  insert-IsExclusive s identity v challenges h found few = record {
    keyed = λ j x e. elim (Dict.insert-cases v.id j v x s.identities e) [
      | inl (here, same) ↦ subst (λ (y : Identity). y.id ≡ j) same here
      | inr (there, old) ↦ h.keyed j x old
    ];
    single = λ t key p.
        let p' = is_active_for services t key in
        let total = count-insert_old p' v.id v identity s.identities found in
        let bound = few t key p in omega (arith, total, bound);
  }

  unexpired_before :
      (now t : ℕ) (e : Option String)
      → now ≤ t
      → is_unexpired services t e ≡ true
      → is_unexpired services now e ≡ true
  unexpired_before now t none p h = refl
  unexpired_before now t (some e) p h = elim (Bool-cases (e == "")) [
    | inl empty ↦ rw empty refl
    | inr full ↦ elim (Option-cases (services.dates.parse e)) [
      | inl nan ↦ cc (subst (λ o. (e == "" || time_lt (some t) o) ≡ true) nan h, full)
      | inr (end, parsed) ↦
          let later = subst (λ o. (e == "" || time_lt (some t) o) ≡ true) parsed h in
          rw parsed (ground arith)
    ]
  ]

  pub active_before :
      (now t : ℕ) (key : String) (b : NetworkIdentity)
      → now ≤ t
      → is_active_for services t key b ≡ true
      → is_active_for services now key b ≡ true
  active_before now t key b p h =
      let u = unexpired_before now t b.expires_at p (ground arith) in ground arith

  -- The new binding for a locator that has no active one.
  pub bound_few :
      (s : Identities) (identity : Identity) (b : NetworkIdentity) (now : ℕ)
      → IsExclusive s
      → now ≤ T
      → has_active services now (key_of services b) s.identities ≡ false
      → (t : ℕ) (key : String) → T ≤ t
      → count (is_active_for services t key) (all_bindings s.identities)
          + count (is_active_for services t key) (identity.bindings ++ b ∷ [])
        ≤ 1 + count (is_active_for services t key) identity.bindings
  bound_few s identity b now h p free t key q =
      let r = is_active_for services t key in
      let added = count-snoc r identity.bindings b in
      let single = h.single t key q in
      elim (Bool-cases (r b)) [
        | inr idle ↦ ground arith
        | inl active ↦
            let same : key_of services b ≡ key =
              (eq_iff (key_of services b) key).0 (ground arith) in
            let none_yet =
              count-none (is_active_for services now key) r (all_bindings s.identities)
                (λ x a. active_before now t key x (omega (arith, p, q)) a)
                (subst (λ k. has_active services now k s.identities ≡ false) same free) in
            ground arith
      ]
