-- ===== src/Dict.antt =====
-- A `Map` with text keys, as the list of its entries in insertion order.
use canton_evmcrosschain.Prelude.{
  String, ◌≡◌, ◌≢◌, ◌⊎◌, refl, sym, subst, ◌∙◌, is_some, Bool-cases, inl, inr, true, false, Option,
  none, some, List, [], ◌∷◌, ◌==◌, eq_iff, if◌then◌else◌, arith,
}

abbrev pub Dict {ℓ} : Type ℓ → Type ℓ
Dict V = List (String × V)

module _ {ℓ} {V : Type ℓ} where
  -- `map.get(key)`
  unfoldable pub lookup : String → Dict V → Option V
  lookup key [] = none
  lookup key ((k, v) ∷ rest) = if k == key then some v else lookup key rest

  -- `map.set(key, value)`: an old key keeps its place, a new one goes to the end.
  unfoldable pub insert : String → V → Dict V → Dict V
  insert key value [] = (key, value) ∷ []
  insert key value ((k, v) ∷ rest) =
      if k == key then (k, value) ∷ rest else (k, v) ∷ insert key value rest

  -- `[...map.values()]`
  unfoldable pub values : Dict V → List V
  values [] = []
  values ((k, v) ∷ rest) = v ∷ values rest

  pub lookup-insert :
      (key j : String) (value : V) (d : Dict V)
      → lookup j (insert key value d) ≡ (if key == j then some value else lookup j d)
  unfolding lookup insert
  lookup-insert key j value [] = refl
  lookup-insert key j value ((k, v) ∷ rest) =
      ground (arith, lookup-insert key j value rest, eq_iff k key, eq_iff k j, eq_iff key j)

pub lookup-nil {ℓ} : {V : Type ℓ} (key : String) → lookup {V = V} key [] ≡ none
unfolding lookup
lookup-nil key = refl

-- Where an entry is found after an insertion.
pub insert-cases {ℓ} :
    {V : Type ℓ} (id j : String) (v w : V) (d : Dict V)
    → lookup j (insert id v d) ≡ some w
    → ((id ≡ j) × (v ≡ w)) ⊎ ((id ≢ j) × (lookup j d ≡ some w))
insert-cases id j v w d h =
    let e = sym (lookup-insert id j v d) ∙ h in
    elim (Bool-cases (id == j)) [
      | inl same ↦ inl ((eq_iff id j).0 same, ground arith)
      | inr other ↦ inr (λ s. cc ((eq_iff id j).1 s, other), ground arith)
    ]

pub is_some-insert {ℓ} :
    {V : Type ℓ} (id j : String) (v : V) (d : Dict V)
    → is_some (lookup j d) ≡ true
    → is_some (lookup j (insert id v d)) ≡ true
is_some-insert id j v d h = rw (lookup-insert id j v d) (ground arith)

pub lookup-insert_new {ℓ} :
    {V : Type ℓ} (id j : String) (v w : V) (d : Dict V)
    → is_some (lookup id d) ≡ false
    → lookup j d ≡ some w
    → lookup j (insert id v d) ≡ some w
lookup-insert_new id j v w d new h = elim (Bool-cases (id == j)) [
  | inl same ↦
      let e : id ≡ j = (eq_iff id j).0 same in
      let missing : is_some (lookup j d) ≡ false =
        subst (λ k. is_some (lookup k d) ≡ false) e new in
      ground arith
  | inr other ↦ lookup-insert id j v d ∙ rw other h
]

pub lookup-insert_other {ℓ} :
    {V : Type ℓ} (id j : String) (v : V) (d : Dict V)
    → id ≢ j
    → lookup j (insert id v d) ≡ lookup j d
lookup-insert_other id j v d n = elim (Bool-cases (id == j)) [
  | inl same ↦ absurd (n ((eq_iff id j).0 same))
  | inr other ↦ lookup-insert id j v d ∙ rw other refl
]

pub lookup-insert_self {ℓ} :
    {V : Type ℓ} (id j : String) (v : V) (d : Dict V) → id ≡ j → lookup j (insert id v d) ≡ some v
lookup-insert_self id j v d e = lookup-insert id j v d ∙ rw ((eq_iff id j).1 e) refl
