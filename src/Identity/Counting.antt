-- ===== src/Identity/Counting.antt =====
-- How many bindings of the registry of identity-registry.ts pass a test.
use canton_evmcrosschain.Prelude.{
  ℕ, ◌+◌, ◌≤◌, String, ◌≡◌, refl, ap, ◌∙◌, Bool, true, false, none, some, List, [], ◌∷◌, ◌++◌, ◌==◌,
  map, any, filter, length, length-append, filter-append, if◌then◌else◌, arith, Bool-cases, inl,
  inr,
}
use canton_evmcrosschain.Dict
use canton_evmcrosschain.Dict.{Dict}
use canton_evmcrosschain.Identity.Challenges.{NetworkIdentity, Identity}
use canton_evmcrosschain.Identity.Registry.{all_bindings}

abbrev pub count : (NetworkIdentity → Bool) → List NetworkIdentity → ℕ
count p bindings = length (filter p bindings)

count-append :
    (p : NetworkIdentity → Bool) (xs ys : List NetworkIdentity)
    → count p (xs ++ ys) ≡ count p xs + count p ys
count-append p xs ys = ap length (filter-append p xs ys) ∙ length-append (filter p xs) (filter p ys)

pub count-insert_old :
    (p : NetworkIdentity → Bool) (id : String) (v old : Identity) (d : Dict Identity)
    → Dict.lookup id d ≡ some old
    → count p (all_bindings (Dict.insert id v d)) + count p old.bindings
      ≡ count p (all_bindings d) + count p v.bindings
unfolding Dict.lookup Dict.insert
count-insert_old p id v old [] h = cc h
count-insert_old p id v old ((k, x) ∷ d) h =
    let at_x = count-append p x.bindings (all_bindings d) in
    elim (Bool-cases (k == id)) [
      | inl here ↦
          let same : x ≡ old = ground arith in
          let at_v = count-append p v.bindings (all_bindings d) in
          let at_old = ap (λ (y : Identity). count p y.bindings) same in
          rw (here, Dict.insert) (omega (arith, at_x, at_v, at_old))
      | inr there ↦
          let rest = count-insert_old p id v old d (ground arith) in
          let at_rest = count-append p x.bindings (all_bindings (Dict.insert id v d)) in
          rw (there, Dict.insert) (omega (arith, at_x, rest, at_rest))
    ]

pub count-insert_new :
    (p : NetworkIdentity → Bool) (id : String) (v : Identity) (d : Dict Identity)
    → Dict.lookup id d ≡ none
    → count p (all_bindings (Dict.insert id v d)) ≡ count p (all_bindings d) + count p v.bindings
unfolding Dict.lookup Dict.insert
count-insert_new p id v [] h = let split = count-append p v.bindings [] in omega (arith, split)
count-insert_new p id v ((k, x) ∷ d) h =
    let at_x = count-append p x.bindings (all_bindings d) in
    elim (Bool-cases (k == id)) [
      | inl here ↦ ground arith
      | inr there ↦
          let rest = count-insert_new p id v d (ground arith) in
          let at_rest = count-append p x.bindings (all_bindings (Dict.insert id v d)) in
          rw (there, Dict.insert) (omega (arith, at_x, rest, at_rest))
    ]

pub count-none :
    (p q : NetworkIdentity → Bool) (xs : List NetworkIdentity)
    → ((b : NetworkIdentity) → q b ≡ true → p b ≡ true)
    → any p xs ≡ false
    → count q xs ≡ 0
count-none p q [] f h = refl
count-none p q (x ∷ xs) f h = ground (arith, count-none p q xs f, f x)

pub count-map :
    (p : NetworkIdentity → Bool) (id : String) (r : NetworkIdentity) (xs : List NetworkIdentity)
    → p r ≡ false
    → count p (map (λ b. if b.binding_id == id then r else b) xs) ≤ count p xs
count-map p id r [] h = omega arith
count-map p id r (x ∷ xs) h = elim (Bool-cases (x.binding_id == id)) [
  | inl same ↦ rw same (ground (arith, count-map p id r xs h))
  | inr other ↦ rw other (ground (arith, count-map p id r xs h))
]

pub count-snoc :
    (p : NetworkIdentity → Bool) (xs : List NetworkIdentity) (b : NetworkIdentity)
    → count p (xs ++ b ∷ []) ≡ count p xs + (if p b then 1 else 0)
count-snoc p xs b = ground (arith, count-append p xs (b ∷ []))
