-- ===== src/Attestation/Lists.antt =====
-- Lists of signatures, their order and their signers.
use canton_evmcrosschain.Prelude.{
  suc, ◌+◌, String, ◌≡◌, ◌⊎◌, refl, sym, Bool, false, List, [], ◌∷◌, ◌++◌, ◌==◌, eq_iff, length,
  All, arith, Bool-cases, inl, inr,
}
use canton_evmcrosschain.Attestation.Protocol.{
  ValidatorSignature, insert_signature, sort_signatures,
}

-- `x` is one of the list.
abbrev pub Has : {A : Type 0} → A → List A → Type 0
Has x [] = ⊥
Has x (y ∷ ys) = (x ≡ y) ⊎ Has x ys

pub Has-append_left : {A : Type 0} (x : A) (ys zs : List A) → Has x ys → Has x (ys ++ zs)
Has-append_left x [] zs h = elim h [ ]
Has-append_left x (y ∷ ys) zs (inl e) = inl e
Has-append_left x (y ∷ ys) zs (inr h) = inr (Has-append_left x ys zs h)

pub Has-append_right : {A : Type 0} (x : A) (ys zs : List A) → Has x zs → Has x (ys ++ zs)
Has-append_right x [] zs h = h
Has-append_right x (y ∷ ys) zs h = inr (Has-append_right x ys zs h)

pub All-map :
    {A : Type 0} {P Q : A → Type 0} (xs : List A) → ((x : A) → P x → Q x) → All P xs → All Q xs
All-map [] f h = tt
All-map (x ∷ xs) f h = (f x h.0, All-map xs f h.1)

pub All-zip :
    {A : Type 0} {P Q R : A → Type 0} (xs : List A)
    → ((x : A) → P x → Q x → R x)
    → All P xs
    → All Q xs
    → All R xs
All-zip [] f h k = tt
All-zip (x ∷ xs) f h k = (f x h.0 k.0, All-zip xs f h.1 k.1)

abbrev pub Differs : ValidatorSignature → ValidatorSignature → Type 0
Differs s x = (s.validator_id == x.validator_id) ≡ false

-- No two signatures are of the same validator.
abbrev pub IsDistinct : List ValidatorSignature → Type 0
IsDistinct [] = Unit
IsDistinct (s ∷ rest) = All (Differs s) rest × IsDistinct rest

pub Differs-sym : (s x : ValidatorSignature) → Differs s x → Differs x s
Differs-sym s x h = elim (Bool-cases (x.validator_id == s.validator_id)) [
  | inl same ↦
      let e : s.validator_id ≡ x.validator_id =
        sym ((eq_iff x.validator_id s.validator_id).0 same) in
      cc ((eq_iff s.validator_id x.validator_id).1 e, h)
  | inr other ↦ other
]

module _ (before : String → String → Bool) where
  insert-All :
      (P : ValidatorSignature → Type 0) (s : ValidatorSignature) (xs : List ValidatorSignature)
      → P s
      → All P xs
      → All P (insert_signature before s xs)
  unfolding insert_signature
  insert-All P s [] p h = (p, tt)
  insert-All P s (x ∷ xs) p h = elim (Bool-cases (before s.validator_id x.validator_id)) [
    | inl first ↦ rw (first, insert_signature) (p, h)
    | inr later ↦ rw (later, insert_signature) (h.0, insert-All P s xs p h.1)
  ]

  insert-IsDistinct :
      (s : ValidatorSignature) (xs : List ValidatorSignature)
      → All (Differs s) xs
      → IsDistinct xs
      → IsDistinct (insert_signature before s xs)
  unfolding insert_signature
  insert-IsDistinct s [] d h = (tt, tt)
  insert-IsDistinct s (x ∷ xs) d h = elim (Bool-cases (before s.validator_id x.validator_id)) [
    | inl first ↦ rw (first, insert_signature) (d, h)
    | inr later ↦
        rw (later, insert_signature)
          (insert-All (Differs x) s xs (Differs-sym s x d.0) h.0, insert-IsDistinct s xs d.1 h.1)
  ]

  length-insert :
      (s : ValidatorSignature) (xs : List ValidatorSignature)
      → length (insert_signature before s xs) ≡ suc (length xs)
  unfolding insert_signature
  length-insert s [] = refl
  length-insert s (x ∷ xs) = ground (arith, length-insert s xs)

  pub sort-All :
      (P : ValidatorSignature → Type 0) (sorted rest : List ValidatorSignature)
      → All P sorted
      → All P rest
      → All P (sort_signatures before sorted rest)
  unfolding sort_signatures
  sort-All P sorted [] h k = h
  sort-All P sorted (s ∷ rest) h k =
      sort-All P (insert_signature before s sorted) rest (insert-All P s sorted k.0 h) k.1

  pub sort-IsDistinct :
      (sorted rest : List ValidatorSignature)
      → IsDistinct sorted
      → IsDistinct rest
      → All (λ s. All (Differs s) sorted) rest
      → IsDistinct (sort_signatures before sorted rest)
  unfolding sort_signatures
  sort-IsDistinct sorted [] h k c = h
  sort-IsDistinct sorted (s ∷ rest) h k c =
      sort-IsDistinct (insert_signature before s sorted) rest (insert-IsDistinct s sorted c.0 h) k.1
        (All-zip rest (λ x d e. insert-All (Differs x) s sorted (Differs-sym s x d) e) k.0 c.1)

  pub length-sort :
      (sorted rest : List ValidatorSignature)
      → length (sort_signatures before sorted rest) ≡ length sorted + length rest
  unfolding sort_signatures
  length-sort sorted [] = omega arith
  length-sort sorted (s ∷ rest) =
      omega (arith, length-sort (insert_signature before s sorted) rest, length-insert s sorted)
