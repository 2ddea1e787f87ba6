-- ===== src/Exec.antt =====
-- Chains of actions on stored state. An action that throws ends the chain, and what was written
-- before stays written.
use canton_evmcrosschain.Prelude.{arith, ap, ◌≡◌, refl}
use canton_evmcrosschain.Failures.{Failure, Result, ok, err, Exec}

module _ {ℓ} {S A B : Type ℓ} where
  abbrev pub continue : Result A × S → (A → Exec S B) → Result B × S
  continue (ok a, s) f = f a s
  continue (err e, s) f = (err e, s)

  infixl 5 ◌>>=◌ ◌>>◌
  unfoldable pub ◌>>=◌ : Exec S A → (A → Exec S B) → Exec S B
  ◌>>=◌ m f s = continue (m s) f

  abbrev pub ◌>>◌ : Exec S A → Exec S B → Exec S B
  m >> k = m >>= λ _. k

module _ {ℓ} {S A : Type ℓ} where
  abbrev pub pure : A → Exec S A
  pure a s = (ok a, s)

  abbrev pub throw : Failure → Exec S A
  throw e s = (err e, s)

  abbrev pub lift : Result A → Exec S A
  lift r s = (r, s)

-- A successful chain, taken apart.
pub record Chained {ℓ} {S A B : Type ℓ} (m : Exec S A) (f : A → Exec S B) (s : S) (b : B) (s' : S)
    : Type ℓ where
  pub value : A
  pub between : S
  pub first : m s ≡ (ok value, between)
  pub second : f value between ≡ (ok b, s')

continue-eq-ok {ℓ} :
    {S A B : Type ℓ} (m : Exec S A) (f : A → Exec S B) (s s' : S) (b : B) (r : Result A) (t : S)
    → m s ≡ (r, t)
    → continue (r, t) f ≡ (ok b, s')
    → Chained m f s b s'
continue-eq-ok m f s s' b (ok a) t e h = record { value = a; between = t; first = e; second = h }
continue-eq-ok m f s s' b (err x) t e h = ground arith

pub chain-eq-ok {ℓ} :
    {S A B : Type ℓ} (m : Exec S A) (f : A → Exec S B) (s s' : S) (b : B)
    → (m >>= f) s ≡ (ok b, s')
    → Chained m f s b s'
unfolding ◌>>=◌
chain-eq-ok m f s s' b h = continue-eq-ok m f s s' b (m s).0 (m s).1 refl h

continue-cong {ℓ} :
    {S A B : Type ℓ} (f g : A → Exec S B) (r : Result A) (t : S)
    → ((a : A) → r ≡ ok a → f a t ≡ g a t)
    → continue (r, t) f ≡ continue (r, t) g
continue-cong f g (ok a) t same = same a refl
continue-cong f g (err e) t same = refl

-- Two chains agree if they agree on what the first action returns.
pub chain-cong {ℓ} :
    {S A B : Type ℓ} (m : Exec S A) (f g : A → Exec S B) (s : S)
    → ((a : A) (t : S) → m s ≡ (ok a, t) → f a t ≡ g a t)
    → (m >>= f) s ≡ (m >>= g) s
unfolding ◌>>=◌
chain-cong {A = A} m f g s same =
    continue-cong f g (m s).0 (m s).1
      (λ a e. same a (m s).1 (ap (λ (r : Result A). (r, (m s).1)) e))

-- Two chains that continue alike agree if their first actions do.
pub chain-same {ℓ} :
    {S A B : Type ℓ} (m n : Exec S A) (f : A → Exec S B) (s : S)
    → m s ≡ n s
    → (m >>= f) s ≡ (n >>= f) s
unfolding ◌>>=◌
chain-same {S = S} {A = A} m n f s e = ap (λ (r : Result A × S). continue r f) e
