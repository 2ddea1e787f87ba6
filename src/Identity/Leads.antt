-- ===== src/Identity/Leads.antt =====
-- What one write of the registry of identity-registry.ts leads to.
use canton_evmcrosschain.Prelude.{◌≡◌, refl, sym, subst, ◌∙◌}
use canton_evmcrosschain.Failures.{Result, ok, err, Exec}
use canton_evmcrosschain.Exec.{◌>>=◌, lift, continue}
use canton_evmcrosschain.Served.{Served, Keeps}
use canton_evmcrosschain.Identity.Registry.{Identities, on_identities, stored_identities}

module _ {W : Type 0} (s0 : Identities) (Q : Identities → Type 0) (before : Q s0) where
  -- An action that leads from the stored values `s0` to ones with `Q`, also when it throws.
  abbrev pub Leads : {A : Type 0} → Exec (Served Identities W) A → Type 0
  Leads m = (s : Served Identities W) → s.stored ≡ s0 → Q (m s).1.stored

  abbrev pub IsQuiet : {A : Type 0} → Exec (Served Identities W) A → Type 0
  IsQuiet m = (s : Served Identities W) → (m s).1.stored ≡ s.stored

  module _ {A B : Type 0} (f : A → Exec (Served Identities W) B) where
    continue-Leads :
        (q : Result A) (s : Served Identities W)
        → s.stored ≡ s0
        → ((a : A) → q ≡ ok a → Leads (f a))
        → Q (continue (q, s) f).1.stored
    continue-Leads (ok a) s e k = k a refl s e
    continue-Leads (err x) s e k = subst Q (sym e) before

    pub lift-Leads : (r : Result A) → ((a : A) → r ≡ ok a → Leads (f a)) → Leads (lift r >>= f)
    unfolding ◌>>=◌
    lift-Leads r k s e = continue-Leads r s e k

    pub quiet-Leads :
        (m : Exec (Served Identities W) A) → IsQuiet m → ((a : A) → Leads (f a)) → Leads (m >>= f)
    unfolding ◌>>=◌
    quiet-Leads m q k s e = continue-Leads (m s).0 (m s).1 (q s ∙ e) (λ a x. k a)

  pub read-Leads :
      {B : Type 0} (f : Identities → Exec (Served Identities W) B)
      → Leads (f s0)
      → Leads (stored_identities {W = W} >>= f)
  unfolding stored_identities ◌>>=◌
  read-Leads f k s e = subst (λ x. Q (f x s).1.stored) (sym e) (k s e)

  pub write-Leads :
      {B : Type 0} (g : Identities → Identities) (f : Unit {0} → Exec (Served Identities W) B)
      → ((u : Unit {0}) → Keeps Q (f u))
      → Q (g s0)
      → Leads (on_identities {W = W} g >>= f)
  unfolding on_identities ◌>>=◌
  write-Leads g f k done s e =
      k tt (record s { stored = g s.stored }) (subst (λ x. Q (g x)) (sym e) done)
