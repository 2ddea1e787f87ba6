-- ===== src/Served.antt =====
-- A service over stored values, with an outside world of its own.
use canton_evmcrosschain.Prelude.{ℕ, ◌≡◌, refl, Bool, true, false, if◌then◌else◌}
use canton_evmcrosschain.Exec.{◌>>=◌, lift, continue}
use canton_evmcrosschain.Failures.{Result, ok, err, Exec}

-- What a service works on.
pub record Served (R W : Type 0) : Type 0 where
  pub stored : R
  pub world : W

module _ {R W : Type 0} where
  -- A call of the outside world.
  unfoldable pub ask_world : {A : Type 0} → Exec W A → Exec (Served R W) A
  ask_world m s = let (r, w) = m s.world in (r, record s { world = w })

  -- A call of the store.
  unfoldable pub on_stored : {A : Type 0} → Exec R A → Exec (Served R W) A
  on_stored m s = let (r, stored) = m s.stored in (r, record s { stored = stored })

  -- A reading of the clock.
  unfoldable pub read_clock : (W → ℕ × W) → Exec (Served R W) ℕ
  read_clock clock s = let (t, w) = clock s.world in (ok t, record s { world = w })

-- An action that leaves the stored values as `P` wants them, also when it throws.
abbrev pub Keeps : {R W A : Type 0} → (R → Type 0) → Exec (Served R W) A → Type 0
Keeps P m = (s : Served _ _) → P s.stored → P (m s).1.stored

module _ {R W : Type 0} (P : R → Type 0) where
  pub read_clock-Keeps : (clock : W → ℕ × W) → Keeps P (read_clock clock)
  unfolding read_clock
  read_clock-Keeps clock s h = h

module _ {R W A : Type 0} (P : R → Type 0) where
  pub ask_world-Keeps : (m : Exec W A) → Keeps P (ask_world m)
  unfolding ask_world
  ask_world-Keeps m s h = h

  pub on_stored-Keeps : (m : Exec R A) → ((r : R) → P r → P (m r).1) → Keeps P (on_stored {W = W} m)
  unfolding on_stored
  on_stored-Keeps m k s h = k s.stored h

  pub if-Keeps :
      (b : Bool) (m n : Exec (Served R W) A) → Keeps P m → Keeps P n → Keeps P (if b then m else n)
  if-Keeps true m n k l = k
  if-Keeps false m n k l = l

module _ {R W A B : Type 0} (P : R → Type 0) (f : A → Exec (Served R W) B) where
  continue-Keeps :
      (q : Result A) (s : Served R W)
      → ((a : A) → q ≡ ok a → Keeps P (f a))
      → P s.stored
      → P (continue (q, s) f).1.stored
  continue-Keeps (ok a) s k h = k a refl s h
  continue-Keeps (err e) s k h = h

  pub chain-Keeps :
      (m : Exec (Served R W) A) → Keeps P m → ((a : A) → Keeps P (f a)) → Keeps P (m >>= f)
  unfolding ◌>>=◌
  chain-Keeps m k l s h = continue-Keeps (m s).0 (m s).1 (λ a e. l a) (k s h)

  pub lift-Keeps : (r : Result A) → ((a : A) → r ≡ ok a → Keeps P (f a)) → Keeps P (lift r >>= f)
  unfolding ◌>>=◌
  lift-Keeps r k s h = continue-Keeps r s k h
