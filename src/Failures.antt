-- ===== src/Failures.antt =====
-- registry-errors.ts, and the ways in which a call of the program fails.
use canton_evmcrosschain.Prelude.{
  String, ◌≡◌, refl, ◌⊎◌, inl, inr, arith, Bool, true, false, Option, none, some,
}

pub data RegistryErrorCode : Type 0 where
  already_exists not_found invalid_argument conflict : RegistryErrorCode

-- A thrown `RegistryError`, a thrown plain `Error`, or what a database or a service threw. The
-- texts of the program's own messages are not kept.
pub data Failure : Type 0 where
  registry : RegistryErrorCode → Failure
  error : Failure
  external : String → Failure

-- The end of a call: what it threw, or what it returned.
pub data Result {ℓ} (Value : Type ℓ) : Type ℓ where
  err : Failure → Result Value
  ok : Value → Result Value

module _ {ℓ κ} {Value : Type ℓ} {Next : Type κ} where
  infixl 5 ◌>>=◌
  -- `await`: a failure of the first call is one of the whole.
  abbrev pub ◌>>=◌ : Result Value → (Value → Result Next) → Result Next
  ◌>>=◌ (err failure) rest = err failure
  ◌>>=◌ (ok value) rest = rest value

  -- A chain that returns has a first part that returns.
  pub >>=-eq-ok :
      (first : Result Value) (rest : Value → Result Next) {next : Next}
      → (first >>= rest) ≡ ok next
      → (value : Value) × (first ≡ ok value) × (rest value ≡ ok next)
  >>=-eq-ok (err failure) rest returned = cc
  >>=-eq-ok (ok value) rest returned = (value, refl, returned)

infixl 5 ◌>>◌
abbrev pub ◌>>◌ {κ} : {Next : Type κ} → Result (Unit {0}) → Result Next → Result Next
◌>>◌ check rest = check >>= λ done. rest

-- `if (bad) throw e`
abbrev pub reject_if : Bool → Failure → Result (Unit {0})
reject_if true e = err e
reject_if false e = ok tt

-- `if (!value) throw e` on an optional value
abbrev pub require {ℓ} : {A : Type ℓ} → Option A → Failure → Result A
require none e = err e
require (some a) e = ok a

pub require-eq-ok {ℓ} :
    {A : Type ℓ} (found : Option A) (e : Failure) (a : A) → require found e ≡ ok a → found ≡ some a
require-eq-ok none e a h = cc
require-eq-ok (some b) e a h = ground arith

-- An action on stored state: what was written before a failure stays written.
abbrev pub Exec {ℓ} : Type ℓ → Type ℓ → Type ℓ
Exec S A = S → Result A × S

-- The end of a transaction.
abbrev pub committed {ℓ} : {S A : Type ℓ} → S → Result (A × S) → Result A × S
committed s (ok (a, s')) = (ok a, s')
committed s (err e) = (err e, s)

-- `db.transaction(work)`: all writes of `work`, or none of them if it throws.
abbrev pub transaction {ℓ} : {S A : Type ℓ} → (S → Result (A × S)) → Exec S A
transaction work s = committed s (work s)

pub Result-cases {ℓ} :
    {A : Type ℓ} (r : Result A) → ((a : A) × (r ≡ ok a)) ⊎ ((e : Failure) × (r ≡ err e))
Result-cases (ok a) = inl (a, refl)
Result-cases (err e) = inr (e, refl)

-- What holds of the state before a transaction, and after one that succeeds, holds after it.
pub transaction_keeps {ℓ κ} :
    {S A : Type ℓ} (P : S → Type κ) (work : S → Result (A × S)) (s : S)
    → ((a : A) (s' : S) → work s ≡ ok (a, s') → P s')
    → P s
    → P (transaction work s).1
transaction_keeps P work s keeps h = elim (Result-cases (work s)) [
  | inl ((a, s'), done) ↦ rw (done, transaction) (keeps a s' done)
  | inr (e, failed) ↦ rw (failed, transaction) h
]

committed-eq-ok {ℓ} :
    {S A : Type ℓ} (s s' : S) (a : A) (r : Result (A × S))
    → committed s r ≡ (ok a, s')
    → r ≡ ok (a, s')
committed-eq-ok s s' a (ok (b, t)) h = ground arith
committed-eq-ok s s' a (err e) h = ground arith

-- A transaction that returns has done its work.
pub transaction-eq-ok {ℓ} :
    {S A : Type ℓ} (work : S → Result (A × S)) (s s' : S) (a : A)
    → transaction work s ≡ (ok a, s')
    → work s ≡ ok (a, s')
transaction-eq-ok work s s' a h = committed-eq-ok s s' a (work s) h
