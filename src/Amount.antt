-- ===== src/Amount.antt =====
-- The amounts of invariants.ts: decimal texts read as natural numbers.
use Prim.Native.Nat.{◌*◌, ◌-◌}
use Prim.Native.Char.{code}
use Prim.Native.String.{[], ◌∷◌}
use canton_evmcrosschain.Prelude.{ℕ, ◌+◌, String, Bool, leb, eqb, ltb, if◌then◌else◌, ◌&&◌, ◌==◌}
use canton_evmcrosschain.Failures.{error, Result, ok, err, ◌>>=◌, reject_if}

abbrev is_digit : ℕ → Bool
is_digit c = leb 48 c && leb c 57

-- `BigInt` of what the regular expression has let through; another character is refused.
digits : ℕ → String → Result ℕ
digits n [] = ok n
digits n (c ∷ rest) =
    let d = code c in if is_digit d then digits (n * 10 + (d - 48)) rest else err error

-- The regular expression: "0", or digits of which the first is not 0.
unfoldable pub parse_atomic_amount : String → Result ℕ
unfolding digits
parse_atomic_amount [] = err error
parse_atomic_amount (c ∷ rest) =
    let d = code c in
    if eqb d 48 then (if rest == "" then ok 0 else err error) else digits 0 (c ∷ rest)

unfoldable pub assert_positive_amount : String → Result (Unit {0})
assert_positive_amount value = do amount ← parse_atomic_amount value; reject_if (leb amount 0) error

-- assertSupplyInvariant
unfoldable pub assert_supply_invariant : String → String → Result (Unit {0})
assert_supply_invariant destination_supply verified_backing = do
  supply ← parse_atomic_amount destination_supply
  backing ← parse_atomic_amount verified_backing
  reject_if (ltb backing supply) error
