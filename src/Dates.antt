-- ===== src/Dates.antt =====
-- `Date` of the language, which the program takes timestamps apart with.
use canton_evmcrosschain.Prelude.{ℕ, String, Bool, false, Option, none, some, ltb, leb}

-- `Date.parse` and `toISOString`. A number is the milliseconds since the earliest date that a
-- `Date` holds, and `none` is NaN, the answer to a text that is no date. What a text other than
-- the ISO form means is left to each implementation, so both are parameters.
pub record Dates : Type 0 where
  pub parse : String → Option ℕ
  pub to_iso : ℕ → String

-- A comparison with NaN is false.
abbrev pub time_lt : Option ℕ → Option ℕ → Bool
time_lt (some a) (some b) = ltb a b
time_lt (some a) none = false
time_lt none b = false

abbrev pub time_le : Option ℕ → Option ℕ → Bool
time_le (some a) (some b) = leb a b
time_le (some a) none = false
time_le none b = false
