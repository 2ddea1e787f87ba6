-- ===== src/Attestation/ValidatorSets.antt =====
-- The validator sets of threshold-attestation.ts and their registry.
use canton_evmcrosschain.Prelude.{
  ℕ, String, Bool, true, not, ◌&&◌, ◌||◌, Option, none, some, List, [], ◌∷◌, ◌++◌, ◌==◌, leb, ltb,
  any, filter, length, is_some, is_blank, concat, if◌then◌else◌,
}
use canton_evmcrosschain.Failures.{
  registry, invalid_argument, conflict, not_found, Result, ok, ◌>>=◌, ◌>>◌, reject_if, require,
  Exec, transaction,
}
use canton_evmcrosschain.Dict
use canton_evmcrosschain.Dict.{Dict}
use canton_evmcrosschain.Dates.{Dates, time_lt, time_le}

pub record ValidatorMember : Type 0 where
  pub validator_id : String
  pub algorithm : String
  pub public_key_id : String
  pub enabled_from : String
  pub disabled_at : Option String

-- A threshold that is negative or no integer is refused as 0 is, and stands as 0.
pub record ValidatorSet : Type 0 where
  pub id : String
  pub version : String
  pub threshold : ℕ
  pub valid_from : String
  pub valid_until : Option String
  pub members : List ValidatorMember

abbrev pub check : Bool → Result (Unit {0})
check bad = reject_if bad (registry invalid_argument)

-- The truth of an optional text: the empty one is no value.
abbrev pub given : Option String → Option String
given none = none
given (some s) = if s == "" then none else some s

abbrev pub Sets : Type 0
Sets = Dict ValidatorSet

module _ (dates : Dates) where
  -- `parseTime`
  abbrev pub parse_time : String → Result ℕ
  parse_time value = require (dates.parse value) (registry invalid_argument)

  -- `!until || time < Date.parse(until)`
  abbrev pub is_before_end : Option ℕ → Option String → Bool
  is_before_end time none = true
  is_before_end time (some until) = time_lt time (dates.parse until)

  -- `until && from >= parseTime(until)`, in a check
  abbrev pub assert_not_empty : ℕ → Option String → Result (Unit {0})
  assert_not_empty from none = ok tt
  assert_not_empty from (some until) = parse_time until >>= λ end. check (leb end from)

  abbrev pub member_key : ValidatorMember → String
  member_key m = concat m.algorithm (concat "|" m.public_key_id)

  -- The loop over the members, with the identifiers and the keys that it has seen.
  unfoldable pub check_members :
      List String → List String → List ValidatorMember → Result (Unit {0})
  check_members ids keys [] = ok tt
  check_members ids keys (m ∷ members) = do
    check (is_blank m.validator_id || is_blank m.algorithm || is_blank m.public_key_id)
    check (any (λ i. i == m.validator_id) ids)
    check (any (λ k. k == member_key m) keys)
    enabled ← parse_time m.enabled_from
    assert_not_empty enabled (given m.disabled_at)
    check_members (m.validator_id ∷ ids) (member_key m ∷ keys) members

  -- `Date.parse(member.enabledFrom) <= time && (!member.disabledAt || time < …)`
  abbrev pub is_available : ℕ → ValidatorMember → Bool
  is_available time m =
      time_le (dates.parse m.enabled_from) (some time)
      && is_before_end (some time) (given m.disabled_at)

  unfoldable pub available : ℕ → List ValidatorMember → ℕ
  available time members = length (filter (is_available time) members)

  -- A time of the list of boundaries that `filter` keeps; NaN and infinity are `none`.
  abbrev pub kept_time : ℕ → Option String → Option ℕ → List ℕ
  kept_time from until none = []
  kept_time from until (some time) =
      if leb from time && is_before_end (some time) until then time ∷ [] else []

  abbrev pub parsed : Option String → Option ℕ
  parsed none = none
  parsed (some s) = dates.parse s

  unfoldable pub member_boundaries : ℕ → Option String → List ValidatorMember → List ℕ
  member_boundaries from until [] = []
  member_boundaries from until (m ∷ members) =
      kept_time from until (dates.parse m.enabled_from)
      ++ kept_time from until (parsed (given m.disabled_at))
      ++ member_boundaries from until members

  unfoldable pub check_boundaries : ℕ → List ValidatorMember → List ℕ → Result (Unit {0})
  unfolding available
  check_boundaries threshold members [] = ok tt
  check_boundaries threshold members (time ∷ times) =
      check (ltb (available time members) threshold) >> check_boundaries threshold members times

  -- `assertValidatorSet`
  unfoldable pub assert_validator_set : ValidatorSet → Result (Unit {0})
  unfolding check_members member_boundaries check_boundaries
  assert_validator_set set = do
    check (is_blank set.id || is_blank set.version)
    from ← parse_time set.valid_from
    assert_not_empty from (given set.valid_until)
    check (
        not (ltb set.threshold 9007199254740992)
        || ltb set.threshold 1
        || ltb (length set.members) set.threshold)
    check_members [] [] set.members
    check_boundaries set.threshold set.members (
        kept_time from (given set.valid_until) (some from)
        ++ member_boundaries from (given set.valid_until) set.members)

  -- Whether an interval starts before the end of another.
  abbrev pub starts_before : String → Option String → Bool
  starts_before from none = is_some (dates.parse from)
  starts_before from (some until) = time_lt (dates.parse from) (dates.parse until)

  -- `intervalsOverlap`
  unfoldable pub intervals_overlap : String → Option String → String → Option String → Bool
  intervals_overlap a_from a_until b_from b_until =
      starts_before a_from (given b_until) && starts_before b_from (given a_until)

  abbrev pub overlaps : ValidatorSet → ValidatorSet → Bool
  overlaps set existing =
      intervals_overlap set.valid_from set.valid_until existing.valid_from existing.valid_until

  unfoldable pub register_body : ValidatorSet → Sets → Result (ValidatorSet × Sets)
  unfolding assert_validator_set intervals_overlap
  register_body set sets = do
    assert_validator_set set
    reject_if (is_some (Dict.lookup set.id sets)) (registry conflict)
    reject_if (any (overlaps set) (Dict.values sets)) (registry conflict)
    ok (set, Dict.insert set.id set sets)

  -- `register`: nothing is written before it throws.
  unfoldable pub register : ValidatorSet → Exec Sets ValidatorSet
  unfolding register_body
  register set sets = transaction (register_body set) sets

  unfoldable pub get : String → Sets → Option ValidatorSet
  get id sets = Dict.lookup id sets

  -- `set.validUntil && time >= parseTime(set.validUntil)`
  abbrev pub assert_before : ℕ → Option String → Result (Unit {0})
  assert_before time none = ok tt
  assert_before time (some until) = parse_time until >>= λ end. check (leb end time)

  unfoldable pub resolve : String → String → Sets → Result ValidatorSet
  resolve id attestation_valid_from sets = do
    set ← require (Dict.lookup id sets) (registry not_found)
    time ← parse_time attestation_valid_from
    from ← parse_time set.valid_from
    check (ltb time from)
    assert_before time (given set.valid_until)
    ok set
