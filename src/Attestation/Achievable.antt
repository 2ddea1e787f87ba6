-- ===== src/Attestation/Achievable.antt =====
-- The threshold of an accepted validator set can be reached at every time of its interval.
use canton_evmcrosschain.Prelude.{
  ℕ, ◌≤◌, ◌<◌, String, ◌≡◌, ◌⊎◌, refl, sym, subst, Bool, true, not, ◌&&◌, ◌||◌, Option, none, some,
  List, [], ◌∷◌, ◌++◌, leb, ltb, filter, length, is_blank, arith, Bool-cases, Option-cases, inl,
  inr,
}
use canton_evmcrosschain.Failures.{registry, invalid_argument, ok, >>=-eq-ok, require-eq-ok}
use canton_evmcrosschain.Dates.{Dates, time_lt, time_le}
use canton_evmcrosschain.Attestation.Lists.{Has, Has-append_left, Has-append_right}
use canton_evmcrosschain.Attestation.ValidatorSets.{
  ValidatorMember, ValidatorSet, check, given, parse_time, is_before_end, assert_not_empty,
  check_members, is_available, available, kept_time, parsed, member_boundaries, check_boundaries,
  assert_validator_set,
}

-- The last of the numbers that are at most `t`.
record Latest (t : ℕ) (ns : List ℕ) : Type 0 where
  latest : ℕ
  is_one : Has latest ns
  is_past : latest ≤ t
  is_last : (n : ℕ) → Has n ns → n ≤ t → n ≤ latest

Latest-of : (t : ℕ) (ns : List ℕ) → ((n : ℕ) → Has n ns → t < n) ⊎ Latest t ns
Latest-of t [] = inl (λ n h. absurd h)
Latest-of t (m ∷ ns) = elim (Latest-of t ns) [
  | inl none_yet ↦ elim (Bool-cases (leb m t)) [
    | inr future ↦ inl (λ n h. elim h [ inl e ↦ ground arith | inr later ↦ none_yet n later ])
    | inl past ↦ inr (record {
      latest = m;
      is_one = inl refl;
      is_past = ground arith;
      is_last = λ n h p. elim h [
        | inl e ↦ omega (arith, e)
        | inr later ↦ absurd (omega (arith, none_yet n later, p))
      ];
    })
  ]
  | inr l ↦ elim (Bool-cases (leb m t && leb l.latest m)) [
    | inl past ↦ inr (record {
      latest = m;
      is_one = inl refl;
      is_past = ground arith;
      is_last = λ n h p. elim h [
        | inl e ↦ omega (arith, e)
        | inr later ↦ let b = l.is_last n later p in ground arith
      ];
    })
    | inr other ↦ inr (record {
      latest = l.latest;
      is_one = inr l.is_one;
      is_past = l.is_past;
      is_last = λ n h p. elim h [ inl e ↦ ground arith | inr later ↦ l.is_last n later p ];
    })
  ]
]

check_boundaries-Has :
    (dates : Dates) (threshold n : ℕ) (members : List ValidatorMember) (times : List ℕ)
    → check_boundaries dates threshold members times ≡ ok tt
    → Has n times
    → threshold ≤ available dates n members
unfolding check_boundaries
check_boundaries-Has dates threshold n members [] h x = elim x [ ]
check_boundaries-Has dates threshold n members (t ∷ times) h (inl e) =
    let (u, good, rest) = >>=-eq-ok (check (ltb (available dates t members) threshold)) _ h in
    subst (λ k. threshold ≤ available dates k members) (sym e) (ground arith)
check_boundaries-Has dates threshold n members (t ∷ times) h (inr later) =
    let (u, good, rest) = >>=-eq-ok (check (ltb (available dates t members) threshold)) _ h in
    check_boundaries-Has dates threshold n members times rest later

length-filter_mono :
    (p q : ValidatorMember → Bool) (members : List ValidatorMember)
    → ((m : ValidatorMember) → p m ≡ true → q m ≡ true)
    → length (filter p members) ≤ length (filter q members)
length-filter_mono p q [] f = omega arith
length-filter_mono p q (m ∷ members) f = ground (arith, length-filter_mono p q members f, f m)

-- The end of a member's availability is a boundary, if it lies in the interval of the set.
disabled-Has :
    (dates : Dates) (from : ℕ) (until : Option String) (m : ValidatorMember) (end : ℕ)
    (rest : List ValidatorMember)
    → parsed dates (given m.disabled_at) ≡ some end
    → from ≤ end
    → is_before_end dates (some end) until ≡ true
    → Has end (member_boundaries dates from until (m ∷ rest))
unfolding member_boundaries
disabled-Has dates from until m end rest p a b =
    let late : leb from end ≡ true = ground arith in
    let first = kept_time dates from until (dates.parse m.enabled_from) in
    let second = kept_time dates from until (parsed dates (given m.disabled_at)) in
    Has-append_left end (first ++ second) (member_boundaries dates from until rest)
      (Has-append_right end first second (rw (p, late, b) (inl refl)))

before_earlier :
    (dates : Dates) (a t : ℕ) (until : Option String)
    → a ≤ t
    → is_before_end dates (some t) until ≡ true
    → is_before_end dates (some a) until ≡ true
before_earlier dates a t none p h = refl
before_earlier dates a t (some s) p h = elim (Option-cases (dates.parse s)) [
  | inl nan ↦ cc (subst (λ o. time_lt (some t) o ≡ true) nan h)
  | inr (end, e) ↦ let b = subst (λ o. time_lt (some t) o ≡ true) e h in rw e (ground arith)
]

before_later :
    (dates : Dates) (b t : ℕ) (disabled : Option String)
    → ((end : ℕ) → parsed dates disabled ≡ some end → b < end → end ≤ t → ⊥)
    → is_before_end dates (some b) disabled ≡ true
    → is_before_end dates (some t) disabled ≡ true
before_later dates b t none last h = refl
before_later dates b t (some s) last h = elim (Option-cases (dates.parse s)) [
  | inl nan ↦ cc (subst (λ o. time_lt (some b) o ≡ true) nan h)
  | inr (end, e) ↦
      let here = subst (λ o. time_lt (some b) o ≡ true) e h in
      rw e (elim (Bool-cases (leb end t)) [
        | inl past ↦ absurd (last end e (ground arith) (ground arith))
        | inr future ↦ ground arith
      ])
]

enabled_later :
    (enabled : Option ℕ) (b t : ℕ)
    → b ≤ t
    → time_le enabled (some b) ≡ true
    → time_le enabled (some t) ≡ true
enabled_later none b t p h = cc h
enabled_later (some e) b t p h = ground arith

-- A member that is available at the latest boundary up to `t` is available at `t`.
available_later :
    (dates : Dates) (b t : ℕ) (m : ValidatorMember)
    → b ≤ t
    → ((end : ℕ) → parsed dates (given m.disabled_at) ≡ some end → b < end → end ≤ t → ⊥)
    → is_available dates b m ≡ true
    → is_available dates t m ≡ true
available_later dates b t m p last here =
    let enabled = enabled_later (dates.parse m.enabled_from) b t p (ground arith) in
    let going = before_later dates b t (given m.disabled_at) last (ground arith) in
    rw (enabled, going) refl

-- No fewer members of the list are available at `t` than at the latest boundary up to it.
available_mono :
    (dates : Dates) (from b t : ℕ) (until : Option String) (members : List ValidatorMember)
    → from ≤ b
    → b ≤ t
    → is_before_end dates (some t) until ≡ true
    → ((n : ℕ) → Has n (member_boundaries dates from until members) → n ≤ t → n ≤ b)
    → available dates b members ≤ available dates t members
unfolding available member_boundaries
available_mono dates from b t until [] f p u last = omega arith
available_mono dates from b t until (m ∷ members) f p u last =
    let rest = available_mono dates from b t until members f p u (λ n h q.
      last n
        (Has-append_right n
          (kept_time dates from until (dates.parse m.enabled_from)
            ++ kept_time dates from until (parsed dates (given m.disabled_at)))
          (member_boundaries dates from until members) h)
        q) in
    let keeps = available_later dates b t m p (λ end e q r.
      let inside = before_earlier dates end t until r u in
      let low =
        last end (disabled-Has dates from until m end members e (omega (arith, f, q)) inside) r in
      omega (arith, low, q)) in
    ground arith

achievable_from :
    (dates : Dates) (threshold from t : ℕ) (until : Option String) (members : List ValidatorMember)
    → from ≤ t
    → is_before_end dates (some t) until ≡ true
    → check_boundaries dates threshold members
        (kept_time dates from until (some from) ++ member_boundaries dates from until members)
      ≡ ok tt
    → threshold ≤ available dates t members
achievable_from dates threshold from t until members p u h =
    let start = kept_time dates from until (some from) in
    let others = member_boundaries dates from until members in
    let here : leb from from ≡ true = ground arith in
    let inside = before_earlier dates from t until p u in
    let from_has : Has from (start ++ others) =
      Has-append_left from start others (rw (here, inside) (inl refl)) in
    elim (Latest-of t (start ++ others)) [
      | inl none_yet ↦ absurd (omega (arith, none_yet from from_has, p))
      | inr l ↦
          let low = l.is_last from from_has p in
          let enough =
            check_boundaries-Has dates threshold l.latest members (start ++ others) h l.is_one in
          let more =
            available_mono dates from l.latest t until members low l.is_past u
              (λ n g q. l.is_last n (Has-append_right n start others g) q) in
          omega (arith, enough, more)
    ]

-- In a validator set that `assertValidatorSet` accepts, at every time from `validFrom` on and before
-- `validUntil`, if there is one, at least as many members are available as the threshold says: the
-- times that the code looks at are enough.
pub assert_validator_set-available :
    (dates : Dates) (set : ValidatorSet) (from t : ℕ)
    → assert_validator_set dates set ≡ ok tt
    → dates.parse set.valid_from ≡ some from
    → from ≤ t
    → is_before_end dates (some t) (given set.valid_until) ≡ true
    → set.threshold ≤ available dates t set.members
unfolding assert_validator_set
assert_validator_set-available dates set from t h e p u =
    let (u1, named, r1) = >>=-eq-ok (check (is_blank set.id || is_blank set.version)) _ h in
    let (f, parses, r2) = >>=-eq-ok (parse_time dates set.valid_from) _ r1 in
    let (u3, whole, r3) = >>=-eq-ok (assert_not_empty dates f (given set.valid_until)) _ r2 in
    let (u4, bounded, r4) =
      >>=-eq-ok
        (check (
          not (ltb set.threshold 9007199254740992)
          || ltb set.threshold 1
          || ltb (length set.members) set.threshold))
        _ r3 in
    let (u5, distinct, r5) = >>=-eq-ok (check_members dates [] [] set.members) _ r4 in
    let start : f ≡ from =
      cc (require-eq-ok (dates.parse set.valid_from) (registry invalid_argument) f parses, e) in
    achievable_from dates set.threshold from t (given set.valid_until) set.members p u (
      subst
        (λ k.
          check_boundaries dates set.threshold set.members (
            kept_time dates k (given set.valid_until) (some k)
            ++ member_boundaries dates k (given set.valid_until) set.members)
          ≡ ok tt)
        start r5)
