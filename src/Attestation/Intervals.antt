-- ===== src/Attestation/Intervals.antt =====
-- The registry of validator sets has at most one set for a time.
use canton_evmcrosschain.Prelude.{
  ℕ, ◌≤◌, String, ◌≡◌, ◌≢◌, refl, sym, subst, ◌∙◌, Bool, true, false, Option, none, some, List, [],
  ◌∷◌, ◌==◌, eq_iff, ltb, any, is_some, arith, Bool-cases, inl, inr,
}
use canton_evmcrosschain.Failures.{
  registry, invalid_argument, conflict, not_found, ok, >>=-eq-ok, reject_if, require, require-eq-ok,
  transaction_keeps,
}
use canton_evmcrosschain.Dict
use canton_evmcrosschain.Dict.{Dict}
use canton_evmcrosschain.Dates.{Dates}
use canton_evmcrosschain.Attestation.ValidatorSets.{
  ValidatorSet, Sets, check, given, parse_time, starts_before, intervals_overlap, overlaps,
  assert_validator_set, register_body, register, assert_before, resolve,
}

any-values :
    (p : ValidatorSet → Bool) (id : String) (b : ValidatorSet) (sets : Sets)
    → Dict.lookup id sets ≡ some b
    → any p (Dict.values sets) ≡ false
    → p b ≡ false
unfolding Dict.lookup Dict.values
any-values p id b [] h n = cc h
any-values p id b ((k, v) ∷ sets) h n = elim (Bool-cases (k == id)) [
  | inl here ↦ let same : v ≡ b = ground arith in subst (λ x. p x ≡ false) same (ground arith)
  | inr there ↦ any-values p id b sets (ground arith) (ground arith)
]

module _ (dates : Dates) where
  -- Sets stand under their identifiers, have passed `assertValidatorSet`, and no two of them overlap.
  pub record IsDisjoint (sets : Sets) : Type 0 where
    pub accepted :
        (id : String) (a : ValidatorSet)
        → Dict.lookup id sets ≡ some a
        → (a.id ≡ id) × (assert_validator_set dates a ≡ ok tt)
    pub apart :
        (i j : String) (a b : ValidatorSet)
        → Dict.lookup i sets ≡ some a
        → Dict.lookup j sets ≡ some b
        → i ≢ j
        → overlaps dates a b ≡ false

  overlaps_sym : (a b : ValidatorSet) → overlaps dates a b ≡ false → overlaps dates b a ≡ false
  unfolding intervals_overlap
  overlaps_sym a b h = ground arith

  insert-IsDisjoint :
      (set : ValidatorSet) (sets : Sets)
      → IsDisjoint sets
      → assert_validator_set dates set ≡ ok tt
      → any (overlaps dates set) (Dict.values sets) ≡ false
      → IsDisjoint (Dict.insert set.id set sets)
  insert-IsDisjoint set sets d good apart = record {
    accepted = λ id a e. elim (Dict.insert-cases set.id id set a sets e) [
      | inl (here, same) ↦
          subst (λ (x : ValidatorSet). (x.id ≡ id) × (assert_validator_set dates x ≡ ok tt)) same
            (here, good)
      | inr (there, old) ↦ d.accepted id a old
    ];
    apart = λ i j a b e f n. elim (Dict.insert-cases set.id i set a sets e) [
      | inl (here, same) ↦ elim (Dict.insert-cases set.id j set b sets f) [
        | inl (there, one) ↦ absurd (n (sym here ∙ there))
        | inr (other, old) ↦
            subst (λ x. overlaps dates x b ≡ false) same
              (any-values (overlaps dates set) j b sets old apart)
      ]
      | inr (other, old) ↦ elim (Dict.insert-cases set.id j set b sets f) [
        | inl (there, one) ↦
            subst (λ x. overlaps dates a x ≡ false) one
              (overlaps_sym set a (any-values (overlaps dates set) i a sets old apart))
        | inr (another, older) ↦ d.apart i j a b old older n
      ]
    ];
  }

  register-IsDisjoint :
      (set : ValidatorSet) (sets : Sets) → IsDisjoint sets → IsDisjoint (register dates set sets).1
  unfolding register register_body
  register-IsDisjoint set sets d =
      transaction_keeps IsDisjoint (register_body dates set) sets
        (λ a sets' h.
          let (u, good, rest) = >>=-eq-ok (assert_validator_set dates set) _ h in
          let (v, new, rest') =
            >>=-eq-ok (reject_if (is_some (Dict.lookup set.id sets)) (registry conflict)) _ rest in
          let (w, apart, last) =
            >>=-eq-ok (reject_if (any (overlaps dates set) (Dict.values sets)) (registry conflict))
              _ rest' in
          let done : Dict.insert set.id set sets ≡ sets' = ground arith in
          subst IsDisjoint done (insert-IsDisjoint set sets d good (ground arith)))
        d

  -- The registry after registrations, each of them accepted or refused.
  abbrev pub registers : List ValidatorSet → Sets → Sets
  registers [] sets = sets
  registers (set ∷ rest) sets = registers rest (register dates set sets).1

  registers-IsDisjoint :
      (rest : List ValidatorSet) (sets : Sets) → IsDisjoint sets → IsDisjoint (registers rest sets)
  registers-IsDisjoint [] sets d = d
  registers-IsDisjoint (set ∷ rest) sets d =
      registers-IsDisjoint rest (register dates set sets).1 (register-IsDisjoint set sets d)

  nil-IsDisjoint : IsDisjoint []
  unfolding Dict.lookup
  nil-IsDisjoint = record { accepted = λ id a h. cc h; apart = λ i j a b h k n. cc h }

  -- What a resolution says of the interval of the set.
  record Resolved (id at : String) (sets : Sets) (a : ValidatorSet) : Type 0 where
    found : Dict.lookup id sets ≡ some a
    from : ℕ
    starts : dates.parse a.valid_from ≡ some from
    time : ℕ
    is_time : dates.parse at ≡ some time
    late_enough : from ≤ time
    early_enough : assert_before dates time (given a.valid_until) ≡ ok tt

  resolve-eq-ok :
      (id at : String) (sets : Sets) (a : ValidatorSet)
      → resolve dates id at sets ≡ ok a
      → Resolved id at sets a
  unfolding resolve
  resolve-eq-ok id at sets a h =
      let (set, found, r1) = >>=-eq-ok (require (Dict.lookup id sets) (registry not_found)) _ h in
      let (time, times, r2) = >>=-eq-ok (parse_time dates at) _ r1 in
      let (from, starts, r3) = >>=-eq-ok (parse_time dates set.valid_from) _ r2 in
      let (u, late, r4) = >>=-eq-ok (check (ltb time from)) _ r3 in
      let (v, early, r5) = >>=-eq-ok (assert_before dates time (given set.valid_until)) _ r4 in
      let same : set ≡ a = ground arith in
      subst (Resolved id at sets) same (record {
        found = require-eq-ok (Dict.lookup id sets) (registry not_found) set found;
        from = from;
        starts = require-eq-ok (dates.parse set.valid_from) (registry invalid_argument) from starts;
        time = time;
        is_time = require-eq-ok (dates.parse at) (registry invalid_argument) time times;
        late_enough = ground arith;
        early_enough = early;
      })

  starts_earlier :
      (value : String) (from time : ℕ) (until : Option String)
      → dates.parse value ≡ some from
      → from ≤ time
      → assert_before dates time until ≡ ok tt
      → starts_before dates value until ≡ true
  starts_earlier value from time none e p h = rw e refl
  starts_earlier value from time (some until) e p h =
      let (end, ends, rest) = >>=-eq-ok (parse_time dates until) _ h in
      let f = require-eq-ok (dates.parse until) (registry invalid_argument) end ends in
      rw (e, f) (ground arith)

  -- After any registrations, accepted or refused, in a registry that was empty, two identifiers that
  -- `resolve` finds validator sets for at the same time are the same: a time has at most one set.
  pub resolve_unique :
      (registrations : List ValidatorSet) (i j at : String) (a b : ValidatorSet)
      → resolve dates i at (registers registrations []) ≡ ok a
      → resolve dates j at (registers registrations []) ≡ ok b
      → i ≡ j
  unfolding intervals_overlap
  resolve_unique registrations i j at a b h k =
      let sets = registers registrations [] in
      let d = registers-IsDisjoint registrations [] nil-IsDisjoint in
      let x = resolve-eq-ok i at sets a h in
      let y = resolve-eq-ok j at sets b k in
      let same : x.time ≡ y.time = cc (x.is_time, y.is_time) in
      let before_b =
        starts_earlier a.valid_from x.from y.time (given b.valid_until) x.starts
          (omega (arith, x.late_enough, same)) y.early_enough in
      let before_a =
        starts_earlier b.valid_from y.from x.time (given a.valid_until) y.starts
          (omega (arith, y.late_enough, same)) x.early_enough in
      elim (Bool-cases (i == j)) [
        | inl one ↦ (eq_iff i j).0 one
        | inr two ↦
            let apart = d.apart i j a b x.found y.found (λ e. cc ((eq_iff i j).1 e, two)) in
            absurd (cc (before_a, before_b, apart))
      ]
