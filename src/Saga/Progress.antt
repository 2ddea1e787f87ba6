-- ===== src/Saga/Progress.antt =====
-- What one iteration of the loop of cross-network-settlement.ts does, whatever the services answer:
-- it fails only by the clock, and each way through it follows the graph.
use canton_evmcrosschain.Prelude.{ℕ, ◌+◌, some, String, ◌≡◌, refl, sym, subst, ◌∙◌, true, List}
use canton_evmcrosschain.Failures.{Failure, Result, ok, err, Exec}
use canton_evmcrosschain.Exec.{◌>>=◌, lift, continue}
use canton_evmcrosschain.Saga.States.{
  CrossNetworkSettlementState, SettlementStepEvidence, CrossNetworkTransition,
  CrossNetworkSettlementRecord,
}
use canton_evmcrosschain.Saga.Store.{Records, moved}
use canton_evmcrosschain.Saga.Checks.{validate_evidence}
use canton_evmcrosschain.Saga.Service.{
  Services, Settling, ask, now, stamp, on_records, enter, move, evidenced,
}
use canton_evmcrosschain.Saga.Graph.{follows}
use canton_evmcrosschain.Saga.History.{
  IsCurrent, insert-IsCurrent, moved-HasHistory, transition_record-current,
}

-- A record that follows another and is the current one.
pub record IsLater (r r' : CrossNetworkSettlementRecord) (records : Records) : Type 0 where
  pub is_current : IsCurrent r' records
  pub same_id : r'.request.id ≡ r.request.id
  pub step : follows r.state r'.state ≡ true

module _ {W : Type 0} where
  -- What `advance` ends with: the next record, or an error before anything was written.
  pub data Outcome (r : CrossNetworkSettlementRecord)
      (p : Result CrossNetworkSettlementRecord × Settling W) : Type 0 where
    went_on :
        (r' : CrossNetworkSettlementRecord) → p.0 ≡ ok r' → IsLater r r' p.1.records → Outcome r p
    threw : (e : Failure) → p.0 ≡ err e → IsCurrent r p.1.records → Outcome r p

  abbrev pub IsQuiet : {A : Type 0} → Exec (Settling W) A → Type 0
  IsQuiet m = (s : Settling W) → (m s).1.records ≡ s.records

  continue-IsQuiet :
      {A B : Type 0} (q : Result A) (t : Settling W) (f : A → Exec (Settling W) B)
      → ((a : A) → IsQuiet (f a))
      → (continue (q, t) f).1.records ≡ t.records
  continue-IsQuiet (ok a) t f q = q a t
  continue-IsQuiet (err e) t f q = refl

  chain-IsQuiet :
      {A B : Type 0} (m : Exec (Settling W) A) (f : A → Exec (Settling W) B)
      → IsQuiet m
      → ((a : A) → IsQuiet (f a))
      → IsQuiet (m >>= f)
  unfolding ◌>>=◌
  chain-IsQuiet m f qm qf s = continue-IsQuiet (m s).0 (m s).1 f qf ∙ qm s

  continue-Outcome :
      {A : Type 0} (r : CrossNetworkSettlementRecord) (q : Result A) (t : Settling W)
      (f : A → Exec (Settling W) CrossNetworkSettlementRecord)
      → ((a : A) (s : Settling W) → IsCurrent r s.records → Outcome r (f a s))
      → IsCurrent r t.records
      → Outcome r (continue (q, t) f)
  continue-Outcome r (ok a) t f o c = o a t c
  continue-Outcome r (err e) t f o c = threw e refl c

  -- A step that writes nothing, and then a step with an outcome.
  pub chain-Outcome :
      {A : Type 0} (r : CrossNetworkSettlementRecord) (m : Exec (Settling W) A)
      (f : A → Exec (Settling W) CrossNetworkSettlementRecord)
      → IsQuiet m
      → ((a : A) (s : Settling W) → IsCurrent r s.records → Outcome r (f a s))
      → (s : Settling W) → IsCurrent r s.records
      → Outcome r ((m >>= f) s)
  unfolding ◌>>=◌
  chain-Outcome r m f q o s c =
      continue-Outcome r (m s).0 (m s).1 f o (subst (IsCurrent r) (sym (q s)) c)

-- The clock always gives a valid date.
abbrev pub Ticks : {W : Type 0} → Services W → Type 0
Ticks {W = W} services = (w : W) → (t : ℕ) × ((services.clock w).0 ≡ ok (some t))

-- What a transition of the current record ends with: the next record, or what a clock has thrown.
pub data Moves {W : Type 0} (services : Services W) (r : CrossNetworkSettlementRecord)
    (state : CrossNetworkSettlementState) (p : Result CrossNetworkSettlementRecord × Settling W)
    : Type 0 where
  made :
      (r' : CrossNetworkSettlementRecord)
      → p.0 ≡ ok r'
      → r'.state ≡ state
      → IsLater r r' p.1.records
      → Moves services r state p
  broke :
      (e : Failure)
      → p.0 ≡ err e
      → IsCurrent r p.1.records
      → (Ticks services → ⊥)
      → Moves services r state p

module _ {W : Type 0} (services : Services W) where
  pub ask-IsQuiet : {A : Type 0} (m : Exec W A) → IsQuiet (ask services m)
  unfolding ask
  ask-IsQuiet m s = refl

  pub now-IsQuiet : IsQuiet (now services)
  unfolding now
  now-IsQuiet s = refl

  pub evidenced-IsQuiet : (work : Exec W SettlementStepEvidence) → IsQuiet (evidenced services work)
  unfolding evidenced
  evidenced-IsQuiet work = chain-IsQuiet (ask services work) _ (ask-IsQuiet work) (λ result.
      chain-IsQuiet (lift (validate_evidence services.dates result)) _ (λ s. refl) (λ u s. refl))

  pub stamp-IsQuiet : IsQuiet (stamp services)
  unfolding stamp
  stamp-IsQuiet = chain-IsQuiet (now services) _ now-IsQuiet (λ t s. refl)

  pub stamp_returns :
      Ticks services → (s : Settling W) → (at : String) × ((stamp services s).0 ≡ ok at)
  unfolding stamp now ◌>>=◌
  stamp_returns ticks s = let (t, here) = ticks s.world in (services.dates.to_iso t, rw here refl)

  pub stamp_fails :
      (s : Settling W) (e : Failure) → (stamp services s).0 ≡ err e → (Ticks services → ⊥)
  stamp_fails s e h ticks = let (at, good) = stamp_returns ticks s in cc (h, good)

  -- A transition along the graph is made.
  pub enter-Moves :
      (r : CrossNetworkSettlementRecord) (state : CrossNetworkSettlementState)
      (evidence : List String) (reason at : String)
      → follows r.state state ≡ true
      → (s : Settling W) → IsCurrent r s.records
      → Moves services r state (enter services r state evidence reason at s)
  unfolding enter on_records
  enter-Moves r state evidence reason at f s c =
      let t : CrossNetworkTransition = record {
        sequence = r.version + 1;
        state = state;
        occurred_at = at;
        evidence = evidence;
        reason = reason;
      } in
      rw (transition_record-current r t s.records c) (
        made (moved r r.version t) refl refl (record {
          is_current =
              insert-IsCurrent (moved r r.version t) s.records c.sound
                (moved-HasHistory r t (c.sound r.request.id r c.found).1 refl f);
          same_id = refl;
          step = f;
        }))

  stamped-Moves :
      (r : CrossNetworkSettlementRecord) (state : CrossNetworkSettlementState)
      (evidence : List String) (reason : String)
      → follows r.state state ≡ true
      → (q : Result String) (s : Settling W) → ((e : Failure) → q ≡ err e → (Ticks services → ⊥))
      → IsCurrent r s.records
      → Moves services r state (continue (q, s) (enter services r state evidence reason))
  stamped-Moves r state evidence reason f (ok at) s k c =
      enter-Moves r state evidence reason at f s c
  stamped-Moves r state evidence reason f (err e) s k c = broke e refl c (k e refl)

  pub move-Moves :
      (r : CrossNetworkSettlementRecord) (state : CrossNetworkSettlementState)
      (evidence : List String) (reason : String)
      → follows r.state state ≡ true
      → (s : Settling W) → IsCurrent r s.records
      → Moves services r state (move services r state evidence reason s)
  unfolding move ◌>>=◌
  move-Moves r state evidence reason f s c =
      let p = stamp services s in
      stamped-Moves r state evidence reason f p.0 p.1 (stamp_fails s)
        (subst (IsCurrent r) (sym (stamp-IsQuiet s)) c)
