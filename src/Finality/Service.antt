-- ===== src/Finality/Service.antt =====
-- FinalityService of finality-service.ts, and its store over
-- packages/core/sql/004_finality_assessments.sql: the assessments under their identifiers, the primary
-- key.
use canton_evmcrosschain.Prelude.{ℕ, String, not, Option, List, [], ◌∷◌, is_some, if◌then◌else◌}
use canton_evmcrosschain.Failures.{registry, conflict, not_found, Result, ok, err, require, Exec}
use canton_evmcrosschain.Exec.{◌>>=◌, ◌>>◌, pure, lift}
use canton_evmcrosschain.Served.{Served, on_stored, read_clock}
use canton_evmcrosschain.Dict
use canton_evmcrosschain.Dict.{Dict}
use canton_evmcrosschain.Dates.{Dates}
use canton_evmcrosschain.Network.Registry.{FinalityPolicy}
use canton_evmcrosschain.Finality.Checks.{
  AssessInput, FinalityNetworkConfiguration, network_of, assert_common,
}
use canton_evmcrosschain.Finality.Evaluation.{
  Confirmations, safe, unsafe, not_finite, NetworkFinalityObservation, evm, canton, rejected,
  Evaluation, Writing, evaluation, evaluate_evm, evaluate_canton,
}

pub record FinalityAssessment : Type 0 where
  pub id : String
  pub network_id : String
  pub network_type : String
  pub transaction_id : String
  pub policy : FinalityPolicy
  pub result : Evaluation
  pub observation : NetworkFinalityObservation
  pub assessed_at : String

abbrev pub Configured : Type 0
Configured = Dict FinalityNetworkConfiguration

-- The constructor's map of networks.
unfoldable pub configure_networks :
    List FinalityNetworkConfiguration → Configured → Result Configured
configure_networks [] configured = ok configured
configure_networks (n ∷ networks) configured =
    if is_some (Dict.lookup n.network_id configured)
    then err (registry conflict)
    else configure_networks networks (Dict.insert n.network_id n configured)

abbrev pub evaluate_kind :
    Writing → FinalityPolicy → Option String → NetworkFinalityObservation → Evaluation
evaluate_kind writing policy chain_id (evm o) = evaluate_evm writing policy o chain_id
evaluate_kind writing policy chain_id (canton o) = evaluate_canton writing policy o

-- `evaluated` of `assess`
unfoldable pub evaluate :
    Writing → FinalityNetworkConfiguration → NetworkFinalityObservation → Evaluation
unfolding evaluation evaluate_evm evaluate_canton
evaluate writing configuration o =
    if not configuration.enabled
    then evaluation writing rejected ("NETWORK_DISABLED" ∷ []) "disabled" o
    else evaluate_kind writing configuration.policy configuration.chain_id o

abbrev pub Assessments : Type 0
Assessments = Dict FinalityAssessment

-- `JSON.stringify` and a jsonb column, on the confirmations: NaN and the infinities become null.
abbrev pub stored_confirmations : Confirmations → Confirmations
stored_confirmations (safe n) = safe n
stored_confirmations (unsafe s) = unsafe s
stored_confirmations (not_finite s) = unsafe "null"

abbrev pub stored_observation : NetworkFinalityObservation → NetworkFinalityObservation
stored_observation (evm o) = evm (record o { confirmations = stored_confirmations o.confirmations })
stored_observation (canton o) = canton o

-- An assessment as its column keeps it.
abbrev pub as_stored : FinalityAssessment → FinalityAssessment
as_stored a = record a { observation = stored_observation a.observation }

-- `save`: INSERT … ON CONFLICT DO NOTHING
unfoldable pub save : FinalityAssessment → Exec Assessments (Unit {0})
save a table =
    if is_some (Dict.lookup a.id table)
    then (err (registry conflict), table)
    else (ok tt, Dict.insert a.id (as_stored a) table)

unfoldable pub get : String → Exec Assessments (Option FinalityAssessment)
get id table = (ok (Dict.lookup id table), table)

pub record Services (W : Type 0) : Type 0 where
  pub dates : Dates
  pub writing : Writing
  pub clock : W → ℕ × W
  pub networks : Configured

abbrev pub assessment_of :
    Writing → AssessInput → FinalityNetworkConfiguration → String → FinalityAssessment
assessment_of writing input configuration assessed_at = record {
  id = input.id;
  network_id = network_of input.observation;
  network_type = configuration.network_type;
  transaction_id = input.transaction_id;
  policy = configuration.policy;
  result = evaluate writing configuration input.observation;
  observation = input.observation;
  assessed_at = assessed_at;
}

module _ {W : Type 0} (services : Services W) where
  -- `assess`
  unfoldable pub assess : AssessInput → Exec (Served Assessments W) FinalityAssessment
  unfolding assert_common evaluate save
  assess input = do
    t ← read_clock services.clock
    let at = services.dates.to_iso t
    configuration ← lift (
        require (Dict.lookup (network_of input.observation) services.networks) (registry not_found))
    lift (assert_common services.dates input configuration at)
    let assessment = assessment_of services.writing input configuration at
    on_stored (save assessment)
    pure assessment
