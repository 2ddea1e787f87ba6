-- ===== src/Finality/Tests.antt =====
-- A transaction that is final on an EVM network, and the theorems at it.
use canton_evmcrosschain.Prelude.{
  ℕ, ◌+◌, ◌≡◌, refl, true, false, none, some, [], ◌∷◌, is_blank, has_prefix,
}
use canton_evmcrosschain.Failures.{ok}
use canton_evmcrosschain.Exec.{◌>>=◌}
use canton_evmcrosschain.Served.{Served, on_stored, read_clock}
use canton_evmcrosschain.Dict
use canton_evmcrosschain.Amount.{parse_atomic_amount}
use canton_evmcrosschain.Samples.{numbered}
use canton_evmcrosschain.Network.Registry.{evm_confirmations}
use canton_evmcrosschain.Finality.Evaluation.{
  success, safe, EvmFinalityObservation, evm, evaluation, evaluate_confirmed, evaluate_evm,
}
use canton_evmcrosschain.Finality.Checks.{AssessInput, FinalityNetworkConfiguration, assert_common}
use canton_evmcrosschain.Finality.Service.{
  FinalityAssessment, Assessments, Services, configure_networks, evaluate, as_stored, save,
  assessment_of, assess,
}
use canton_evmcrosschain.Finality.Satisfied.{is_satisfied, is_final, evaluate-is_final}
use canton_evmcrosschain.Finality.Kept.{AllAssessed, assesses, assesses-AllAssessed, assess-Holds}

abbrev network : FinalityNetworkConfiguration
network = record {
  network_id = "IW:NETWORK:evm";
  network_type = "EVM";
  chain_id = some "1";
  policy = evm_confirmations (some 12) true;
  enabled = true;
}

abbrev services : Services ℕ
services = record {
  dates = numbered;
  writing = record { lower = λ s. s; before = λ a b. false; number_text = λ n. "15" };
  clock = λ n. (150, n + 1);
  networks = ("IW:NETWORK:evm", network) ∷ [];
}

configured : configure_networks (network ∷ []) [] ≡ ok services.networks
unfolding configure_networks Dict.lookup Dict.insert
configured = refl

abbrev seen : EvmFinalityObservation
seen = record {
  network_id = "IW:NETWORK:evm";
  chain_id = "1";
  transaction_id = "tx-1";
  receipt_status = success;
  transaction_block_number = "100";
  transaction_block_hash = "0xaa";
  canonical_block_hash = "0xaa";
  observed_head = "115";
  confirmations = safe 15;
  included_in_finalized_chain = true;
  finalized_block_number = some "110";
  finalized_block_hash = some "0xbb";
  provider = "provider-1";
  observed_at = "120";
}

abbrev input : AssessInput
input = record { id = "IW:FINALITY:1"; transaction_id = "tx-1"; observation = evm seen }

-- Once with the same identifier, and once with too few confirmations.
abbrev early : AssessInput
early = record input {
  id = "IW:FINALITY:2";
  observation = evm (record seen { confirmations = safe 3 });
}

abbrev start : Served Assessments ℕ
start = record { stored = []; world = 0 }

abbrev assessment : FinalityAssessment
assessment = assessment_of services.writing input network "0"

abbrev saved : Served Assessments ℕ
saved = record { stored = ("IW:FINALITY:1", assessment) ∷ []; world = 1 }

evaluate-is_final_example :
    is_satisfied (evaluate services.writing network (evm seen)).outcome
    ≡ is_final services.writing network (evm seen)
evaluate-is_final_example = evaluate-is_final services.writing network (evm seen) refl

is_satisfied_by_seen : is_satisfied (evaluate services.writing network (evm seen)).outcome ≡ true
unfolding evaluate evaluate_evm evaluate_confirmed evaluation
is_satisfied_by_seen = refl

assesses_input : assess services input start ≡ (ok assessment, saved)
unfolding assess read_clock on_stored assert_common save parse_atomic_amount is_blank has_prefix
    Dict.lookup Dict.insert ◌>>=◌
assesses_input = refl

assess-Holds_example :
    (Dict.lookup "IW:FINALITY:1" start.stored ≡ none)
    × (Dict.lookup "IW:FINALITY:1" (assesses services (input ∷ early ∷ []) saved).stored
        ≡ some (as_stored assessment))
assess-Holds_example =
    assess-Holds services input (input ∷ early ∷ []) start saved assessment assesses_input

nothing-AllAssessed : AllAssessed services []
unfolding Dict.lookup
nothing-AllAssessed id a h = cc h

assesses-AllAssessed_example :
    AllAssessed services (assesses services (input ∷ early ∷ []) start).stored
assesses-AllAssessed_example =
    assesses-AllAssessed services (input ∷ early ∷ []) start nothing-AllAssessed
