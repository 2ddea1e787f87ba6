-- ===== src/Transaction/States.antt =====
-- The table of legal transitions of transaction-engine.ts.
use canton_evmcrosschain.Prelude.{Bool, true, false, List, [], ◌∷◌, any, ◌||◌, if◌then◌else◌}
use canton_evmcrosschain.Model.{
  BridgeState, created, policy_checked, source_preparing, source_submitted, source_confirmed,
  source_finalized, attestation_pending, attested, destination_preparing, destination_submitted,
  destination_confirmed, destination_finalized, reconciliation_pending, reconciled, completed,
  policy_rejected, source_failed, attestation_failed, destination_failed, expired,
  reconciliation_failed, manual_review, same_state,
}

-- A state without an entry has no list.
unfoldable pub forward : BridgeState → List BridgeState
forward created = policy_checked ∷ policy_rejected ∷ []
forward policy_checked = source_preparing ∷ []
forward source_preparing = source_submitted ∷ source_failed ∷ []
forward source_submitted = source_confirmed ∷ source_failed ∷ []
forward source_confirmed = source_finalized ∷ source_failed ∷ []
forward source_finalized = attestation_pending ∷ []
forward attestation_pending = attested ∷ attestation_failed ∷ []
forward attested = destination_preparing ∷ []
forward destination_preparing = destination_submitted ∷ destination_failed ∷ []
forward destination_submitted = destination_confirmed ∷ destination_failed ∷ []
forward destination_confirmed = destination_finalized ∷ destination_failed ∷ []
forward destination_finalized = reconciliation_pending ∷ []
forward reconciliation_pending = reconciled ∷ reconciliation_failed ∷ []
forward reconciled = completed ∷ []
forward _ = []

abbrev pub terminal : List BridgeState
terminal =
    completed ∷ policy_rejected ∷ source_failed ∷ attestation_failed ∷ destination_failed ∷ expired
    ∷ reconciliation_failed ∷ manual_review ∷ []

unfoldable pub includes : List BridgeState → BridgeState → Bool
includes states s = any (λ t. same_state t s) states

unfoldable pub is_terminal : BridgeState → Bool
unfolding includes same_state
is_terminal s = includes terminal s

unfoldable pub can_transition : BridgeState → BridgeState → Bool
unfolding is_terminal includes forward same_state
can_transition from to =
    if is_terminal from
    then false
    else if same_state to manual_review || same_state to expired
    then true
    else includes (forward from) to
