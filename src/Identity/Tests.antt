-- ===== src/Identity/Tests.antt =====
-- An address that is bound, and bound again by a second answer of the verifier, and the theorem there.
use canton_evmcrosschain.Prelude.{
  ℕ, ◌+◌, ◌≤◌, String, ◌≡◌, refl, none, List, [], ◌∷◌, arith, concat, is_blank, has_prefix,
}
use canton_evmcrosschain.Failures.{ok}
use canton_evmcrosschain.Exec.{◌>>=◌}
use canton_evmcrosschain.Served.{read_clock, ask_world}
use canton_evmcrosschain.Dict
use canton_evmcrosschain.Samples.{numbered}
use canton_evmcrosschain.Identity.Challenges.{
  evm_locator, evm_personal_sign, IdentityChallenge, VerifiedIdentityProof, locator_key,
}
use canton_evmcrosschain.Identity.Registry.{
  Services, all_bindings, on_identities, stored_identities, record_event, create_identity,
  is_active_for, finish_verification, revoke_binding,
}
use canton_evmcrosschain.Identity.Counting.{count}
use canton_evmcrosschain.Identity.Series.{
  Call, create_call, finish_call, revoke_call, calls, empty, calls_single,
}

abbrev services : Services ℕ
services = record {
  dates = numbered;
  lower = λ s. s;
  networks = [];
  clock = λ n. (150, n + 1);
  random_id = λ n. (ok "id", n + 1);
  verifier_for = λ kind. none;
}

abbrev challenge : IdentityChallenge
challenge = record {
  id = "IW:IDENTITY_CHALLENGE:1";
  identity_id = "IW:IDENTITY:a";
  network_id = "IW:NETWORK:evm";
  locator = evm_locator "0xaa";
  proof_kind = evm_personal_sign;
  nonce = "1";
  message = "";
  issued_at = "100";
  expires_at = "200";
  consumed_at = none;
}

abbrev answer : VerifiedIdentityProof
answer = record { method = "EIP-191"; proof_fingerprint = "f" }

abbrev series : List Call
series =
    create_call "IW:IDENTITY:a" none "api"
    ∷ finish_call "IW:IDENTITY_CHALLENGE:1" challenge 150 answer none "api"
    ∷ finish_call "IW:IDENTITY_CHALLENGE:1" challenge 149 answer none "api"
    ∷ []

abbrev address : String
address = locator_key services.lower "IW:NETWORK:evm" (evm_locator "0xaa")

calls_single_example :
    count
      (is_active_for services 160 address)
      (all_bindings (calls services series (empty services 0)).stored.identities)
    ≤ 1
calls_single_example =
    calls_single services series 0 160 address (λ t. refl) (omega arith, (omega arith, tt))

-- The first answer binds, the second is refused.
bound_once :
    count
      (is_active_for services 160 address)
      (all_bindings (calls services series (empty services 0)).stored.identities)
    ≡ 1
unfolding create_identity finish_verification record_event on_identities stored_identities
    read_clock ask_world locator_key Dict.lookup Dict.insert is_blank has_prefix concat ◌>>=◌
bound_once = refl

-- A challenge that was consumed binds again, once the binding is revoked, if its verification had
-- begun before.
bound_again :
    count (is_active_for services 160 address) (
      all_bindings
        (calls services
          (create_call "IW:IDENTITY:a" none "api"
            ∷ finish_call "IW:IDENTITY_CHALLENGE:1" challenge 150 answer none "api"
            ∷ revoke_call "IW:IDENTITY:a" "IW:BINDING:id" "api"
            ∷ finish_call "IW:IDENTITY_CHALLENGE:1" challenge 149 answer none "api"
            ∷ [])
          (empty services 0)).stored.identities)
    ≡ 1
unfolding create_identity finish_verification revoke_binding record_event on_identities
    stored_identities read_clock ask_world locator_key Dict.lookup Dict.insert is_blank has_prefix
    concat ◌>>=◌
bound_again = refl
