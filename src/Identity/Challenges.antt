-- ===== src/Identity/Challenges.antt =====
-- The data of identity-registry.ts, its locators and the message of a challenge.
use canton_evmcrosschain.Prelude.{
  ℕ, String, Bool, true, false, not, ◌&&◌, ◌||◌, Option, none, some, List, [], ◌∷◌, ◌==◌, leb, eqb,
  all, length, codes, is_blank, is_digit_code, concat,
}
use canton_evmcrosschain.Failures.{registry, error, invalid_argument, Result, ok, ◌>>◌, reject_if}

pub data NetworkIdentityLocator : Type 0 where
  evm_locator : String → NetworkIdentityLocator
  canton_locator : String → NetworkIdentityLocator

pub data IdentityProofKind : Type 0 where
  evm_personal_sign canton_authorized_command : IdentityProofKind

pub record IdentityChallenge : Type 0 where
  pub id : String
  pub identity_id : String
  pub network_id : String
  pub locator : NetworkIdentityLocator
  pub proof_kind : IdentityProofKind
  pub nonce : String
  pub message : String
  pub issued_at : String
  pub expires_at : String
  pub consumed_at : Option String

pub record IdentityProof : Type 0 where
  pub kind : IdentityProofKind
  pub proof : String
  pub key_id : Option String

pub record VerifiedIdentityProof : Type 0 where
  pub method : String
  pub proof_fingerprint : String

pub record NetworkIdentity : Type 0 where
  pub binding_id : String
  pub network_id : String
  pub locator : NetworkIdentityLocator
  pub proof_method : String
  pub verified_at : String
  pub expires_at : Option String
  pub revoked_at : Option String

pub record Identity : Type 0 where
  pub id : String
  pub display_name : Option String
  pub bindings : List NetworkIdentity
  pub created_at : String

pub data AuditAction : Type 0 where
  identity_created challenge_issued binding_verified binding_revoked : AuditAction

pub record IdentityBindingAuditEvent : Type 0 where
  pub event_id : String
  pub identity_id : String
  pub binding_id : Option String
  pub challenge_id : Option String
  pub action : AuditAction
  pub actor : String
  pub occurred_at : String
  pub proof_fingerprint : Option String

abbrev pub check : Bool → Result (Unit {0})
check bad = reject_if bad (registry invalid_argument)

-- `!value` for an optional text: there is none, or it is empty.
abbrev pub is_missing : Option String → Bool
is_missing none = true
is_missing (some s) = s == ""

abbrev pub kind_of : NetworkIdentityLocator → String
kind_of (evm_locator address) = "EVM"
kind_of (canton_locator party) = "CANTON"

abbrev pub proof_kind_of : NetworkIdentityLocator → IdentityProofKind
proof_kind_of (evm_locator address) = evm_personal_sign
proof_kind_of (canton_locator party) = canton_authorized_command

abbrev pub same_kind : IdentityProofKind → IdentityProofKind → Bool
same_kind evm_personal_sign evm_personal_sign = true
same_kind canton_authorized_command canton_authorized_command = true
same_kind _ _ = false

abbrev is_hex : ℕ → Bool
is_hex c = is_digit_code c || leb 65 c && leb c 70 || leb 97 c && leb c 102

-- /^0x[0-9a-fA-F]{40}$/
unfoldable pub is_evm_address : List ℕ → Bool
is_evm_address (zero_code ∷ x_code ∷ digits) =
    eqb zero_code 48 && eqb x_code 120 && eqb (length digits) 40 && all is_hex digits
is_evm_address _ = false

-- `lower` is `toLowerCase`.
module _ (lower : String → String) where
  -- `#normalizeLocator`
  unfoldable pub normalize_locator : NetworkIdentityLocator → Result NetworkIdentityLocator
  unfolding is_evm_address
  normalize_locator (evm_locator address) =
      reject_if (not (is_evm_address (codes address))) error >> ok (evm_locator (lower address))
  normalize_locator (canton_locator party) = check (is_blank party) >> ok (canton_locator party)

  abbrev pub key_text : NetworkIdentityLocator → String
  key_text (evm_locator address) = lower address
  key_text (canton_locator party) = party

  -- `#locatorKey`
  unfoldable pub locator_key : String → NetworkIdentityLocator → String
  locator_key network_id locator =
      concat network_id (concat "|" (concat (kind_of locator) (concat "|" (key_text locator))))

  abbrev lines : List String → String
  lines [] = ""
  lines (s ∷ []) = s
  lines (s ∷ t ∷ rest) = concat s (concat "\n" (lines (t ∷ rest)))

  -- `identityChallengeMessage`
  unfoldable pub identity_challenge_message : IdentityChallenge → String
  identity_challenge_message c = lines (
      "InterWeave Identity Binding"
      ∷ "Version: 1"
      ∷ concat "Challenge: " c.id
      ∷ concat "Identity: " c.identity_id
      ∷ concat "Network: " c.network_id
      ∷ concat "Locator: " (concat (kind_of c.locator) (concat ":" (key_text c.locator)))
      ∷ concat "Nonce: " c.nonce
      ∷ concat "Issued At: " c.issued_at
      ∷ concat "Expires At: " c.expires_at
      ∷ [])
