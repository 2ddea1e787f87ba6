-- ===== src/Samples.antt =====
-- Inputs that the tests share.
use canton_evmcrosschain.Prelude.{ℕ, String, Bool, not, ◌==◌, Option, none, some}
use canton_evmcrosschain.Failures.{Result, ok, err}
use canton_evmcrosschain.Dates.{Dates}
use canton_evmcrosschain.Amount.{parse_atomic_amount}
use canton_evmcrosschain.Transaction.Store.{CreateBridgeOperation}

abbrev read : Result ℕ → Option ℕ
read (ok n) = some n
read (err e) = none

-- Dates written as numbers.
abbrev pub numbered : Dates
numbered = record { parse = λ s. read (parse_atomic_amount s); to_iso = λ t. "0" }

abbrev pub input : CreateBridgeOperation
input = record {
  id = "IW:BRIDGE:1";
  idempotency_key = "key-1";
  asset_id = "IW:ASSET:1";
  source_network_id = "IW:NETWORK:canton";
  destination_network_id = "IW:NETWORK:evm";
  sender = "IW:IDENTITY:a";
  receiver = "IW:IDENTITY:b";
  amount = "250";
  expires_at = "200";
  created_at = "100";
  actor = "api";
}

-- Which texts a database takes for a time: all but the empty one.
abbrev pub any_time : String → Bool
any_time at = not (at == "")
