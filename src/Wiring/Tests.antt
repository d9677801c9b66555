-- ===== src/Wiring/Tests.antt =====
-- `NewAppKeeper` with calls that succeed, and the theorems of app/keepers at concrete inputs.
use echofi.Prelude.{ℕ, ◌≡◌, ◌↔◌, refl, String, Option, none, some, arith, if◌then◌else◌, ◌==◌}
use echofi.Packages.{count, evmtypes}
use echofi.Wiring.State.{AppKeepers}
use echofi.Wiring.Keys.{kv_store_keys}
use echofi.Wiring.Build.{new_app_keeper}
use echofi.Wiring.Precompiles.{
  Contracts, HasAddresses, new_available_static_precompiles, precompiles_available,
}
use echofi.Wiring.Runs.{all_ok, IsReady, all_ok_returns}
use echofi.Wiring.Laws.{
  stores_used, HasIncomplete, HoldsOldGov, new_app_keeper_returns, incomplete_arguments,
  stores_exclusive, provider-HoldsOldGov,
}
use echofi.Wiring.Routes.{HasRoutes, new_app_keeper-HasRoutes}

abbrev built : AppKeepers
built = all_ok_returns.0

new_app_keeper_returns_example :
    ((k : AppKeepers) × (new_app_keeper all_ok ≡ some k)) ↔ IsReady all_ok
new_app_keeper_returns_example = new_app_keeper_returns all_ok

incomplete_arguments_example : HasIncomplete built.calls
incomplete_arguments_example = incomplete_arguments all_ok built all_ok_returns.1

stores_exclusive_example : count evmtypes (stores_used built.calls) ≡ 2
unfolding kv_store_keys
stores_exclusive_example = stores_exclusive all_ok built evmtypes all_ok_returns.1

new_app_keeper-HasRoutes_example : HasRoutes built.calls
new_app_keeper-HasRoutes_example = new_app_keeper-HasRoutes all_ok built all_ok_returns.1

provider-HoldsOldGov_example : HoldsOldGov built.calls
provider-HoldsOldGov_example = provider-HoldsOldGov all_ok built all_ok_returns.1

-- Contracts that are their addresses.
abbrev contracts : Contracts
contracts = record {
  Contract = String;
  address = λ c. c;
  precompiled_contracts_prague = λ a. none;
  p256_precompile = "0x100";
  new_bech32 = λ gas. if gas == 6000 then some "0x400" else none;
  new_bank = some "0x804";
  new_gov = some "0x805";
  new_slashing = some "0x806";
  new_evidence = some "0x807";
  p256_address = "0x100";
  bech32_address = "0x400";
  bank_address = "0x804";
  gov_address = "0x805";
  slashing_address = "0x806";
  evidence_address = "0x807";
}

contracts-HasAddresses : HasAddresses contracts
contracts-HasAddresses = record {
  p256_at = refl;
  bech32_at = λ g c h. bech32_only g c h;
  bank_at = λ c h. cc;
  gov_at = λ c h. cc;
  slashing_at = λ c h. cc;
  evidence_at = λ c h. cc;
}
  where
    bech32_only :
        (g : ℕ) (c : String) → (if g == 6000 then some "0x400" else none) ≡ some c → c ≡ "0x400"
    bech32_only g c h = ground arith

precompiles_returned :
    (m : String → Option String) × (new_available_static_precompiles contracts ≡ some m)
unfolding new_available_static_precompiles
precompiles_returned = (_, refl)

precompiles_available_example :
    (c : String) × (precompiles_returned.0 "0x805" ≡ some c) × (c ≡ "0x805")
precompiles_available_example =
    precompiles_available contracts contracts-HasAddresses precompiles_returned.0 "0x805"
      precompiles_returned.1
