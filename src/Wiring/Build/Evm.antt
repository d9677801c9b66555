-- ===== src/Wiring/Build/Evm.antt =====
-- `NewAppKeeper` of app/keepers/keeper.go: the EVM and the wasm keepers.
use echofi.Prelude.{[], ◌∷◌}
use echofi.Packages.{
  ibctransfertypes, wasmtypes, erc20types, feemarkettypes, evmtypes, precisebanktypes,
}
use echofi.Wiring.State.{
  account_keeper, bank_keeper, staking_keeper, slashing_keeper, distr_keeper, gov_keeper,
  wasm_keeper, evidence_keeper, transfer_keeper, evm_keeper, feemarket_keeper, erc20_keeper,
  evm_transfer_keeper, precise_bank_keeper, Step, field, addr, deref, kv, tkv, service, lit,
  get_subspace, set, method, steps, check,
}
use echofi.Wiring.Env.{
  Outcomes, app_codec, gov_authority, msg_service_router, grpc_query_router, channel_keeper,
}

-- The keepers of the EVM, and the wasm keeper. The arguments of the set-up of the precompiles are
-- those of `NewAvailableStaticPrecompiles`, which may panic.
unfoldable pub build_evm_keepers : Outcomes → Step
unfolding set method steps get_subspace
build_evm_keepers out = steps (
    set feemarket_keeper "feemarketkeeper.NewKeeper"
      (app_codec ∷ gov_authority ∷ kv feemarkettypes ∷ tkv feemarkettypes ∷ [])
    ∷ set precise_bank_keeper "precisebankkeeper.NewKeeper"
        (app_codec ∷ kv precisebanktypes ∷ field bank_keeper ∷ field account_keeper ∷ [])
    ∷ set erc20_keeper "erc20keeper.NewKeeper" (
        kv erc20types
        ∷ app_codec
        ∷ gov_authority
        ∷ field account_keeper
        ∷ field bank_keeper
        ∷ field evm_keeper
        ∷ field staking_keeper
        ∷ addr evm_transfer_keeper
        ∷ [])
    ∷ set evm_keeper "evmkeeper.NewKeeper" (
        app_codec
        ∷ kv evmtypes
        ∷ tkv evmtypes
        ∷ gov_authority
        ∷ field account_keeper
        ∷ field precise_bank_keeper
        ∷ field staking_keeper
        ∷ field feemarket_keeper
        ∷ addr erc20_keeper
        ∷ lit "tracer"
        ∷ [])
    ∷ set evm_transfer_keeper "evmtransferkeeper.NewKeeper" (
        app_codec
        ∷ service evmtypes
        ∷ get_subspace ibctransfertypes
        ∷ channel_keeper
        ∷ channel_keeper
        ∷ msg_service_router
        ∷ field account_keeper
        ∷ field bank_keeper
        ∷ field erc20_keeper
        ∷ gov_authority
        ∷ [])
    ∷ check out.precompiles_return
    ∷ method evm_keeper "WithStaticPrecompiles(NewAvailableStaticPrecompiles)" (
        app_codec
        ∷ field precise_bank_keeper
        ∷ field erc20_keeper
        ∷ deref gov_keeper
        ∷ field slashing_keeper
        ∷ field evidence_keeper
        ∷ [])
    ∷ check out.wasm_config_returns
    ∷ set wasm_keeper "wasmkeeper.NewKeeper" (
        app_codec
        ∷ service wasmtypes
        ∷ field account_keeper
        ∷ field bank_keeper
        ∷ field staking_keeper
        ∷ field distr_keeper
        ∷ channel_keeper
        ∷ channel_keeper
        ∷ field transfer_keeper
        ∷ msg_service_router
        ∷ grpc_query_router
        ∷ lit "wasmDir"
        ∷ lit "wasmConfig"
        ∷ lit "VMConfig{}"
        ∷ lit "BuiltInCapabilities()"
        ∷ gov_authority
        ∷ lit "wasmOpts"
        ∷ [])
    ∷ [])
