-- ===== src/Wiring/Build/Sdk.antt =====
-- `NewAppKeeper` of app/keepers/keeper.go: lines of the SDK keepers.
use echofi.Prelude.{[], ◌∷◌}
use echofi.Packages.{
  authtypes, banktypes, stakingtypes, distrtypes, slashingtypes, upgradetypes, feegrant, authz,
  consensusparamtypes,
}
use echofi.Wiring.State.{
  account_keeper, bank_keeper, staking_keeper, slashing_keeper, distr_keeper, upgrade_keeper,
  fee_grant_keeper, authz_keeper, consensus_params_keeper, provider_keeper, base_app, Step, field,
  sel, service, lit, set, method, steps, check,
}
use echofi.Wiring.Env.{Outcomes, app_codec, gov_authority, msg_service_router}
use echofi.Wiring.Keys.{generate_keys, init_params_keeper}

-- From the keys to the keepers of the SDK, and the hooks of staking.
unfoldable pub build_sdk_keepers : Outcomes → Step
unfolding set method steps generate_keys init_params_keeper
build_sdk_keepers out = steps (
    generate_keys
    ∷ check out.streaming_services_return
    ∷ init_params_keeper
    ∷ set consensus_params_keeper "consensusparamkeeper.NewKeeper"
        (app_codec ∷ service consensusparamtypes ∷ gov_authority ∷ lit "EventService" ∷ [])
    ∷ method base_app "SetParamStore" (sel consensus_params_keeper "ParamsStore" ∷ [])
    ∷ set upgrade_keeper "upgradekeeper.NewKeeper" (
        lit "skipUpgradeHeights"
        ∷ service upgradetypes
        ∷ app_codec
        ∷ lit "homePath"
        ∷ lit "bApp"
        ∷ gov_authority
        ∷ [])
    ∷ set account_keeper "authkeeper.NewAccountKeeper" (
        app_codec
        ∷ service authtypes
        ∷ lit "ProtoBaseAccount"
        ∷ lit "maccPerms"
        ∷ lit "account address codec"
        ∷ lit "account address prefix"
        ∷ gov_authority
        ∷ [])
    ∷ set bank_keeper "bankkeeper.NewBaseKeeper" (
        app_codec
        ∷ service banktypes
        ∷ field account_keeper
        ∷ lit "blockedAddress"
        ∷ gov_authority
        ∷ lit "logger"
        ∷ [])
    ∷ set authz_keeper "authzkeeper.NewKeeper"
        (service authz ∷ app_codec ∷ msg_service_router ∷ field account_keeper ∷ [])
    ∷ method authz_keeper "SetBankKeeper" (field bank_keeper ∷ [])
    ∷ set fee_grant_keeper "feegrantkeeper.NewKeeper"
        (app_codec ∷ service feegrant ∷ field account_keeper ∷ [])
    ∷ set staking_keeper "stakingkeeper.NewKeeper" (
        app_codec
        ∷ service stakingtypes
        ∷ field account_keeper
        ∷ field bank_keeper
        ∷ gov_authority
        ∷ lit "validator address codec"
        ∷ lit "consensus address codec"
        ∷ [])
    ∷ set distr_keeper "distrkeeper.NewKeeper" (
        app_codec
        ∷ service distrtypes
        ∷ field account_keeper
        ∷ field bank_keeper
        ∷ field staking_keeper
        ∷ lit "FeeCollectorName"
        ∷ gov_authority
        ∷ [])
    ∷ set slashing_keeper "slashingkeeper.NewKeeper" (
        app_codec
        ∷ lit "legacyAmino"
        ∷ service slashingtypes
        ∷ field staking_keeper
        ∷ gov_authority
        ∷ [])
    ∷ method staking_keeper "SetHooks" (
        sel distr_keeper "Hooks()"
        ∷ sel slashing_keeper "Hooks()"
        ∷ sel provider_keeper "Hooks()"
        ∷ [])
    ∷ [])
