-- ===== src/Wiring/Build/Gov.antt =====
-- `NewAppKeeper` of app/keepers/keeper.go: core IBC, the provider and governance.
use echofi.Prelude.{[], ◌∷◌}
use echofi.Packages.{minttypes, govtypes, ibcexported, evidencetypes, providertypes, ibcwasmtypes}
use echofi.Wiring.State.{
  account_keeper, bank_keeper, staking_keeper, slashing_keeper, mint_keeper, distr_keeper,
  gov_keeper, upgrade_keeper, params_keeper, ibc_keeper, wasm_client_keeper, evidence_keeper,
  provider_keeper, provider_module, gov_router, Step, field, addr, deref, sel, kv, service, lit,
  zero_of, get_subspace, set, method, steps, check,
}
use echofi.Wiring.Env.{
  Outcomes, app_codec, gov_authority, msg_service_router, grpc_query_router, channel_keeper,
  client_keeper,
}

-- From the keeper of core IBC to the hooks of governance.
unfoldable pub build_ibc_and_gov_keepers : Outcomes → Step
unfolding set method steps get_subspace
build_ibc_and_gov_keepers out = steps (
    set ibc_keeper "ibckeeper.NewKeeper" (
      app_codec
      ∷ service ibcexported
      ∷ get_subspace ibcexported
      ∷ field upgrade_keeper
      ∷ gov_authority
      ∷ [])
    ∷ check out.new_vm_returns
    ∷ set wasm_client_keeper "ibcwasmkeeper.NewKeeperWithVM" (
        app_codec
        ∷ service ibcwasmtypes
        ∷ client_keeper
        ∷ gov_authority
        ∷ lit "lc08"
        ∷ grpc_query_router
        ∷ lit "wasmLightClientQuerier"
        ∷ [])
    ∷ set provider_keeper "icsproviderkeeper.NewKeeper" (
        app_codec
        ∷ kv providertypes
        ∷ get_subspace providertypes
        ∷ channel_keeper
        ∷ sel ibc_keeper "ConnectionKeeper"
        ∷ client_keeper
        ∷ field staking_keeper
        ∷ field slashing_keeper
        ∷ field account_keeper
        ∷ field distr_keeper
        ∷ field bank_keeper
        ∷ zero_of gov_keeper
        ∷ gov_authority
        ∷ lit "validator address codec"
        ∷ lit "consensus address codec"
        ∷ lit "FeeCollectorName"
        ∷ [])
    ∷ set gov_keeper "govkeeper.NewKeeper" (
        app_codec
        ∷ service govtypes
        ∷ field account_keeper
        ∷ field bank_keeper
        ∷ field provider_keeper
        ∷ field distr_keeper
        ∷ msg_service_router
        ∷ lit "govConfig"
        ∷ gov_authority
        ∷ [])
    ∷ set mint_keeper "mintkeeper.NewKeeper" (
        app_codec
        ∷ service minttypes
        ∷ field provider_keeper
        ∷ field account_keeper
        ∷ field bank_keeper
        ∷ lit "FeeCollectorName"
        ∷ gov_authority
        ∷ [])
    ∷ method provider_keeper "SetGovKeeper" (deref gov_keeper ∷ [])
    ∷ set provider_module "icsprovider.NewAppModule"
        (addr provider_keeper ∷ get_subspace providertypes ∷ kv providertypes ∷ [])
    ∷ set gov_router "govv1beta1.NewRouter" ([])
    ∷ method gov_router "AddRoute(gov)" (lit "govv1beta1.ProposalHandler" ∷ [])
    ∷ method gov_router "AddRoute(params)" (field params_keeper ∷ [])
    ∷ method gov_keeper "SetLegacyRouter" (field gov_router ∷ [])
    ∷ method gov_keeper "SetHooks" (sel provider_keeper "Hooks()" ∷ [])
    ∷ set evidence_keeper "evidencekeeper.NewKeeper" (
        app_codec
        ∷ service evidencetypes
        ∷ field staking_keeper
        ∷ field slashing_keeper
        ∷ sel account_keeper "AddressCodec()"
        ∷ lit "ProvideCometInfoService()"
        ∷ [])
    ∷ [])
