-- ===== src/Wiring/Build/Transfer.antt =====
-- `NewAppKeeper` of app/keepers/keeper.go: the transfer keepers.
use echofi.Prelude.{[], ◌∷◌}
use echofi.Packages.{
  ibctransfertypes, icahosttypes, icacontrollertypes, pfmroutertypes, ratelimittypes,
}
use echofi.Wiring.State.{
  account_keeper, bank_keeper, ica_host_keeper, ica_controller_keeper, transfer_keeper,
  pfm_router_keeper, ratelimit_keeper, Step, field, service, nil, get_subspace, set, method, steps,
}
use echofi.Wiring.Env.{
  app_codec, gov_authority, msg_service_router, grpc_query_router, channel_keeper, client_keeper,
}

-- The keepers of the interchain accounts, the rate limit, packet forwarding and transfers.
unfoldable pub build_transfer_keepers : Step
unfolding set method steps get_subspace
build_transfer_keepers = steps (
    set ica_host_keeper "icahostkeeper.NewKeeper" (
      app_codec
      ∷ service icahosttypes
      ∷ get_subspace icahosttypes
      ∷ channel_keeper
      ∷ channel_keeper
      ∷ field account_keeper
      ∷ msg_service_router
      ∷ grpc_query_router
      ∷ gov_authority
      ∷ [])
    ∷ set ratelimit_keeper "ratelimitkeeper.NewKeeper" (
        app_codec
        ∷ service ratelimittypes
        ∷ get_subspace ratelimittypes
        ∷ gov_authority
        ∷ field bank_keeper
        ∷ channel_keeper
        ∷ client_keeper
        ∷ channel_keeper
        ∷ [])
    ∷ set ica_controller_keeper "icacontrollerkeeper.NewKeeper" (
        app_codec
        ∷ service icacontrollertypes
        ∷ get_subspace icacontrollertypes
        ∷ channel_keeper
        ∷ channel_keeper
        ∷ msg_service_router
        ∷ gov_authority
        ∷ [])
    ∷ set pfm_router_keeper "pfmrouterkeeper.NewKeeper" (
        app_codec
        ∷ service pfmroutertypes
        ∷ nil
        ∷ channel_keeper
        ∷ field bank_keeper
        ∷ field ratelimit_keeper
        ∷ gov_authority
        ∷ [])
    ∷ set transfer_keeper "ibctransferkeeper.NewKeeper" (
        app_codec
        ∷ service ibctransfertypes
        ∷ get_subspace ibctransfertypes
        ∷ channel_keeper
        ∷ channel_keeper
        ∷ msg_service_router
        ∷ field account_keeper
        ∷ field bank_keeper
        ∷ gov_authority
        ∷ [])
    ∷ method pfm_router_keeper "SetTransferKeeper" (field transfer_keeper ∷ [])
    ∷ [])
