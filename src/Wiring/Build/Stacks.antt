-- ===== src/Wiring/Build/Stacks.antt =====
-- `NewAppKeeper` of app/keepers/keeper.go: the IBC stacks, the routers and the modules.
use echofi.Prelude.{[], ◌∷◌}
use echofi.Packages.{pfmroutertypes}
use echofi.Wiring.State.{
  wasm_keeper, ibc_keeper, ica_host_keeper, ica_controller_keeper, transfer_keeper,
  pfm_router_keeper, ratelimit_keeper, ica_module, transfer_module, pfm_router_module,
  rate_limit_module, provider_module, transfer_stack, transfer_stack_v2, ica_host_stack,
  ica_controller_stack, wasm_stack, wasm_stack_ibc_handler, ibc_router, ibcv2_router, Step, field,
  addr, sel, lit, get_subspace, set, method, steps,
}
use echofi.Wiring.Env.{app_codec, channel_keeper}

-- The stacks of the IBC modules, the routers and the modules.
unfoldable pub build_stacks : Step
unfolding set method steps get_subspace
build_stacks = steps (
    set wasm_stack_ibc_handler "wasm.NewIBCHandler"
      (field wasm_keeper ∷ channel_keeper ∷ channel_keeper ∷ [])
    ∷ set transfer_stack "transfer.NewIBCModule" (field transfer_keeper ∷ [])
    ∷ set transfer_stack "pfmrouter.NewIBCMiddleware" (
        field transfer_stack
        ∷ field pfm_router_keeper
        ∷ lit "0"
        ∷ lit "DefaultForwardTransferPacketTimeoutTimestamp"
        ∷ [])
    ∷ set transfer_stack "ratelimit.NewIBCMiddleware"
        (field ratelimit_keeper ∷ field transfer_stack ∷ [])
    ∷ set ica_host_stack "icahost.NewIBCModule" (field ica_host_keeper ∷ [])
    ∷ set ica_controller_stack "icacontroller.NewIBCMiddleware" (field ica_controller_keeper ∷ [])
    ∷ set ica_controller_stack "ibccallbacks.NewIBCMiddleware" (
        field ica_controller_stack
        ∷ channel_keeper
        ∷ field wasm_stack_ibc_handler
        ∷ lit "MaxIBCCallbackGas"
        ∷ [])
    ∷ method ica_controller_keeper "WithICS4Wrapper" (field ica_controller_stack ∷ [])
    ∷ set wasm_stack "wasm.NewIBCHandler" (field wasm_keeper ∷ channel_keeper ∷ channel_keeper ∷ [])
    ∷ set transfer_stack_v2 "transferv2.NewIBCModule" (field transfer_keeper ∷ [])
    ∷ set transfer_stack_v2 "ibccallbacksv2.NewIBCMiddleware" (
        field transfer_stack_v2
        ∷ sel ibc_keeper "ChannelKeeperV2"
        ∷ field wasm_stack_ibc_handler
        ∷ sel ibc_keeper "ChannelKeeperV2"
        ∷ lit "MaxIBCCallbackGas"
        ∷ [])
    ∷ set transfer_stack_v2 "ratelimitv2.NewIBCMiddleware"
        (field ratelimit_keeper ∷ field transfer_stack_v2 ∷ [])
    ∷ set ibc_router "porttypes.NewRouter" ([])
    ∷ method ibc_router "AddRoute(icahost)" (field ica_host_stack ∷ [])
    ∷ method ibc_router "AddRoute(icacontroller)" (field ica_controller_stack ∷ [])
    ∷ method ibc_router "AddRoute(transfer)" (field transfer_stack ∷ [])
    ∷ method ibc_router "AddRoute(provider)" (field provider_module ∷ [])
    ∷ method ibc_router "AddRoute(wasm)" (field wasm_stack ∷ [])
    ∷ method ibc_keeper "SetRouter" (field ibc_router ∷ [])
    ∷ set ibcv2_router "ibcapi.NewRouter" ([])
    ∷ method ibcv2_router "AddRoute(transfer)" (field transfer_stack_v2 ∷ [])
    ∷ method ibc_keeper "SetRouterV2" (field ibcv2_router ∷ [])
    ∷ set ica_module "ica.NewAppModule" (addr ica_controller_keeper ∷ addr ica_host_keeper ∷ [])
    ∷ set transfer_module "transfer.NewAppModule" (field transfer_keeper ∷ [])
    ∷ set pfm_router_module "pfmrouter.NewAppModule"
        (field pfm_router_keeper ∷ get_subspace pfmroutertypes ∷ [])
    ∷ set rate_limit_module "ratelimit.NewAppModule" (app_codec ∷ field ratelimit_keeper ∷ [])
    ∷ [])
