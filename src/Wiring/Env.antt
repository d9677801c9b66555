-- ===== src/Wiring/Env.antt =====
-- The surroundings of `NewAppKeeper` in app/keepers/keeper.go, and the arguments that recur in it.
use echofi.Prelude.{Bool, true, false, Option, none, some}
use echofi.Wiring.State.{ibc_keeper, Expr, sel, lit}
use echofi.Wiring.Precompiles.{Contracts, new_available_static_precompiles}

-- What decides whether the calls of other repositories succeed: the streaming services, the VM of
-- the light client and the configuration of the wasm module, and the contracts of the precompiles.
pub record Env : Type 1 where
  pub streaming_services_ok : Bool
  pub new_vm_ok : Bool
  pub wasm_config_ok : Bool
  pub contracts : Contracts

abbrev pub is_some : {A : Type 0} → Option A → Bool
is_some none = false
is_some (some a) = true

-- Which of the calls come through. That of `NewAvailableStaticPrecompiles` may panic.
pub record Outcomes : Type 0 where
  pub streaming_services_return : Bool
  pub new_vm_returns : Bool
  pub precompiles_return : Bool
  pub wasm_config_returns : Bool

unfoldable pub outcomes : Env → Outcomes
outcomes env = record {
  streaming_services_return = env.streaming_services_ok;
  new_vm_returns = env.new_vm_ok;
  precompiles_return = is_some (new_available_static_precompiles env.contracts);
  wasm_config_returns = env.wasm_config_ok;
}

abbrev pub app_codec : Expr
app_codec = lit "appCodec"

abbrev pub gov_authority : Expr
gov_authority = lit "NewModuleAddress(gov)"

abbrev pub msg_service_router : Expr
msg_service_router = lit "bApp.MsgServiceRouter()"

abbrev pub grpc_query_router : Expr
grpc_query_router = lit "bApp.GRPCQueryRouter()"

abbrev pub channel_keeper : Expr
channel_keeper = sel ibc_keeper "ChannelKeeper"

abbrev pub client_keeper : Expr
client_keeper = sel ibc_keeper "ClientKeeper"
