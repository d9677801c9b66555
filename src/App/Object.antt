-- ===== src/App/Object.antt =====
-- The object `EchofiApp` of app/app.go: its methods that read a field or hand a call on, the home
-- directory of `init`, and the routes.
use echofi.Prelude.{ℕ, Bool, List, [], ◌∷◌, String, Option, none, some, if◌then◌else◌}

-- What the object holds; `T` is any object of the SDK. The calls of the module manager and of the
-- base app are functions, on a block's context.
pub record EchofiApp (T Ctx Out : Type 0) : Type 0 where
  pub legacy_amino : T
  pub app_codec : T
  pub tx_config : T
  pub interface_registry : T
  pub ibc_keeper : T
  pub sm : T
  pub pre_block : Ctx → Option Out
  pub begin_block : Ctx → Option Out
  pub end_block : Ctx → Option Out
  pub load_version : ℕ → Option Ctx
  pub default_genesis : T → Out

module _ {T Ctx Out : Type 0} where
  pub get_legacy_amino : EchofiApp T Ctx Out → T
  get_legacy_amino app = app.legacy_amino

  pub get_app_codec : EchofiApp T Ctx Out → T
  get_app_codec app = app.app_codec

  pub get_tx_config : EchofiApp T Ctx Out → T
  get_tx_config app = app.tx_config

  pub get_interface_registry : EchofiApp T Ctx Out → T
  get_interface_registry app = app.interface_registry

  pub get_ibc_keeper : EchofiApp T Ctx Out → T
  get_ibc_keeper app = app.ibc_keeper

  pub simulation_manager : EchofiApp T Ctx Out → T
  simulation_manager app = app.sm

  -- The request of the block is not read.
  pub pre_blocker : {Request : Type 0} → EchofiApp T Ctx Out → Ctx → Request → Option Out
  pre_blocker app ctx request = app.pre_block ctx

  pub begin_blocker : EchofiApp T Ctx Out → Ctx → Option Out
  begin_blocker app ctx = app.begin_block ctx

  pub end_blocker : EchofiApp T Ctx Out → Ctx → Option Out
  end_blocker app ctx = app.end_block ctx

  pub default_genesis : EchofiApp T Ctx Out → Out
  default_genesis app = app.default_genesis app.app_codec

-- `DefaultNodeHome`, from `os.UserHomeDir` and `filepath.Join`. `none` is a panic.
pub default_node_home : (String → String → String) → Option String → Option String
default_node_home join none = none
default_node_home join (some user_home_dir) = some (join user_home_dir ".echofi")

-- `RegisterAPIRoutes`: the calls, in their order, and the panic of the last one.
pub register_api_routes : Bool → Option (List String)
register_api_routes swagger_ok =
    if swagger_ok
    then some (
        "authtx.RegisterGRPCGatewayRoutes" ∷ "cmtservice.RegisterGRPCGatewayRoutes"
        ∷ "app.ModuleBasics.RegisterGRPCGatewayRoutes" ∷ "nodeservice.RegisterGRPCGatewayRoutes"
        ∷ "server.RegisterSwaggerAPI" ∷ [])
    else none
