-- ===== src/Startup.antt =====
-- `NewEchofiApp` of app/app.go as a sequence of calls, and the two ways in which
-- cmd/echofid/cmd/command.go starts it.
pub mod Command
pub mod Node
pub mod Sealed
pub mod Again
pub mod Tests
use echofi.Prelude.{
  ℕ, Bool, true, false, not, ◌&&◌, List, [], ◌∷◌, String, Option, none, some, if◌then◌else◌, str_eq,
}
use echofi.EvmConfig.{EvmError, Globals, EvmState, evm_chain_id, evm_app_options}
use echofi.Ante.Options.{Keepers, HandlerOptions, validate}
use echofi.Wiring.State.{
  Var, account_keeper, bank_keeper, fee_grant_keeper, ibc_keeper, evm_keeper, feemarket_keeper,
  Value, nil_value, other, AppKeepers, field,
}
use echofi.Wiring.Env.{Env}
use echofi.Wiring.Build.{new_app_keeper}

-- A height of 64 bits with its sign: `negsuc n` is -(n + 1).
pub data Int64 : Type 0 where
  pos : ℕ → Int64
  negsuc : ℕ → Int64

-- The calls that set the application up. A version is loaded by its height.
pub data Setup : Type 0 where
  new_base_app set_commit_multi_store_tracer set_version set_interface_registry : Setup
  set_tx_encoder build_keepers add_tendermint_route add_wasm_route new_manager : Setup
  new_tx_config set_order_pre_blockers set_order_begin_blockers set_order_end_blockers : Setup
  set_order_init_genesis set_order_export_genesis register_services : Setup
  register_auto_cli new_reflection_service register_reflection register_testdata : Setup
  new_simulation_manager register_store_decoders mount_kv_stores mount_transient_stores : Setup
  mount_memory_stores set_init_chainer set_pre_blocker set_begin_blocker set_end_blocker : Setup
  register_extensions set_ante_handler read_upgrade_info merged_registry : Setup
  load_latest_version initialize_pinned_codes initialize_client_pinned_codes : Setup
  load_version : Int64 → Setup

-- `succeeds` says which calls give no error. `needs_open` says which calls the base app refuses by
-- a panic once it is sealed, which loading a version does.
pub record World : Type 1 where
  pub succeeds : Setup → Bool
  pub needs_open : Setup → Bool
  pub has_snapshot_manager : Bool
  pub env : Env

-- `done` has the last call first.
pub record App : Type 0 where
  pub sealed : Bool
  pub done : List Setup

infixl 5 ◌>>=◌
abbrev pub ◌>>=◌ : {A B : Type 0} → Option A → (A → Option B) → Option B
none >>= rest = none
some a >>= rest = rest a

-- The options of the ante handler hold the values of the fields.
abbrev pub keeper_values : Keepers
keeper_values = record {
  AccountKeeper = Value;
  BankKeeper = Value;
  ExtensionOptionChecker = Value;
  IbcKeeper = Value;
  FeeMarketKeeper = Value;
  EvmKeeper = Value;
  FeegrantKeeper = Value;
  SignModeHandler = Value;
  SigGasConsumer = Value;
  TxFeeChecker = Value;
}

abbrev pub not_nil : Option Value → Option Value
not_nil none = none
not_nil (some nil_value) = none
not_nil (some v) = some v

-- A nil pointer is nil in the field of a pointer, which is that of the IBC keeper only; in the field
-- of an interface it is not.
pub handler_options : AppKeepers → ℕ → HandlerOptions keeper_values
handler_options k max_gas_wanted = record {
  account_keeper = field account_keeper k;
  bank_keeper = field bank_keeper k;
  extension_option_checker = some (other "HasDynamicFeeExtensionOption");
  ibc_keeper = not_nil (field ibc_keeper k);
  fee_market_keeper = field feemarket_keeper k;
  evm_keeper = field evm_keeper k;
  feegrant_keeper = field fee_grant_keeper k;
  sign_mode_handler = some (other "app.txConfig.SignModeHandler()");
  sig_gas_consumer = some (other "SigVerificationGasConsumer");
  max_tx_gas_wanted = max_gas_wanted;
  tx_fee_checker = some (other "NewDynamicFeeChecker(app.FeemarketKeeper)");
}

module _ (w : World) where
  -- A call without an error.
  abbrev pub call : Setup → App → Option App
  call s a = if a.sealed && w.needs_open s then none else some (record a { done = s ∷ a.done })

  -- `if err := s; err != nil { panic(err) }`
  abbrev pub try : Setup → App → Option App
  try s a = if w.succeeds s then call s a else none

  abbrev pub calls : List Setup → App → Option App
  calls [] a = some a
  calls (s ∷ ss) a = call s a >>= calls ss

  -- Loading a version seals the base app.
  abbrev pub load : Setup → App → Option App
  load s a = if w.succeeds s then some (record a { sealed = true; done = s ∷ a.done }) else none

  -- A call on a keeper, with its error as a panic.
  abbrev pub act : Setup → App → Option App
  act s a = if w.succeeds s then some (record a { done = s ∷ a.done }) else none

  pub setup_upgrade_store_loaders : App → Option App
  setup_upgrade_store_loaders a = try read_upgrade_info a

  pub load_if : Bool → App → Option App
  load_if false a = some a
  load_if true a = do
    a1 ← load load_latest_version a
    a2 ← act initialize_pinned_codes a1
    act initialize_client_pinned_codes a2

  -- The modules, their services and their stores.
  pub set_up_modules : App → Option App
  set_up_modules a = do
    a1 ← calls (add_tendermint_route ∷ add_wasm_route ∷ new_manager ∷ []) a
    a2 ← try new_tx_config a1
    a3 ←
        calls
          (set_order_pre_blockers ∷ set_order_begin_blockers ∷ set_order_end_blockers
            ∷ set_order_init_genesis ∷ set_order_export_genesis ∷ [])
          a2
    a4 ← try register_services a3
    a5 ← call register_auto_cli a4
    a6 ← try new_reflection_service a5
    calls
        (register_reflection ∷ register_testdata ∷ new_simulation_manager ∷ register_store_decoders
          ∷ mount_kv_stores ∷ mount_transient_stores ∷ mount_memory_stores ∷ [])
        a6

  -- The handlers of the base app, and the version that is loaded.
  pub set_up_handlers : AppKeepers → ℕ → Bool → App → Option App
  unfolding handler_options setup_upgrade_store_loaders load_if
  set_up_handlers k max_gas_wanted load_latest a = do
    a1 ← calls (set_init_chainer ∷ set_pre_blocker ∷ set_begin_blocker ∷ set_end_blocker ∷ []) a
    a2 ← if w.has_snapshot_manager then try register_extensions a1 else some a1
    a3 ← elim (validate keeper_values (handler_options k max_gas_wanted)) [
      | some e ↦ none
      | none ↦ call set_ante_handler a2
    ]
    a4 ← setup_upgrade_store_loaders a3
    a5 ← try merged_registry a4
    load_if load_latest a5

  unfoldable pub require_nil : Option EvmError → Option (Unit {0})
  require_nil none = some tt
  require_nil (some e) = none

  -- `none` is a panic, or the exit of `NewAppKeeper`.
  unfoldable pub new_echofi_app :
      (s : Globals) → Bool → ℕ → ℕ → EvmState s.G → Option (App × EvmState s.G)
  unfolding set_up_modules set_up_handlers require_nil
  new_echofi_app s load_latest chain_id max_gas_wanted evm = do
    a1 ←
        calls
          (new_base_app ∷ set_commit_multi_store_tracer ∷ set_version ∷ set_interface_registry
            ∷ set_tx_encoder ∷ [])
          (record { sealed = false; done = [] })
    let configured = evm_app_options s chain_id evm
    _ ← require_nil configured.1
    k ← new_app_keeper w.env
    a2 ← call build_keepers a1
    a3 ← set_up_modules a2
    a4 ← set_up_handlers k max_gas_wanted load_latest a3
    some (a4, configured.0)
