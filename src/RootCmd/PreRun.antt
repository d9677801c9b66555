-- ===== src/RootCmd/PreRun.antt =====
-- `PersistentPreRunE` of the root command, with `initAppConfig` and `initCometConfig`.
pub mod Handed
use Prim.Native.String.{◌++◌ as str_append}
use echofi.Prelude.{
  ℕ, ◌≡◌, refl, ◌⊎◌, inl, inr, Bool, true, false, List, [], ◌∷◌, ◌++◌, String, Option, none, some,
  if◌then◌else◌,
}
use echofi.EvmConfig.{evm_chain_id}

-- A Go result with an error.
pub data Result (A : Type 0) : Type 0 where
  ok : A → Result A
  err : String → Result A

-- The configurations, with the fields that are overwritten; `R` is the rest of each.
pub record ServerConfig (R : Type 0) : Type 0 where
  pub snapshot_interval : ℕ
  pub snapshot_keep_recent : ℕ
  pub rest : R

pub record EvmServerConfig (R : Type 0) : Type 0 where
  pub evm_chain_id : ℕ
  pub rest : R

pub record JsonRpcConfig (R : Type 0) : Type 0 where
  pub enable : Bool
  pub rest : R

-- `CustomAppConfig`
pub record CustomAppConfig (R : Type 0) : Type 0 where
  pub config : ServerConfig R
  pub wasm : R
  pub evm : EvmServerConfig R
  pub json_rpc : JsonRpcConfig R
  pub tls : R

-- The client of the SDK at one command: its contexts, and what the calls on them give.
pub record Client : Type 1 where
  pub Ctx : Type 0
  pub TxConfig : Type 0
  pub SignMode : Type 0
  pub R : Type 0
  pub CometConfig : Type 0
  pub with_cmd_context : Ctx → Ctx
  pub read_persistent_command_flags : Ctx → Result Ctx
  pub read_from_client_config : Ctx → Result Ctx
  pub offline : Ctx → Bool
  pub default_sign_modes : List SignMode
  pub sign_mode_textual : SignMode
  pub new_tx_config_with_options : List SignMode → Ctx → Result TxConfig
  pub with_tx_config : TxConfig → Ctx → Ctx
  pub set_cmd_client_context_handler : Ctx → Option String
  pub intercept_configs : String → CustomAppConfig R → CometConfig → Option String
  pub default_server_config : ServerConfig R
  pub default_evm_config : EvmServerConfig R
  pub default_json_rpc_config : JsonRpcConfig R
  pub default_tls_config : R
  pub default_node_config : R
  pub default_comet_config : CometConfig
  pub server_template : String
  pub evm_template : String
  pub wasm_template : String

module _ (cl : Client) where
  unfoldable pub init_app_config : String × CustomAppConfig cl.R
  init_app_config = (
    str_append (str_append cl.server_template cl.evm_template) cl.wasm_template,
    record {
      config = record cl.default_server_config {
        snapshot_interval = 1000;
        snapshot_keep_recent = 10;
      };
      wasm = cl.default_node_config;
      evm = record cl.default_evm_config { evm_chain_id = evm_chain_id };
      json_rpc = record cl.default_json_rpc_config { enable = true };
      tls = cl.default_tls_config;
    },
  )

  unfoldable pub init_comet_config : cl.CometConfig
  init_comet_config = cl.default_comet_config

  -- The transaction configuration of a client that is online.
  pub with_textual : Bool → cl.Ctx → Result cl.Ctx
  with_textual true ctx = ok ctx
  with_textual false ctx =
      elim (cl.new_tx_config_with_options (cl.default_sign_modes ++ (cl.sign_mode_textual ∷ []))
        ctx) [ err e ↦ err e | ok tx_config ↦ ok (cl.with_tx_config tx_config ctx) ]

  -- The context that the command is handed, if any, and the error.
  pub hand_over : cl.Ctx → Option cl.Ctx × Option String
  unfolding init_app_config init_comet_config
  hand_over ctx = elim (cl.set_cmd_client_context_handler ctx) [
    | some e ↦ (none, some e)
    | none ↦ (some ctx, cl.intercept_configs init_app_config.0 init_app_config.1 init_comet_config)
  ]

  pub attempt :
      {A : Type 0} → Result A → (A → Option cl.Ctx × Option String) → Option cl.Ctx × Option String
  attempt (err e) next = (none, some e)
  attempt (ok a) next = next a

  -- The outputs of the command, which are set to those that it has, are no step. The variable
  -- `initClientCtx` of `NewRootCmd` is set once; the later assignments are to the variable of the
  -- same name that `:=` declares.
  unfoldable pub persistent_pre_run : cl.Ctx → cl.Ctx × (Option cl.Ctx × Option String)
  unfolding with_textual hand_over attempt
  persistent_pre_run init_client_ctx =
      let outer = cl.with_cmd_context init_client_ctx in
      (
        outer,
        attempt (cl.read_persistent_command_flags outer) λ flagged.
            attempt (cl.read_from_client_config flagged)
              λ configured. attempt (with_textual (cl.offline configured) configured) hand_over,
      )
