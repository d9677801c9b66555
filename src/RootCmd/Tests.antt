-- ===== src/RootCmd/Tests.antt =====
-- A configuration of the SDK that keeps its word, and the theorems at concrete inputs.
use echofi.Wiring.Runs.{all_ok-IsReady}
use echofi.Prelude.{
  ◌≡◌, refl, Bool, true, false, List, [], ◌∷◌, String, Option, none, some, if◌then◌else◌,
}
use echofi.EvmConfig.Tests.{globals, fresh, fresh_succeeds}
use echofi.Startup.Tests.{world}
use echofi.RootCmd.SdkConfig.{SdkApi, IsSdkApi, Gives, prefixes, echofi_prefixes, init_config-Gives}
use echofi.RootCmd.{Host, Process, RootCommand, new_root_cmd}
use echofi.RootCmd.Once.{MadeIn, new_root_cmd-IsOnce}
use echofi.RootCmd.Returns.{AllOk, Makes, new_root_cmd-Makes}
use echofi.RootCmd.PreRun.{Client, ok, persistent_pre_run}
use echofi.RootCmd.PreRun.Handed.{HandedOrError, persistent_pre_run-HandedOrError}

record Cfg : Type 0 where
  sealed : Bool
  account : String
  validator : String
  consensus : String

abbrev open_only : Cfg → Cfg → Option Cfg
open_only c r = if c.sealed then none else some r

abbrev api : SdkApi
api = record {
  Config = Cfg;
  is_sealed = λ c. c.sealed;
  account_prefix = λ c. c.account;
  validator_prefix = λ c. c.validator;
  consensus_prefix = λ c. c.consensus;
  set_bech32_prefix_for_account = λ a b c. open_only c (record c { account = a });
  set_bech32_prefix_for_validator = λ a b c. open_only c (record c { validator = a });
  set_bech32_prefix_for_consensus_node = λ a b c. open_only c (record c { consensus = a });
  set_coin_type = λ n c. open_only c c;
  set_purpose = λ n c. open_only c c;
  seal = λ c. record c { sealed = true };
  bip44_coin_type = 60;
  purpose = 44;
}

opens :
    (c r : Cfg) → c.sealed ≡ false → r.sealed ≡ false → Gives api (open_only c r) (prefixes api r)
opens c r h h' = (r, rw (h) refl, h', refl)

refuses : (c r : Cfg) → c.sealed ≡ true → open_only c r ≡ none
refuses c r h = rw (h) refl

laws : IsSdkApi api
laws = record {
  account_set = λ a b c h. opens c (record c { account = a }) h h;
  validator_set = λ a b c h. opens c (record c { validator = a }) h h;
  consensus_set = λ a b c h. opens c (record c { consensus = a }) h h;
  coin_type_set = λ n c h. opens c c h h;
  purpose_set = λ n c h. opens c c h h;
  seal_seals = λ c. (refl, refl);
  sealed_coin_type = λ n c h. refuses c c h;
}

-- A file system in which only the directory of the application is told apart.
abbrev host : Host
host = record {
  Fs = Bool;
  exists = λ d fs. fs;
  mkdir_temp = λ fs. some ("/tmp/.echofi1", true);
  remove_all = λ d fs. false;
  app_writes = λ d fs. true;
  close_ok = true;
  added = record {
    server_commands = [];
    evm_server_commands = [];
    genesis_core_commands = [];
    module_tx_commands = [];
    add_tx_flags_ok = true;
  };
  enhance_ok = true;
  default_node_home = "/root/.echofi";
}

abbrev blank : Cfg
blank = record { sealed = false; account = ""; validator = ""; consensus = "" }

abbrev process : Process host api world (globals false)
process = record { fs = false; config = (init_config-Gives api laws blank refl).0; evm = fresh }

all_ok : AllOk host
all_ok = record { closes = refl; adds_flags = refl; enhances = refl }

new_root_cmd-Makes_example :
    Makes host api laws world
      (globals false)
      (new_root_cmd host api world (globals false) process)
      echofi_prefixes
new_root_cmd-Makes_example =
    new_root_cmd-Makes host api laws world (globals false) process blank ("/tmp/.echofi1", true)
      refl (init_config-Gives api laws blank refl).1 refl all_ok (λ x. refl) fresh_succeeds
      all_ok-IsReady

new_root_cmd-IsOnce_example :
    MadeIn host api laws world
      (globals false)
      (host.mkdir_temp process.fs)
      (new_root_cmd host api world (globals false) process)
    × ((p' : Process host api world (globals false))
          (cmd : RootCommand host api world (globals false))
        → new_root_cmd host api world (globals false) process ≡ (p', some cmd)
        → (new_root_cmd host api world (globals false) p').1 ≡ none)
new_root_cmd-IsOnce_example =
    new_root_cmd-IsOnce host api laws world (globals false) (λ d fs. refl) process

-- A client that is online.
abbrev client : Client
client = record {
  Ctx = List String;
  TxConfig = String;
  SignMode = String;
  R = Unit {0};
  CometConfig = Unit {0};
  with_cmd_context = λ c. "cmd" ∷ c;
  read_persistent_command_flags = λ c. ok ("flags" ∷ c);
  read_from_client_config = λ c. ok ("client.toml" ∷ c);
  offline = λ c. false;
  default_sign_modes = "direct" ∷ [];
  sign_mode_textual = "textual";
  new_tx_config_with_options = λ modes c. ok "textual";
  with_tx_config = λ t c. t ∷ c;
  set_cmd_client_context_handler = λ c. none;
  intercept_configs = λ t a c. none;
  default_server_config = record { snapshot_interval = 0; snapshot_keep_recent = 2; rest = tt };
  default_evm_config = record { evm_chain_id = 1; rest = tt };
  default_json_rpc_config = record { enable = false; rest = tt };
  default_tls_config = tt;
  default_node_config = tt;
  default_comet_config = tt;
  server_template = "";
  evm_template = "";
  wasm_template = "";
}

persistent_pre_run-HandedOrError_example :
    ((persistent_pre_run client []).0 ≡ "cmd" ∷ [])
    × HandedOrError client ("cmd" ∷ []) (persistent_pre_run client []).1
persistent_pre_run-HandedOrError_example = persistent_pre_run-HandedOrError client []
