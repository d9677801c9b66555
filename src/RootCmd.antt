-- ===== src/RootCmd.antt =====
-- cmd/echofid/cmd/cmd.go and cmd/echofid/main.go: `NewRootCmd`, which builds an application for its
-- codecs only, seals the configuration of the SDK and puts the command together, and `main`. A
-- panic runs what is deferred.
pub mod SdkConfig
pub mod Commands
pub mod Once
pub mod Returns
pub mod PreRun
pub mod Tests
use echofi.Prelude.{
  ℕ, Bool, true, false, List, [], ◌∷◌, String, Option, none, some, if◌then◌else◌, str_eq,
}
use echofi.EvmConfig.{Globals, EvmState, evm_chain_id, evm_app_options}
use echofi.Startup.{World, App, new_echofi_app, require_nil, ◌>>=◌}
use echofi.RootCmd.Commands.{Command, Added, init_root_cmd}
use echofi.RootCmd.SdkConfig.{SdkApi, Prefixes, prefixes, seal_config}

-- The file system, and what of cobra and of the SDK may fail: closing the application, and
-- adding the commands of the modules. `app_writes` is what a start
-- leaves in the home of the application, even if it panics.
pub record Host : Type 1 where
  pub Fs : Type 0
  pub exists : String → Fs → Bool
  pub mkdir_temp : Fs → Option (String × Fs)
  pub remove_all : String → Fs → Fs
  pub app_writes : String → Fs → Fs
  pub close_ok : Bool
  pub added : Added
  pub enhance_ok : Bool
  pub default_node_home : String

module _ (h : Host) (api : SdkApi) (w : World) (s : Globals) where
  pub record Process : Type 0 where
    pub fs : h.Fs
    pub config : api.Config
    pub evm : EvmState s.G

  -- The root command: its children, and the prefixes of the address codecs of the commands that
  -- `EnhanceRootCommand` adds to it.
  pub record RootCommand : Type 0 where
    pub children : List Command
    pub codecs : Prefixes

  -- The local function `tempDir`: the directory is removed as soon as it is made.
  pub temp_dir : Process → Option (String × Process)
  temp_dir p = do
    made ← h.mkdir_temp p.fs
    some (made.0, record p { fs = h.remove_all made.0 made.1 })

  pub check : Bool → Option (Unit {0})
  check true = some tt
  check false = none

  -- `enrichAutoCliOpts`: the codecs that it sets. The context of the client is handed on.
  pub enrich_auto_cli_opts : api.Config → Prefixes
  enrich_auto_cli_opts c = prefixes api c

  -- `NewRootCmd` between the construction of the application and its return. `initRootCmd` seals the
  -- configuration again.
  pub root_body : Process → Option (Process × RootCommand)
  unfolding check enrich_auto_cli_opts
  root_body p = do
    c ← seal_config api p.config
    init ← init_root_cmd api h.added c
    let configured = evm_app_options s evm_chain_id p.evm
    _ ← require_nil w configured.1
    _ ← check h.enhance_ok
    some (
      record p { config = init.0; evm = configured.0 },
      record { children = init.1; codecs = enrich_auto_cli_opts init.0 },
    )

  -- The deferred function, on return and on a panic.
  pub clean_up : String → Process → Process
  clean_up dir p =
      if str_eq dir h.default_node_home then p else record p { fs = h.remove_all dir p.fs }

  pub deferred : String → Process → Option (Process × RootCommand) → Process × Option RootCommand
  unfolding clean_up
  deferred dir before none = if h.close_ok then (clean_up dir before, none) else (before, none)
  deferred dir before (some (p, cmd)) = if h.close_ok then (clean_up dir p, some cmd) else (p, none)

  -- Behind the construction of the application; where it panics, nothing is deferred yet.
  pub with_application :
      String → Process → Option (App × EvmState s.G) → Process × Option RootCommand
  unfolding root_body deferred
  with_application dir p none = (p, none)
  with_application dir p (some (a, evm)) =
      let p' : Process = record p { evm = evm } in deferred dir p' (root_body p')

  pub in_temp_dir : Option (String × Process) → Process → Process × Option RootCommand
  unfolding with_application
  in_temp_dir none p = (p, none)
  in_temp_dir (some (dir, p1)) p =
      with_application dir (record p1 { fs = h.app_writes dir p1.fs })
        (new_echofi_app w s true evm_chain_id 0 p1.evm)

  -- `none` is a panic.
  unfoldable pub new_root_cmd : Process → Process × Option RootCommand
  unfolding in_temp_dir temp_dir
  new_root_cmd p = in_temp_dir (temp_dir p) p

  -- How the process ends: in the panic of `NewRootCmd`, with the command, or with an error that is
  -- printed and the exit code 1.
  pub data Ending : Type 0 where
    panics succeeds : Ending
    exits_with_error : String → Ending

  pub execute : (RootCommand → Option String) → Option RootCommand → Ending
  execute run none = panics
  execute run (some cmd) = elim (run cmd) [ none ↦ succeeds | some e ↦ exits_with_error e ]

  -- `main`, with `svrcmd.Execute` as `run`.
  pub main : (RootCommand → Option String) → Process → Ending
  unfolding execute
  main run p = execute run (new_root_cmd p).1
