-- ===== src/Startup/Tests.antt =====
-- A start in which every call succeeds, and the theorems at concrete inputs.
use echofi.Prelude.{ℕ, ◌≡◌, ◌↔◌, refl, true, false, [], ◌∷◌, some}
use echofi.EvmConfig.{evm_app_options, evm_chain_id}
use echofi.EvmConfig.Tests.{globals, fresh, fresh_succeeds}
use echofi.Wiring.Runs.{all_ok, all_ok-IsReady}
use echofi.Startup.{pos, World, App, load_version, new_echofi_app}
use echofi.Startup.Command.{loaded, app_export}
use echofi.EvmConfig.Sealing.{run_all, AllNil}
use echofi.Startup.Again.{started_once_configured}
use echofi.Startup.Node.{Flags, AppArguments, new_app, Listed, new_app_arguments}
use echofi.Startup.Sealed.{IsStarted, loads, new_echofi_app-IsStarted, app_export-loads_once}

abbrev pub world : World
world = record {
  succeeds = λ s. true;
  needs_open = λ s. true;
  has_snapshot_manager = true;
  env = all_ok;
}

new_echofi_app-IsStarted_example :
    (a : App) × (new_echofi_app world (globals false) false 6969 7 fresh
      ≡ some (a, (evm_app_options (globals false) 6969 fresh).0))
    × IsStarted world (globals false) false a
new_echofi_app-IsStarted_example =
    new_echofi_app-IsStarted world (globals false) false 6969 7 fresh (λ s. refl) fresh_succeeds
      all_ok-IsReady

app_export-loads_once_example :
    (a : App) × (app_export world (globals false) (some "/home") true (pos 9) 7 fresh
      ≡ loaded a (evm_app_options (globals false) evm_chain_id fresh).0)
    × (a.sealed ≡ true)
    × (loads a.done ≡ load_version (pos 9) ∷ [])
app_export-loads_once_example =
    app_export-loads_once world (globals false) "/home" (pos 9) 7 fresh (λ s. refl) refl
      fresh_succeeds all_ok-IsReady

first_start :
    (a : App) × (new_echofi_app world (globals false) true 6969 7 fresh
      ≡ some (a, (evm_app_options (globals false) 6969 fresh).0))
first_start =
    let (a, run, _) =
      new_echofi_app-IsStarted world (globals false) true 6969 7 fresh (λ x. refl) fresh_succeeds
        all_ok-IsReady in
    (a, run)

started_once_configured_example :
    let evm = (evm_app_options (globals false) 6969 fresh).0 in
    (evm.sealed ≡ true)
    × ((run_all (globals false) (6969 ∷ 1 ∷ []) evm).0 ≡ evm)
    × AllNil (globals false) (run_all (globals false) (6969 ∷ 1 ∷ []) evm).1
started_once_configured_example =
    started_once_configured world (globals false) true 6969 7 fresh
      (evm_app_options (globals false) 6969 fresh).0 first_start.0 (6969 ∷ 1 ∷ []) first_start.1

-- A node with the chain id in its genesis file, that skips two upgrades.
abbrev flags : Flags
flags = record {
  base = record {
    T = ℕ;
    pruning = 0;
    min_gas_prices = "0uecho";
    halt_height = 0;
    halt_time = 0;
    min_retain_blocks = 0;
    trace = false;
    index_events = [];
    snapshot_interval = 1000;
    snapshot_keep_recent = 10;
    iavl_cache_size = 781250;
  };
  inter_block_cache = true;
  telemetry_enabled = false;
  unsafe_skip_upgrades = 5 ∷ 8 ∷ [];
  home = "/home";
  chain_id = "";
  chain_id_of_genesis = some "echo-1";
  pruning_ok = true;
  snapshot_db_ok = true;
  snapshot_store_ok = true;
}

node_starts : (args : AppArguments) × (new_app flags ≡ some args)
unfolding new_app
node_starts = (_, refl)

new_app_arguments_example :
    (node_starts.0.load_latest ≡ true)
    × ((node_starts.0.skip_upgrade_heights 8 ≡ true) ↔ Listed 8 (5 ∷ 8 ∷ []))
    × (some node_starts.0.base_chain_id ≡ some "echo-1")
new_app_arguments_example = new_app_arguments flags node_starts.0 8 node_starts.1
