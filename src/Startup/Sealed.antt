-- ===== src/Startup/Sealed.antt =====
-- The start of the application comes through when the calls of other repositories do, and loads one
-- version.
use echofi.Prelude.{
  ℕ, ◌≡◌, refl, subst, sym, ap, ◌∙◌, Bool, true, false, List, [], ◌∷◌, String, none, some,
  if◌then◌else◌, str_eq,
}
use echofi.Ante.Options.{validate}
use echofi.EvmConfig.{Globals, EvmState, evm_app_options, evm_chain_id}
use echofi.Wiring.Env.{outcomes}
use echofi.Wiring.Precompiles.{new_available_static_precompiles}
use echofi.Wiring.Build.{keepers_for, new_app_keeper}
use echofi.Wiring.Runs.{IsReady, same_when_ready}
use echofi.Startup.{
  Int64, Setup, load_latest_version, load_version, World, App, handler_options, set_up_modules,
  set_up_handlers, load_if, require_nil, setup_upgrade_store_loaders, new_echofi_app,
}
use echofi.Startup.Command.{is_minus_one, loaded, app_export, start, load_height}

-- The versions that are loaded, the last one first.
abbrev pub loads : List Setup → List Setup
loads [] = []
loads (load_latest_version ∷ ss) = load_latest_version ∷ loads ss
loads (load_version height ∷ ss) = load_version height ∷ loads ss
loads (_ ∷ ss) = loads ss

abbrev pub AllSucceed : World → Type 0
AllSucceed w = (s : Setup) → w.succeeds s ≡ true

module _ (w : World) (s : Globals) where
  -- The application that a start returns.
  abbrev pub IsStarted : Bool → App → Type 0
  IsStarted load_latest a =
      (a.sealed ≡ load_latest)
      × (loads a.done ≡ (if load_latest then load_latest_version ∷ [] else []))

  abbrev with_calls : (Setup → Bool) → Bool → World
  with_calls f snapshots = record {
    succeeds = f;
    needs_open = w.needs_open;
    has_snapshot_manager = snapshots;
    env = w.env;
  }

  abbrev StartsWith : (Setup → Bool) → Bool → Bool → ℕ → ℕ → EvmState s.G → Type 0
  StartsWith f snapshots load_latest chain_id gas evm =
      (a : App) × (new_echofi_app (with_calls f snapshots) s load_latest chain_id gas evm
        ≡ some (a, (evm_app_options s chain_id evm).0))
      × IsStarted load_latest a

  starts :
      (snapshots load_latest : Bool) (chain_id gas : ℕ) (evm : EvmState s.G)
      → (evm_app_options s chain_id evm).1 ≡ none
      → IsReady w.env
      → StartsWith (λ _. true) snapshots load_latest chain_id gas evm
  unfolding new_echofi_app require_nil new_app_keeper keepers_for outcomes
      new_available_static_precompiles set_up_modules set_up_handlers handler_options validate
      load_if setup_upgrade_store_loaders
  starts true true chain_id gas evm configured ready =
      rw (configured, same_when_ready w.env ready) (_, refl, (refl, refl))
  starts true false chain_id gas evm configured ready =
      rw (configured, same_when_ready w.env ready) (_, refl, (refl, refl))
  starts false true chain_id gas evm configured ready =
      rw (configured, same_when_ready w.env ready) (_, refl, (refl, refl))
  starts false false chain_id gas evm configured ready =
      rw (configured, same_when_ready w.env ready) (_, refl, (refl, refl))

  -- Where the EVM configuration gives no error and the calls of other repositories succeed, the
  -- application starts: the keepers are built, no call comes too late for the base app, and the
  -- options of the ante handler are valid. The base app is sealed, with the latest version loaded,
  -- exactly if the latest version is asked for, and the EVM configuration is what it leaves.
  pub new_echofi_app-IsStarted :
      (load_latest : Bool) (chain_id gas : ℕ) (evm : EvmState s.G)
      → AllSucceed w
      → (evm_app_options s chain_id evm).1 ≡ none
      → IsReady w.env
      → (a : App) × (new_echofi_app w s load_latest chain_id gas evm
          ≡ some (a, (evm_app_options s chain_id evm).0))
        × IsStarted load_latest a
  new_echofi_app-IsStarted load_latest chain_id gas evm all configured ready =
      let same_calls : w.succeeds ≡ (λ _. true) = λ i x. all x i in
      subst (λ f. StartsWith f w.has_snapshot_manager load_latest chain_id gas evm) (sym same_calls)
        (starts w.has_snapshot_manager load_latest chain_id gas evm configured ready)

  -- The version that is asked for.
  abbrev pub version : Int64 → Setup
  version height = if is_minus_one height then load_latest_version else load_version height

  loads_height :
      (height : Int64) (a : App) (evm : EvmState s.G)
      → AllSucceed w
      → IsStarted (is_minus_one height) a
      → (latest : Bool) → is_minus_one height ≡ latest
      → (a' : App) × (load_height w s height a evm ≡ loaded a' evm)
        × (a'.sealed ≡ true)
        × (loads a'.done ≡ version height ∷ [])
  unfolding load_height
  loads_height height a evm all (sealed, versions) true latest =
      (a, rw latest refl, sealed ∙ latest, versions ∙ rw latest refl)
  loads_height height a evm all (sealed, versions) false latest = (
    record { sealed = true; done = load_version height ∷ a.done },
    rw (latest, all (load_version height)) refl,
    refl,
    ap (◌∷◌ (load_version height)) versions ∙ rw latest refl,
  )

  -- Under the same conditions the export of a node with a home directory and the options of a viper
  -- comes to a sealed application that has loaded one version: the latest for the height -1, and
  -- otherwise that of the height.
  pub app_export-loads_once :
      (home_path : String) (height : Int64) (gas : ℕ) (evm : EvmState s.G)
      → AllSucceed w
      → str_eq home_path "" ≡ false
      → (evm_app_options s evm_chain_id evm).1 ≡ none
      → IsReady w.env
      → (a : App) × (app_export w s (some home_path) true height gas evm
          ≡ loaded a (evm_app_options s evm_chain_id evm).0)
        × (a.sealed ≡ true)
        × (loads a.done ≡ version height ∷ [])
  unfolding app_export start load_height
  app_export-loads_once home_path height gas evm all home configured ready =
      let (a, run, is_started) =
        new_echofi_app-IsStarted (is_minus_one height) evm_chain_id gas evm all configured ready in
      let (a', loads_it, sealed, versions) =
        loads_height height a (evm_app_options s evm_chain_id evm).0 all is_started
          (is_minus_one height) refl in
      (a', rw (home, start, run) loads_it, sealed, versions)
