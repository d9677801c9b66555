-- ===== src/RootCmd/Returns.antt =====
-- The root command is made when the calls of other repositories come through.
use echofi.Prelude.{
  ℕ, ◌≡◌, refl, subst, arith, sym, ap, ◌∙◌, true, false, Bool, String, Option, none, some, str_eq,
  if◌then◌else◌,
}
use echofi.EvmConfig.{EvmError, EvmState, Globals, evm_chain_id, evm_app_options}
use echofi.EvmConfig.Sealing.{success-sealed, sealed_skips}
use echofi.Wiring.Runs.{IsReady}
use echofi.Startup.{App, World, new_echofi_app, require_nil}
use echofi.Startup.Sealed.{IsStarted, AllSucceed, new_echofi_app-IsStarted}
use echofi.RootCmd.Commands.{init_root_cmd, root_children}
use echofi.RootCmd.SdkConfig.{
  SdkApi, IsSdkApi, Prefixes, prefixes, init_config, echofi_prefixes, init_config-Gives,
  seal_config-seals,
}
use echofi.RootCmd.{
  Host, Process, RootCommand, temp_dir, check, enrich_auto_cli_opts, root_body, clean_up, deferred,
  with_application, in_temp_dir, new_root_cmd,
}

-- The calls on cobra and on the application that `NewRootCmd` checks.
pub record AllOk (h : Host) : Type 0 where
  pub closes : h.close_ok ≡ true
  pub adds_flags : h.added.add_tx_flags_ok ≡ true
  pub enhances : h.enhance_ok ≡ true

module _ (h : Host) (api : SdkApi) (laws : IsSdkApi api) (w : World) (s : Globals) where
  -- The application that a command builds starts, whatever the limit of gas, and leaves the
  -- configuration of the EVM as it is.
  abbrev pub Restarts : EvmState s.G → Type 0
  Restarts evm =
      (gas : ℕ)
      → (a : App) × (new_echofi_app w s true evm_chain_id gas evm ≡ some (a, evm))
        × IsStarted w s true a

  abbrev pub Makes : Process h api w s × Option (RootCommand h api w s) → Prefixes → Type 0
  Makes r p = (cmd : RootCommand h api w s) × (r.1 ≡ some cmd) × (cmd.codecs ≡ p) × Restarts r.0.evm

  sealed-Restarts :
      (evm : EvmState s.G) → evm.sealed ≡ true → AllSucceed w → IsReady w.env → Restarts evm
  sealed-Restarts evm sealed all ready gas =
      let skipped = sealed_skips s evm_chain_id evm sealed in
      let (a, started, is_started) =
        new_echofi_app-IsStarted w s true evm_chain_id gas evm all
          (ap (λ (r : EvmState s.G × Option EvmError). r.1) skipped) ready in
      (a, started ∙ ap (λ (r : EvmState s.G × Option EvmError). some (a, r.0)) skipped, is_started)

  root_body-returns :
      (p : Process h api w s)
      → AllOk h
      → api.is_sealed p.config ≡ false
      → p.evm.sealed ≡ true
      → (p' : Process h api w s) × (cmd : RootCommand h api w s) × (root_body h api w s p
          ≡ some (p', cmd))
        × (cmd.codecs ≡ prefixes api p.config)
        × (p'.evm.sealed ≡ true)
  unfolding root_body init_root_cmd check enrich_auto_cli_opts require_nil
  root_body-returns p oks open_config configured =
      let (c, run, _, same) = seal_config-seals api laws p.config open_config in
      (
        record p { config = api.seal c; evm = (evm_app_options s evm_chain_id p.evm).0 },
        record { children = root_children h.added; codecs = prefixes api (api.seal c) },
        rw (run, oks.adds_flags, sealed_skips s evm_chain_id p.evm configured, oks.enhances) refl,
        (laws.seal_seals c).1 ∙ same,
        ap (λ (r : EvmState s.G × Option EvmError). r.0.sealed)
              (sealed_skips s evm_chain_id p.evm configured)
            ∙ configured,
      )

  deferred-Makes :
      (dir : String) (before p : Process h api w s) (cmd : RootCommand h api w s)
      → h.close_ok ≡ true
      → (deferred h api w s dir before (some (p, cmd))).1 ≡ some cmd
  unfolding deferred
  deferred-Makes dir before p cmd closes = ground arith

  deferred-evm :
      (dir : String) (before p : Process h api w s) (cmd : RootCommand h api w s)
      → (deferred h api w s dir before (some (p, cmd))).0.evm ≡ p.evm
  unfolding deferred clean_up
  deferred-evm dir before p cmd = by_choices h.close_ok (str_eq dir h.default_node_home)
    where
      by_choices :
          (closes home : Bool)
          → let r : Process h api w s × Option (RootCommand h api w s) =
              if closes
              then (if home then p else record p { fs = h.remove_all dir p.fs }, some cmd)
              else (p, none) in
            r.0.evm ≡ p.evm
      by_choices true true = refl
      by_choices true false = refl
      by_choices false home = refl

  -- In a process whose configuration of the SDK keeps what is documented of it and is that of
  -- `init` of app/app.go, `NewRootCmd` returns a command when there is a temporary directory, the
  -- application starts and closes, and the calls of cobra come through; and the address codecs of the
  -- command have the prefixes of the chain. The application that a command of the process builds
  -- afterwards starts too, though the EVM is configured once only.
  pub new_root_cmd-Makes :
      (p : Process h api w s) (c : api.Config) (made : String × h.Fs)
      → api.is_sealed c ≡ false
      → init_config api c ≡ some p.config
      → h.mkdir_temp p.fs ≡ some made
      → AllOk h
      → AllSucceed w
      → (evm_app_options s evm_chain_id p.evm).1 ≡ none
      → IsReady w.env
      → Makes (new_root_cmd h api w s p) echofi_prefixes
  unfolding new_root_cmd in_temp_dir with_application temp_dir
  new_root_cmd-Makes p c made open_config initial has_dir oks all configured ready =
      let (c1, run1, open1, prefixes1) = init_config-Gives api laws c open_config in
      let (a, started, _) =
        new_echofi_app-IsStarted w s true evm_chain_id 0 p.evm all configured ready in
      let same : c1 ≡ p.config = cc (run1, initial) in
      let p2 : Process h api w s = record p {
        fs = h.app_writes made.0 (h.remove_all made.0 made.1);
        evm = (evm_app_options s evm_chain_id p.evm).0;
      } in
      let (p3, cmd, body, codecs, still_sealed) =
        root_body-returns p2 oks (subst (λ x. api.is_sealed x ≡ false) same open1)
          (success-sealed s evm_chain_id p.evm configured) in
      (
        cmd,
        rw (has_dir, started, body) (deferred-Makes made.0 p2 p3 cmd oks.closes),
        codecs ∙ sym (ap (prefixes api) same) ∙ prefixes1,
        rw (has_dir, started, body, deferred-evm made.0 p2 p3 cmd)
            (sealed-Restarts p3.evm still_sealed all ready),
      )
