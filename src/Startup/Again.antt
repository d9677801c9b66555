-- ===== src/Startup/Again.antt =====
-- A process builds the application more than once: `NewRootCmd` of cmd/echofid/cmd/cmd.go builds one
-- that it throws away, calls `EVMAppOptions` again, and the command builds the one that runs.
use echofi.Prelude.{ℕ, ◌≡◌, refl, sym, ap, Bool, true, false, List, [], ◌∷◌, Option, none, some}
use echofi.EvmConfig.{EvmError, Globals, EvmState, evm_app_options}
use echofi.EvmConfig.Sealing.{run_all, AllNil, first_success_final}
use echofi.Wiring.Build.{new_app_keeper}
use echofi.Startup.{
  World, App, build_keepers, set_tx_encoder, set_interface_registry, set_version,
  set_commit_multi_store_tracer, new_base_app, set_up_modules, set_up_handlers, new_echofi_app,
  require_nil, ◌>>=◌,
}

pub >>=-returns :
    {A B : Type 0} (o : Option A) (rest : A → Option B) {b : B}
    → (o >>= rest) ≡ some b
    → (a : A) × (o ≡ some a) × (rest a ≡ some b)
>>=-returns none rest h = absurd (cc)
>>=-returns (some a) rest h = (a, refl, h)

pub require_nil-some :
    (w : World) (e : Option EvmError) {u : Unit {0}} → require_nil w e ≡ some u → e ≡ none
unfolding require_nil
require_nil-some w none h = refl
require_nil-some w (some e) h = absurd (cc)

module _ (w : World) (s : Globals) where
  pub configured_first :
      (load_latest : Bool) (chain_id gas : ℕ) (evm evm' : EvmState s.G) (a : App)
      → new_echofi_app w s load_latest chain_id gas evm ≡ some (a, evm')
      → ((evm_app_options s chain_id evm).1 ≡ none) × (evm' ≡ (evm_app_options s chain_id evm).0)
  unfolding new_echofi_app
  configured_first load_latest chain_id gas evm evm' a h =
      let (u, nil_error, r1) = >>=-returns (require_nil w (evm_app_options s chain_id evm).1) _ h in
      let (k, _, r2) = >>=-returns (new_app_keeper w.env) _ r1 in
      let (a3, _, r4) = >>=-returns (set_up_modules w named) _ r2 in
      let (a4, _, r5) = >>=-returns (set_up_handlers w k gas load_latest a3) _ r4 in
      (require_nil-some w _ nil_error, ap second (sym r5))
    where
      named : App
      named = record {
        sealed = false;
        done =
            build_keepers ∷ set_tx_encoder ∷ set_interface_registry ∷ set_version
            ∷ set_commit_multi_store_tracer ∷ new_base_app ∷ [];
      }

      second : Option (App × EvmState s.G) → EvmState s.G
      second none = evm
      second (some (_, e)) = e

  -- Once one application has been built, the EVM configuration is final for the process: it is
  -- sealed, and however often it is set again, for whatever chain ids, each call gives nil and
  -- changes nothing, so no later start fails because of it.
  pub started_once_configured :
      (load_latest : Bool) (chain_id gas : ℕ) (evm evm' : EvmState s.G) (a : App) (cs : List ℕ)
      → new_echofi_app w s load_latest chain_id gas evm ≡ some (a, evm')
      → (evm'.sealed ≡ true) × ((run_all s cs evm').0 ≡ evm') × AllNil s (run_all s cs evm').1
  started_once_configured load_latest chain_id gas evm evm' a cs h =
      let (configured, same_state) = configured_first load_latest chain_id gas evm evm' a h in
      let final = first_success_final s chain_id evm cs configured in rw same_state final
