-- ===== src/Export/AppState.antt =====
-- `ExportAppStateAndValidators` of app/export.go.
pub mod Exported
use echofi.Prelude.{
  ℕ, ◌+◌, ◌≡◌, ◌≢◌, refl, ◌↔◌, ◌⊎◌, inl, inr, Bool, true, false, List, [], ◌∷◌, ◌++◌, String,
  Option, none, some, if◌then◌else◌, arith, min, length, Option-cases, Bool-cases,
}
use echofi.Export.Chain.{Chain, Keepers, Result, ok, panic}
use echofi.Export.ZeroHeight.{C, prep_for_zero_height_genesis}
use echofi.Export.Ranking.{
  GenesisValidator, MaxValidators, at_most, negative, sort_by_power, trim_validators, Dominates,
  trim_keeps_strongest,
}

-- The other calls that the export makes. `none` is an error that the export returns.
pub record Exporter (x : Keepers) : Type 1 where
  pub GenState : Type 0
  pub Bytes : Type 0
  pub ConsensusParams : Type 0
  pub export_genesis_for_modules : List String → C x → Option GenState
  pub marshal_indent : GenState → Option Bytes
  pub write_validators : C x → Option (List GenesisValidator)
  pub get_max_provider_consensus_validators : C x → MaxValidators
  pub get_consensus_params : C x → ConsensusParams

-- The step at which the export returned an error.
pub data ExportError : Type 0 where
  export_genesis_failed marshal_failed write_validators_failed : ExportError

pub data Outcome (A : Type 0) : Type 0 where
  returned : A → Outcome A
  failed : ExportError → Outcome A
  panicked : Outcome A

infixl 5 ◌>>=◌
abbrev pub ◌>>=◌ : {A B : Type 0} → Outcome A → (A → Outcome B) → Outcome B
returned a >>= f = f a
failed e >>= f = failed e
panicked >>= f = panicked

abbrev pub or_fail : {A : Type 0} → Option A → ExportError → Outcome A
or_fail none e = failed e
or_fail (some a) e = returned a

abbrev pub or_panic : {A : Type 0} → Option A → Outcome A
or_panic none = panicked
or_panic (some a) = returned a

abbrev pub of_result : {A : Type 0} → Result A → Outcome A
of_result (ok a) = returned a
of_result panic = panicked

module _ {x : Keepers} (e : Exporter x) where
  pub record ExportedApp : Type 0 where
    pub app_state : e.Bytes
    pub validators : List GenesisValidator
    pub height : ℕ
    pub consensus_params : e.ConsensusParams

  -- The height of the genesis file.
  pub export_height : Bool → ℕ → ℕ
  export_height for_zero_height last_block_height =
      if for_zero_height then 0 else last_block_height + 1

  pub prepare : Bool → List String → C x → Outcome (C x)
  prepare for_zero_height jail_allowed_addrs c =
      if for_zero_height
      then of_result (prep_for_zero_height_genesis x jail_allowed_addrs c)
      else returned c

  -- What follows the preparation, at the height of the genesis file.
  pub export_state : ℕ → List String → C x → Outcome ExportedApp
  export_state height modules_to_export c = do
    gen_state ← or_fail (e.export_genesis_for_modules modules_to_export c) export_genesis_failed
    app_state ← or_fail (e.marshal_indent gen_state) marshal_failed
    validators ← or_fail (e.write_validators c) write_validators_failed
    trimmed ←
        or_panic
          (trim_validators (e.get_max_provider_consensus_validators c) (sort_by_power validators))
    returned (record {
      app_state = app_state;
      validators = trimmed;
      height = height;
      consensus_params = e.get_consensus_params c;
    })

  -- The context stands at the height of the last block.
  unfoldable pub export_app_state_and_validators :
      Bool → List String → List String → C x → Outcome ExportedApp
  unfolding export_height prepare export_state
  export_app_state_and_validators for_zero_height jail_allowed_addrs modules_to_export c = do
    c' ← prepare for_zero_height jail_allowed_addrs c
    export_state (export_height for_zero_height c.height) modules_to_export c'
