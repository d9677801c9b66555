-- ===== src/Export/Tests.antt =====
-- A small state, its export, and the theorems of app/export.go at concrete inputs.
use echofi.Prelude.{ℕ, ◌≡◌, refl, Bool, true, false, List, [], ◌∷◌, String, some}
use echofi.Export.Tables.{get}
use echofi.Export.Chain.{Validator, Unbonding, SigningInfo, Chain, Keepers, ok}
use echofi.Export.ZeroHeight.{handle_staking, handle_distribution, prep_for_zero_height_genesis}
use echofi.Export.ZeroHeight.Frame.{SameTables, Lawful}
use echofi.Export.ZeroHeight.Whole.{HasUniqueKeys, Prepared, prep_for_zero_height_genesis-Prepared}
use echofi.Export.Ranking.{GenesisValidator, at_most, sort_by_power, trim_validators}
use echofi.Export.AppState.{Exporter, ExportedApp, returned, export_app_state_and_validators}
use echofi.Export.AppState.Exported.{Exports, export-Exports}

-- Addresses are their own texts, and the distribution module keeps nothing.
abbrev keepers : Keepers
keepers = record {
  D = Unit;
  Coins = ℕ;
  add = λ a b. a;
  val_address_from_bech32 = λ s. some s;
  acc_address_from_bech32 = λ s. some s;
  string_to_bytes = λ s. some s;
  val_address_string = λ s. s;
  fails = λ s c. false;
  withdraw_validator_commission = λ a c. c;
  withdraw_delegation_rewards = λ d v c. some c;
  delete_all_validator_slash_events = λ c. c;
  delete_all_validator_historical_rewards = λ c. c;
  get_validator_outstanding_rewards_coins = λ a c. some 1;
  fee_pool_get = λ c. some (record { community_pool = 0 });
  fee_pool_set = λ p c. some c;
  after_validator_created = λ a c. some c;
  before_delegation_created = λ d v c. some c;
  after_delegation_modified = λ d v c. some c;
  apply_and_return_validator_set_updates = λ c. some c;
}

same_tables : (c : Chain Unit) → SameTables c c
same_tables c = record {
  height = refl;
  validators = refl;
  delegations = refl;
  redelegations = refl;
  unbonding_delegations = refl;
  signing_infos = refl;
}

unchanged : (c c' : Chain Unit) → some c ≡ some c' → SameTables c c'
unchanged c c' h = let e : c' ≡ c = cc in rw e (same_tables c)

keepers-Lawful : Lawful keepers
keepers-Lawful = record {
  commission_keeps = λ a c. same_tables c;
  rewards_keep = λ d v. unchanged;
  slash_events_keep = same_tables;
  historical_keep = same_tables;
  pool_keeps = λ p. unchanged;
  created_keeps = λ a. unchanged;
  before_keeps = λ d v. unchanged;
  after_keeps = λ d v. unchanged;
  update_keeps = λ c c' h. let e : c' ≡ c = cc in rw e (refl, refl);
  update_unique = λ c c' h u. let e : c ≡ c' = cc in rw (← e) u;
}

abbrev validator : String → ℕ → Bool → Validator
validator a h j = record { address = a; operator = a; unbonding_height = h; jailed = j; extra = "" }

abbrev unbonding : ℕ → Unbonding
unbonding h = record { store_key = "k"; entries = record { creation_height = h; extra = "" } ∷ [] }

abbrev info : ℕ → SigningInfo
info h = record { cons_address = "c"; start_height = h; extra = "" }

abbrev chain : ℕ → List Validator → Chain Unit
chain h vs = record {
  height = 9;
  validators = vs;
  delegations = record { delegator_address = "d"; validator_address = "a" } ∷ [];
  redelegations = unbonding h ∷ [];
  unbonding_delegations = unbonding h ∷ [];
  signing_infos = info h ∷ [];
  other = tt;
}

abbrev running : Chain Unit
running = chain 5 (validator "a" 3 false ∷ validator "b" 4 false ∷ [])

abbrev staking_done : Chain Unit
staking_done = record running {
  validators = validator "a" 0 false ∷ validator "b" 0 true ∷ [];
  redelegations = unbonding 0 ∷ [];
  unbonding_delegations = unbonding 0 ∷ [];
}

abbrev prepared : Chain Unit
prepared = record staking_done { signing_infos = info 0 ∷ [] }

running-HasUniqueKeys : HasUniqueKeys keepers running
unfolding get
running-HasUniqueKeys = record {
  redelegations = (refl, tt);
  unbondings = (refl, tt);
  signing_infos = (refl, tt);
}

-- Validator b is not in the list of allowed addresses.
staking_runs : handle_staking keepers ("a" ∷ []) running ≡ ok staking_done
unfolding handle_staking
staking_runs = refl

distribution_runs : handle_distribution keepers running ≡ ok running
unfolding handle_distribution
distribution_runs = refl

preparation_runs : prep_for_zero_height_genesis keepers ("a" ∷ []) running ≡ ok prepared
unfolding prep_for_zero_height_genesis
preparation_runs = refl

prep_for_zero_height_genesis-Prepared_example : Prepared keepers ("a" ∷ []) running prepared
prep_for_zero_height_genesis-Prepared_example =
    prep_for_zero_height_genesis-Prepared keepers keepers-Lawful ("a" ∷ []) running prepared
      running-HasUniqueKeys preparation_runs

abbrev three : List GenesisValidator
three =
    record { address = "a"; power = 2 }
    ∷ record { address = "b"; power = 7 }
    ∷ record { address = "c"; power = 2 }
    ∷ []

abbrev first_two : List GenesisValidator
first_two = record { address = "b"; power = 7 } ∷ record { address = "a"; power = 2 } ∷ []

abbrev exporter : Exporter keepers
exporter = record {
  GenState = Unit;
  Bytes = Unit;
  ConsensusParams = Unit;
  export_genesis_for_modules = λ m c. some tt;
  marshal_indent = λ g. some tt;
  write_validators = λ c. some three;
  get_max_provider_consensus_validators = λ c. at_most 2;
  get_consensus_params = λ c. tt;
}

abbrev exported : ℕ → ExportedApp exporter
exported h = record { app_state = tt; validators = first_two; height = h; consensus_params = tt }

export_runs : export_app_state_and_validators exporter false [] [] running ≡ returned (exported 10)
unfolding export_app_state_and_validators sort_by_power trim_validators
export_runs = refl

export-Exports_example : Exports exporter false [] [] running (exported 10)
export-Exports_example = export-Exports exporter false [] [] running (exported 10) export_runs
