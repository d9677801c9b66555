-- ===== src/App/Tests.antt =====
-- The parts of app/app.go on small inputs, and the theorems at concrete inputs.
use echofi.Prelude.{
  Bool, List, [], ◌∷◌, ◌≢◌, arith, eq_iff, ℕ, ◌-◌, ◌≡◌, ◌↔◌, refl, sym, ◌∙◌, ap, true, false,
  String, none, some, if◌then◌else◌, leb, str_eq,
}
use echofi.App.Accounts.{
  Account, fee_collector_name, distr, ica, mint, bonded_pool_name, not_bonded_pool_name, gov,
  ibc_transfer, consumer_rewards_pool, wasm, evm, feemarket, erc20, precisebank, address_arguments,
  is_open, blocked_exactly,
}
use echofi.RootCmd.SdkConfig.{SdkApi}
use echofi.App.AutoCli.{ModuleSort, auto_cli_opts, In, Free, auto_cli_opts-exactly}
use echofi.App.Genesis.{
  FeeMarketParams, Chain, init_chainer, override_params, Succeeds, init_chainer-overrides,
}
use echofi.App.Signature.{
  evm_secp256k1, single, Signature, Params, consumed, Gas, sig_verification_gas_consumer,
}

abbrev address_text : Account → String
address_text fee_collector_name = "fee_collector"
address_text distr = "distribution"
address_text ica = "interchainaccounts"
address_text mint = "mint"
address_text bonded_pool_name = "bonded_tokens_pool"
address_text not_bonded_pool_name = "not_bonded_tokens_pool"
address_text gov = "gov"
address_text ibc_transfer = "transfer"
address_text consumer_rewards_pool = "consumer_rewards_pool"
address_text wasm = "wasm"
address_text evm = "evm"
address_text feemarket = "feemarket"
address_text erc20 = "erc20"
address_text precisebank = "precisebank"

abbrev account_of : String → Account
account_of t =
    if str_eq t "fee_collector"
    then fee_collector_name
    else if str_eq t "distribution"
    then distr
    else if str_eq t "interchainaccounts"
    then ica
    else if str_eq t "mint"
    then mint
    else if str_eq t "bonded_tokens_pool"
    then bonded_pool_name
    else if str_eq t "not_bonded_tokens_pool"
    then not_bonded_pool_name
    else if str_eq t "gov"
    then gov
    else if str_eq t "transfer"
    then ibc_transfer
    else if str_eq t "consumer_rewards_pool"
    then consumer_rewards_pool
    else if str_eq t "wasm"
    then wasm
    else if str_eq t "evm"
    then evm
    else if str_eq t "feemarket"
    then feemarket
    else if str_eq t "erc20"
    then erc20
    else precisebank

account_of-address_text : (a : Account) → account_of (address_text a) ≡ a
account_of-address_text fee_collector_name = refl
account_of-address_text _ = refl

address_text_injective : (a b : Account) → address_text a ≡ address_text b → a ≡ b
address_text_injective a b h =
    sym (account_of-address_text a) ∙ ap account_of h ∙ account_of-address_text b

blocked_exactly_example :
    let (mod_acc_addrs, blocked_address) = address_arguments address_text in
    ((blocked_address "mint" ≡ true)
      ↔ ((a : Account) × ("mint" ≡ address_text a) × (is_open a ≡ false)))
    × (mod_acc_addrs "gov" ≡ false)
    × (mod_acc_addrs "consumer_rewards_pool" ≡ false)
blocked_exactly_example = blocked_exactly address_text address_text_injective "mint"

-- A chain whose state is the parameters of its fee market.
abbrev genesis_params : FeeMarketParams ℕ ℕ
genesis_params = record { base_fee = 5; no_base_fee = false; min_gas_price = 9; extra = 4 }

abbrev small_chain : Chain
small_chain = record {
  S = FeeMarketParams ℕ ℕ;
  Decimal = ℕ;
  Extra = ℕ;
  GenesisState = ℕ;
  Response = ℕ;
  legacy_zero_dec = 0;
  legacy_must_new_dec_from_str = λ t. some 1;
  unmarshal = λ t. some 4;
  set_module_version_map = λ s. some s;
  init_genesis = λ g s. some (record s { extra = g }, 7);
  get_params = λ s. s;
  set_params = λ p s. some p;
}

abbrev overridden : FeeMarketParams ℕ ℕ
overridden = record { base_fee = 0; no_base_fee = true; min_gas_price = 1; extra = 4 }

init_chainer-overrides_example :
    (run : Succeeds small_chain "{}" genesis_params overridden 7) × (overridden.base_fee ≡ 0)
    × (overridden.no_base_fee ≡ true)
    × (some overridden.min_gas_price ≡ some 1)
    × (overridden.extra ≡ run.s1.extra)
unfolding init_chainer override_params
init_chainer-overrides_example =
    init_chainer-overrides small_chain (λ p s s' h. cc) "{}" genesis_params overridden 7 refl

-- A meter that counts what is left.
abbrev small_gas : Gas ℕ ℕ
small_gas = record {
  Meter = ℕ;
  consume_gas = λ cost d left. if leb cost left then some (left - cost) else none;
  secp256k1_verify_cost = 21000;
  consume_multisignature = λ left m k params seq. consumed left none;
  default_consumer = λ left sig params. consumed left none;
}

abbrev costs : Params
costs = record { sig_verify_cost_secp256k1 = 1000; sig_verify_cost_ed25519 = 590 }

abbrev ethereum_signature : Signature ℕ ℕ
ethereum_signature = record { pub_key = evm_secp256k1; sig_data = single; sequence = 3 }

ethereum_signature_run :
    sig_verification_gas_consumer small_gas 30000 ethereum_signature costs ≡ consumed 9000 none
unfolding sig_verification_gas_consumer
ethereum_signature_run = refl

-- Modules by their names; the second one is no application module.
abbrev sort : ModuleSort
sort = record { M = String × Bool; name = λ m. some m.0; is_app_module = λ m. m.1 }

abbrev api : SdkApi
api = record {
  Config = Bool;
  is_sealed = λ c. c;
  account_prefix = λ c. "echofi";
  validator_prefix = λ c. "echofivaloper";
  consensus_prefix = λ c. "echofivalcons";
  set_bech32_prefix_for_account = λ a b c. some c;
  set_bech32_prefix_for_validator = λ a b c. some c;
  set_bech32_prefix_for_consensus_node = λ a b c. some c;
  set_coin_type = λ n c. some c;
  set_purpose = λ n c. some c;
  seal = λ c. true;
  bip44_coin_type = 60;
  purpose = 44;
}

abbrev modules : List (String × Bool)
modules = ("bank", true) ∷ ("params", false) ∷ []

bank_not_params : ◌≢◌ {A = String} "bank" "params"
bank_not_params = ground (arith, eq_iff "bank" "params")

auto_cli_opts-exactly_example :
    ((m : String × Bool)
      → In sort m modules
      → some m.0 ≡ some "bank"
      → (auto_cli_opts sort api true modules).modules "bank" ≡ (if m.1 then some m else none))
    × (Free sort "bank" modules → (auto_cli_opts sort api true modules).modules "bank" ≡ none)
auto_cli_opts-exactly_example =
    auto_cli_opts-exactly sort api true modules "bank"
      ((λ n e. (λ e'. bank_not_params (cc (e, e')), tt)), ((λ n e. tt), tt))
