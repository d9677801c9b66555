-- ===== src/Ante/Options.antt =====
-- app/ante/handler_options.go: the options record, its validation, and the two decorator lists.
pub mod Laws
use echofi.Prelude.{ℕ, List, [], ◌∷◌, String, Option, none, some}

-- The types of the values that the options hold; the SDK, the EVM module and the IBC module
-- implement them.
pub record Keepers : Type 1 where
  pub AccountKeeper : Type 0
  pub BankKeeper : Type 0
  pub ExtensionOptionChecker : Type 0
  pub IbcKeeper : Type 0
  pub FeeMarketKeeper : Type 0
  pub EvmKeeper : Type 0
  pub FeegrantKeeper : Type 0
  pub SignModeHandler : Type 0
  pub SigGasConsumer : Type 0
  pub TxFeeChecker : Type 0

-- `none` is nil.
pub record HandlerOptions (k : Keepers) : Type 0 where
  pub account_keeper : Option k.AccountKeeper
  pub bank_keeper : Option k.BankKeeper
  pub extension_option_checker : Option k.ExtensionOptionChecker
  pub ibc_keeper : Option k.IbcKeeper
  pub fee_market_keeper : Option k.FeeMarketKeeper
  pub evm_keeper : Option k.EvmKeeper
  pub feegrant_keeper : Option k.FeegrantKeeper
  pub sign_mode_handler : Option k.SignModeHandler
  pub sig_gas_consumer : Option k.SigGasConsumer
  pub max_tx_gas_wanted : ℕ
  pub tx_fee_checker : Option k.TxFeeChecker

-- The messages of `Validate`, each for the keeper that it asks for.
pub data Required : Type 0 where
  account_keeper_required bank_keeper_required ibc_keeper_required : Required
  fee_market_keeper_required evm_keeper_required sig_gas_consumer_required : Required
  sign_mode_handler_required tx_fee_checker_required : Required

-- `if x == nil { return e }`, before the checks that follow.
abbrev pub require {ℓ} : {A : Type ℓ} → Option A → Required → Option Required → Option Required
require none e rest = some e
require (some a) e rest = rest

module _ (k : Keepers) where
  unfoldable pub validate : HandlerOptions k → Option Required
  validate options = require options.account_keeper account_keeper_required (
      require options.bank_keeper bank_keeper_required (
        require options.ibc_keeper ibc_keeper_required (
          require options.fee_market_keeper fee_market_keeper_required (
            require options.evm_keeper evm_keeper_required (
              require options.sig_gas_consumer sig_gas_consumer_required (
                require options.sign_mode_handler sign_mode_handler_required
                  (require options.tx_fee_checker tx_fee_checker_required none)))))))

  -- The decorators that other repositories implement, with what each is built from.
  pub data External : Type 0 where
    evm_mono : Option k.AccountKeeper → Option k.FeeMarketKeeper → Option k.EvmKeeper → ℕ → External
    reject_messages : External
    set_up_context : External
    extension_options : Option k.ExtensionOptionChecker → External
    validate_basic : External
    tx_timeout_height : External
    validate_memo : Option k.AccountKeeper → External
    consume_gas_for_tx_size : Option k.AccountKeeper → External
    deduct_fee :
        Option k.AccountKeeper
        → Option k.BankKeeper
        → Option k.FeegrantKeeper
        → Option k.TxFeeChecker
        → External
    set_pub_key : Option k.AccountKeeper → External
    validate_sig_count : Option k.AccountKeeper → External
    sig_gas_consume : Option k.AccountKeeper → Option k.SigGasConsumer → External
    sig_verification : Option k.AccountKeeper → Option k.SignModeHandler → External
    increment_sequence : Option k.AccountKeeper → External
    redundant_relay : Option k.IbcKeeper → External
    gas_wanted : Option k.EvmKeeper → Option k.FeeMarketKeeper → External

  -- A decorator of a chain: one of those, or the authz limiter with its disabled types.
  pub data AnyDecorator : Type 0 where
    external_decorator : External → AnyDecorator
    authz_limiter : List String → AnyDecorator

  unfoldable pub eth_decorators : HandlerOptions k → List AnyDecorator
  eth_decorators o =
      external_decorator
        (evm_mono o.account_keeper o.fee_market_keeper o.evm_keeper o.max_tx_gas_wanted)
      ∷ []

  -- The two type URLs are those of `MsgEthereumTx` and `MsgCreateVestingAccount`.
  unfoldable pub cosmos_decorators : String → String → HandlerOptions k → List AnyDecorator
  cosmos_decorators eth_tx_url create_vesting_url o =
      external_decorator reject_messages
      ∷ authz_limiter (eth_tx_url ∷ create_vesting_url ∷ [])
      ∷ external_decorator set_up_context
      ∷ external_decorator (extension_options o.extension_option_checker)
      ∷ external_decorator validate_basic
      ∷ external_decorator tx_timeout_height
      ∷ external_decorator (validate_memo o.account_keeper)
      ∷ external_decorator (consume_gas_for_tx_size o.account_keeper)
      ∷ external_decorator
          (deduct_fee o.account_keeper o.bank_keeper o.feegrant_keeper o.tx_fee_checker)
      ∷ external_decorator (set_pub_key o.account_keeper)
      ∷ external_decorator (validate_sig_count o.account_keeper)
      ∷ external_decorator (sig_gas_consume o.account_keeper o.sig_gas_consumer)
      ∷ external_decorator (sig_verification o.account_keeper o.sign_mode_handler)
      ∷ external_decorator (increment_sequence o.account_keeper)
      ∷ external_decorator (redundant_relay o.ibc_keeper)
      ∷ external_decorator (gas_wanted o.evm_keeper o.fee_market_keeper)
      ∷ []
