-- ===== src/Ante/Router.antt =====
-- app/ante/ante.go: the choice of a chain by the first extension option, and the decorator of
-- app/ante/authz.go that stands in the Cosmos chain.
pub mod Routes
pub mod Security
use echofi.Prelude.{
  ℕ, ◌≡◌, Bool, List, [], ◌∷◌, map, String, Option, none, some, if◌then◌else◌, str_eq,
}
use echofi.Ante.Authz.{Check, ok, err, check_disabled_msgs}
use echofi.Ante.Authz
use echofi.Ante.Handlers.{
  AnteError, unknown_extension_options, unknown_request, unauthorized, Tx, Outcome, AnteHandler,
  Decorator, Chaining,
}
use echofi.Ante.Options.{
  Keepers, HandlerOptions, External, AnyDecorator, external_decorator, authz_limiter,
  eth_decorators, cosmos_decorators,
}

abbrev pub ethereum_tx_option : String
ethereum_tx_option = "/cosmos.evm.vm.v1.ExtensionOptionsEthereumTx"

abbrev pub dynamic_fee_tx_option : String
dynamic_fee_tx_option = "/cosmos.evm.types.v1.ExtensionOptionDynamicFeeTx"

-- `AuthzLimiterDecorator.AnteHandle`, by the result of the check.
pub after_check : {Ctx : Type 0} → Check → Ctx → Outcome Ctx → Outcome Ctx
after_check ok ctx next = next
after_check (err e) ctx next = record { ctx = ctx; error = some (unauthorized e) }

pub authz_limiter_ante_handle : {Ctx : Type 0} → List String → Decorator Ctx
unfolding after_check
authz_limiter_ante_handle disabled ctx tx simulate next =
    after_check (check_disabled_msgs disabled tx.msgs Bool.false 1) ctx (next ctx tx simulate)

-- What the application is linked with: the chaining of decorators, the decorators of other
-- repositories, and the type URLs of two messages.
pub record Linked (k : Keepers) (Ctx : Type 0) : Type 0 where
  pub chaining : Chaining Ctx
  pub open chaining use *
  pub external_ante_handle : External k → Decorator Ctx
  pub eth_tx_url : String
  pub create_vesting_url : String

module _ {k : Keepers} {Ctx : Type 0} (l : Linked k Ctx) where
  pub ante_handle : AnyDecorator k → Decorator Ctx
  ante_handle (external_decorator d) = l.external_ante_handle d
  ante_handle (authz_limiter disabled) = authz_limiter_ante_handle disabled

  pub new_eth_ante_handler : HandlerOptions k → AnteHandler Ctx
  unfolding ante_handle eth_decorators
  new_eth_ante_handler options =
      l.chain_ante_decorators (map ante_handle (eth_decorators k options))

  pub new_cosmos_ante_handler : HandlerOptions k → AnteHandler Ctx
  unfolding ante_handle cosmos_decorators
  new_cosmos_ante_handler options =
      l.chain_ante_decorators
        (map ante_handle (cosmos_decorators k l.eth_tx_url l.create_vesting_url options))

  -- The `switch` over the type URL of the first option.
  pub handle_extension : HandlerOptions k → String → AnteHandler Ctx
  handle_extension options type_url ctx tx sim =
      if str_eq type_url ethereum_tx_option
      then new_eth_ante_handler options ctx tx sim
      else if str_eq type_url dynamic_fee_tx_option
      then new_cosmos_ante_handler options ctx tx sim
      else record { ctx = ctx; error = some (unknown_extension_options type_url) }

  -- By the extension options: a type without them and an empty list go on as a normal transaction.
  pub handle_options : HandlerOptions k → Option (List String) → AnteHandler Ctx
  unfolding handle_extension
  handle_options options none ctx tx sim = new_cosmos_ante_handler options ctx tx sim
  handle_options options (some []) ctx tx sim = new_cosmos_ante_handler options ctx tx sim
  handle_options options (some (type_url ∷ _)) ctx tx sim =
      handle_extension options type_url ctx tx sim

  -- The transaction is an interface value, and `none` is nil.
  pub new_ante_handler : HandlerOptions k → Ctx → Option Tx → Bool → Outcome Ctx
  unfolding handle_options
  new_ante_handler options ctx none sim = record { ctx = ctx; error = some unknown_request }
  new_ante_handler options ctx (some tx) sim =
      handle_options options tx.extension_options ctx tx sim
