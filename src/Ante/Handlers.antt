-- ===== src/Ante/Handlers.antt =====
-- Ante handlers and decorators as the Cosmos SDK passes them around, and the transactions that
-- app/ante reads. The context is the SDK's own type, a parameter of everything here.
use echofi.Prelude.{ℕ, ◌≡◌, Bool, List, [], ◌∷◌, String, Option, none}
use echofi.Ante.Authz.{AuthzError, Msgs}

-- `unauthorized` wraps what the authz check found, and `external` is an error of a decorator that
-- the SDK, the EVM module or the IBC module implements.
pub data AnteError : Type 0 where
  unknown_extension_options : String → AnteError
  unknown_request : AnteError
  unauthorized : AuthzError → AnteError
  external : ℕ → AnteError

-- A transaction that is not the nil interface. `extension_options` is `none` for a type that has no
-- `GetExtensionOptions`, and otherwise lists the type URLs of the options.
pub record Tx : Type 0 where
  pub msgs : Msgs
  pub extension_options : Option (List String)

pub record Outcome (Ctx : Type 0) : Type 0 where
  pub ctx : Ctx
  pub error : Option AnteError

abbrev pub AnteHandler : Type 0 → Type 0
AnteHandler Ctx = Ctx → Tx → Bool → Outcome Ctx

-- The last argument is `next`.
abbrev pub Decorator : Type 0 → Type 0
Decorator Ctx = Ctx → Tx → Bool → AnteHandler Ctx → Outcome Ctx

-- `sdk.ChainAnteDecorators`: the first decorator runs with the chain of the others as `next`, and
-- the last one with a handler that accepts.
pub record Chaining (Ctx : Type 0) : Type 0 where
  pub chain_ante_decorators : List (Decorator Ctx) → AnteHandler Ctx
  pub chain_last :
      (d : Decorator Ctx) (c : Ctx) (tx : Tx) (sim : Bool)
      → chain_ante_decorators (d ∷ []) c tx sim
        ≡ d c tx sim (λ c' _ _. record { ctx = c'; error = none })
  pub chain_cons :
      (d e : Decorator Ctx) (ds : List (Decorator Ctx)) (c : Ctx) (tx : Tx) (sim : Bool)
      → chain_ante_decorators (d ∷ e ∷ ds) c tx sim ≡ d c tx sim (chain_ante_decorators (e ∷ ds))
