-- ===== src/Ante/Router/Security.antt =====
-- What the Cosmos chain lets through.
use echofi.Prelude.{
  ◌<◌, ◌≡◌, ◌≢◌, refl, sym, ap, ◌∙◌, ◌⊎◌, inl, inr, Bool, false, List, [], ◌∷◌, map, String, none,
  some, arith,
}
use echofi.Ante.Authz.{AuthzError, Check, ok, err, check_disabled_msgs}
use echofi.Ante.Authz.Accepts.{IsClean, load, check_disabled_msgs_iff}
use echofi.Ante.Handlers.{unauthorized, Tx, Outcome, AnteHandler}
use echofi.Ante.Options.{
  Keepers, HandlerOptions, reject_messages, evm_mono, eth_decorators, cosmos_decorators,
}
use echofi.Ante.Router.{
  after_check, authz_limiter_ante_handle, Linked, ante_handle, ethereum_tx_option,
  new_eth_ante_handler, new_cosmos_ante_handler, new_ante_handler,
}
use echofi.Ante.Router.Routes.{
  first_option, IsCosmosOption, new_ante_handler-cosmos, new_ante_handler-ethereum,
}

after_check-accepts :
    {Ctx : Type 0} (r : Check) (c : Ctx) (next : Outcome Ctx)
    → (after_check r c next).error ≡ none
    → r ≡ ok
unfolding after_check
after_check-accepts ok c next h = refl
after_check-accepts (err e) c next h = cc

module _ {k : Keepers} {Ctx : Type 0} (l : Linked k Ctx) (o : HandlerOptions k) where
  abbrev pub disabled_msg_types : List String
  disabled_msg_types = l.eth_tx_url ∷ l.create_vesting_url ∷ []

  -- The decorator that stands before the authz limiter, at one call.
  abbrev pub Passes : Ctx → Tx → Bool → Type 0
  Passes c tx sim =
      (next : AnteHandler Ctx)
      → l.external_ante_handle reject_messages c tx sim next ≡ next c tx sim

  abbrev pub Rejects : Ctx → Tx → Bool → Type 0
  Rejects c tx sim =
      (next : AnteHandler Ctx) → (l.external_ante_handle reject_messages c tx sim next).error ≢ none

  -- The chain behind the limiter.
  unfoldable pub after_limiter : AnteHandler Ctx
  unfolding ante_handle
  after_limiter = elim (cosmos_decorators k l.eth_tx_url l.create_vesting_url o) [
    | _ ∷ _ ∷ ds ↦ l.chain_ante_decorators (map (ante_handle l) ds)
    | _ ↦ l.chain_ante_decorators []
  ]

  cosmos-Rejects :
      (c : Ctx) (tx : Tx) (sim : Bool)
      → Rejects c tx sim
      → (new_cosmos_ante_handler l o c tx sim).error ≢ none
  unfolding new_cosmos_ante_handler
  cosmos-Rejects c tx sim r e = r _ (ap (λ x. x.error) (sym (l.chain_cons _ _ _ c tx sim)) ∙ e)

  cosmos-Passes :
      (c : Ctx) (tx : Tx) (sim : Bool)
      → Passes c tx sim
      → new_cosmos_ante_handler l o c tx sim
        ≡ after_check
            (check_disabled_msgs disabled_msg_types tx.msgs false 1)
            c
            (after_limiter c tx sim)
  unfolding new_cosmos_ante_handler authz_limiter_ante_handle after_limiter cosmos_decorators
  cosmos-Passes c tx sim p = l.chain_cons _ _ _ c tx sim ∙ p _ ∙ l.chain_cons _ _ _ c tx sim

  -- Whenever the ante handler accepts a transaction that goes through the Cosmos chain, each authz
  -- message in it unpacks, no `MsgEthereumTx` and no `MsgCreateVestingAccount` is granted or executed
  -- through authz at any depth, and the nesting stays within the limit. The hypothesis on the
  -- decorator in front of the limiter is that each of its calls either fails or is its `next`.
  pub accepted-IsClean :
      (guard : (c : Ctx) (tx : Tx) (sim : Bool) → Rejects c tx sim ⊎ Passes c tx sim) (c : Ctx)
      (tx : Tx) (sim : Bool)
      → IsCosmosOption (first_option tx.extension_options)
      → (new_ante_handler l o c (some tx) sim).error ≡ none
      → IsClean disabled_msg_types false tx.msgs × (load tx.msgs < 6)
  accepted-IsClean guard c tx sim cosmos h =
      let accepted : (new_cosmos_ante_handler l o c tx sim).error ≡ none =
        rw (new_ante_handler-cosmos l o c tx sim cosmos) at h in
      elim (guard c tx sim) [
        | inl r ↦ absurd (cosmos-Rejects c tx sim r accepted)
        | inr p ↦
            let checked =
              after_check-accepts _ c (after_limiter c tx sim)
                (rw (cosmos-Passes c tx sim p) at accepted) in
            let (clean, fits) =
              (check_disabled_msgs_iff disabled_msg_types tx.msgs false 1).0 checked in
            (clean, omega arith)
      ]

  -- Where the decorator in front passes the transaction on, the limiter decides: messages that it
  -- accepts go on to the rest of the chain in the same context, and any others end the run at once,
  -- with the context unchanged and the unauthorized error that wraps what the check found.
  pub limiter_decides :
      (c : Ctx) (tx : Tx) (sim : Bool)
      → IsCosmosOption (first_option tx.extension_options)
      → Passes c tx sim
      → (IsClean disabled_msg_types false tx.msgs × (load tx.msgs < 6)
          → new_ante_handler l o c (some tx) sim ≡ after_limiter c tx sim)
        × ((e : AuthzError)
            → check_disabled_msgs disabled_msg_types tx.msgs false 1 ≡ err e
            → new_ante_handler l o c (some tx) sim
              ≡ record { ctx = c; error = some (unauthorized e) })
  unfolding after_check
  limiter_decides c tx sim cosmos p =
      let run = new_ante_handler-cosmos l o c tx sim cosmos ∙ cosmos-Passes c tx sim p in
      (
        λ (clean, fits).
            let checked =
              (check_disabled_msgs_iff disabled_msg_types tx.msgs false 1).1 (clean, omega arith) in
            run ∙ ap (λ r. after_check r c (after_limiter c tx sim)) checked,
        λ e refused. run ∙ ap (λ r. after_check r c (after_limiter c tx sim)) refused,
      )

  -- A transaction whose first extension option is the Ethereum one is decided by the mono decorator
  -- alone, with the keepers and the gas limit of the options: no authz limiter and no other
  -- decorator runs, and the context that it leaves is the outcome where it calls its `next`.
  pub ethereum_decided_by_mono :
      (c : Ctx) (tx : Tx) (sim : Bool)
      → first_option tx.extension_options ≡ some ethereum_tx_option
      → new_ante_handler l o c (some tx) sim
        ≡ l.external_ante_handle
            (evm_mono o.account_keeper o.fee_market_keeper o.evm_keeper o.max_tx_gas_wanted)
            c
            tx
            sim
            (λ c' _ _. record { ctx = c'; error = none })
  unfolding new_eth_ante_handler ante_handle eth_decorators
  ethereum_decided_by_mono c tx sim h =
      new_ante_handler-ethereum l o c tx sim h ∙ l.chain_last _ c tx sim
