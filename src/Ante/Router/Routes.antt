-- ===== src/Ante/Router/Routes.antt =====
-- Which chain a transaction takes in app/ante/ante.go.
use echofi.Prelude.{
  ◌≡◌, ◌≢◌, refl, ap, inl, inr, Bool, List, [], ◌∷◌, String, Option, none, some, str_eq, arith,
  Bool-cases, eq_iff,
}
use echofi.Ante.Handlers.{unknown_extension_options, unknown_request, Tx, Outcome}
use echofi.Ante.Options.{Keepers, HandlerOptions}
use echofi.Ante.Router.{
  ethereum_tx_option, dynamic_fee_tx_option, Linked, new_eth_ante_handler, new_cosmos_ante_handler,
  handle_extension, handle_options, new_ante_handler,
}

-- The first extension option, if there is one.
abbrev pub first_option : Option (List String) → Option String
first_option none = none
first_option (some []) = none
first_option (some (url ∷ _)) = some url

abbrev pub IsCosmosOption : Option String → Type 0
IsCosmosOption none = Unit
IsCosmosOption (some url) = url ≡ dynamic_fee_tx_option

module _ {k : Keepers} {Ctx : Type 0} (l : Linked k Ctx) (o : HandlerOptions k) where
  -- What may happen to a transaction `tx`, or the nil interface, in the context `c`, with the
  -- outcome `r`: it runs through the Ethereum chain or the Cosmos chain, or it is rejected at once
  -- with the context as it was.
  pub data Routes (c : Ctx) (sim : Bool) (tx : Option Tx) (r : Outcome Ctx) : Type 0 where
    to_eth :
        (t : Tx)
        → tx ≡ some t
        → first_option t.extension_options ≡ some ethereum_tx_option
        → r ≡ new_eth_ante_handler l o c t sim
        → Routes c sim tx r
    to_cosmos :
        (t : Tx)
        → tx ≡ some t
        → IsCosmosOption (first_option t.extension_options)
        → r ≡ new_cosmos_ante_handler l o c t sim
        → Routes c sim tx r
    unsupported :
        (t : Tx) (url : String)
        → tx ≡ some t
        → first_option t.extension_options ≡ some url
        → url ≢ ethereum_tx_option
        → url ≢ dynamic_fee_tx_option
        → r ≡ record { ctx = c; error = some (unknown_extension_options url) }
        → Routes c sim tx r
    not_a_tx : tx ≡ none → r ≡ record { ctx = c; error = some unknown_request } → Routes c sim tx r

  extension-Routes :
      (url : String) (us : List String) (c : Ctx) (tx : Tx) (sim : Bool)
      → tx.extension_options ≡ some (url ∷ us)
      → Routes c sim (some tx) (handle_extension l o url c tx sim)
  unfolding handle_extension
  extension-Routes url us c tx sim h = elim (Bool-cases (str_eq url ethereum_tx_option)) [
    | inl e ↦
        let e' = (eq_iff url ethereum_tx_option).0 e in to_eth tx refl (rw h (ap some e')) (rw e)
    | inr ne ↦ elim (Bool-cases (str_eq url dynamic_fee_tx_option)) [
      | inl e ↦ to_cosmos tx refl (rw h ((eq_iff url dynamic_fee_tx_option).0 e)) (rw (ne, e))
      | inr nd ↦
          unsupported tx url refl (rw h) (ground (arith, eq_iff url ethereum_tx_option))
            (ground (arith, eq_iff url dynamic_fee_tx_option)) (rw (ne, nd))
    ]
  ]

  options-Routes :
      (opts : Option (List String)) (c : Ctx) (tx : Tx) (sim : Bool)
      → tx.extension_options ≡ opts
      → Routes c sim (some tx) (handle_options l o opts c tx sim)
  unfolding handle_options
  options-Routes none c tx sim h = to_cosmos tx refl (rw h tt) refl
  options-Routes (some []) c tx sim h = to_cosmos tx refl (rw h tt) refl
  options-Routes (some (url ∷ us)) c tx sim h = extension-Routes url us c tx sim h

  -- Every call of the ante handler takes one of the four ways: the Ethereum chain where the first
  -- extension option is the Ethereum one, the Cosmos chain where there is no option or the first is
  -- the dynamic fee option, and a rejection with the context unchanged where the first option is
  -- another one or the transaction is nil. The options behind the first play no part.
  pub new_ante_handler-Routes :
      (c : Ctx) (tx : Option Tx) (sim : Bool) → Routes c sim tx (new_ante_handler l o c tx sim)
  unfolding new_ante_handler
  new_ante_handler-Routes c none sim = not_a_tx refl refl
  new_ante_handler-Routes c (some tx) sim = options-Routes tx.extension_options c tx sim refl

  handle_options-cosmos :
      (opts : Option (List String)) (c : Ctx) (tx : Tx) (sim : Bool)
      → IsCosmosOption (first_option opts)
      → handle_options l o opts c tx sim ≡ new_cosmos_ante_handler l o c tx sim
  unfolding handle_options handle_extension
  handle_options-cosmos none c tx sim h = refl
  handle_options-cosmos (some []) c tx sim h = refl
  handle_options-cosmos (some (url ∷ us)) c tx sim h = rw h

  pub new_ante_handler-cosmos :
      (c : Ctx) (tx : Tx) (sim : Bool)
      → IsCosmosOption (first_option tx.extension_options)
      → new_ante_handler l o c (some tx) sim ≡ new_cosmos_ante_handler l o c tx sim
  unfolding new_ante_handler
  new_ante_handler-cosmos c tx sim h = handle_options-cosmos tx.extension_options c tx sim h

  handle_options-ethereum :
      (opts : Option (List String)) (c : Ctx) (tx : Tx) (sim : Bool)
      → first_option opts ≡ some ethereum_tx_option
      → handle_options l o opts c tx sim ≡ new_eth_ante_handler l o c tx sim
  unfolding handle_options handle_extension
  handle_options-ethereum none c tx sim h = absurd (cc)
  handle_options-ethereum (some []) c tx sim h = absurd (cc)
  handle_options-ethereum (some (url ∷ us)) c tx sim h =
      let e : url ≡ ethereum_tx_option = cc in rw e

  pub new_ante_handler-ethereum :
      (c : Ctx) (tx : Tx) (sim : Bool)
      → first_option tx.extension_options ≡ some ethereum_tx_option
      → new_ante_handler l o c (some tx) sim ≡ new_eth_ante_handler l o c tx sim
  unfolding new_ante_handler
  new_ante_handler-ethereum c tx sim h = handle_options-ethereum tx.extension_options c tx sim h
