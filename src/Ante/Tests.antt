-- ===== src/Ante/Tests.antt =====
-- The ante handler on small transactions, and the theorems of app/ante at concrete inputs.
use mathlib.Core.List.{mem-cons, not-mem-nil}
use mathlib.Core.Logic.Or
use mathlib.Core.HLevel.{⊥_prop}
use echofi.Prelude.{
  ℕ, suc, ◌+◌, ◌<◌, ◌≡◌, refl, ◌↔◌, ◌≢◌, inr, ◌⊎◌, Bool, false, List, [], ◌∷◌, Mem, ap, String,
  none, some, arith, eq_iff,
}
use echofi.Ante.Authz.{ok, Msgs, nil, cons, exec, other, unpacked, check_disabled_msgs}
use echofi.Ante.Authz.Accepts.{IsClean, load, check_disabled_msgs_iff}
use echofi.Ante.Authz.Nesting.{depth, exec_count, accepted_depth}
use echofi.Ante.Handlers.{Tx, AnteHandler, Decorator}
use echofi.Ante.Options.{
  Keepers, HandlerOptions, External, reject_messages, validate, cosmos_decorators, Required,
}
use echofi.Ante.Options.Laws.{Lacks, validate_sound}
use echofi.Ante.Router.{Linked, new_ante_handler}
use echofi.Ante.Router.Routes.{Routes, new_ante_handler-Routes}
use echofi.Ante.Router.Security.{Rejects, Passes, after_limiter, accepted-IsClean, limiter_decides}

abbrev plain_keepers : Keepers
plain_keepers = record {
  AccountKeeper = Unit;
  BankKeeper = Unit;
  ExtensionOptionChecker = Unit;
  IbcKeeper = Unit;
  FeeMarketKeeper = Unit;
  EvmKeeper = Unit;
  FeegrantKeeper = Unit;
  SignModeHandler = Unit;
  SigGasConsumer = Unit;
  TxFeeChecker = Unit;
}

abbrev all_set : HandlerOptions plain_keepers
all_set = record {
  account_keeper = some tt;
  bank_keeper = some tt;
  extension_option_checker = some tt;
  ibc_keeper = some tt;
  fee_market_keeper = some tt;
  evm_keeper = some tt;
  feegrant_keeper = some tt;
  sign_mode_handler = some tt;
  sig_gas_consumer = some tt;
  max_tx_gas_wanted = 0;
  tx_fee_checker = some tt;
}

abbrev no_bank : HandlerOptions plain_keepers
no_bank = record all_set { bank_keeper = none }

-- The context counts the decorators of other repositories that ran.
abbrev run_chain : List (Decorator ℕ) → AnteHandler ℕ
run_chain [] c tx sim = record { ctx = c; error = none }
run_chain (d ∷ ds) c tx sim = d c tx sim (run_chain ds)

abbrev counting : External plain_keepers → Decorator ℕ
counting reject_messages c tx sim next = next c tx sim
counting _ c tx sim next = next (suc c) tx sim

abbrev linked : Linked plain_keepers ℕ
linked = record {
  chaining = record {
    chain_ante_decorators = run_chain;
    chain_last = λ d c tx sim. refl;
    chain_cons = λ d e ds c tx sim. refl;
  };
  external_ante_handle = counting;
  eth_tx_url = "/eth";
  create_vesting_url = "/vesting";
}

-- A `MsgExec` that sends coins, and one around a `MsgExec` with a disabled message.
abbrev exec_send : Msgs
exec_send = cons (exec (unpacked (cons (other "/send") nil))) nil

abbrev plain_tx : Msgs → Tx
plain_tx msgs = record { msgs = msgs; extension_options = none }

not-mem_two : (url a b : String) → url ≢ a → url ≢ b → ¬ Mem url (a ∷ b ∷ [])
not-mem_two url a b p q m =
    Or.elim ⊥_prop (mem-cons.0 m) p (λ n. Or.elim ⊥_prop (mem-cons.0 n) q not-mem-nil)

abbrev disabled : List String
disabled = "/eth" ∷ "/vesting" ∷ []

send-not-Mem : ¬ Mem "/send" disabled
send-not-Mem =
    not-mem_two "/send" "/eth" "/vesting" (λ e. ground (arith, eq_iff "/send" "/eth"))
      (λ e. ground (arith, eq_iff "/send" "/vesting"))

exec_send-IsClean : IsClean disabled false exec_send
unfolding IsClean
exec_send-IsClean = (((λ _. send-not-Mem), tt), tt)

exec_send-load : load exec_send < 6
unfolding load
exec_send-load = omega arith

exec_send-ok : check_disabled_msgs disabled exec_send false 1 ≡ ok
unfolding load
exec_send-ok =
    (check_disabled_msgs_iff disabled exec_send false 1).1 (exec_send-IsClean, omega arith)

check_disabled_msgs_iff_example :
    (check_disabled_msgs disabled exec_send false 1 ≡ ok)
    ↔ (IsClean disabled false exec_send × (1 + load exec_send < 7))
check_disabled_msgs_iff_example = check_disabled_msgs_iff disabled exec_send false 1

accepted_depth_example : (depth exec_send < 6) × (exec_count exec_send < 6)
accepted_depth_example = accepted_depth disabled exec_send exec_send-ok

validate_sound_example :
    ((validate plain_keepers no_bank ≡ none) ↔ ((e : Required) → ¬ Lacks plain_keepers no_bank e))
    × ((e : Required) → validate plain_keepers no_bank ≡ some e → Lacks plain_keepers no_bank e)
validate_sound_example = validate_sound plain_keepers no_bank

new_ante_handler-Routes_example :
    Routes linked all_set 0 false
      (some (record { msgs = exec_send; extension_options = some ("/x" ∷ []) }))
      (new_ante_handler linked all_set 0
        (some (record { msgs = exec_send; extension_options = some ("/x" ∷ []) }))
        false)
new_ante_handler-Routes_example =
    new_ante_handler-Routes linked all_set 0
      (some (record { msgs = exec_send; extension_options = some ("/x" ∷ []) })) false

always-Passes :
    (c : ℕ) (tx : Tx) (sim : Bool)
    → Rejects linked all_set c tx sim ⊎ Passes linked all_set c tx sim
always-Passes c tx sim = inr (λ next. refl)

-- Fourteen decorators of other repositories run behind the limiter.
exec_send-accepted :
    new_ante_handler linked all_set 0 (some (plain_tx exec_send)) false
    ≡ record { ctx = 14; error = none }
unfolding after_limiter cosmos_decorators
exec_send-accepted =
    (limiter_decides linked all_set 0 (plain_tx exec_send) false tt (λ next. refl)).0
      (exec_send-IsClean, exec_send-load)

accepted-IsClean_example : IsClean disabled false exec_send × (load exec_send < 6)
accepted-IsClean_example =
    accepted-IsClean linked all_set always-Passes 0 (plain_tx exec_send) false tt
      (ap (λ r. r.error) exec_send-accepted)
