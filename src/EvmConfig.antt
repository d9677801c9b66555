-- ===== src/EvmConfig.antt =====
-- app/evm_config.go: the coin of the chain, and the global EVM configuration that is set once.
pub mod Sealing
pub mod Tests
use echofi.Prelude.{ℕ, ◌≡◌, ◌≢◌, Bool, true, false, String, Option, none, some, if◌then◌else◌, ◌==◌}

-- `evmtypes.EvmCoinInfo`.
pub record EvmCoinInfo : Type 0 where
  pub denom : String
  pub extended_denom : String
  pub display_denom : String
  pub decimals : ℕ

abbrev pub evm_chain_id : ℕ
evm_chain_id = 6969

abbrev pub base_coin_unit : String
base_coin_unit = "uecho"

abbrev pub base_evm_denom : String
base_evm_denom = "aecho"

abbrev pub human_coin_unit : String
human_coin_unit = "echo"

-- `external` is an error of the SDK's denom registry or of the EVM configurator.
pub data EvmError : Type 0 where
  unknown_chain_id : ℕ → EvmError
  external : ℕ → EvmError

abbrev pub Effect : Type 0 → Type 0
Effect G = G → G × Option EvmError

-- The global state of the SDK and of the EVM module. A unit is the number of decimal places `n` of
-- the denomination's value 10 ^ -n.
pub record Globals : Type 1 where
  pub G : Type 0
  pub register_denom : String → ℕ → Effect G
  pub configure : ℕ → EvmCoinInfo → Effect G
  pub six_decimals : ℕ

-- `if err := m; err != nil { return err }`, and then the rest.
pub and_then : {G : Type 0} → G × Option EvmError → Effect G → G × Option EvmError
and_then (g, none) rest = rest g
and_then (g, some e) rest = (g, some e)

-- The state of the package: its variable `sealed`, and the globals.
pub record EvmState (G : Type 0) : Type 0 where
  pub sealed : Bool
  pub globals : G

-- `NoOpEVMOptions`.
pub no_op_evm_options : ℕ → Option EvmError
no_op_evm_options _ = none

module _ (s : Globals) where
  open s use {G, register_denom, configure, six_decimals}

  abbrev pub echo_coin_info : EvmCoinInfo
  echo_coin_info = record {
    denom = base_coin_unit;
    extended_denom = base_evm_denom;
    display_denom = human_coin_unit;
    decimals = six_decimals;
  }

  -- The map `ChainsCoinInfo`.
  pub chains_coin_info : ℕ → Option EvmCoinInfo
  chains_coin_info chain_id = if chain_id == evm_chain_id then some echo_coin_info else none

  pub set_base_denom : EvmCoinInfo → Effect G
  unfolding and_then
  set_base_denom ci g =
      and_then (register_denom ci.display_denom 0 g) (register_denom ci.denom ci.decimals)

  -- The part of `EVMAppOptions` behind the lookup, on the globals.
  pub set_up_chain : ℕ → EvmCoinInfo → Effect G
  unfolding set_base_denom
  set_up_chain chain_id coin_info g =
      and_then (set_base_denom coin_info g) (configure chain_id coin_info)

  -- `sealed = true` on success.
  pub seal : G × Option EvmError → EvmState G × Option EvmError
  seal (g, none) = (record { sealed = true; globals = g }, none)
  seal (g, some e) = (record { sealed = false; globals = g }, some e)

  pub configure_chain : ℕ → Option EvmCoinInfo → EvmState G → EvmState G × Option EvmError
  unfolding seal set_up_chain
  configure_chain chain_id none st = (st, some (unknown_chain_id chain_id))
  configure_chain chain_id (some coin_info) st = seal (set_up_chain chain_id coin_info st.globals)

  pub evm_app_options : ℕ → EvmState G → EvmState G × Option EvmError
  unfolding configure_chain chains_coin_info
  evm_app_options chain_id st =
      if st.sealed then (st, none) else configure_chain chain_id (chains_coin_info chain_id) st
