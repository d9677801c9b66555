-- ===== src/Startup/Command.antt =====
-- `appExport` of cmd/echofid/cmd/command.go, up to the export itself, and the start of a node.
use echofi.Prelude.{ℕ, Bool, false, not, String, Option, none, some, if◌then◌else◌, str_eq, ◌==◌}
use echofi.EvmConfig.{Globals, EvmState, evm_chain_id}
use echofi.Startup.{Int64, pos, negsuc, World, App, load_version, load, new_echofi_app}

-- `height == -1`
abbrev pub is_minus_one : Int64 → Bool
is_minus_one (pos n) = false
is_minus_one (negsuc n) = n == 0

-- How the command comes to the export: an error that it returns, a panic, or a loaded application.
pub data Started (G : Type 0) : Type 0 where
  home_not_set not_viper load_failed panicked : Started G
  loaded : App → EvmState G → Started G

module _ (w : World) (s : Globals) where
  unfoldable pub load_height : Int64 → App → EvmState s.G → Started s.G
  load_height height a evm =
      if is_minus_one height
      then loaded a evm
      else elim (load w (load_version height) a) [ none ↦ load_failed | some a' ↦ loaded a' evm ]

  unfoldable pub start : Int64 → ℕ → EvmState s.G → Started s.G
  unfolding load_height
  start height max_gas_wanted evm =
      elim (new_echofi_app w s (is_minus_one height) evm_chain_id max_gas_wanted evm) [
        | none ↦ panicked
        | some (a, evm') ↦ load_height height a evm'
      ]

  -- The home flag is `none` where it is no string.
  unfoldable pub app_export : Option String → Bool → Int64 → ℕ → EvmState s.G → Started s.G
  unfolding start
  app_export none is_viper height max_gas_wanted evm = home_not_set
  app_export (some home_path) is_viper height max_gas_wanted evm =
      if str_eq home_path ""
      then home_not_set
      else if not is_viper
      then not_viper
      else start height max_gas_wanted evm
