-- ===== src/Wiring/Build.antt =====
-- `NewAppKeeper` of app/keepers/keeper.go, in the order of its statements. Expressions that contain
-- no keeper, key or subspace are named by their Go text.
mod Sdk
mod Gov
mod Transfer
mod Evm
mod Stacks
use echofi.Prelude.{[], ◌∷◌, Option}
use echofi.Wiring.State.{AppKeepers, steps}
use echofi.Wiring.Env.{Env, Outcomes, outcomes}
use Sdk.{build_sdk_keepers}
use Gov.{build_ibc_and_gov_keepers}
use Transfer.{build_transfer_keepers}
use Evm.{build_evm_keepers}
use Stacks.{build_stacks}

abbrev pub empty_keepers : AppKeepers
empty_keepers = record { keys = []; tkeys = []; mem_keys = []; subspaces = []; calls = [] }

-- `none` is a panic, or the exit where the streaming services fail.
unfoldable pub keepers_for : Outcomes → Option AppKeepers
unfolding steps build_sdk_keepers build_ibc_and_gov_keepers build_transfer_keepers build_evm_keepers
    build_stacks
keepers_for out =
    steps
      (build_sdk_keepers out
        ∷ build_ibc_and_gov_keepers out
        ∷ build_transfer_keepers
        ∷ build_evm_keepers out
        ∷ build_stacks
        ∷ [])
      empty_keepers

unfoldable pub new_app_keeper : Env → Option AppKeepers
unfolding outcomes
new_app_keeper env = keepers_for (outcomes env)
