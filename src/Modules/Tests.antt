-- ===== src/Modules/Tests.antt =====
-- The orders of app/module.go at single modules.
use echofi.Prelude.{◌≤◌, ◌≡◌}
use echofi.Packages.{count, feemarkettypes, stakingtypes}
use echofi.Modules.{order_begin_blockers, order_end_blockers, order_init_blockers}
use echofi.Wiring.Runs.{all_ok, all_ok_returns, all_ok-IsReady}
use echofi.Modules.Constructors.Built.{IsMade, make_modules-IsMade}
use echofi.Modules.Order.{orders_once}

orders_once_example :
    (count stakingtypes order_begin_blockers ≤ 1)
    × (count stakingtypes order_end_blockers ≤ 1)
    × (count stakingtypes order_init_blockers ≤ 1)
    × (count feemarkettypes order_begin_blockers ≡ 2)
    × (count feemarkettypes order_end_blockers ≡ 2)
    × (count feemarkettypes order_init_blockers ≡ 2)
orders_once_example = orders_once stakingtypes

make_modules-IsMade_example : IsMade all_ok_returns.0
make_modules-IsMade_example =
    make_modules-IsMade all_ok all_ok_returns.0 all_ok-IsReady all_ok_returns.1
