-- ===== src/Modules/Order.antt =====
-- What the orders of app/module.go guarantee: the constraints that the comments of app/app.go ask
-- for, and how often each module runs.
use echofi.Prelude.{◌≤◌, ◌≡◌, refl, Bool, true, ◌||◌, List, [], ◌∷◌, arith, if◌then◌else◌}
use echofi.Packages.{
  Package, same, contains, count, authtypes, banktypes, stakingtypes, distrtypes, slashingtypes,
  crisistypes, erc20types, feemarkettypes, evmtypes, genutiltypes,
}
use echofi.Modules.{
  simulation_modules, app_modules, order_begin_blockers, order_end_blockers, order_init_blockers,
}

-- `p` stands in the order, and `q` only behind it.
abbrev pub Before : Package → Package → List Package → Type 0
Before p q [] = ⊥
Before p q (r ∷ rs) = if same q r then ⊥ else if same p r then Unit else Before p q rs

-- In each of the three orders no module but the fee market stands more than once, and the fee
-- market stands twice.
pub orders_once :
    (p : Package)
    → (count p order_begin_blockers ≤ (if same p feemarkettypes then 2 else 1))
      × (count p order_end_blockers ≤ (if same p feemarkettypes then 2 else 1))
      × (count p order_init_blockers ≤ (if same p feemarkettypes then 2 else 1))
      × (count feemarkettypes order_begin_blockers ≡ 2)
      × (count feemarkettypes order_end_blockers ≡ 2)
      × (count feemarkettypes order_init_blockers ≡ 2)
unfolding order_begin_blockers order_end_blockers order_init_blockers
orders_once authtypes = (omega arith, omega arith, omega arith, refl, refl, refl)
orders_once _ = (omega arith, omega arith, omega arith, refl, refl, refl)

-- The modules of the manager, and the crisis module, which the application does not have.
abbrev pub is_named : Package → Bool
is_named p = contains p app_modules || same p crisistypes

-- The constraints of the comments hold: distribution runs before slashing in the begin blockers,
-- the genesis of staking and of auth comes before that of genutil, and the genesis of the EVM's own
-- modules comes after those of auth, bank and staking.
pub orders_respect_constraints :
    Before distrtypes slashingtypes order_begin_blockers
    × Before stakingtypes genutiltypes order_init_blockers
    × Before authtypes genutiltypes order_init_blockers
    × Before banktypes evmtypes order_init_blockers
    × Before stakingtypes evmtypes order_init_blockers
    × Before evmtypes erc20types order_init_blockers
unfolding order_begin_blockers order_init_blockers
orders_respect_constraints = (tt, tt, tt, tt, tt, tt)

-- Every module of the simulation is one of the manager's, and its genesis is in the order of the
-- genesis, so the simulation knows no module that the application does not initialise.
pub simulation_modules_managed :
    (p : Package)
    → contains p simulation_modules ≡ true
    → (contains p app_modules ≡ true) × (contains p order_init_blockers ≡ true)
unfolding simulation_modules app_modules order_init_blockers
simulation_modules_managed authtypes h = (refl, refl)
simulation_modules_managed _ h = ground arith
