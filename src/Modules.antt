-- ===== src/Modules.antt =====
-- app/module.go: the modules of the module manager, and the orders in which it runs them; and the
-- order of the pre-blockers of app/app.go.
pub mod Order
pub mod Constructors
pub mod Tests
use echofi.Prelude.{List, [], ◌∷◌}
use echofi.Packages.{
  Package, same, contains, count, authtypes, banktypes, stakingtypes, minttypes, distrtypes,
  slashingtypes, govtypes, paramstypes, ibcexported, upgradetypes, evidencetypes, ibctransfertypes,
  icahosttypes, icacontrollertypes, icatypes, feegrant, authz, pfmroutertypes, ratelimittypes,
  providertypes, consensusparamtypes, wasmtypes, ibcwasmtypes, erc20types, feemarkettypes, evmtypes,
  precisebanktypes, crisistypes, genutiltypes, vestingtypes, ibctm,
}

-- The modules of `appModules`, by their names.
unfoldable pub app_modules : List Package
app_modules =
    genutiltypes ∷ authtypes ∷ vestingtypes ∷ banktypes ∷ govtypes ∷ minttypes ∷ slashingtypes
    ∷ distrtypes ∷ stakingtypes ∷ upgradetypes ∷ evidencetypes ∷ feegrant ∷ authz ∷ ibcexported
    ∷ ibcwasmtypes ∷ paramstypes ∷ consensusparamtypes ∷ wasmtypes ∷ ibctransfertypes ∷ icatypes
    ∷ pfmroutertypes ∷ ratelimittypes ∷ providertypes ∷ ibctm ∷ evmtypes ∷ feemarkettypes
    ∷ erc20types ∷ precisebanktypes ∷ []

unfoldable pub simulation_modules : List Package
simulation_modules =
    authtypes ∷ banktypes ∷ feegrant ∷ govtypes ∷ minttypes ∷ stakingtypes ∷ distrtypes
    ∷ slashingtypes ∷ evidencetypes ∷ authz ∷ wasmtypes ∷ ibcexported ∷ ibctransfertypes ∷ icatypes
    ∷ evmtypes ∷ feemarkettypes ∷ erc20types ∷ []

unfoldable pub order_pre_blockers : List Package
order_pre_blockers = upgradetypes ∷ authtypes ∷ []

unfoldable pub order_begin_blockers : List Package
order_begin_blockers =
    minttypes ∷ distrtypes ∷ slashingtypes ∷ evidencetypes ∷ stakingtypes ∷ authtypes ∷ banktypes
    ∷ govtypes ∷ crisistypes ∷ ibcexported ∷ ibctransfertypes ∷ icatypes ∷ pfmroutertypes
    ∷ ratelimittypes ∷ genutiltypes ∷ authz ∷ feegrant ∷ paramstypes ∷ vestingtypes ∷ feemarkettypes
    ∷ providertypes ∷ consensusparamtypes ∷ wasmtypes ∷ ibcwasmtypes ∷ evmtypes ∷ feemarkettypes
    ∷ erc20types ∷ precisebanktypes ∷ []

unfoldable pub order_end_blockers : List Package
order_end_blockers =
    crisistypes ∷ govtypes ∷ stakingtypes ∷ ibcexported ∷ ibctransfertypes ∷ icatypes
    ∷ pfmroutertypes ∷ ratelimittypes ∷ authtypes ∷ banktypes ∷ distrtypes ∷ slashingtypes
    ∷ minttypes ∷ genutiltypes ∷ evidencetypes ∷ authz ∷ feegrant ∷ paramstypes ∷ upgradetypes
    ∷ vestingtypes ∷ feemarkettypes ∷ providertypes ∷ consensusparamtypes ∷ wasmtypes ∷ ibcwasmtypes
    ∷ evmtypes ∷ feemarkettypes ∷ erc20types ∷ precisebanktypes ∷ []

unfoldable pub order_init_blockers : List Package
order_init_blockers =
    authtypes ∷ banktypes ∷ distrtypes ∷ govtypes ∷ stakingtypes ∷ slashingtypes ∷ minttypes
    ∷ genutiltypes ∷ ibctransfertypes ∷ ibcexported ∷ icatypes ∷ evidencetypes ∷ authz ∷ feegrant
    ∷ pfmroutertypes ∷ ratelimittypes ∷ paramstypes ∷ upgradetypes ∷ vestingtypes ∷ feemarkettypes
    ∷ providertypes ∷ consensusparamtypes ∷ wasmtypes ∷ ibcwasmtypes ∷ crisistypes ∷ evmtypes
    ∷ feemarkettypes ∷ erc20types ∷ precisebanktypes ∷ []
