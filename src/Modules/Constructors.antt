-- ===== src/Modules/Constructors.antt =====
-- The arguments of the modules: `appModules`, `simulationModules` and `newBasicManagerFromManager`
-- of app/module.go, on the keepers that `NewAppKeeper` leaves.
pub mod Built
use echofi.Prelude.{
  ◌≡◌, refl, sym, ap, ◌∙◌, Bool, true, false, ◌++◌, List, [], ◌∷◌, map, String, Option, none, some,
  if◌then◌else◌,
}
use echofi.Packages.{Package}
use echofi.Packages.{
  authtypes, authz, banktypes, consensusparamtypes, distrtypes, erc20types, evidencetypes, evmtypes,
  feegrant, feemarkettypes, genutiltypes, govtypes, ibcexported, ibctm, ibctransfertypes,
  ibcwasmtypes, icatypes, minttypes, paramstypes, pfmroutertypes, precisebanktypes, providertypes,
  ratelimittypes, slashingtypes, stakingtypes, upgradetypes, vestingtypes, wasmtypes,
}
use echofi.Wiring.State.{
  account_keeper, authz_keeper, bank_keeper, consensus_params_keeper, distr_keeper, erc20_keeper,
  evidence_keeper, evm_keeper, fee_grant_keeper, feemarket_keeper, gov_keeper, ibc_keeper,
  ica_module, mint_keeper, params_keeper, pfm_router_module, precise_bank_keeper, provider_module,
  rate_limit_module, slashing_keeper, staking_keeper, transfer_module, upgrade_keeper,
  wasm_client_keeper, wasm_keeper, Value, AppKeepers, Expr, field, addr, sel, lit, nil,
  get_subspace, eval_all, ◌>>=◌,
}
use echofi.Modules.{app_modules, simulation_modules}

-- A module that a constructor makes, or one that `NewAppKeeper` has made.
pub data ModuleExpr : Type 0 where
  new : Package → String → List Expr → ModuleExpr
  built : Package → Expr → ModuleExpr

unfoldable pub app_module_exprs : List ModuleExpr
app_module_exprs =
    new genutiltypes "no_valupdates_genutil.NewAppModule"
      (field account_keeper ∷ field staking_keeper ∷ lit "app" ∷ lit "txConfig" ∷ [])
    ∷ new authtypes "auth.NewAppModule"
        (lit "appCodec" ∷ field account_keeper ∷ nil ∷ get_subspace authtypes ∷ [])
    ∷ new vestingtypes "vesting.NewAppModule" (field account_keeper ∷ field bank_keeper ∷ [])
    ∷ new banktypes "bank.NewAppModule"
        (lit "appCodec" ∷ field bank_keeper ∷ field account_keeper ∷ get_subspace banktypes ∷ [])
    ∷ new govtypes "gov.NewAppModule" (
        lit "appCodec"
        ∷ field gov_keeper
        ∷ field account_keeper
        ∷ field bank_keeper
        ∷ get_subspace govtypes
        ∷ [])
    ∷ new minttypes "mint.NewAppModule" (
        lit "appCodec"
        ∷ field mint_keeper
        ∷ field account_keeper
        ∷ nil
        ∷ get_subspace minttypes
        ∷ [])
    ∷ new slashingtypes "slashing.NewAppModule" (
        lit "appCodec"
        ∷ field slashing_keeper
        ∷ field account_keeper
        ∷ field bank_keeper
        ∷ field staking_keeper
        ∷ get_subspace slashingtypes
        ∷ lit "app.interfaceRegistry"
        ∷ [])
    ∷ new distrtypes "distr.NewAppModule" (
        lit "appCodec"
        ∷ field distr_keeper
        ∷ field account_keeper
        ∷ field bank_keeper
        ∷ field staking_keeper
        ∷ get_subspace distrtypes
        ∷ [])
    ∷ new stakingtypes "no_valupdates_staking.NewAppModule" (
        lit "appCodec"
        ∷ field staking_keeper
        ∷ field account_keeper
        ∷ field bank_keeper
        ∷ get_subspace stakingtypes
        ∷ [])
    ∷ new upgradetypes "upgrade.NewAppModule"
        (field upgrade_keeper ∷ sel account_keeper "AddressCodec()" ∷ [])
    ∷ new evidencetypes "evidence.NewAppModule" (field evidence_keeper ∷ [])
    ∷ new feegrant "feegrantmodule.NewAppModule" (
        lit "appCodec"
        ∷ field account_keeper
        ∷ field bank_keeper
        ∷ field fee_grant_keeper
        ∷ lit "app.interfaceRegistry"
        ∷ [])
    ∷ new authz "authzmodule.NewAppModule" (
        lit "appCodec"
        ∷ field authz_keeper
        ∷ field account_keeper
        ∷ field bank_keeper
        ∷ lit "app.interfaceRegistry"
        ∷ [])
    ∷ new ibcexported "ibc.NewAppModule" (field ibc_keeper ∷ [])
    ∷ new ibcwasmtypes "ibcwasm.NewAppModule" (field wasm_client_keeper ∷ [])
    ∷ new paramstypes "sdkparams.NewAppModule" (field params_keeper ∷ [])
    ∷ new consensusparamtypes "consensus.NewAppModule"
        (lit "appCodec" ∷ field consensus_params_keeper ∷ [])
    ∷ new wasmtypes "wasm.NewAppModule" (
        lit "appCodec"
        ∷ addr wasm_keeper
        ∷ field staking_keeper
        ∷ field account_keeper
        ∷ field bank_keeper
        ∷ lit "app.MsgServiceRouter()"
        ∷ get_subspace wasmtypes
        ∷ [])
    ∷ built ibctransfertypes (field transfer_module)
    ∷ built icatypes (field ica_module)
    ∷ built pfmroutertypes (field pfm_router_module)
    ∷ built ratelimittypes (field rate_limit_module)
    ∷ built providertypes (field provider_module)
    ∷ new ibctm "tendermint.NewAppModule" (lit "tmLightClientModule" ∷ [])
    ∷ new evmtypes "evm.NewAppModule"
        (field evm_keeper ∷ field account_keeper ∷ sel account_keeper "AddressCodec()" ∷ [])
    ∷ new feemarkettypes "feemarket.NewAppModule" (field feemarket_keeper ∷ [])
    ∷ new erc20types "erc20.NewAppModule" (field erc20_keeper ∷ field account_keeper ∷ [])
    ∷ new precisebanktypes "precisebank.NewAppModule"
        (field precise_bank_keeper ∷ field bank_keeper ∷ field account_keeper ∷ [])
    ∷ []

unfoldable pub simulation_module_exprs : List ModuleExpr
simulation_module_exprs =
    new authtypes "auth.NewAppModule" (
      lit "appCodec"
      ∷ field account_keeper
      ∷ lit "authsims.RandomGenesisAccounts"
      ∷ get_subspace authtypes
      ∷ [])
    ∷ new banktypes "bank.NewAppModule"
        (lit "appCodec" ∷ field bank_keeper ∷ field account_keeper ∷ get_subspace banktypes ∷ [])
    ∷ new feegrant "feegrantmodule.NewAppModule" (
        lit "appCodec"
        ∷ field account_keeper
        ∷ field bank_keeper
        ∷ field fee_grant_keeper
        ∷ lit "app.interfaceRegistry"
        ∷ [])
    ∷ new govtypes "gov.NewAppModule" (
        lit "appCodec"
        ∷ field gov_keeper
        ∷ field account_keeper
        ∷ field bank_keeper
        ∷ get_subspace govtypes
        ∷ [])
    ∷ new minttypes "mint.NewAppModule" (
        lit "appCodec"
        ∷ field mint_keeper
        ∷ field account_keeper
        ∷ nil
        ∷ get_subspace minttypes
        ∷ [])
    ∷ new stakingtypes "staking.NewAppModule" (
        lit "appCodec"
        ∷ field staking_keeper
        ∷ field account_keeper
        ∷ field bank_keeper
        ∷ get_subspace stakingtypes
        ∷ [])
    ∷ new distrtypes "distr.NewAppModule" (
        lit "appCodec"
        ∷ field distr_keeper
        ∷ field account_keeper
        ∷ field bank_keeper
        ∷ field staking_keeper
        ∷ get_subspace distrtypes
        ∷ [])
    ∷ new slashingtypes "slashing.NewAppModule" (
        lit "appCodec"
        ∷ field slashing_keeper
        ∷ field account_keeper
        ∷ field bank_keeper
        ∷ field staking_keeper
        ∷ get_subspace slashingtypes
        ∷ lit "app.interfaceRegistry"
        ∷ [])
    ∷ new evidencetypes "evidence.NewAppModule" (field evidence_keeper ∷ [])
    ∷ new authz "authzmodule.NewAppModule" (
        lit "appCodec"
        ∷ field authz_keeper
        ∷ field account_keeper
        ∷ field bank_keeper
        ∷ lit "app.interfaceRegistry"
        ∷ [])
    ∷ new wasmtypes "wasm.NewAppModule" (
        lit "appCodec"
        ∷ addr wasm_keeper
        ∷ field staking_keeper
        ∷ field account_keeper
        ∷ field bank_keeper
        ∷ lit "app.MsgServiceRouter()"
        ∷ get_subspace wasmtypes
        ∷ [])
    ∷ new ibcexported "ibc.NewAppModule" (field ibc_keeper ∷ [])
    ∷ built ibctransfertypes (field transfer_module)
    ∷ built icatypes (field ica_module)
    ∷ new evmtypes "evm.NewAppModule"
        (field evm_keeper ∷ field account_keeper ∷ sel account_keeper "AddressCodec()" ∷ [])
    ∷ new feemarkettypes "feemarket.NewAppModule" (field feemarket_keeper ∷ [])
    ∷ new erc20types "erc20.NewAppModule" (field erc20_keeper ∷ field account_keeper ∷ [])
    ∷ []

abbrev pub package_of : ModuleExpr → Package
package_of (new p f args) = p
package_of (built p e) = p

abbrev pub exprs_of : ModuleExpr → List Expr
exprs_of (new p f args) = args
exprs_of (built p e) = e ∷ []

-- The modules with the values of their arguments. `none` is a panic.
unfoldable pub make_modules : List ModuleExpr → AppKeepers → Option (List (Package × List Value))
make_modules [] k = some []
make_modules (m ∷ ms) k = do
  args ← eval_all (exprs_of m) k
  rest ← make_modules ms k
  some ((package_of m, args) ∷ rest)

-- `newBasicManagerFromManager`: the basic modules that replace those of the manager, and the calls.
pub basic_overrides : List (Package × String)
basic_overrides =
    (genutiltypes, "genutil.NewAppModuleBasic(genutiltypes.DefaultMessageValidator)")
    ∷ (govtypes, "gov.NewAppModuleBasic([]govclient.ProposalHandler{paramsclient.ProposalHandler})")
    ∷ []
