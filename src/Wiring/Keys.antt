-- ===== src/Wiring/Keys.antt =====
-- app/keepers/keys.go, and the parameter subspaces of `initParamsKeeper`.
use echofi.Prelude.{List, [], ◌∷◌, some}
use echofi.Packages.{
  Package, authtypes, banktypes, stakingtypes, minttypes, distrtypes, slashingtypes, govtypes,
  paramstypes, ibcexported, upgradetypes, evidencetypes, ibctransfertypes, icahosttypes,
  icacontrollertypes, feegrant, authz, pfmroutertypes, ratelimittypes, providertypes,
  consensusparamtypes, wasmtypes, ibcwasmtypes, erc20types, feemarkettypes, evmtypes,
  precisebanktypes,
}
use echofi.Wiring.State.{◌>>=◌, AppKeepers, Expr, Step, params_keeper, set, kv, tkv, lit}

-- `authzkeeper.StoreKey` is that of `authz`, and `routertypes.StoreKey` that of `pfmroutertypes`.
unfoldable pub kv_store_keys : List Package
kv_store_keys =
    authtypes ∷ banktypes ∷ stakingtypes ∷ minttypes ∷ distrtypes ∷ slashingtypes ∷ govtypes
    ∷ paramstypes ∷ ibcexported ∷ upgradetypes ∷ evidencetypes ∷ ibctransfertypes ∷ icahosttypes
    ∷ icacontrollertypes ∷ feegrant ∷ authz ∷ pfmroutertypes ∷ ratelimittypes ∷ providertypes
    ∷ consensusparamtypes ∷ wasmtypes ∷ ibcwasmtypes ∷ erc20types ∷ feemarkettypes ∷ evmtypes
    ∷ precisebanktypes ∷ []

-- `paramstypes.TStoreKey`, `evmtypes.TransientKey` and `feemarkettypes.TransientKey`.
unfoldable pub transient_store_keys : List Package
transient_store_keys = paramstypes ∷ evmtypes ∷ feemarkettypes ∷ []

-- `GenerateKeys`. The map of memory keys stays nil.
unfoldable pub generate_keys : Step
unfolding kv_store_keys transient_store_keys
generate_keys k = some (record k { keys = kv_store_keys; tkeys = transient_store_keys })

-- The calls of `paramsKeeper.Subspace`.
unfoldable pub param_subspaces : List Package
param_subspaces =
    authtypes ∷ stakingtypes ∷ banktypes ∷ minttypes ∷ distrtypes ∷ slashingtypes ∷ govtypes
    ∷ ibcexported ∷ ibctransfertypes ∷ icacontrollertypes ∷ icahosttypes ∷ pfmroutertypes
    ∷ ratelimittypes ∷ providertypes ∷ wasmtypes ∷ []

unfoldable pub init_params_keeper : Step
unfolding set param_subspaces
init_params_keeper k = do
  k' ←
      set params_keeper "paramskeeper.NewKeeper"
        (lit "appCodec" ∷ lit "legacyAmino" ∷ kv paramstypes ∷ tkv paramstypes ∷ []) k
  some (record k' { subspaces = param_subspaces })

-- The getters of the keys. No memory key is ever made.
pub get_kv_store_key : AppKeepers → List Package
get_kv_store_key k = k.keys

pub get_transient_store_key : AppKeepers → List Package
get_transient_store_key k = k.tkeys

pub get_memory_store_key : AppKeepers → List Package
get_memory_store_key k = k.mem_keys

pub get_key : Package → Expr
get_key store_key = kv store_key

pub get_tkey : Package → Expr
get_tkey store_key = tkv store_key
