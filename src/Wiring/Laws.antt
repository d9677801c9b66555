-- ===== src/Wiring/Laws.antt =====
-- What `NewAppKeeper` builds.
use echofi.Prelude.{
  ℕ, ◌≡◌, refl, sym, subst, ap, ◌∙◌, Bool, true, false, ◌||◌, List, [], ◌∷◌, ◌↔◌, ◌++◌, map, String,
  Option, none, some, if◌then◌else◌,
}
use echofi.Packages.{Package, authtypes, same, contains, count, evmtypes, providertypes}
use echofi.Wiring.State.{
  Var, erc20_keeper, pfm_router_keeper, transfer_keeper, staking_keeper, evm_transfer_keeper,
  provider_keeper, gov_keeper, same_var, changes, at, Value, nil_value, zero, early_ref,
  early_member, kv_key, kv_store_service, Call, AppKeepers,
}
use echofi.Wiring.Keys.{kv_store_keys}
use echofi.Wiring.Precompiles.{new_available_static_precompiles}
use echofi.Wiring.Env.{Env, outcomes}
use echofi.Wiring.Build.{keepers_for, new_app_keeper}
use echofi.Wiring.Runs.{
  IsReady, finished-IsReady, same_when_ready, all_ok_returns, wired_calls, calls_wired,
}

abbrev pub is_missing : Value → Bool
is_missing nil_value = true
is_missing (zero v) = true
is_missing (early_ref v) = true
is_missing (early_member v name) = true
is_missing _ = false

abbrev pub missing : List Value → List Value
missing [] = []
missing (v ∷ vs) = (if is_missing v then v ∷ [] else []) ++ missing vs

abbrev listed : Var → String → List Value → List (Var × String × List Value)
listed v f [] = []
listed v f (m ∷ ms) = (v, f, m ∷ ms) ∷ []

-- The calls with arguments that are nil, or a keeper, a pointer to a keeper or a member of a keeper
-- that is not built yet, with these arguments, in the order of the code.
abbrev pub incomplete_calls : List Call → List (Var × String × List Value)
incomplete_calls [] = []
incomplete_calls (c ∷ cs) = incomplete_calls cs ++ listed c.target c.function (missing c.arguments)

abbrev pub store_of : Value → List Package
store_of (kv_key p) = p ∷ []
store_of (kv_store_service p) = p ∷ []
store_of _ = []

abbrev pub stores_of : List Value → List Package
stores_of [] = []
stores_of (v ∷ vs) = store_of v ++ stores_of vs

-- The stores that the calls hand out.
abbrev pub stores_used : List Call → List Package
stores_used [] = []
stores_used (c ∷ cs) = stores_of c.arguments ++ stores_used cs

-- The calls on a variable, in the order of the code.
abbrev pub history : Var → List Call → List (String × List Value)
history v [] = []
history v (c ∷ cs) =
    history v cs ++ (if same_var c.target v then (c.function, c.arguments) ∷ [] else [])

abbrev pub name_of : String × List Value → String
name_of call = call.0

-- The last call on a variable.
abbrev pub last_call : Var → List Call → Option (String × List Value)
last_call v [] = none
last_call v (c ∷ cs) =
    if same_var c.target v then some (c.function, c.arguments) else last_call v cs

-- `NewAppKeeper` returns exactly where the streaming services, the VM of the light client, the
-- configuration of wasm and the constructors of the precompiles give no error: every subspace that
-- it asks for is registered, and no nil pointer is followed.
pub new_app_keeper_returns :
    (env : Env) → ((k : AppKeepers) × (new_app_keeper env ≡ some k)) ↔ IsReady env
new_app_keeper_returns env = (
  λ (k, h). finished-IsReady env k h,
  λ ready. let (k, run) = all_ok_returns in (k, same_when_ready env ready ∙ run),
)

abbrev pub HasIncomplete : List Call → Type 0
HasIncomplete calls =
    (incomplete_calls calls
      ≡ (staking_keeper, "SetHooks", early_member provider_keeper "Hooks()" ∷ [])
        ∷ (provider_keeper, "icsproviderkeeper.NewKeeper", zero gov_keeper ∷ [])
        ∷ (pfm_router_keeper, "pfmrouterkeeper.NewKeeper", nil_value ∷ [])
        ∷ (erc20_keeper, "erc20keeper.NewKeeper", nil_value ∷ early_ref evm_transfer_keeper ∷ [])
        ∷ [])
    × (last_call provider_keeper calls ≡ some ("SetGovKeeper", at gov_keeper 1 ∷ []))
    × (last_call pfm_router_keeper calls ≡ some ("SetTransferKeeper", at transfer_keeper 1 ∷ []))
    × (changes erc20_keeper calls ≡ 1)
    × (changes evm_transfer_keeper calls ≡ 1)

wired-HasIncomplete : HasIncomplete wired_calls
unfolding new_app_keeper keepers_for outcomes new_available_static_precompiles
wired-HasIncomplete = (refl, refl, refl, refl, refl)

-- Exactly four calls of a finished `NewAppKeeper` get an argument that is nil or not built yet. The
-- hooks of staking get those of the provider keeper before that keeper is built; the provider keeper
-- is built with an empty governance keeper, and gets the built one by the last call on it; the packet
-- forwarding keeper is built without the transfer keeper, and gets it by the last call on it; the
-- ERC-20 keeper is built without the EVM keeper, and nothing changes it afterwards, and with a
-- pointer to the transfer keeper of the EVM, which is built later.
pub incomplete_arguments :
    (env : Env) (k : AppKeepers) → new_app_keeper env ≡ some k → HasIncomplete k.calls
incomplete_arguments env k h = subst HasIncomplete (sym (calls_wired env k h)) wired-HasIncomplete

abbrev share : Package → ℕ
share p =
    if contains p kv_store_keys
    then (if same p evmtypes || same p providertypes then 2 else 1)
    else 0

wired-share : (p : Package) → count p (stores_used wired_calls) ≡ share p
unfolding new_app_keeper keepers_for outcomes new_available_static_precompiles kv_store_keys
wired-share authtypes = refl
wired-share _ = refl

-- Each mounted store is handed to one constructor only, but for that of the EVM, which the EVM
-- keeper and the transfer keeper of the EVM share, and that of the provider, which its keeper and
-- its module share. No other store is handed out.
pub stores_exclusive :
    (env : Env) (k : AppKeepers) (p : Package)
    → new_app_keeper env ≡ some k
    → count p (stores_used k.calls) ≡ (
        if contains p kv_store_keys
        then (if same p evmtypes || same p providertypes then 2 else 1)
        else 0)
stores_exclusive env k p h =
    ap (λ calls. count p (stores_used calls)) (calls_wired env k h) ∙ wired-share p

abbrev pub HoldsOldGov : List Call → Type 0
HoldsOldGov calls =
    (last_call provider_keeper calls ≡ some ("SetGovKeeper", at gov_keeper 1 ∷ []))
    × (map name_of (history gov_keeper calls)
        ≡ "govkeeper.NewKeeper" ∷ "SetLegacyRouter" ∷ "SetHooks" ∷ [])

wired-HoldsOldGov : HoldsOldGov wired_calls
unfolding new_app_keeper keepers_for outcomes new_available_static_precompiles
wired-HoldsOldGov = (refl, refl)

-- The governance keeper that the provider keeper holds in the end is the copy of the one just
-- built, from before its legacy router and its hooks are set.
pub provider-HoldsOldGov :
    (env : Env) (k : AppKeepers) → new_app_keeper env ≡ some k → HoldsOldGov k.calls
provider-HoldsOldGov env k h = subst HoldsOldGov (sym (calls_wired env k h)) wired-HoldsOldGov
