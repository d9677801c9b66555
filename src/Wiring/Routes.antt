-- ===== src/Wiring/Routes.antt =====
-- The IBC stacks of app/keepers/keeper.go: what a packet passes on its way to a module.
use echofi.Prelude.{
  ℕ, zero, suc, ◌+◌, ◌≡◌, refl, sym, subst, Bool, true, false, ◌&&◌, List, [], ◌∷◌, String, Option,
  none, some, if◌then◌else◌, str_eq, ◌==◌,
}
use echofi.Wiring.State.{
  Var, ibc_keeper, transfer_keeper, provider_module, transfer_stack, transfer_stack_v2,
  ica_host_stack, ica_controller_stack, wasm_stack, Value, nil_value, at, member, same_var, changes,
  Call, AppKeepers, ◌>>=◌,
}
use echofi.Wiring.Precompiles.{new_available_static_precompiles}
use echofi.Wiring.Env.{Env, outcomes}
use echofi.Wiring.Build.{keepers_for, new_app_keeper}
use echofi.Wiring.Runs.{wired_calls, calls_wired}

-- The variables that hold a module, or middleware around one.
abbrev is_stack : Var → Bool
is_stack transfer_stack = true
is_stack transfer_stack_v2 = true
is_stack ica_host_stack = true
is_stack ica_controller_stack = true
is_stack wasm_stack = true
is_stack provider_module = true
is_stack _ = false

-- The `n`-th change of a variable.
abbrev change : Var → ℕ → List Call → Option Call
change v n [] = none
change v n (c ∷ cs) =
    if same_var c.target v && (changes v cs + 1 == n) then some c else change v n cs

-- What middleware hands a packet to: the first argument that is a stack.
abbrev below : List Value → Value
below [] = nil_value
below (at v n ∷ vs) = if is_stack v then at v n else below vs
below (_ ∷ vs) = below vs

-- What a packet passes from a stack on, by the constructors. The fuel is the number of layers.
abbrev passes : ℕ → List Call → Value → List String
passes zero calls v = []
passes (suc fuel) calls (at v n) = elim (change v n calls) [
  | none ↦ []
  | some c ↦ c.function ∷ passes fuel calls (below c.arguments)
]
passes (suc fuel) calls _ = []

abbrev first : List Value → Option Value
first [] = none
first (v ∷ vs) = some v

-- The last call of a method on a variable.
abbrev called : Var → String → List Call → Option Call
called v f [] = none
called v f (c ∷ cs) = if same_var c.target v && str_eq c.function f then some c else called v f cs

-- The calls up to the `n`-th change of a variable.
abbrev up_to : Var → ℕ → List Call → List Call
up_to v n [] = []
up_to v n (c ∷ cs) = if changes v (c ∷ cs) == n then c ∷ cs else up_to v n cs

-- The route of the copy of a router.
abbrev route_in : String → List Call → Value → Option Value
route_in add_route calls (at router n) = do
  c ← called router add_route (up_to router n calls)
  first c.arguments
route_in add_route calls _ = none

-- What a packet passes that core IBC receives: by the router that it has been given, and the route
-- of the module there.
abbrev pub received : String → String → List Call → Option (List String)
received set_router add_route calls = do
  given ← called ibc_keeper set_router calls
  router ← first given.arguments
  stack ← route_in add_route calls router
  some (passes 4 calls stack)

abbrev fourth : List Value → Option Value
fourth (_ ∷ _ ∷ _ ∷ v ∷ _) = some v
fourth _ = none

-- The ICS4 wrapper of the constructor of the transfer keeper is its fourth argument.
abbrev pub ics4_wrapper : List Call → Option Value
ics4_wrapper calls = do
  c ← called transfer_keeper "ibctransferkeeper.NewKeeper" calls
  fourth c.arguments

pub record HasRoutes (calls : List Call) : Type 0 where
  pub transfer :
      received "SetRouter" "AddRoute(transfer)" calls
      ≡ some (
          "ratelimit.NewIBCMiddleware" ∷ "pfmrouter.NewIBCMiddleware" ∷ "transfer.NewIBCModule"
          ∷ [])
  pub transfer_v2 :
      received "SetRouterV2" "AddRoute(transfer)" calls
      ≡ some (
          "ratelimitv2.NewIBCMiddleware" ∷ "ibccallbacksv2.NewIBCMiddleware"
          ∷ "transferv2.NewIBCModule" ∷ [])
  pub ica_controller :
      received "SetRouter" "AddRoute(icacontroller)" calls
      ≡ some ("ibccallbacks.NewIBCMiddleware" ∷ "icacontroller.NewIBCMiddleware" ∷ [])
  pub ica_host : received "SetRouter" "AddRoute(icahost)" calls ≡ some ("icahost.NewIBCModule" ∷ [])
  pub provider :
      received "SetRouter" "AddRoute(provider)" calls ≡ some ("icsprovider.NewAppModule" ∷ [])
  pub wasm : received "SetRouter" "AddRoute(wasm)" calls ≡ some ("wasm.NewIBCHandler" ∷ [])
  pub sent : ics4_wrapper calls ≡ some (member ibc_keeper "ChannelKeeper")
  pub sent_by : changes transfer_keeper calls ≡ 1

wired-HasRoutes : HasRoutes wired_calls
unfolding new_app_keeper keepers_for outcomes new_available_static_precompiles
wired-HasRoutes = record {
  transfer = refl;
  transfer_v2 = refl;
  ica_controller = refl;
  ica_host = refl;
  provider = refl;
  wasm = refl;
  sent = refl;
  sent_by = refl;
}

-- By the routers that a finished `NewAppKeeper` has given core IBC, a transfer packet of IBC v1
-- passes the rate limit, packet forwarding and the transfer module, with no callbacks; one of IBC v2
-- the rate limit, the callbacks and the transfer module; a packet of an interchain account
-- controller passes the callbacks, and those of an account host, the provider and wasm go straight to
-- their modules. A transfer is sent from the transfer keeper straight to the channel keeper of core
-- IBC: that is its ICS4 wrapper, and nothing changes the keeper after it is built.
pub new_app_keeper-HasRoutes :
    (env : Env) (k : AppKeepers) → new_app_keeper env ≡ some k → HasRoutes k.calls
new_app_keeper-HasRoutes env k h = subst HasRoutes (sym (calls_wired env k h)) wired-HasRoutes
