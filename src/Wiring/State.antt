-- ===== src/Wiring/State.antt =====
-- The state of `NewAppKeeper` in app/keepers/keeper.go: which variable holds what, and the calls
-- that gave it its values. The constructors are of other repositories: a call is kept as its name
-- and the values of its arguments.
use echofi.Prelude.{
  ℕ, ◌+◌, Bool, true, false, List, [], ◌∷◌, String, Option, none, some, if◌then◌else◌, ◌==◌,
}
use echofi.Packages.{Package, contains}

-- The fields of `AppKeepers` that `NewAppKeeper` sets, and its local variables.
pub data Var : Type 0 where
  account_keeper bank_keeper staking_keeper slashing_keeper mint_keeper distr_keeper : Var
  gov_keeper upgrade_keeper params_keeper wasm_keeper ibc_keeper wasm_client_keeper : Var
  ica_host_keeper ica_controller_keeper evidence_keeper transfer_keeper fee_grant_keeper : Var
  authz_keeper consensus_params_keeper provider_keeper evm_keeper feemarket_keeper : Var
  erc20_keeper evm_transfer_keeper precise_bank_keeper pfm_router_keeper : Var
  ratelimit_keeper ica_module transfer_module pfm_router_module rate_limit_module : Var
  provider_module : Var
  transfer_stack transfer_stack_v2 ica_host_stack ica_controller_stack wasm_stack : Var
  wasm_stack_ibc_handler ibc_router ibcv2_router gov_router base_app : Var

abbrev pub var_tag : Var → ℕ
var_tag account_keeper = 0
var_tag bank_keeper = 1
var_tag staking_keeper = 2
var_tag slashing_keeper = 3
var_tag mint_keeper = 4
var_tag distr_keeper = 5
var_tag gov_keeper = 6
var_tag upgrade_keeper = 7
var_tag params_keeper = 8
var_tag wasm_keeper = 9
var_tag ibc_keeper = 10
var_tag wasm_client_keeper = 11
var_tag ica_host_keeper = 12
var_tag ica_controller_keeper = 13
var_tag evidence_keeper = 14
var_tag transfer_keeper = 15
var_tag fee_grant_keeper = 16
var_tag authz_keeper = 17
var_tag consensus_params_keeper = 18
var_tag provider_keeper = 19
var_tag evm_keeper = 20
var_tag feemarket_keeper = 21
var_tag erc20_keeper = 22
var_tag evm_transfer_keeper = 23
var_tag precise_bank_keeper = 24
var_tag pfm_router_keeper = 25
var_tag ratelimit_keeper = 26
var_tag ica_module = 27
var_tag transfer_module = 28
var_tag pfm_router_module = 29
var_tag rate_limit_module = 30
var_tag provider_module = 31
var_tag transfer_stack = 32
var_tag transfer_stack_v2 = 33
var_tag ica_host_stack = 34
var_tag ica_controller_stack = 35
var_tag wasm_stack = 36
var_tag wasm_stack_ibc_handler = 37
var_tag ibc_router = 38
var_tag ibcv2_router = 39
var_tag gov_router = 40
var_tag base_app = 41

abbrev pub same_var : Var → Var → Bool
same_var v w = var_tag v == var_tag w

-- The fields of `AppKeepers` that are pointers.
abbrev pub is_pointer : Var → Bool
is_pointer staking_keeper = true
is_pointer gov_keeper = true
is_pointer upgrade_keeper = true
is_pointer ibc_keeper = true
is_pointer evm_keeper = true
is_pointer pfm_router_keeper = true
is_pointer _ = false

-- `at v n` is a copy of what `v` held after its `n`-th change, `zero v` a copy from before the
-- first one, and `ref v` a pointer, which sees later changes too. `early_ref` and `early_member` are
-- a pointer to a variable and a member of one before its first change. `other` is any value that is
-- built from no keeper, by its expression.
pub data Value : Type 0 where
  nil_value : Value
  zero : Var → Value
  at : Var → ℕ → Value
  ref : Var → Value
  early_ref : Var → Value
  member : Var → String → Value
  early_member : Var → String → Value
  kv_key : Package → Value
  kv_store_service : Package → Value
  transient_key : Package → Value
  subspace : Package → Value
  other : String → Value

-- One change of a variable, with the arguments of the call.
pub record Call : Type 0 where
  pub target : Var
  pub function : String
  pub arguments : List Value

-- `calls` has the last call first. The maps of keys are their domains.
pub record AppKeepers : Type 0 where
  pub keys : List Package
  pub tkeys : List Package
  pub mem_keys : List Package
  pub subspaces : List Package
  pub calls : List Call

abbrev pub changes : Var → List Call → ℕ
changes v [] = 0
changes v (c ∷ cs) = (if same_var c.target v then 1 else 0) + changes v cs

infixl 5 ◌>>=◌
abbrev pub ◌>>=◌ : {A B : Type 0} → Option A → (A → Option B) → Option B
none >>= go = none
some v >>= go = go v

-- An expression of the code. `none` is a panic.
abbrev pub Expr : Type 0
Expr = AppKeepers → Option Value

abbrev pub copied : Var → ℕ → Value
copied v n = if n == 0 then zero v else at v n

-- Reading a variable: a nil pointer, a pointer, or a copy.
abbrev pub field : Var → Expr
field v k =
    if is_pointer v
    then (if changes v k.calls == 0 then some nil_value else some (ref v))
    else some (copied v (changes v k.calls))

-- `&v`
abbrev pub addr : Var → Expr
addr v k = if changes v k.calls == 0 then some (early_ref v) else some (ref v)

-- `*v`
abbrev pub deref : Var → Expr
deref v k = if changes v k.calls == 0 then none else some (at v (changes v k.calls))

-- `v.name` or `v.name()`, which panics for a nil pointer.
abbrev pub sel : Var → String → Expr
sel v name k =
    if changes v k.calls == 0
    then (if is_pointer v then none else some (early_member v name))
    else some (member v name)

-- `keys[p]`, which is nil for a missing key.
abbrev pub kv : Package → Expr
kv p k = if contains p k.keys then some (kv_key p) else some nil_value

abbrev pub tkv : Package → Expr
tkv p k = if contains p k.tkeys then some (transient_key p) else some nil_value

-- `runtime.NewKVStoreService(keys[p])`
abbrev pub service : Package → Expr
service p k = if contains p k.keys then some (kv_store_service p) else some nil_value

abbrev pub lit : String → Expr
lit s k = some (other s)

-- The zero value of the type of `v`, as `govkeeper.Keeper{}`.
abbrev pub zero_of : Var → Expr
zero_of v k = some (zero v)

abbrev pub nil : Expr
nil k = some nil_value

-- `GetSubspace`: a panic for a module without one.
unfoldable pub get_subspace : Package → Expr
get_subspace p k = if contains p k.subspaces then some (subspace p) else none

unfoldable pub eval_all : List Expr → AppKeepers → Option (List Value)
eval_all [] k = some []
eval_all (e ∷ es) k = do v ← e k; vs ← eval_all es k; some (v ∷ vs)

abbrev pub Step : Type 0
Step = AppKeepers → Option AppKeepers

-- `v = function(args)`
unfoldable pub set : Var → String → List Expr → Step
unfolding eval_all
set v f args k = do
  vs ← eval_all args k
  some (record k { calls = record { target = v; function = f; arguments = vs } ∷ k.calls })

-- `v.function(args)`, a method that changes `v`; it panics for a nil pointer.
unfoldable pub method : Var → String → List Expr → Step
unfolding set
method v f args k =
    if is_pointer v
    then (if changes v k.calls == 0 then none else set v f args k)
    else set v f args k

-- One statement after the other.
unfoldable pub steps : List Step → Step
steps [] k = some k
steps (s ∷ ss) k = do k' ← s k; steps ss k'

-- `if err != nil { panic(err) }` for an error of a call of another repository.
abbrev pub check : Bool → Step
check ok k = if ok then some k else none
