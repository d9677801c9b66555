-- ===== src/Modules/Constructors/Built.antt =====
-- The modules are made of keepers that have been built.
use echofi.Prelude.{◌≡◌, refl, sym, subst, ◌∙◌, ◌++◌, List, [], ◌∷◌, some}
use echofi.Packages.{Package, authtypes, minttypes}
use echofi.Wiring.State.{Value, nil_value, AppKeepers, get_subspace, eval_all}
use echofi.Wiring.Env.{Env, outcomes}
use echofi.Wiring.Precompiles.{new_available_static_precompiles}
use echofi.Wiring.Build.{keepers_for, new_app_keeper}
use echofi.Wiring.Runs.{IsReady, same_when_ready, all_ok}
use echofi.Wiring.Laws.{missing}
use echofi.Modules.{app_modules, simulation_modules}
use echofi.Modules.Constructors.{
  ModuleExpr, app_module_exprs, simulation_module_exprs, make_modules,
}

abbrev with_missing : Package → List Value → List (Package × List Value)
with_missing p [] = []
with_missing p (v ∷ vs) = (p, v ∷ vs) ∷ []

-- The modules with arguments that are nil, or a keeper, a pointer to a keeper or a member of a keeper
-- that is not built, with these arguments.
abbrev pub incomplete : List (Package × List Value) → List (Package × List Value)
incomplete [] = []
incomplete ((p, args) ∷ ms) = with_missing p (missing args) ++ incomplete ms

abbrev pub nil_for : List Package → List (Package × List Value)
nil_for [] = []
nil_for (p ∷ ps) = (p, nil_value ∷ []) ∷ nil_for ps

abbrev pub names : List (Package × List Value) → List Package
names [] = []
names ((p, args) ∷ ms) = p ∷ names ms

-- The modules come out of the expressions, under these names, and those of `nils` have an argument
-- that is nil, and no other that is not built.
pub record IsMadeFrom (k : AppKeepers) (exprs : List ModuleExpr) (wanted nils : List Package)
    : Type 0 where
  pub modules : List (Package × List Value)
  pub made : make_modules exprs k ≡ some modules
  pub same_names : names modules ≡ wanted
  pub nil_arguments : incomplete modules ≡ nil_for nils

abbrev pub IsMade : AppKeepers → Type 0
IsMade k =
    IsMadeFrom k app_module_exprs app_modules (authtypes ∷ minttypes ∷ [])
    × IsMadeFrom k simulation_module_exprs simulation_modules (minttypes ∷ [])

wired-IsMade : (k : AppKeepers) × (new_app_keeper all_ok ≡ some k) × IsMade k
unfolding new_app_keeper keepers_for outcomes new_available_static_precompiles make_modules
    app_module_exprs simulation_module_exprs eval_all get_subspace app_modules simulation_modules
wired-IsMade = (
  _,
  refl,
  (
    record { modules = _; made = refl; same_names = refl; nil_arguments = refl },
    record { modules = _; made = refl; same_names = refl; nil_arguments = refl },
  ),
)

some_inj : {A : Type 0} {a b : A} → some a ≡ some b → a ≡ b
some_inj h = cc (h)

-- On the keepers that a finished `NewAppKeeper` leaves, all modules of the manager and of the
-- simulation are made without a panic: no subspace that they ask for is missing. Every keeper that
-- a module is given, by itself, by a pointer or by a member, has been built, and the modules with a
-- nil argument are those of auth and mint in the manager, and that of mint in the simulation.
pub make_modules-IsMade :
    (env : Env) (k : AppKeepers) → IsReady env → new_app_keeper env ≡ some k → IsMade k
make_modules-IsMade env k ready run =
    let (k', run', made) = wired-IsMade in
    subst IsMade (some_inj (sym run' ∙ sym (same_when_ready env ready) ∙ run)) made
