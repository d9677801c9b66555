-- ===== src/Wiring/Runs.antt =====
-- The runs of `NewAppKeeper` that come to their end: they make the same calls.
use echofi.Prelude.{◌≡◌, refl, sym, ap, ◌∙◌, Bool, true, false, List, [], Option, none, some}
use echofi.Wiring.State.{Call, AppKeepers}
use echofi.Wiring.Precompiles.{Contracts, PrecompileMap, new_available_static_precompiles}
use echofi.Wiring.Env.{Env, is_some, outcomes}
use echofi.Wiring.Build.{keepers_for, new_app_keeper}

abbrev plain_contracts : Contracts
plain_contracts = record {
  Contract = Unit;
  address = λ c. "";
  precompiled_contracts_prague = λ a. none;
  p256_precompile = tt;
  new_bech32 = λ gas. some tt;
  new_bank = some tt;
  new_gov = some tt;
  new_slashing = some tt;
  new_evidence = some tt;
  p256_address = "";
  bech32_address = "";
  bank_address = "";
  gov_address = "";
  slashing_address = "";
  evidence_address = "";
}

abbrev pub all_ok : Env
all_ok = record {
  streaming_services_ok = true;
  new_vm_ok = true;
  wasm_config_ok = true;
  contracts = plain_contracts;
}

abbrev pub calls_of : Option AppKeepers → List Call
calls_of none = []
calls_of (some k) = k.calls

-- The calls of other repositories give no error, and the set-up of the precompiles does not panic.
abbrev pub IsReady : Env → Type 0
IsReady env =
    (env.streaming_services_ok ≡ true)
    × (env.new_vm_ok ≡ true)
    × (env.wasm_config_ok ≡ true)
    × ((m : PrecompileMap env.contracts) × (new_available_static_precompiles env.contracts
          ≡ some m))

returned : {A : Type 0} (o : Option A) → is_some o ≡ true → (a : A) × (o ≡ some a)
returned none h = absurd (cc)
returned (some a) h = (a, refl)

abbrev Verdict : Bool → Bool → Bool → Bool → Type 0
Verdict a b c d =
    (k : AppKeepers)
    → keepers_for (record {
      streaming_services_return = a;
      new_vm_returns = b;
      precompiles_return = c;
      wasm_config_returns = d;
    })
      ≡ some k
    → (a ≡ true) × (b ≡ true) × (c ≡ true) × (d ≡ true)

-- A finished run had all its checks pass.
verdict : (a b c d : Bool) → Verdict a b c d
unfolding keepers_for
verdict false b c d k h = absurd (cc)
verdict true false c d k h = absurd (cc)
verdict true true false d k h = absurd (cc)
verdict true true true false k h = absurd (cc)
verdict true true true true k h = (refl, refl, refl, refl)

pub finished-IsReady : (env : Env) (k : AppKeepers) → new_app_keeper env ≡ some k → IsReady env
unfolding new_app_keeper outcomes
finished-IsReady env k h =
    let (a, b, c, d) =
      verdict env.streaming_services_ok env.new_vm_ok
        (is_some (new_available_static_precompiles env.contracts)) env.wasm_config_ok k h in
    (a, b, d, returned (new_available_static_precompiles env.contracts) c)

pub same_when_ready : (env : Env) → IsReady env → new_app_keeper env ≡ new_app_keeper all_ok
unfolding new_app_keeper outcomes new_available_static_precompiles
same_when_ready env (a, b, d, (m, c)) = ap keepers_for (λ i. record {
  streaming_services_return = a i;
  new_vm_returns = b i;
  precompiles_return = is_some (c i);
  wasm_config_returns = d i;
})

pub all_ok_returns : (k : AppKeepers) × (new_app_keeper all_ok ≡ some k)
unfolding new_app_keeper keepers_for outcomes new_available_static_precompiles
all_ok_returns = (_, refl)

pub all_ok-IsReady : IsReady all_ok
unfolding new_available_static_precompiles
all_ok-IsReady = (refl, refl, refl, (_, refl))

abbrev pub wired_calls : List Call
wired_calls = calls_of (new_app_keeper all_ok)

pub calls_wired : (env : Env) (k : AppKeepers) → new_app_keeper env ≡ some k → k.calls ≡ wired_calls
calls_wired env k h = sym (ap calls_of (sym (same_when_ready env (finished-IsReady env k h)) ∙ h))
