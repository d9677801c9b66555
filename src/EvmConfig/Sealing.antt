-- ===== src/EvmConfig/Sealing.antt =====
-- The configuration is set at most once, for the one known chain, and a failed attempt is final.
use echofi.Prelude.{
  ℕ, ◌≡◌, ◌≢◌, refl, ◌∙◌, true, false, List, [], ◌∷◌, String, Option, none, some, arith,
}
use echofi.EvmConfig.{
  EvmCoinInfo, evm_chain_id, base_coin_unit, human_coin_unit, EvmError, Effect, Globals, and_then,
  EvmState, echo_coin_info, chains_coin_info, set_base_denom, set_up_chain, seal, configure_chain,
  evm_app_options,
}

-- What `sdk.RegisterDenom` and the configurator promise: the unit of a registered denom can be read
-- back, a denom is registered once only, and an attempt that fails changes nothing.
pub record Lawful (s : Globals) : Type 0 where
  pub unit_of : s.G → String → Option ℕ
  pub register_ok :
      (d : String) (u : ℕ) (g : s.G)
      → (s.register_denom d u g).1 ≡ none
      → unit_of (s.register_denom d u g).0 d ≡ some u
  pub register_keeps :
      (d d' : String) (u u' : ℕ) (g : s.G)
      → unit_of g d' ≡ some u'
      → unit_of (s.register_denom d u g).0 d' ≡ some u'
  pub register_twice :
      (d : String) (u u' : ℕ) (g : s.G) → unit_of g d ≡ some u' → (s.register_denom d u g).1 ≢ none
  pub register_fails :
      (d : String) (u : ℕ) (g : s.G)
      → (s.register_denom d u g).1 ≢ none
      → (s.register_denom d u g).0 ≡ g
  pub configure_keeps :
      (c : ℕ) (i : EvmCoinInfo) (g : s.G) (d : String)
      → unit_of (s.configure c i g).0 d ≡ unit_of g d

and_then-none :
    {G : Type 0} (m : G × Option EvmError) (rest : Effect G)
    → (and_then m rest).1 ≡ none
    → (m.1 ≡ none) × (and_then m rest ≡ rest m.0)
unfolding and_then
and_then-none (g, none) rest h = (refl, refl)
and_then-none (g, some e) rest h = absurd (cc)

and_then-some :
    {G : Type 0} (m : G × Option EvmError) (rest : Effect G) → m.1 ≢ none → and_then m rest ≡ m
unfolding and_then
and_then-some (g, none) rest h = absurd (h refl)
and_then-some (g, some e) rest h = refl

and_then-keeps :
    {G : Type 0} (P : G → Type 0) (m : G × Option EvmError) (rest : Effect G)
    → P m.0
    → ((g : G) → P g → P (rest g).0)
    → P (and_then m rest).0
unfolding and_then
and_then-keeps P (g, none) rest h keep = keep g h
and_then-keeps P (g, some e) rest h keep = h

module _ (s : Globals) where
  -- Calls of `EVMAppOptions` one after another, with the errors that they return.
  pub run_all : List ℕ → EvmState s.G → EvmState s.G × List (Option EvmError)
  run_all [] st = (st, [])
  run_all (c ∷ cs) st =
      let (st', e) = evm_app_options s c st in let (st'', es) = run_all cs st' in (st'', e ∷ es)

  abbrev pub AllNil : List (Option EvmError) → Type 0
  AllNil [] = Unit
  AllNil (e ∷ es) = (e ≡ none) × AllNil es

  pub sealed_skips :
      (c : ℕ) (st : EvmState s.G) → st.sealed ≡ true → evm_app_options s c st ≡ (st, none)
  unfolding evm_app_options
  sealed_skips c st h = ground arith

  sealed-run_all :
      (cs : List ℕ) (st : EvmState s.G)
      → st.sealed ≡ true
      → ((run_all cs st).0 ≡ st) × AllNil (run_all cs st).1
  unfolding run_all
  sealed-run_all [] st h = (refl, tt)
  sealed-run_all (c ∷ cs) st h =
      let (same_state, all_nil) = sealed-run_all cs st h in
      rw (sealed_skips c st h) (same_state, (refl, all_nil))

  pub success-sealed :
      (c : ℕ) (st : EvmState s.G)
      → (evm_app_options s c st).1 ≡ none
      → (evm_app_options s c st).0.sealed ≡ true
  unfolding evm_app_options configure_chain seal
  success-sealed c st h = ground arith

  -- Once a call has succeeded the configuration is final: every later call, for whatever chain id,
  -- returns nil and leaves the state as it is.
  pub first_success_final :
      (c : ℕ) (st : EvmState s.G) (cs : List ℕ)
      → (evm_app_options s c st).1 ≡ none
      → let st' = (evm_app_options s c st).0 in
        (st'.sealed ≡ true) × ((run_all cs st').0 ≡ st') × AllNil (run_all cs st').1
  first_success_final c st cs h =
      let sealed = success-sealed c st h in
      let (same_state, all_nil) = sealed-run_all cs (evm_app_options s c st).0 sealed in
      (sealed, same_state, all_nil)

module _ (s : Globals) (law : Lawful s) where
  open law use {
    unit_of, register_ok, register_keeps, register_twice, register_fails, configure_keeps,
  }

  abbrev pub HasUnits : s.G → Type 0
  HasUnits g =
      (unit_of g human_coin_unit ≡ some 0) × (unit_of g base_coin_unit ≡ some s.six_decimals)

  set_base_denom-HasUnits :
      (g : s.G)
      → (set_base_denom s (echo_coin_info s) g).1 ≡ none
      → HasUnits (set_base_denom s (echo_coin_info s) g).0
  unfolding set_base_denom
  set_base_denom-HasUnits g h =
      let g' = s.register_denom human_coin_unit 0 g in
      let (first, e) = and_then-none g' (s.register_denom base_coin_unit s.six_decimals) h in
      let second : (s.register_denom base_coin_unit s.six_decimals g'.0).1 ≡ none = rw e at h in
      rw e (register_keeps _ _ _ _ _ (register_ok _ _ _ first), register_ok _ _ _ second)

  set_up_chain-HasUnits :
      (c : ℕ) (g : s.G)
      → (set_up_chain s c (echo_coin_info s) g).1 ≡ none
      → HasUnits (set_up_chain s c (echo_coin_info s) g).0
  unfolding set_up_chain
  set_up_chain-HasUnits c g h =
      let m = set_base_denom s (echo_coin_info s) g in
      let (base, e) = and_then-none m (s.configure c (echo_coin_info s)) h in
      let (human_unit, base_unit) = set_base_denom-HasUnits g base in
      rw e (configure_keeps _ _ _ _ ∙ human_unit, configure_keeps _ _ _ _ ∙ base_unit)

  -- Where the registry of denominations keeps what is registered, the first successful call is for the chain id 6969, and leaves both denominations registered:
  -- echo as the unit, and uecho at the decimals of the coin.
  pub success-HasUnits :
      (c : ℕ) (st : EvmState s.G)
      → st.sealed ≡ false
      → (evm_app_options s c st).1 ≡ none
      → (c ≡ evm_chain_id) × HasUnits (evm_app_options s c st).0.globals
  unfolding evm_app_options configure_chain seal chains_coin_info
  success-HasUnits c st h e = ground (arith, set_up_chain-HasUnits c st.globals)

  set_base_denom_again :
      (g : s.G) (u : ℕ)
      → unit_of g human_coin_unit ≡ some u
      → ((set_base_denom s (echo_coin_info s) g).1 ≢ none)
        × ((set_base_denom s (echo_coin_info s) g).0 ≡ g)
  unfolding set_base_denom
  set_base_denom_again g u h =
      let refused = register_twice human_coin_unit 0 u g h in
      rw
        (and_then-some (s.register_denom human_coin_unit 0 g)
          (s.register_denom base_coin_unit s.six_decimals) refused)
        (refused, register_fails _ _ _ refused)

  set_up_chain_again :
      (c : ℕ) (g : s.G) (u : ℕ)
      → unit_of g human_coin_unit ≡ some u
      → ((set_up_chain s c (echo_coin_info s) g).1 ≢ none)
        × ((set_up_chain s c (echo_coin_info s) g).0 ≡ g)
  unfolding set_up_chain
  set_up_chain_again c g u h =
      let (refused, same_globals) = set_base_denom_again g u h in
      rw
        (and_then-some (set_base_denom s (echo_coin_info s) g) (s.configure c (echo_coin_info s))
          refused)
        (refused, same_globals)

  -- The call fails, and leaves the state as it is.
  abbrev pub FailsFrom : EvmState s.G → ℕ → Type 0
  FailsFrom st c = ((evm_app_options s c st).1 ≢ none) × ((evm_app_options s c st).0 ≡ st)

  registered-FailsFrom :
      (c : ℕ) (st : EvmState s.G) (u : ℕ)
      → st.sealed ≡ false
      → unit_of st.globals human_coin_unit ≡ some u
      → FailsFrom st c
  unfolding evm_app_options configure_chain seal chains_coin_info
  registered-FailsFrom c st u h r = ground (arith, set_up_chain_again c st.globals u r)

  set_up_chain_registers :
      (c : ℕ) (g : s.G)
      → (s.register_denom human_coin_unit 0 g).1 ≡ none
      → unit_of (set_up_chain s c (echo_coin_info s) g).0 human_coin_unit ≡ some 0
  unfolding set_up_chain set_base_denom
  set_up_chain_registers c g h =
      let registered = λ (g' : s.G). unit_of g' human_coin_unit ≡ some 0 in
      let configured = s.configure c (echo_coin_info s) in
      let second = s.register_denom base_coin_unit s.six_decimals in
      and_then-keeps registered (set_base_denom s (echo_coin_info s) g) configured
        (and_then-keeps registered (s.register_denom human_coin_unit 0 g) second
          (register_ok human_coin_unit 0 g h)
          (λ g' r. register_keeps base_coin_unit human_coin_unit s.six_decimals 0 g' r))
        (λ g' r. configure_keeps c (echo_coin_info s) g' human_coin_unit ∙ r)

  failure_registered :
      (st : EvmState s.G)
      → st.sealed ≡ false
      → (s.register_denom human_coin_unit 0 st.globals).1 ≡ none
      → (evm_app_options s evm_chain_id st).1 ≢ none
      → let st' = (evm_app_options s evm_chain_id st).0 in
        (st'.sealed ≡ false) × (unit_of st'.globals human_coin_unit ≡ some 0)
  unfolding evm_app_options configure_chain seal chains_coin_info
  failure_registered st h r e = ground (arith, set_up_chain_registers evm_chain_id st.globals r)

  -- Where the registry refuses a denomination that it has, an attempt that fails after the display denom was registered cannot be repeated: from the state
  -- that it leaves, a call for any chain id fails and leaves the state as it is.
  pub failure_final :
      (st : EvmState s.G) (c : ℕ)
      → st.sealed ≡ false
      → (s.register_denom human_coin_unit 0 st.globals).1 ≡ none
      → (evm_app_options s evm_chain_id st).1 ≢ none
      → FailsFrom (evm_app_options s evm_chain_id st).0 c
  failure_final st c h r e =
      let (open_still, registered) = failure_registered st h r e in
      registered-FailsFrom c (evm_app_options s evm_chain_id st).0 0 open_still registered
