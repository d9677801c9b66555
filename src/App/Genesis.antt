-- ===== src/App/Genesis.antt =====
-- `InitChainer` of app/app.go: the genesis of the modules, and the override of the fee market's
-- parameters behind it.
use echofi.Prelude.{◌≡◌, refl, sym, ap, ◌∙◌, Bool, true, String, Option, none, some}

-- The parameters of the fee market, with those that are not overridden as `extra`.
pub record FeeMarketParams (Decimal Extra : Type 0) : Type 0 where
  pub base_fee : Decimal
  pub no_base_fee : Bool
  pub min_gas_price : Decimal
  pub extra : Extra

-- The calls of the SDK and the EVM module, on the state of the chain. `none` is an error.
pub record Chain : Type 1 where
  pub S : Type 0
  pub Decimal : Type 0
  pub Extra : Type 0
  pub GenesisState : Type 0
  pub Response : Type 0
  pub legacy_zero_dec : Decimal
  pub legacy_must_new_dec_from_str : String → Option Decimal
  pub unmarshal : String → Option GenesisState
  pub set_module_version_map : S → Option S
  pub init_genesis : GenesisState → S → Option (S × Response)
  pub get_params : S → FeeMarketParams Decimal Extra
  pub set_params : FeeMarketParams Decimal Extra → S → Option S

-- A value that is returned, or a panic. No path of the code returns an error.
pub data Init (A : Type 0) : Type 0 where
  returned : A → Init A
  panicked : Init A

infixl 5 ◌>>=◌
abbrev pub ◌>>=◌ : {A B : Type 0} → Init A → (A → Init B) → Init B
panicked >>= go = panicked
returned v >>= go = go v

abbrev pub or_panic : {A : Type 0} → Option A → Init A
or_panic (some v) = returned v
or_panic none = panicked

abbrev pub min_gas_price_text : String
min_gas_price_text = "0.000000001"

module _ (chain : Chain) where
  open chain use {
    S, Decimal, Extra, GenesisState, Response, legacy_zero_dec, legacy_must_new_dec_from_str,
    unmarshal, set_module_version_map, init_genesis, get_params, set_params,
  }

  unfoldable pub override_params :
      FeeMarketParams Decimal Extra → Decimal → FeeMarketParams Decimal Extra
  override_params params price = record params {
    base_fee = legacy_zero_dec;
    no_base_fee = true;
    min_gas_price = price;
  }

  unfoldable pub init_chainer : String → S → Init (S × Response)
  unfolding override_params
  init_chainer app_state_bytes ctx = do
    genesis_state ← or_panic (unmarshal app_state_bytes)
    ctx1 ← or_panic (set_module_version_map ctx)
    (ctx2, response) ← or_panic (init_genesis genesis_state ctx1)
    price ← or_panic (legacy_must_new_dec_from_str min_gas_price_text)
    ctx3 ← or_panic (set_params (override_params (get_params ctx2) price) ctx2)
    returned (ctx3, response)

  -- What a genesis that succeeds goes through: `s1` is the state that the modules left.
  pub record Succeeds (bytes : String) (s : S) (s' : S) (r : Response) : Type 0 where
    pub genesis : GenesisState
    pub s0 : S
    pub s1 : S
    pub price : Decimal
    pub parsed : unmarshal bytes ≡ some genesis
    pub versions : set_module_version_map s ≡ some s0
    pub modules : init_genesis genesis s0 ≡ some (s1, r)
    pub decimal : legacy_must_new_dec_from_str min_gas_price_text ≡ some price
    pub written : set_params (override_params (get_params s1) price) s1 ≡ some s'

  or_panic-returned :
      {A B : Type 0} (o : Option A) (go : A → Init B) {v : B}
      → (or_panic o >>= go) ≡ returned v
      → (a : A) × (o ≡ some a) × (go a ≡ returned v)
  or_panic-returned none go h = absurd (cc)
  or_panic-returned (some a) go h = (a, refl, h)

  init_chainer-Succeeds :
      (bytes : String) (s s' : S) (r : Response)
      → init_chainer bytes s ≡ returned (s', r)
      → Succeeds bytes s s' r
  unfolding init_chainer
  init_chainer-Succeeds bytes s s' r h =
      let (genesis, h0, k0) = or_panic-returned (unmarshal bytes) _ h in
      let (s0, h1, k1) = or_panic-returned (set_module_version_map s) _ k0 in
      let ((s1, r'), h2, k2) = or_panic-returned (init_genesis genesis s0) _ k1 in
      let (price, h3, k3) =
        or_panic-returned (legacy_must_new_dec_from_str min_gas_price_text) _ k2 in
      let (s2, h4, k4) =
        or_panic-returned (set_params (override_params (get_params s1) price) s1) _ k3 in
      let same_state : s2 ≡ s' = ap last_state k4 in
      let same_response : r' ≡ r = ap (last_response r) k4 in
      record {
        genesis = genesis;
        s0 = s0;
        s1 = s1;
        price = price;
        parsed = h0;
        versions = h1;
        modules = h2 ∙ ap (λ q. some (s1, q)) same_response;
        decimal = h3;
        written = h4 ∙ ap some same_state;
      }
    where
      last_state : Init (S × Response) → S
      last_state (returned (t, q)) = t
      last_state panicked = s

      last_response : Response → Init (S × Response) → Response
      last_response d (returned (t, q)) = q
      last_response d panicked = d

  -- When the init of the chain returns, every step of it succeeded, and the fee market's
  -- parameters that are read afterwards have the base fee zero and turned off and the minimum gas
  -- price 0.000000001, whatever the genesis state says, and are otherwise those of the genesis. The
  -- hypothesis is that parameters that are set are read back.
  pub init_chainer-overrides :
      (read_back : (p : FeeMarketParams Decimal Extra) (s s' : S)
        → set_params p s ≡ some s'
        → get_params s' ≡ p)
      (bytes : String) (s s' : S) (r : Response)
      → init_chainer bytes s ≡ returned (s', r)
      → (run : Succeeds bytes s s' r) × ((get_params s').base_fee ≡ legacy_zero_dec)
        × ((get_params s').no_base_fee ≡ true)
        × (some (get_params s').min_gas_price ≡ legacy_must_new_dec_from_str min_gas_price_text)
        × ((get_params s').extra ≡ (get_params run.s1).extra)
  unfolding override_params
  init_chainer-overrides read_back bytes s s' r h =
      let run = init_chainer-Succeeds bytes s s' r h in
      let set = read_back _ run.s1 s' run.written in
      (
        run,
        ap (λ p. p.base_fee) set,
        ap (λ p. p.no_base_fee) set,
        ap (λ p. some p.min_gas_price) set ∙ sym run.decimal,
        ap (λ p. p.extra) set,
      )
