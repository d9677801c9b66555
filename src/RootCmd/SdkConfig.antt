-- ===== src/RootCmd/SdkConfig.antt =====
-- The configuration of the SDK, which is one for the process: `init` of app/app.go and of
-- interchaintest/setup.go, and what `NewRootCmd` of cmd/echofid/cmd/cmd.go makes of it.
use Prim.Native.String.{◌++◌ as str_append}
use echofi.Prelude.{ℕ, ◌≡◌, refl, ap, Bool, true, false, String, Option, none, some, ◌∙◌}
use echofi.Startup.{◌>>=◌}

-- `sdk.Config`. A setter panics, which is `none`, once the configuration is sealed.
pub record SdkApi : Type 1 where
  pub Config : Type 0
  pub is_sealed : Config → Bool
  pub account_prefix : Config → String
  pub validator_prefix : Config → String
  pub consensus_prefix : Config → String
  pub set_bech32_prefix_for_account : String → String → Config → Option Config
  pub set_bech32_prefix_for_validator : String → String → Config → Option Config
  pub set_bech32_prefix_for_consensus_node : String → String → Config → Option Config
  pub set_coin_type : ℕ → Config → Option Config
  pub set_purpose : ℕ → Config → Option Config
  pub seal : Config → Config
  pub bip44_coin_type : ℕ
  pub purpose : ℕ

abbrev pub account_address_prefix : String
account_address_prefix = "echofi"

module _ (s : SdkApi) where
  abbrev pub prefixed : String → String
  prefixed suffix = str_append account_address_prefix suffix

  -- The last part of `init` of app/app.go.
  unfoldable pub init_config : s.Config → Option s.Config
  init_config c = do
    c1 ← s.set_bech32_prefix_for_account account_address_prefix (prefixed "pub") c
    c2 ← s.set_bech32_prefix_for_validator (prefixed "valoper") (prefixed "valoperpub") c1
    s.set_bech32_prefix_for_consensus_node (prefixed "valcons") (prefixed "valconspub") c2

  -- `init` of interchaintest/setup.go.
  unfoldable pub init_interchaintest : s.Config → Option s.Config
  init_interchaintest c = do
    c1 ← s.set_bech32_prefix_for_account account_address_prefix (prefixed "pub") c
    c2 ← s.set_bech32_prefix_for_validator (prefixed "valoper") (prefixed "valoperpub") c1
    c3 ← s.set_bech32_prefix_for_consensus_node (prefixed "valcons") (prefixed "valconspub") c2
    s.set_coin_type 118 c3

  -- The calls of `NewRootCmd`.
  unfoldable pub seal_config : s.Config → Option s.Config
  seal_config c = do
    c1 ← s.set_coin_type s.bip44_coin_type c
    c2 ← s.set_purpose s.purpose c1
    some (s.seal c2)

-- The three prefixes that the address codecs take from the configuration.
pub record Prefixes : Type 0 where
  pub account : String
  pub validator : String
  pub consensus : String

abbrev pub prefixes : (s : SdkApi) → s.Config → Prefixes
prefixes s c = record {
  account = s.account_prefix c;
  validator = s.validator_prefix c;
  consensus = s.consensus_prefix c;
}

-- A call on an open configuration comes back, and leaves an open one with these prefixes.
abbrev pub Gives : (s : SdkApi) → Option s.Config → Prefixes → Type 0
Gives s r p = (c : s.Config) × (r ≡ some c) × (s.is_sealed c ≡ false) × (prefixes s c ≡ p)

-- What the SDK documents of its configuration.
pub record IsSdkApi (s : SdkApi) : Type 0 where
  pub account_set :
      (a b : String) (c : s.Config)
      → s.is_sealed c ≡ false
      → Gives s (s.set_bech32_prefix_for_account a b c) (record (prefixes s c) { account = a })
  pub validator_set :
      (a b : String) (c : s.Config)
      → s.is_sealed c ≡ false
      → Gives s (s.set_bech32_prefix_for_validator a b c) (record (prefixes s c) { validator = a })
  pub consensus_set :
      (a b : String) (c : s.Config)
      → s.is_sealed c ≡ false
      → Gives s
          (s.set_bech32_prefix_for_consensus_node a b c)
          (record (prefixes s c) { consensus = a })
  pub coin_type_set :
      (n : ℕ) (c : s.Config) → s.is_sealed c ≡ false → Gives s (s.set_coin_type n c) (prefixes s c)
  pub purpose_set :
      (n : ℕ) (c : s.Config) → s.is_sealed c ≡ false → Gives s (s.set_purpose n c) (prefixes s c)
  pub seal_seals :
      (c : s.Config) → (s.is_sealed (s.seal c) ≡ true) × (prefixes s (s.seal c) ≡ prefixes s c)
  pub sealed_coin_type : (n : ℕ) (c : s.Config) → s.is_sealed c ≡ true → s.set_coin_type n c ≡ none

abbrev pub echofi_prefixes : Prefixes
echofi_prefixes = record {
  account = "echofi";
  validator = "echofivaloper";
  consensus = "echofivalcons";
}

module _ (s : SdkApi) (laws : IsSdkApi s) where
  -- The three calls of both `init` functions, on an open configuration.
  record PrefixesSet (c : s.Config) : Type 0 where
    c1 : s.Config
    c2 : s.Config
    c3 : s.Config
    r1 : s.set_bech32_prefix_for_account "echofi" "echofipub" c ≡ some c1
    r2 : s.set_bech32_prefix_for_validator "echofivaloper" "echofivaloperpub" c1 ≡ some c2
    r3 : s.set_bech32_prefix_for_consensus_node "echofivalcons" "echofivalconspub" c2 ≡ some c3
    open3 : s.is_sealed c3 ≡ false
    p3 : prefixes s c3 ≡ echofi_prefixes

  prefixes_set : (c : s.Config) → s.is_sealed c ≡ false → PrefixesSet c
  prefixes_set c open_c =
      let (c1, r1, open1, p1) = laws.account_set "echofi" "echofipub" c open_c in
      let (c2, r2, open2, p2) = laws.validator_set "echofivaloper" "echofivaloperpub" c1 open1 in
      let (c3, r3, open3, p3) = laws.consensus_set "echofivalcons" "echofivalconspub" c2 open2 in
      record {
        c1 = c1;
        c2 = c2;
        c3 = c3;
        r1 = r1;
        r2 = r2;
        r3 = r3;
        open3 = open3;
        p3 =
            p3
            ∙ ap (λ (p : Prefixes). record p { consensus = "echofivalcons" })
                (p2 ∙ ap (λ (p : Prefixes). record p { validator = "echofivaloper" }) p1);
      }

  pub init_config-Gives :
      (c : s.Config) → s.is_sealed c ≡ false → Gives s (init_config s c) echofi_prefixes
  unfolding init_config
  init_config-Gives c open_c =
      let set = prefixes_set c open_c in (set.c3, rw (set.r1, set.r2) set.r3, set.open3, set.p3)

  pub init_interchaintest-Gives :
      (c : s.Config) → s.is_sealed c ≡ false → Gives s (init_interchaintest s c) echofi_prefixes
  unfolding init_interchaintest
  init_interchaintest-Gives c open_c =
      let set = prefixes_set c open_c in
      let (c4, r4, open4, p4) = laws.coin_type_set 118 set.c3 set.open3 in
      (c4, rw (set.r1, set.r2, set.r3) r4, open4, p4 ∙ set.p3)

  pub seal_config-seals :
      (c : s.Config)
      → s.is_sealed c ≡ false
      → (c' : s.Config) × (seal_config s c ≡ some c')
        × (s.is_sealed c' ≡ true)
        × (prefixes s c' ≡ prefixes s c)
  unfolding seal_config
  seal_config-seals c open_c =
      let (c1, r1, open1, p1) = laws.coin_type_set s.bip44_coin_type c open_c in
      let (c2, r2, open2, p2) = laws.purpose_set s.purpose c1 open1 in
      let (sealed, p3) = laws.seal_seals c2 in (s.seal c2, rw (r1, r2) refl, sealed, p3 ∙ p2 ∙ p1)
