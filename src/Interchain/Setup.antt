-- ===== src/Interchain/Setup.antt =====
-- interchaintest/setup.go: the configurations of the chains, and the chains that are made of them.
-- What the chain factory makes of a specification is a parameter.
use Prim.Native.String.{◌++◌ as str_append}
use echofi.Prelude.{
  ℕ, ◌≡◌, refl, Bool, false, List, [], ◌∷◌, String, Option, none, some, if◌then◌else◌,
}
use echofi.Interchain.Image.{Bytes, get_docker_image_info, IsTag, replace_slashes-IsTag}

pub record DockerImage : Type 0 where
  pub repository : String
  pub version : Bytes
  pub uid_gid : String

pub echofi_image : Option Bytes → DockerImage
echofi_image branch_ci = record {
  repository = (get_docker_image_info branch_ci).0;
  version = (get_docker_image_info branch_ci).1;
  uid_gid = "1025:1025";
}

pub record GenesisKv : Type 0 where
  pub key : String
  pub value : String

abbrev pub denom : String
denom = "uecho"

pub default_genesis_kv : List GenesisKv
default_genesis_kv =
    record { key = "app_state.gov.params.voting_period"; value = "10s" }
    ∷ record { key = "app_state.gov.params.max_deposit_period"; value = "10s" }
    ∷ record { key = "app_state.gov.params.min_deposit.0.denom"; value = denom }
    ∷ []

-- `ibc.ChainConfig`, with the fields that are set. The gas adjustment is in tenths, and
-- `ModifyGenesis` is its list of keys and values.
pub record ChainConfig (EncodingConfig : Type 0) : Type 0 where
  pub chain_type : String
  pub name : String
  pub chain_id : String
  pub images : List DockerImage
  pub bin : String
  pub bech32_prefix : String
  pub denom : String
  pub coin_type : String
  pub gas_prices : String
  pub gas_adjustment : ℕ
  pub trusting_period : String
  pub no_host_mount : Bool
  pub encoding_config : EncodingConfig
  pub modify_genesis : List GenesisKv

pub record ChainSpec (EncodingConfig : Type 0) : Type 0 where
  pub name : String
  pub chain_name : String
  pub version : Bytes
  pub chain_config : ChainConfig EncodingConfig
  pub num_validators : ℕ
  pub num_full_nodes : ℕ

module _ {E : Type 0} where
  pub echofi_config : Option Bytes → E → ChainConfig E
  unfolding default_genesis_kv echofi_image
  echofi_config branch_ci encoding = record {
    chain_type = "cosmos";
    name = "echofi";
    chain_id = "echofi-2";
    images = echofi_image branch_ci ∷ [];
    bin = "echofid";
    bech32_prefix = "echofi";
    denom = denom;
    coin_type = "118";
    gas_prices = str_append "0" denom;
    gas_adjustment = 20;
    trusting_period = "112h";
    no_host_mount = false;
    encoding_config = encoding;
    modify_genesis = default_genesis_kv;
  }

  pub ibc_config : Option Bytes → E → ChainConfig E
  unfolding default_genesis_kv echofi_image
  ibc_config branch_ci encoding = record {
    chain_type = "cosmos";
    name = "ibc-chain";
    chain_id = "ibc-1";
    images = echofi_image branch_ci ∷ [];
    bin = "echofid";
    bech32_prefix = "echofi";
    denom = "uecho";
    coin_type = "118";
    gas_prices = str_append "0" denom;
    gas_adjustment = 20;
    trusting_period = "112h";
    no_host_mount = false;
    encoding_config = encoding;
    modify_genesis = default_genesis_kv;
  }

-- How a helper ends: with a value, with the test stopped by `require`, or in a panic.
pub data Outcome (A : Type 0) : Type 0 where
  made : A → Outcome A
  stopped panicked : Outcome A

-- The chain factory and the network of interchaintest: `none` is an error of `Chains`, a panic of
-- `AddChain`, and `build` says whether the network comes up.
pub record Factory (E : Type 0) : Type 1 where
  pub Chain : Type 0
  pub Network : Type 0
  pub chains : List (ChainSpec E) → Option (List Chain)
  pub new_interchain : Network
  pub add_chain : Network → Chain → Option Network
  pub build : Network → Bool

module _ {E : Type 0} (f : Factory E) where
  abbrev pub no_error : {A : Type 0} → Option A → Outcome A
  no_error none = stopped
  no_error (some a) = made a

  abbrev pub with_image : ℕ → ℕ → ChainConfig E → List DockerImage → Outcome (List f.Chain)
  with_image num_vals num_full config [] = panicked
  with_image num_vals num_full config (image ∷ _) = no_error (
      f.chains (
        record {
          name = "echofi";
          chain_name = "echofi";
          version = image.version;
          chain_config = config;
          num_validators = num_vals;
          num_full_nodes = num_full;
        }
        ∷ []))

  -- `config.Images[0]` panics where there is no image.
  pub create_chain_with_custom_config : ℕ → ℕ → ChainConfig E → Outcome (List f.Chain)
  create_chain_with_custom_config num_vals num_full config =
      with_image num_vals num_full config config.images

  pub create_chain : ChainConfig E → ℕ → ℕ → DockerImage → Outcome (List f.Chain)
  unfolding create_chain_with_custom_config
  create_chain cfg num_vals num_full img =
      create_chain_with_custom_config num_vals num_full (record cfg { images = img ∷ [] })

  unfoldable pub create_this_branch_chain : Option Bytes → E → ℕ → ℕ → Outcome (List f.Chain)
  unfolding create_chain
  create_this_branch_chain branch_ci encoding num_vals num_full =
      create_chain (echofi_config branch_ci encoding) num_vals num_full (echofi_image branch_ci)

  -- The loop over the chains.
  pub add_chains : List f.Chain → f.Network → Option f.Network
  add_chains [] ic = some ic
  add_chains (chain ∷ chains) ic = elim (f.add_chain ic chain) [
    | none ↦ none
    | some ic' ↦ add_chains chains ic'
  ]

  pub built : Option f.Network → Outcome f.Network
  built none = panicked
  built (some ic) = if f.build ic then made ic else stopped

  unfoldable pub build_initial_chain : List f.Chain → Outcome f.Network
  unfolding add_chains built
  build_initial_chain chains = built (add_chains chains f.new_interchain)

-- `TestBasicEchofiStart` of interchaintest/chain_start_test.go: a network, unless the tests are the
-- short ones.
module _ {E : Type 0} (f : Factory E) where
  abbrev pub some_network : Outcome f.Network → Outcome (Option f.Network)
  some_network (made ic) = made (some ic)
  some_network stopped = stopped
  some_network panicked = panicked

  pub start_network : Outcome (List f.Chain) → Outcome (Option f.Network)
  start_network stopped = stopped
  start_network panicked = panicked
  start_network (made chains) = some_network (build_initial_chain f chains)

  unfoldable pub test_basic_echofi_start : Bool → Option Bytes → E → Outcome (Option f.Network)
  unfolding start_network
  test_basic_echofi_start short branch_ci encoding =
      if short then made none else start_network (create_this_branch_chain f branch_ci encoding 1 0)

  network_started :
      (o : Outcome f.Network) (ic : f.Network) → some_network o ≡ made (some ic) → o ≡ made ic
  network_started (made ic') ic h = cc
  network_started stopped ic h = absurd (cc)
  network_started panicked ic h = absurd (cc)

  -- Where the test starts a network, it is that of the chains of this branch, which have been made.
  pub start_network-Starts :
      (o : Outcome (List f.Chain)) (ic : f.Network)
      → start_network o ≡ made (some ic)
      → (chains : List f.Chain) × (o ≡ made chains) × (build_initial_chain f chains ≡ made ic)
  unfolding start_network
  start_network-Starts stopped ic h = absurd (cc)
  start_network-Starts panicked ic h = absurd (cc)
  start_network-Starts (made chains) ic h = (chains, refl, network_started _ ic h)

-- Where the variable BRANCH_CI is set, the chain of this branch is one of a specification with the
-- configuration of the package and the wanted numbers of nodes, and the version of its image is
-- the branch, of the same length and with no slash left, unchanged if it had none.
pub create_this_branch_chain-IsTag :
    {E : Type 0} (f : Factory E) (branch : Bytes) (encoding : E) (num_vals num_full : ℕ)
    → (spec : ChainSpec E) × (create_this_branch_chain f (some branch) encoding num_vals num_full
        ≡ no_error f (f.chains (spec ∷ [])))
      × IsTag branch spec.version
      × (spec.chain_config ≡ echofi_config (some branch) encoding)
      × (spec.num_validators ≡ num_vals)
      × (spec.num_full_nodes ≡ num_full)
unfolding create_this_branch_chain create_chain_with_custom_config echofi_image echofi_config
    get_docker_image_info
create_this_branch_chain-IsTag f branch encoding num_vals num_full =
    (_, refl, replace_slashes-IsTag branch, refl, refl, refl)
