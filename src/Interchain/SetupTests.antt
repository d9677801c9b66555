-- ===== src/Interchain/SetupTests.antt =====
-- A chain factory that takes every specification, and the codecs of the chains.
use echofi.Wiring.Runs.{all_ok-IsReady}
use echofi.Prelude.{ℕ, ◌≡◌, refl, true, false, List, [], ◌∷◌, String, some}
use echofi.EvmConfig.{evm_app_options, evm_chain_id}
use echofi.EvmConfig.Tests.{globals, fresh, fresh_succeeds}
use echofi.Startup.Tests.{world}
use echofi.Interchain.Encoding.{
  EncodingConfig, Codecs, package_encodings, IsEncoding, package_encodings-IsEncoding,
}
use echofi.Interchain.Image.{IsTag}
use echofi.Interchain.Setup.{
  ChainSpec, Factory, create_this_branch_chain, no_error, echofi_config,
  create_this_branch_chain-IsTag,
}

abbrev factory : Factory ℕ
factory = record {
  Chain = ChainSpec ℕ;
  Network = List (ChainSpec ℕ);
  chains = λ specs. some specs;
  new_interchain = [];
  add_chain = λ ic c. some (c ∷ ic);
  build = λ ic. true;
}

create_this_branch_chain-IsTag_example :
    (spec : ChainSpec ℕ) × (create_this_branch_chain factory (some (b'a' ∷ b'/' ∷ b'b' ∷ [])) 0 1 0
      ≡ no_error factory (factory.chains (spec ∷ [])))
    × IsTag (b'a' ∷ b'/' ∷ b'b' ∷ []) spec.version
    × (spec.chain_config ≡ echofi_config (some (b'a' ∷ b'/' ∷ b'b' ∷ [])) 0)
    × (spec.num_validators ≡ 1)
    × (spec.num_full_nodes ≡ 0)
create_this_branch_chain-IsTag_example =
    create_this_branch_chain-IsTag factory (b'a' ∷ b'/' ∷ b'b' ∷ []) 0 1 0

abbrev codecs : Codecs
codecs = record {
  T = String;
  make_config = λ chain_id. record {
    interface_registry = "";
    codec = "";
    tx_config = "";
    amino = "";
    rest = "rest";
  };
  interface_registry = λ a. "registry";
  legacy_amino = λ a. "amino";
  app_codec = λ a. "codec";
  get_tx_config = λ a. "tx";
}

package_encodings-IsEncoding_example :
    (e1 : EncodingConfig String) × (e2 : EncodingConfig String) × (package_encodings codecs world
        (globals false)
        fresh
      ≡ some (e1, e2, (evm_app_options (globals false) evm_chain_id fresh).0))
    × IsEncoding codecs world (globals false) e1
    × IsEncoding codecs world (globals false) e2
package_encodings-IsEncoding_example =
    package_encodings-IsEncoding codecs world (globals false) fresh (λ x. refl) fresh_succeeds
      all_ok-IsReady
