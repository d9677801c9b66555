-- ===== src/Interchain/Encoding.antt =====
-- `echoEncoding` of interchaintest/setup.go and `MakeEncodingConfig` of app/encoding.go: the codecs
-- of the chains, which come from an application that is built for them.
use echofi.Prelude.{ℕ, ◌≡◌, refl, ap, true, Option, none, some}
use echofi.EvmConfig.{EvmError, Globals, EvmState, evm_chain_id, evm_app_options}
use echofi.EvmConfig.Sealing.{success-sealed, sealed_skips}
use echofi.Wiring.Runs.{IsReady}
use echofi.Startup.{World, App, new_echofi_app, ◌>>=◌}
use echofi.Startup.Sealed.{AllSucceed, IsStarted, new_echofi_app-IsStarted}

pub record EncodingConfig (T : Type 0) : Type 0 where
  pub interface_registry : T
  pub codec : T
  pub tx_config : T
  pub amino : T
  pub rest : T

-- `evmencoding.MakeConfig`, and the codecs of an application.
pub record Codecs : Type 1 where
  pub T : Type 0
  pub make_config : ℕ → EncodingConfig T
  pub interface_registry : App → T
  pub legacy_amino : App → T
  pub app_codec : App → T
  pub get_tx_config : App → T

module _ (cs : Codecs) (w : World) (s : Globals) where
  pub make_encoding_config : ℕ → EncodingConfig cs.T
  make_encoding_config evm_chain_id = cs.make_config evm_chain_id

  pub of_application : App → EncodingConfig cs.T
  unfolding make_encoding_config
  of_application temp_application = record (make_encoding_config evm_chain_id) {
    interface_registry = cs.interface_registry temp_application;
    amino = cs.legacy_amino temp_application;
    codec = cs.app_codec temp_application;
    tx_config = cs.get_tx_config temp_application;
  }

  -- `none` is a panic of `NewEchofiApp`.
  unfoldable pub echo_encoding : EvmState s.G → Option (EncodingConfig cs.T × EvmState s.G)
  unfolding of_application
  echo_encoding evm = do
    started ← new_echofi_app w s true evm_chain_id 0 evm
    some (of_application started.0, started.1)

  -- The package's variables `echofiConfig` and `ibcConfig`, one after the other.
  unfoldable pub package_encodings :
      EvmState s.G → Option (EncodingConfig cs.T × EncodingConfig cs.T × EvmState s.G)
  unfolding echo_encoding
  package_encodings evm = do
    first ← echo_encoding evm
    second ← echo_encoding first.1
    some (first.0, second.0, second.1)

  -- The application that gives the codecs, and what is taken from it.
  pub record IsEncoding (e : EncodingConfig cs.T) : Type 0 where
    pub application : App
    pub is_started : IsStarted w s true application
    pub same_registry : e.interface_registry ≡ cs.interface_registry application
    pub same_amino : e.amino ≡ cs.legacy_amino application
    pub same_codec : e.codec ≡ cs.app_codec application
    pub same_tx_config : e.tx_config ≡ cs.get_tx_config application

  abbrev Encodes : EvmState s.G → EvmState s.G → Type 0
  Encodes evm evm' = (e : EncodingConfig cs.T) × (echo_encoding evm ≡ some (e, evm')) × IsEncoding e

  echo_encoding-returns :
      (evm : EvmState s.G)
      → AllSucceed w
      → (evm_app_options s evm_chain_id evm).1 ≡ none
      → IsReady w.env
      → Encodes evm (evm_app_options s evm_chain_id evm).0
  unfolding echo_encoding of_application
  echo_encoding-returns evm all configured ready =
      let (a, started, is_started) =
        new_echofi_app-IsStarted w s true evm_chain_id 0 evm all configured ready in
      (
        of_application a,
        rw (started) refl,
        record {
          application = a;
          is_started = is_started;
          same_registry = refl;
          same_amino = refl;
          same_codec = refl;
          same_tx_config = refl;
        },
      )

  -- The package of the tests starts when the calls of other repositories come through: both of its
  -- chains get the codecs of an application that has loaded its latest version, though the EVM can
  -- be configured once only, and the second application leaves that configuration as it is.
  pub package_encodings-IsEncoding :
      (evm : EvmState s.G)
      → AllSucceed w
      → (evm_app_options s evm_chain_id evm).1 ≡ none
      → IsReady w.env
      → (e1 : EncodingConfig cs.T) × (e2 : EncodingConfig cs.T) × (package_encodings evm
          ≡ some (e1, e2, (evm_app_options s evm_chain_id evm).0))
        × IsEncoding e1
        × IsEncoding e2
  unfolding package_encodings
  package_encodings-IsEncoding evm all configured ready =
      let evm' = (evm_app_options s evm_chain_id evm).0 in
      let skipped =
        sealed_skips s evm_chain_id evm' (success-sealed s evm_chain_id evm configured) in
      let (e1, run1, is_encoding1) = echo_encoding-returns evm all configured ready in
      let (e2, run2, is_encoding2) = echo_encoding-returns evm' all (ap second_of skipped) ready in
      (e1, e2, rw (run1, run2, skipped) refl, is_encoding1, is_encoding2)
    where
      second_of : EvmState s.G × Option EvmError → Option EvmError
      second_of r = r.1
