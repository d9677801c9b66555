-- ===== src/App/Signature.antt =====
-- `SigVerificationGasConsumer` of app/app.go.
use echofi.Prelude.{ℕ, ◌≡◌, ◌≢◌, refl, ap, ◌∙◌, ◌↔◌, String, Option, none, some, arith}

-- The key types that the code tells apart. `multisig` and `other_key` carry the key.
pub data PubKey (K : Type 0) : Type 0 where
  evm_secp256k1 secp256k1 ed25519 : PubKey K
  multisig : K → PubKey K
  other_key : K → PubKey K

-- `single` is any data that is not `*signing.MultiSignatureData`.
pub data SignatureData (M : Type 0) : Type 0 where
  multi_signature_data : M → SignatureData M
  single : SignatureData M

pub record Signature (K M : Type 0) : Type 0 where
  pub pub_key : PubKey K
  pub sig_data : SignatureData M
  pub sequence : ℕ

pub record Params : Type 0 where
  pub sig_verify_cost_secp256k1 : ℕ
  pub sig_verify_cost_ed25519 : ℕ

pub data SigError : Type 0 where
  invalid_pub_key : SigError
  unexpected_data : SigError
  delegated : ℕ → SigError

-- A panic of the gas meter, or the meter behind the call with the error that is returned.
pub data Consumed (Meter : Type 0) : Type 0 where
  out_of_gas : Consumed Meter
  consumed : Meter → Option SigError → Consumed Meter

-- The gas meter, the cost of an Ethereum signature and the two consumers of other repositories that
-- the code hands over to.
pub record Gas (K M : Type 0) : Type 1 where
  pub Meter : Type 0
  pub consume_gas : ℕ → String → Meter → Option Meter
  pub secp256k1_verify_cost : ℕ
  pub consume_multisignature : Meter → M → K → Params → ℕ → Consumed Meter
  pub default_consumer : Meter → Signature K M → Params → Consumed Meter

module _ {K M : Type 0} (gas : Gas K M) where
  open gas use {Meter, consume_gas, secp256k1_verify_cost, consume_multisignature, default_consumer}

  abbrev pub charge : ℕ → String → Option SigError → Meter → Consumed Meter
  charge cost descriptor e meter = elim (consume_gas cost descriptor meter) [
    | none ↦ out_of_gas
    | some meter' ↦ consumed meter' e
  ]

  pub consume_multisig : Meter → K → SignatureData M → ℕ → Params → Consumed Meter
  consume_multisig meter key single seq params = consumed meter (some unexpected_data)
  consume_multisig meter key (multi_signature_data m) seq params =
      consume_multisignature meter m key params seq

  pub by_pub_key : Meter → PubKey K → Signature K M → Params → Consumed Meter
  unfolding consume_multisig
  by_pub_key meter evm_secp256k1 sig params =
      charge secp256k1_verify_cost "ante verify: eth_secp256k1" none meter
  by_pub_key meter secp256k1 sig params =
      charge params.sig_verify_cost_secp256k1 "ante verify: secp256k1" none meter
  by_pub_key meter ed25519 sig params =
      charge params.sig_verify_cost_ed25519 "ante verify: ed25519" (some invalid_pub_key) meter
  by_pub_key meter (multisig key) sig params =
      consume_multisig meter key sig.sig_data sig.sequence params
  by_pub_key meter (other_key key) sig params = default_consumer meter sig params

  unfoldable pub sig_verification_gas_consumer : Meter → Signature K M → Params → Consumed Meter
  unfolding by_pub_key
  sig_verification_gas_consumer meter sig params = by_pub_key meter sig.pub_key sig params

  -- How a signature can pass.
  pub data Passes (meter : Meter) (sig : Signature K M) (params : Params) (meter' : Meter)
      : Type 0 where
    ethereum :
        sig.pub_key ≡ evm_secp256k1
        → consume_gas secp256k1_verify_cost "ante verify: eth_secp256k1" meter ≡ some meter'
        → Passes meter sig params meter'
    cosmos :
        sig.pub_key ≡ secp256k1
        → consume_gas params.sig_verify_cost_secp256k1 "ante verify: secp256k1" meter ≡ some meter'
        → Passes meter sig params meter'
    multi :
        (key : K) (m : M)
        → sig.pub_key ≡ multisig key
        → sig.sig_data ≡ multi_signature_data m
        → consume_multisignature meter m key params sig.sequence ≡ consumed meter' none
        → Passes meter sig params meter'
    other :
        (key : K)
        → sig.pub_key ≡ other_key key
        → default_consumer meter sig params ≡ consumed meter' none
        → Passes meter sig params meter'

  charge-passes :
      (cost : ℕ) (d : String) (meter meter' : Meter)
      → charge cost d none meter ≡ consumed meter' none
      → consume_gas cost d meter ≡ some meter'
  charge-passes cost d meter meter' h = ground arith

  charge-refuses :
      (cost : ℕ) (d : String) (e : SigError) (meter meter' : Meter)
      → charge cost d (some e) meter ≢ consumed meter' none
  charge-refuses cost d e meter meter' h = ground arith

  consume_multisig-passes :
      (meter meter' : Meter) (key : K) (data' : SignatureData M) (seq : ℕ) (params : Params)
      → consume_multisig meter key data' seq params ≡ consumed meter' none
      → (m : M) × (data' ≡ multi_signature_data m)
        × (consume_multisignature meter m key params seq ≡ consumed meter' none)
  unfolding consume_multisig
  consume_multisig-passes meter meter' key single seq params h = absurd (ground arith)
  consume_multisig-passes meter meter' key (multi_signature_data m) seq params h = (m, refl, h)

  by_pub_key-Passes :
      (meter meter' : Meter) (key : PubKey K) (sig : Signature K M) (params : Params)
      → sig.pub_key ≡ key
      → by_pub_key meter key sig params ≡ consumed meter' none
      → Passes meter sig params meter'
  unfolding by_pub_key
  by_pub_key-Passes meter meter' evm_secp256k1 sig params e h = ethereum e (charge-passes _ _ _ _ h)
  by_pub_key-Passes meter meter' secp256k1 sig params e h = cosmos e (charge-passes _ _ _ _ h)
  by_pub_key-Passes meter meter' ed25519 sig params e h = absurd (charge-refuses _ _ _ _ _ h)
  by_pub_key-Passes meter meter' (multisig key) sig params e h =
      let (m, d, run) =
        consume_multisig-passes meter meter' key sig.sig_data sig.sequence params h in
      multi key m e d run
  by_pub_key-Passes meter meter' (other_key key) sig params e h = other key e h

  -- A signature passes exactly in one of four ways: an Ethereum
  -- key at the Ethereum cost, a secp256k1 key at the cost of the parameters, a multisig key with
  -- data of a multisignature, and any other key that the default consumer of the SDK accepts. So a
  -- ed25519 key never passes, and a multisig key never passes with other data.
  pub consumer-Passes :
      (meter meter' : Meter) (sig : Signature K M) (params : Params)
      → (sig_verification_gas_consumer meter sig params ≡ consumed meter' none)
        ↔ Passes meter sig params meter'
  unfolding sig_verification_gas_consumer by_pub_key consume_multisig
  consumer-Passes meter meter' sig params =
      (by_pub_key-Passes meter meter' sig.pub_key sig params refl, passes)
    where
      at_key :
          {key : PubKey K}
          → sig.pub_key ≡ key
          → by_pub_key meter sig.pub_key sig params ≡ by_pub_key meter key sig params
      at_key e = ap (λ k. by_pub_key meter k sig params) e

      passes :
          Passes meter sig params meter'
          → by_pub_key meter sig.pub_key sig params ≡ consumed meter' none
      passes (ethereum e h) = at_key e ∙ ground arith
      passes (cosmos e h) = at_key e ∙ ground arith
      passes (multi key m e d h) =
          at_key e ∙ ap (λ x. consume_multisig meter key x sig.sequence params) d ∙ h
      passes (other key e h) = at_key e ∙ h
