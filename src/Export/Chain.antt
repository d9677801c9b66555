-- ===== src/Export/Chain.antt =====
-- The state that app/export.go reads and writes, and the calls of other repositories that it makes.
use echofi.Prelude.{ℕ, Bool, List, String, Option, none, some}

-- `address` is the key of the store, and `operator` the text that `GetOperator` gives.
pub record Validator : Type 0 where
  pub address : String
  pub operator : String
  pub unbonding_height : ℕ
  pub jailed : Bool
  pub extra : String

pub record Delegation : Type 0 where
  pub delegator_address : String
  pub validator_address : String

pub record Entry : Type 0 where
  pub creation_height : ℕ
  pub extra : String

-- A redelegation or an unbonding delegation, under its key in the store.
pub record Unbonding : Type 0 where
  pub store_key : String
  pub entries : List Entry

pub record SigningInfo : Type 0 where
  pub cons_address : String
  pub start_height : ℕ
  pub extra : String

-- The stores as the context shows them, with the block height of the context. `other` is the state
-- of the modules of which nothing is written here: the bank and the distribution module.
pub record Chain (D : Type 0) : Type 0 where
  pub height : ℕ
  pub validators : List Validator
  pub delegations : List Delegation
  pub redelegations : List Unbonding
  pub unbonding_delegations : List Unbonding
  pub signing_infos : List SigningInfo
  pub other : D

-- The places at which an iteration or a write can return an error of the store.
pub data Site : Type 0 where
  iterate_commissions get_all_delegations iterate_reinit : Site
  iterate_redelegations iterate_unbondings iterate_signing_infos : Site
  set_redelegation set_unbonding_delegation set_validator set_signing_info : Site

pub record FeePool (Coins : Type 0) : Type 0 where
  pub community_pool : Coins

-- Calls that can fail give `none` then; `fails` says where a store gives an error.
pub record Keepers : Type 1 where
  pub D : Type 0
  pub Coins : Type 0
  pub add : Coins → Coins → Coins
  pub val_address_from_bech32 : String → Option String
  pub acc_address_from_bech32 : String → Option String
  pub string_to_bytes : String → Option String
  pub val_address_string : String → String
  pub fails : Site → Chain D → Bool
  pub withdraw_validator_commission : String → Chain D → Chain D
  pub withdraw_delegation_rewards : (delegator validator : String) → Chain D → Option (Chain D)
  pub delete_all_validator_slash_events : Chain D → Chain D
  pub delete_all_validator_historical_rewards : Chain D → Chain D
  pub get_validator_outstanding_rewards_coins : String → Chain D → Option Coins
  pub fee_pool_get : Chain D → Option (FeePool Coins)
  pub fee_pool_set : FeePool Coins → Chain D → Option (Chain D)
  pub after_validator_created : String → Chain D → Option (Chain D)
  pub before_delegation_created : (delegator validator : String) → Chain D → Option (Chain D)
  pub after_delegation_modified : (delegator validator : String) → Chain D → Option (Chain D)
  pub apply_and_return_validator_set_updates : Chain D → Option (Chain D)

-- A value, or a panic.
pub data Result (A : Type 0) : Type 0 where
  ok : A → Result A
  panic : Result A

infixl 5 ◌>>=◌ ◌>>◌
abbrev pub ◌>>=◌ : {A B : Type 0} → Result A → (A → Result B) → Result B
panic >>= next = panic
ok value >>= next = next value

abbrev pub ◌>>◌ : {B : Type 0} → Result (Unit {0}) → Result B → Result B
action >> next = action >>= λ _. next

-- `if err != nil { panic(err) }`
abbrev pub must : {A : Type 0} → Option A → Result A
must none = panic
must (some a) = ok a
