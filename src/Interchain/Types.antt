-- ===== src/Interchain/Types.antt =====
-- interchaintest/helpers/types.go: the answers of the queries. A time is its text.
use echofi.Prelude.{Bool, List, String}

pub record UnbondingDelegationEntry : Type 0 where
  pub creation_height : String
  pub completion_time : String
  pub initial_balance : String
  pub balance : String
  pub unbonding_id : String

pub record Unbond : Type 0 where
  pub delegator_address : String
  pub validator_address : String
  pub entries : List UnbondingDelegationEntry

pub record UnbondingDelegationResponse : Type 0 where
  pub unbond : Unbond

pub record Delegation : Type 0 where
  pub delegator_address : String
  pub validator_address : String
  pub shares : String

pub record Balance : Type 0 where
  pub denom : String
  pub amount : String

pub record DelegationResponse : Type 0 where
  pub delegation : Delegation
  pub balance : Balance

pub record DelegationQueryResponse : Type 0 where
  pub delegation_response : DelegationResponse

pub record ConsensusPubkey : Type 0 where
  pub type_name : String
  pub key : String

pub record Description : Type 0 where
  pub moniker : String
  pub identity : String
  pub website : String
  pub security_contact : String
  pub details : String

pub record CommissionRates : Type 0 where
  pub rate : String
  pub max_rate : String
  pub max_change_rate : String

pub record Commission : Type 0 where
  pub commission_rates : CommissionRates
  pub update_time : String

-- `Any` is a JSON value of any kind.
pub record Validator (Any : Type 0) : Type 0 where
  pub operator_address : String
  pub consensus_pubkey : ConsensusPubkey
  pub jailed : Bool
  pub status : String
  pub tokens : String
  pub delegator_shares : String
  pub description : Description
  pub unbonding_height : String
  pub unbonding_time : String
  pub commission : Commission
  pub min_self_delegation : String
  pub unbonding_on_hold_ref_count : String
  pub unbonding_ids : List Any

pub record Pagination (Any : Type 0) : Type 0 where
  pub next_key : Any
  pub total : String

pub record Vals (Any : Type 0) : Type 0 where
  pub validators : List (Validator Any)
  pub pagination : Pagination Any

-- A vote in the answer of a query.
pub record Vote : Type 0 where
  pub proposal_id : String
  pub voter : String
  pub option : String

pub record QueryVotesResult : Type 0 where
  pub votes : List Vote

pub record Proposal : Type 0 where
  pub status : String

-- The local structs of interchaintest/helpers/gov.go.
pub record ProposalWrapper : Type 0 where
  pub proposal : Proposal

pub record TxResult : Type 0 where
  pub tx_hash : String

pub record Attribute : Type 0 where
  pub key : String
  pub value : String

pub record Event : Type 0 where
  pub type_name : String
  pub attributes : List Attribute

pub record TxResponse (Any : Type 0) : Type 0 where
  pub logs : List Any
  pub events : List Event
