-- ===== src/Interchain/Query.antt =====
-- The queries of interchaintest/helpers/query.go and interchaintest/helpers/gov.go. `json.Unmarshal` at the
-- type of the answer is the parameter `unmarshal`, `none` where it gives an error.
use echofi.Prelude.{List, [], ◌∷◌, String, Option}
use echofi.Interchain.{Chain, Run, ◌>>=◌, give, decoded, exec_ok}
use echofi.Interchain.Types.{
  Vals, DelegationQueryResponse, UnbondingDelegationResponse, QueryVotesResult, Vote,
  ProposalWrapper,
}

module _ (c : Chain) where
  -- The commands, which a helper builds before it runs one.
  abbrev pub votes_command : String → List String
  votes_command proposal_id =
      "echofid" ∷ "query" ∷ "gov" ∷ "votes" ∷ proposal_id ∷ "--node" ∷ c.rpc_address ∷ "--output"
      ∷ "json" ∷ []

  abbrev pub proposal_command : String → List String
  proposal_command proposal_id =
      "echofid" ∷ "query" ∷ "gov" ∷ "proposal" ∷ proposal_id ∷ "--node" ∷ c.rpc_address ∷ "--output"
      ∷ "json" ∷ []

  abbrev pub validators_command : List String
  validators_command =
      "echofid" ∷ "query" ∷ "staking" ∷ "validators" ∷ "--output" ∷ "json" ∷ "--node"
      ∷ c.rpc_address ∷ []

  abbrev pub delegation_command : String → String → List String
  delegation_command delegator validator =
      "echofid" ∷ "query" ∷ "staking" ∷ "delegation" ∷ delegator ∷ validator ∷ "--output" ∷ "json"
      ∷ "--node" ∷ c.rpc_address ∷ []

  abbrev pub unbonding_command : String → String → List String
  unbonding_command delegator_addr validator_addr =
      "echofid" ∷ "query" ∷ "staking" ∷ "unbonding-delegation" ∷ delegator_addr ∷ validator_addr
      ∷ "--node" ∷ c.rpc_address ∷ "--output" ∷ "json" ∷ []

  unfoldable pub query_votes : (String → Option QueryVotesResult) → String → Run c (List Vote)
  query_votes unmarshal proposal_id = do
    stdout ← exec_ok c (votes_command proposal_id)
    res ← decoded c (unmarshal stdout)
    give c res.votes

  unfoldable pub query_proposal_status : (String → Option ProposalWrapper) → String → Run c String
  query_proposal_status unmarshal proposal_id = do
    stdout ← exec_ok c (proposal_command proposal_id)
    wrapper ← decoded c (unmarshal stdout)
    give c wrapper.proposal.status

  unfoldable pub get_validators : {Any : Type 0} → (String → Option (Vals Any)) → Run c (Vals Any)
  get_validators unmarshal = do stdout ← exec_ok c validators_command; decoded c (unmarshal stdout)

  unfoldable pub query_delegation :
      (String → Option DelegationQueryResponse) → String → String → Run c DelegationQueryResponse
  query_delegation unmarshal delegator validator = do
    stdout ← exec_ok c (delegation_command delegator validator)
    decoded c (unmarshal stdout)

  unfoldable pub query_unbonding_delegation :
      (String → Option UnbondingDelegationResponse)
      → String
      → String
      → Run c UnbondingDelegationResponse
  query_unbonding_delegation unmarshal delegator_addr validator_addr = do
    stdout ← exec_ok c (unbonding_command delegator_addr validator_addr)
    decoded c (unmarshal stdout)
