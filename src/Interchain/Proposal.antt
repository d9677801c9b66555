-- ===== src/Interchain/Proposal.antt =====
pub mod Id
-- interchaintest/helpers/gov.go: a proposal is submitted, its id is read from the events of the
-- transaction, and the validators vote on it.
use echofi.Prelude.{
  ℕ, ◌+◌, ◌%◌, ◌^◌, List, [], ◌∷◌, String, Option, none, some, if◌then◌else◌, str_eq, Bool, true,
  false,
}
use Prim.Native.String.{◌++◌ as str_append}
use echofi.Startup.{Int64, pos, negsuc}
use echofi.Interchain.{
  Chain, Wallet, Lab, Run, ◌>>=◌, ◌>>◌, give, fatal, require, decoded, exec_ok, wait_ok,
}
use echofi.Interchain.Types.{Attribute, Event, TxResponse, TxResult}
use echofi.Interchain.Votes.{Group, Reachable, IsFinished}

-- The inner loop of `ExtractProposalIDFromTxResponse`; `none`: it runs to its end.
pub attribute_loop : List Attribute → Option String
attribute_loop [] = none
attribute_loop (attr ∷ attrs) =
    let rest = attribute_loop attrs in
    if str_eq attr.key "proposal_id" then some attr.value else rest

-- The return of the inner loop ends the outer one.
pub or_else : Option String → Option String → Option String
or_else none rest = rest
or_else (some id) _ = some id

pub event_loop : List Event → Option String
unfolding attribute_loop or_else
event_loop [] = none
event_loop (ev ∷ events) =
    let rest = event_loop events in
    if str_eq ev.type_name "submit_proposal"
    then or_else (attribute_loop ev.attributes) rest
    else rest

module _ (c : Chain) where
  -- `t.Fatal` where there is no id.
  pub found : Option String → Run c String
  found none = fatal c
  found (some id) = give c id

  unfoldable pub extract_proposal_id :
      {Any : Type 0} → (String → Option (TxResponse Any)) → String → Run c String
  unfolding event_loop found
  extract_proposal_id unmarshal tx_resp = do
    parsed ← decoded c (unmarshal tx_resp)
    found (event_loop parsed.events)

  abbrev pub tx_command : String → List String
  tx_command tx_hash =
      "echofid" ∷ "query" ∷ "tx" ∷ tx_hash ∷ "--node" ∷ c.rpc_address ∷ "--output" ∷ "json" ∷ []

  unfoldable pub get_proposal_id_from_tx :
      {Any : Type 0} → (String → Option (TxResponse Any)) → String → Run c String
  unfolding extract_proposal_id
  get_proposal_id_from_tx unmarshal tx_hash = do
    stdout ← exec_ok c (tx_command tx_hash)
    extract_proposal_id unmarshal stdout

  abbrev pub submit_command : Wallet → String → List String
  submit_command user file_path =
      "echofid"
      ∷ "tx"
      ∷ "gov"
      ∷ "submit-proposal"
      ∷ file_path
      ∷ "--keyring-backend"
      ∷ c.backend_test
      ∷ "--from"
      ∷ user.key_name
      ∷ "--home"
      ∷ c.home_dir
      ∷ "--node"
      ∷ c.rpc_address
      ∷ "--chain-id"
      ∷ c.chain_id
      ∷ "--gas"
      ∷ "500000"
      ∷ "--fees"
      ∷ str_append "5000" c.denom
      ∷ "-y"
      ∷ "--output"
      ∷ "json"
      ∷ []

  unfoldable pub submit_proposal_from_file :
      {Any : Type 0}
      → (String → Option TxResult)
      → (String → Option (TxResponse Any))
      → Wallet
      → String
      → Run c String
  unfolding get_proposal_id_from_tx
  submit_proposal_from_file unmarshal unmarshal_tx user file_path = do
    stdout ← exec_ok c (submit_command user file_path)
    res ← decoded c (unmarshal stdout)
    wait_ok c 2
    get_proposal_id_from_tx unmarshal_tx res.tx_hash

  abbrev pub is_nil : Option String → Bool
  is_nil none = true
  is_nil (some _) = false

  -- The wait for the status. The sum of the heights wraps.
  pub poll : ℕ → ℕ → ℕ → Run c (Unit {0})
  poll height search_height_delta proposal_id lab =
      let (after, passed) =
        c.poll_for_status height ((height + search_height_delta) % 2 ^ 64) proposal_id
          c.status_passed lab.world in
      require c passed (record lab { world = after })

  -- `ValidatorVote` behind the vote, whose result is `err`.
  unfoldable pub after_vote : Option String → ℕ → ℕ → Run c (Unit {0})
  unfolding poll
  after_vote err proposal_id search_height_delta = do
    require c (is_nil err)
    height ← λ lab. decoded c (c.height lab.world) lab
    poll height search_height_delta proposal_id

  -- `ValidatorVote`: any order of the votes may come about.
  pub data ValidatorVote (proposal_id search_height_delta : ℕ) (lab : Lab c)
      : Lab c × Option (Unit {0}) → Type 0 where
    voted :
        (g : Group c)
        → Reachable c proposal_id c.proposal_vote_yes lab.world g
        → IsFinished c proposal_id c.proposal_vote_yes g
        → ValidatorVote proposal_id search_height_delta lab
            (after_vote g.err proposal_id search_height_delta (record lab { world = g.world }))
