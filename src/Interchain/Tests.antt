-- ===== src/Interchain/Tests.antt =====
-- A chain of two validators and a full node, and the theorems on it.
use echofi.Prelude.{
  ℕ, ◌+◌, ◌≤◌, ◌≡◌, refl, subst, ◌⊎◌, Bool, true, false, [], ◌∷◌, String, Option, none, some,
  length, arith, ltb, ◌^◌, if◌then◌else◌,
}
use echofi.Interchain.{ChainNode, Chain, Wallet, Lab, exec_ok, wait_ok}
use echofi.Interchain.Numbers.{parse_uint}
use echofi.Interchain.Votes.Command.{read_vote, vote_command-reads}
use echofi.Interchain.Types.{TxResponse, TxResult}
use echofi.Interchain.Votes.{
  Group, vote_command, new_group, Step, launches, IsFinished, one_by_one, launch,
}
use echofi.Interchain.Votes.Once.{IsVote, Reachable-IsVote}
use echofi.Interchain.Votes.Progress.{Steps, stays, goes, Steps-bounded, one_by_one-IsFinished}
use echofi.Interchain.Proposal.{extract_proposal_id, submit_proposal_from_file, after_vote, voted}
use echofi.Interchain.Proposal.Id.{
  first_id, extract_proposal_id-first, IsPassed, ValidatorVote-IsPassed,
}
use echofi.Interchain.Query.{query_proposal_status}
use echofi.Interchain.Gov.{Decoders, after_votes, TestGov, voted_on, Shows, TestGov-Shows}

abbrev node : String → Bool → ChainNode
node name validator = record { name = name; validator = validator }

-- The world counts what has been run.
abbrev chain : Chain
chain = record {
  World = ℕ;
  rpc_address = "tcp://node:26657";
  home_dir = "/var/chain";
  chain_id = "echofi-2";
  denom = "uecho";
  nodes = node "val-0" true ∷ node "full" false ∷ node "val-1" true ∷ [];
  exec = λ cmd w. (1 + w, record { stdout = "out"; fails = false });
  exec_tx = λ n key words w. (1 + w, none);
  height = λ w. some w;
  poll_for_status = λ from to id status w. (w, true);
  backend_test = "test";
  proposal_vote_yes = "yes";
  status_passed = "passed";
  wait_for_blocks = λ n w. (w + n, true);
}

abbrev lab : Lab chain
lab = record { world = 0; commands = [] }

abbrev user : Wallet
user = record { key_name = "alice" }

vote_command-reads_example :
    read_vote (vote_command 987 "yes") ≡ (if ltb 987 (2 ^ 63) then some (987, "yes") else none)
vote_command-reads_example = vote_command-reads 987 "yes" (omega arith)

abbrev all_voted : Group chain
all_voted = one_by_one chain 7 "yes" chain.nodes (new_group chain 7 "yes" 0)

Reachable-IsVote_example : IsVote chain.nodes all_voted.ran all_voted.err
Reachable-IsVote_example =
    Reachable-IsVote chain 7 "yes" 0 all_voted (one_by_one-IsFinished chain 7 "yes" 0).0
      (one_by_one-IsFinished chain 7 "yes" 0).1

votes_passed : (all_voted.err ≡ none) × (length all_voted.ran ≡ 2) × (all_voted.world ≡ 2)
unfolding one_by_one new_group
votes_passed = (refl, refl, refl)

abbrev one_started : Group chain
one_started =
    launch chain 7 "yes" (node "val-0" true) (node "full" false ∷ node "val-1" true ∷ [])
      (new_group chain 7 "yes" 0)

one_step : Steps chain 7 "yes" 1 (new_group chain 7 "yes" 0) one_started
unfolding new_group
one_step = goes (launches _ _ refl) stays

Steps-bounded_example :
    (1 ≤ 9)
    × (IsFinished chain 7 "yes" one_started
        ⊎ ((g' : Group chain) × Step chain 7 "yes" one_started g'))
Steps-bounded_example = Steps-bounded chain 7 "yes" 0 1 one_started one_step

-- An answer with two events, the second one of a proposal.
abbrev tx_response : TxResponse ℕ
tx_response = record {
  logs = [];
  events =
      record { type_name = "transfer"; attributes = [] }
      ∷ record {
        type_name = "submit_proposal";
        attributes =
            record { key = "messages"; value = "" }
            ∷ record { key = "proposal_id"; value = "7" }
            ∷ [];
      }
      ∷ [];
}

extract_proposal_id-first_example :
    extract_proposal_id chain (λ out. some tx_response) "{}" lab
    ≡ (lab, first_id (some tx_response))
extract_proposal_id-first_example =
    extract_proposal_id-first chain (λ out. some tx_response) "{}" lab

abbrev tx_result : TxResult
tx_result = record { tx_hash = "AB" }

abbrev submission : Lab chain × Option String
submission =
    submit_proposal_from_file chain (λ out. some tx_result) (λ out. some tx_response) user
      "/opt/proposal-test.json" lab

submitted : submission ≡ (submission.0, some "7")
unfolding submit_proposal_from_file exec_ok wait_ok
submitted = refl

passes : (after_vote chain all_voted.err 7 25 (record lab { world = all_voted.world })).1 ≡ some tt
unfolding after_vote one_by_one new_group
passes = refl

-- The votes that passed are those of the wanted vote and proposal.
ValidatorVote-IsPassed_example :
    IsPassed chain 7 25 lab
      (after_vote chain all_voted.err 7 25 (record lab { world = all_voted.world }))
ValidatorVote-IsPassed_example =
    ValidatorVote-IsPassed chain 7 25 lab _
      (voted all_voted (one_by_one-IsFinished chain 7 "yes" 0).0
        (one_by_one-IsFinished chain 7 "yes" 0).1)
      passes

abbrev decoders : Decoders ℕ
decoders = record {
  of_submission = λ out. some tx_result;
  of_tx = λ out. some tx_response;
  of_proposal = λ out. some (record { proposal = record { status = "PROPOSAL_STATUS_PASSED" } });
}

abbrev gov_votes : Group chain
gov_votes = one_by_one chain 7 "yes" chain.nodes (new_group chain 7 "yes" submission.0.world)

seven : parse_uint "7" ≡ some 7
unfolding parse_uint
seven = refl

abbrev gov_end : Lab chain × Option (Unit {0})
gov_end =
    after_votes chain decoders user "7"
      (after_vote chain gov_votes.err 7 25 (record (submission.0) { world = gov_votes.world }))

gov_run : TestGov chain decoders user lab gov_end
gov_run = voted_on "7" 7 submitted seven (
    voted gov_votes (one_by_one-IsFinished chain 7 "yes" submission.0.world).0
      (one_by_one-IsFinished chain 7 "yes" submission.0.world).1)

gov_passes : gov_end ≡ (gov_end.0, some tt)
unfolding after_votes after_vote one_by_one new_group submit_proposal_from_file exec_ok wait_ok
    query_proposal_status
gov_passes = refl

TestGov-Shows_example : Shows chain decoders user lab gov_end.0
TestGov-Shows_example =
    TestGov-Shows chain decoders user lab gov_end.0
      (subst (TestGov chain decoders user lab) gov_passes gov_run)
