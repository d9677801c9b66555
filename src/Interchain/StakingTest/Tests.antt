-- ===== src/Interchain/StakingTest/Tests.antt =====
-- A chain on which a delegation is found until it has been unbonded, and a run of the test on it.
use echofi.Prelude.{ℕ, ◌+◌, ◌≡◌, refl, true, false, [], ◌∷◌, none, some, ltb}
use echofi.Interchain.{Chain, Wallet, Lab, exec_ok, wait_ok}
use echofi.Interchain.Types.{Validator}
use echofi.Interchain.Query.{get_validators, query_delegation, query_unbonding_delegation}
use echofi.Interchain.Staking.{stake_tokens, unstake_tokens}
use echofi.Interchain.StakingTest.{Decoders, test_stake_token_and_unstake_token}
use echofi.Interchain.StakingTest.Shown.{Shows, test_stake_token_and_unstake_token-Shows}

-- The world counts the commands and the blocks.
abbrev chain : Chain
chain = record {
  World = ℕ;
  rpc_address = "tcp://node:26657";
  home_dir = "/var/chain";
  chain_id = "echofi-2";
  denom = "uecho";
  nodes = [];
  exec = λ cmd w. (1 + w, record { stdout = "out"; fails = ltb 8 w });
  exec_tx = λ n key words w. (1 + w, none);
  height = λ w. some w;
  poll_for_status = λ from to id status w. (w, true);
  backend_test = "test";
  proposal_vote_yes = "yes";
  status_passed = "passed";
  wait_for_blocks = λ n w. (w + n, true);
}

abbrev lab : Lab chain
lab = record { world = 0; commands = [] }

abbrev user : Wallet
user = record { key_name = "alice" }

abbrev validator : Validator ℕ
validator = record {
  operator_address = "echofivaloper1x";
  consensus_pubkey = record { type_name = "ed25519"; key = "k" };
  jailed = false;
  status = "BOND_STATUS_BONDED";
  tokens = "5";
  delegator_shares = "5";
  description = record {
    moniker = "m";
    identity = "";
    website = "";
    security_contact = "";
    details = "";
  };
  unbonding_height = "0";
  unbonding_time = "0";
  commission = record {
    commission_rates = record { rate = "0"; max_rate = "0"; max_change_rate = "0" };
    update_time = "0";
  };
  min_self_delegation = "1";
  unbonding_on_hold_ref_count = "0";
  unbonding_ids = [];
}

abbrev decoders : Decoders ℕ
decoders = record {
  of_validators = λ out.
      some
        (record { validators = validator ∷ []; pagination = record { next_key = 0; total = "1" } });
  of_delegation = λ out. some (record {
    delegation_response = record {
      delegation = record {
        delegator_address = "echofi1a";
        validator_address = "echofivaloper1x";
        shares = "1000000";
      };
      balance = record { denom = "uecho"; amount = "1000000" };
    };
  });
  of_unbonding = λ out. some (record {
    unbond = record {
      delegator_address = "echofi1a";
      validator_address = "echofivaloper1x";
      entries =
          record {
            creation_height = "8";
            completion_time = "t";
            initial_balance = "1000000";
            balance = "1000000";
            unbonding_id = "1";
          }
          ∷ [];
    };
  });
}

abbrev end : Lab chain
end = (test_stake_token_and_unstake_token chain decoders user "echofi1a" (λ cmd w. true) lab).0

passes :
    test_stake_token_and_unstake_token chain decoders user "echofi1a" (λ cmd w. true) lab
    ≡ (end, some tt)
unfolding test_stake_token_and_unstake_token exec_ok wait_ok get_validators query_delegation
    query_unbonding_delegation stake_tokens unstake_tokens
passes = refl

test_stake_token_and_unstake_token-Shows_example :
    Shows chain decoders user "echofi1a" (λ cmd w. true) lab end
test_stake_token_and_unstake_token-Shows_example =
    test_stake_token_and_unstake_token-Shows chain decoders user "echofi1a" (λ cmd w. true) lab end
      passes
