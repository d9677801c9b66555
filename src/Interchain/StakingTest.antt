-- ===== src/Interchain/StakingTest.antt =====
-- `TestStakeTokenAndUnstakeToken` of interchaintest/staking_test.go behind its set-up.
pub mod Shown
pub mod Tests
use Prim.Native.String.{◌++◌ as str_append}
use echofi.Prelude.{Bool, true, false, List, [], ◌∷◌, String, Option, str_eq}
use echofi.Interchain.{Chain, Wallet, Run, ◌>>=◌, ◌>>◌, give, fatal, require}
use echofi.Interchain.Types.{
  Vals, Validator, DelegationQueryResponse, UnbondingDelegationEntry, UnbondingDelegationResponse,
}
use echofi.Interchain.Query.{
  get_validators, query_delegation, query_unbonding_delegation, delegation_command,
}
use echofi.Interchain.Staking.{stake_tokens, unstake_tokens}

-- What `json.Unmarshal` makes of the three answers.
pub record Decoders (Any : Type 0) : Type 0 where
  pub of_validators : String → Option (Vals Any)
  pub of_delegation : String → Option DelegationQueryResponse
  pub of_unbonding : String → Option UnbondingDelegationResponse

abbrev pub stake_text : String
stake_text = "1000000"

abbrev pub is_nonempty : List UnbondingDelegationEntry → Bool
is_nonempty [] = false
is_nonempty (_ ∷ _) = true

module _ (c : Chain) where
  -- `vals.Validators[0].OperatorAddress`, which panics where there is no validator.
  pub first_operator : {Any : Type 0} → List (Validator Any) → Run c String
  first_operator [] = fatal c
  first_operator (v ∷ _) = give c v.operator_address

  abbrev pub coin_amt : String
  coin_amt = str_append stake_text c.denom

  -- `chain.Exec`, `require.Error` and `require.ErrorContains`. `not_found` says whether the text of
  -- the error of a command that is run in a state of the containers contains "key not found".
  pub exec_not_found : (List String → c.World → Bool) → List String → Run c (Unit {0})
  exec_not_found not_found cmd lab =
      let (after, out) = c.exec cmd lab.world in
      let fails = out.fails in
      (require c fails >> require c (not_found cmd lab.world))
        (record { world = after; commands = cmd ∷ lab.commands })

-- `address` is that of the user.
module _ {Any : Type 0} (c : Chain) (d : Decoders Any) (user : Wallet) (address : String)
    (not_found : List String → c.World → Bool) where
  pub check_staked : String → Run c (Unit {0})
  check_staked valoper = do
    delegation ← query_delegation c d.of_delegation address valoper
    require c (str_eq stake_text delegation.delegation_response.balance.amount)

  pub check_unstaked : String → Run c (Unit {0})
  unfolding exec_not_found
  check_unstaked valoper = do
    res ← query_unbonding_delegation c d.of_unbonding address valoper
    require c (is_nonempty res.unbond.entries)
    require c (str_eq valoper res.unbond.validator_address)
    exec_not_found c not_found (delegation_command c address valoper)

  pub stake_and_unstake : String → Run c (Unit {0})
  unfolding check_staked check_unstaked
  stake_and_unstake valoper = do
    stake_tokens c user valoper (coin_amt c)
    check_staked valoper
    unstake_tokens c user valoper (coin_amt c)
    check_unstaked valoper

  unfoldable pub test_stake_token_and_unstake_token : Run c (Unit {0})
  unfolding first_operator stake_and_unstake
  test_stake_token_and_unstake_token = do
    vals ← get_validators c d.of_validators
    valoper ← first_operator c vals.validators
    stake_and_unstake valoper
