-- ===== src/Interchain/StakingTest/Shown.antt =====
-- What the test of interchaintest/staking_test.go has shown where it passes.
use echofi.Prelude.{
  ◌≡◌, refl, ap, ◌∙◌, sym, Bool, true, List, [], ◌∷◌, ◌++◌, String, Option, some, str_eq, eq_iff,
}
use echofi.Interchain.{
  Chain, Wallet, Lab, ◌>>=◌, >>=-passes, require, exec_ok, exec_ok-passes, decoded, require-passes,
  value-passes,
}
use echofi.Interchain.Types.{Vals, Validator, DelegationQueryResponse, UnbondingDelegationResponse}
use echofi.Interchain.Query.{
  get_validators, query_delegation, query_unbonding_delegation, validators_command,
  delegation_command, unbonding_command,
}
use echofi.Interchain.Staking.{stake_tokens, unstake_tokens, user_flags, stake_tokens-IsTx}
use echofi.Interchain.StakingTest.{
  Decoders, stake_text, first_operator, coin_amt, is_nonempty, exec_not_found, check_staked,
  check_unstaked, stake_and_unstake, test_stake_token_and_unstake_token,
}

-- A query that passes: its command is the last one, and its answer is what came out of it.
pub record IsQuery (c : Chain) {A : Type 0} (unmarshal : String → Option A) (cmd : List String)
    (before after : Lab c) (a : A) : Type 0 where
  pub one_command : after.commands ≡ cmd ∷ before.commands
  pub answer : unmarshal (c.exec cmd before.world).1.stdout ≡ some a

query-IsQuery :
    (c : Chain) {A : Type 0} (unmarshal : String → Option A) (cmd : List String) (before : Lab c)
    {after : Lab c} {a : A}
    → (exec_ok c cmd >>= λ (out : String). decoded c (unmarshal out)) before ≡ (after, some a)
    → IsQuery c unmarshal cmd before after a
query-IsQuery c unmarshal cmd before {after = after} {a = a} h =
    let (lab1, out, ran, h1) = >>=-passes (exec_ok c cmd) _ before h in
    let (one, _, stdout) = exec_ok-passes c cmd before ran in
    let (same, is) = value-passes (unmarshal out) lab1 h1 in
    record {
      one_command = ap (λ (l : Lab c). l.commands) same ∙ one;
      answer = ap unmarshal stdout ∙ is;
    }

exec_not_found-passes :
    (c : Chain) (not_found : List String → c.World → Bool) (cmd : List String) (before : Lab c)
    {after : Lab c} {u : Unit {0}}
    → exec_not_found c not_found cmd before ≡ (after, some u)
    → ((c.exec cmd before.world).1.fails ≡ true)
      × (not_found cmd before.world ≡ true)
      × (after.commands ≡ cmd ∷ before.commands)
unfolding exec_not_found
exec_not_found-passes c not_found cmd before h =
    let (lab1, _, fails, h1) = >>=-passes (require c (c.exec cmd before.world).1.fails) _ _ h in
    let (failed, same1) = require-passes _ _ fails in
    let (found, same2) = require-passes _ lab1 h1 in
    (failed, found, ap (λ (l : Lab c). l.commands) (same2 ∙ same1))

module _ {Any : Type 0} (c : Chain) (d : Decoders Any) (user : Wallet) (address : String)
    (not_found : List String → c.World → Bool) where
  -- The stake of the user at a validator: what the queries give between and behind the two
  -- transactions, which start from the state `start`.
  pub record Stake (valoper : String) (start finish : Lab c) : Type 0 where
    pub staked : Lab c
    pub stakes : stake_tokens c user valoper (coin_amt c) start ≡ (staked, some tt)
    pub checked : Lab c
    pub delegation : DelegationQueryResponse
    pub queried :
        IsQuery c d.of_delegation (delegation_command c address valoper) staked checked delegation
    pub amount : delegation.delegation_response.balance.amount ≡ stake_text
    pub unstaked : Lab c
    pub unstakes : unstake_tokens c user valoper (coin_amt c) checked ≡ (unstaked, some tt)
    pub unbonding : Lab c
    pub res : UnbondingDelegationResponse
    pub unbonds :
        IsQuery c d.of_unbonding (unbonding_command c address valoper) unstaked unbonding res
    pub has_entry : is_nonempty res.unbond.entries ≡ true
    pub of_validator : res.unbond.validator_address ≡ valoper
    pub gone : (c.exec (delegation_command c address valoper) unbonding.world).1.fails ≡ true
    pub reason : not_found (delegation_command c address valoper) unbonding.world ≡ true
    pub last_command : finish.commands ≡ delegation_command c address valoper ∷ unbonding.commands

  staking :
      (valoper : String) (start : Lab c) {finish : Lab c} {u : Unit {0}}
      → stake_and_unstake c d user address not_found valoper start ≡ (finish, some u)
      → Stake valoper start finish
  unfolding stake_and_unstake check_staked check_unstaked query_delegation
      query_unbonding_delegation
  staking valoper start h =
      let (staked, u1, stakes, h1) =
        >>=-passes (stake_tokens c user valoper (coin_amt c)) _ start h in
      let (checked, u2, checks, h2) =
        >>=-passes (check_staked c d user address not_found valoper) _ staked h1 in
      let (unstaked, u3, unstakes, h3) =
        >>=-passes (unstake_tokens c user valoper (coin_amt c)) _ checked h2 in
      let (l1, delegation, queried, h4) =
        >>=-passes (query_delegation c d.of_delegation address valoper) _ staked checks in
      let (amount, checked_is) = require-passes _ l1 h4 in
      let (l2, res, unbonds, h5) =
        >>=-passes (query_unbonding_delegation c d.of_unbonding address valoper) _ unstaked h3 in
      let (l3, u5, nonempty, h6) =
        >>=-passes (require c (is_nonempty res.unbond.entries)) _ l2 h5 in
      let (has_entry, l3_is) = require-passes _ l2 nonempty in
      let (l4, u6, same, h7) =
        >>=-passes (require c (str_eq valoper res.unbond.validator_address)) _ l3 h6 in
      let (of_validator, l4_is) = require-passes _ l3 same in
      let cmd = delegation_command c address valoper in
      let (fails, reason, last_command) =
        exec_not_found-passes c not_found cmd l2
          (ap (exec_not_found c not_found cmd) (sym (l4_is ∙ l3_is)) ∙ h7) in
      record {
        staked = staked;
        stakes = stakes;
        checked = checked;
        delegation = delegation;
        queried =
            query-IsQuery c d.of_delegation cmd staked
              (queried ∙ ap (λ (l : Lab c). (l, some delegation)) (sym checked_is));
        amount = sym ((eq_iff stake_text delegation.delegation_response.balance.amount).0 amount);
        unstaked = unstaked;
        unstakes = unstakes;
        unbonding = l2;
        res = res;
        unbonds =
            query-IsQuery c d.of_unbonding (unbonding_command c address valoper) unstaked unbonds;
        has_entry = has_entry;
        of_validator = sym ((eq_iff valoper res.unbond.validator_address).0 of_validator);
        gone = fails;
        reason = reason;
        last_command = last_command;
      }

  -- The commands of the test, the last one first.
  abbrev pub test_commands : String → List (List String)
  test_commands valoper =
      delegation_command c address valoper
      ∷ unbonding_command c address valoper
      ∷ ("echofid" ∷ "tx" ∷ "staking" ∷ "unbond" ∷ valoper ∷ coin_amt c ∷ user_flags c user)
      ∷ delegation_command c address valoper
      ∷ ("echofid" ∷ "tx" ∷ "staking" ∷ "delegate" ∷ valoper ∷ coin_amt c ∷ user_flags c user)
      ∷ validators_command c
      ∷ []

  pub record Shows (before after : Lab c) : Type 0 where
    pub vals : Vals Any
    pub first : Validator Any
    pub others : List (Validator Any)
    pub first_of : vals.validators ≡ first ∷ others
    pub start : Lab c
    pub listed : IsQuery c d.of_validators (validators_command c) before start vals
    pub stake : Stake first.operator_address start after
    pub commands : after.commands ≡ test_commands first.operator_address ++ before.commands

  first_operator-passes :
      (vs : List (Validator Any)) (before : Lab c) {after : Lab c} {o : String}
      → first_operator c vs before ≡ (after, some o)
      → (v : Validator Any) × (rest : List (Validator Any)) × (vs ≡ v ∷ rest)
        × (v.operator_address ≡ o)
        × (before ≡ after)
  unfolding first_operator
  first_operator-passes [] before h = absurd (cc)
  first_operator-passes (v ∷ rest) before {o = o} h =
      let is : some v.operator_address ≡ some o = ap (λ (r : Lab c × Option String). r.1) h in
      (v, rest, refl, cc, ap (λ (r : Lab c × Option String). r.0) h)

  Stake-commands :
      (valoper : String) (start before after : Lab c)
      → start.commands ≡ validators_command c ∷ before.commands
      → Stake valoper start after
      → after.commands ≡ test_commands valoper ++ before.commands
  Stake-commands valoper start before after listed s =
      let (delegates, unbonds, _) = stake_tokens-IsTx c user valoper (coin_amt c) start in
      let (_, unbonds', _) = stake_tokens-IsTx c user valoper (coin_amt c) s.checked in
      let e1 = ap (λ (r : Lab c × Option (Unit {0})). r.0.commands) s.stakes in
      let e2 = ap (λ (r : Lab c × Option (Unit {0})). r.0.commands) s.unstakes in
      let e3 = delegates.one_command in
      let e4 = unbonds'.one_command in
      let e5 = s.queried.one_command in
      let e6 = s.unbonds.one_command in let e7 = s.last_command in cc

  -- Where the test passes, it has run exactly six commands, all for the validator that is listed
  -- first. Behind the delegation the balance of the user there is the amount that was staked;
  -- behind the unbonding there is an entry for that validator, and the query of the delegation is
  -- refused because its key is not found.
  pub test_stake_token_and_unstake_token-Shows :
      (before after : Lab c)
      → test_stake_token_and_unstake_token c d user address not_found before ≡ (after, some tt)
      → Shows before after
  unfolding test_stake_token_and_unstake_token get_validators
  test_stake_token_and_unstake_token-Shows before after h =
      let (l1, vals, lists, h1) = >>=-passes (get_validators c d.of_validators) _ before h in
      let (l2, valoper, operator, h2) = >>=-passes (first_operator c vals.validators) _ l1 h1 in
      let (first, others, first_of, address_is, same) =
        first_operator-passes vals.validators l1 operator in
      let listed = query-IsQuery c d.of_validators (validators_command c) before lists in
      let stake = staking first.operator_address l1 (
        ap (λ (p : String × Lab c). stake_and_unstake c d user address not_found p.0 p.1)
          (λ i. (address_is i, same i))
        ∙ h2) in
      record {
        vals = vals;
        first = first;
        others = others;
        first_of = first_of;
        start = l1;
        listed = listed;
        stake = stake;
        commands = Stake-commands first.operator_address l1 before after listed.one_command stake;
      }
