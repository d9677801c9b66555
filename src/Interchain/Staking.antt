-- ===== src/Interchain/Staking.antt =====
-- interchaintest/helpers/staking.go: a transaction of a user, and two blocks.
use echofi.Prelude.{◌≡◌, ◌↔◌, arith, List, [], ◌∷◌, String, Option, some, true, false}
use echofi.Interchain.{Chain, Wallet, Lab, Run, ◌>>=◌, exec_ok, wait_ok}

module _ (c : Chain) where
  -- The flags of the three commands.
  abbrev pub user_flags : Wallet → List String
  user_flags user =
      "--home" ∷ c.home_dir ∷ "--from" ∷ user.key_name ∷ "--node" ∷ c.rpc_address ∷ "--chain-id"
      ∷ c.chain_id ∷ "--gas" ∷ "500000" ∷ "--keyring-dir" ∷ c.home_dir ∷ "--keyring-backend"
      ∷ c.backend_test ∷ "-y" ∷ []

  unfoldable pub stake_tokens : Wallet → String → String → Run c (Unit {0})
  stake_tokens user valoper coin_amt = do
    stdout ←
        exec_ok c ("echofid" ∷ "tx" ∷ "staking" ∷ "delegate" ∷ valoper ∷ coin_amt ∷ user_flags user)
    wait_ok c 2

  unfoldable pub unstake_tokens : Wallet → String → String → Run c (Unit {0})
  unstake_tokens user valoper coin_amt = do
    stdout ←
        exec_ok c ("echofid" ∷ "tx" ∷ "staking" ∷ "unbond" ∷ valoper ∷ coin_amt ∷ user_flags user)
    wait_ok c 2

  unfoldable pub claim_staking_rewards : Wallet → String → Run c (Unit {0})
  claim_staking_rewards user valoper = do
    stdout ←
        exec_ok c
          ("echofid" ∷ "tx" ∷ "distribution" ∷ "withdraw-rewards" ∷ valoper ∷ user_flags user)
    wait_ok c 2

  -- A run of one command and a wait: what it runs and when it passes.
  pub record IsTx (cmd : List String) (lab : Lab c) (r : Lab c × Option (Unit {0})) : Type 0 where
    pub one_command : r.0.commands ≡ cmd ∷ lab.commands
    pub passes : (r.1 ≡ some tt) ↔ (
        ((c.exec cmd lab.world).1.fails ≡ false)
        × ((c.wait_for_blocks 2 (c.exec cmd lab.world).0).1 ≡ true))

  exec_ok-IsTx :
      (cmd : List String) (lab : Lab c)
      → IsTx cmd lab ((exec_ok c cmd >>= λ (stdout : String). wait_ok c 2) lab)
  unfolding exec_ok wait_ok
  exec_ok-IsTx cmd lab = ground arith

  -- Each of the three helpers runs one command, that of its user and for its validator, and passes
  -- exactly if the command does not fail and two blocks come after it.
  pub stake_tokens-IsTx :
      (user : Wallet) (valoper coin_amt : String) (lab : Lab c)
      → IsTx
          ("echofid" ∷ "tx" ∷ "staking" ∷ "delegate" ∷ valoper ∷ coin_amt ∷ user_flags user)
          lab
          (stake_tokens user valoper coin_amt lab)
        × IsTx
            ("echofid" ∷ "tx" ∷ "staking" ∷ "unbond" ∷ valoper ∷ coin_amt ∷ user_flags user)
            lab
            (unstake_tokens user valoper coin_amt lab)
        × IsTx
            ("echofid" ∷ "tx" ∷ "distribution" ∷ "withdraw-rewards" ∷ valoper ∷ user_flags user)
            lab
            (claim_staking_rewards user valoper lab)
  unfolding stake_tokens unstake_tokens claim_staking_rewards
  stake_tokens-IsTx user valoper coin_amt lab =
      (exec_ok-IsTx _ lab, exec_ok-IsTx _ lab, exec_ok-IsTx _ lab)
