-- ===== src/Interchain/Transfer.antt =====
-- `TestEchofiGaiaIBCTransfer` of interchaintest/ibc_transfer_test.go from the test users on: tokens
-- go from one chain to the other and back.
pub mod Passes
pub mod Shown
pub mod Tests
use echofi.Prelude.{ℕ, ◌+◌, ◌%◌, ◌^◌, ◌==◌, Bool, List, [], ◌∷◌, String, Option, some}
use echofi.Interchain.{TestOn, ◌>>=◌, ◌>>◌, require_on, value_on}

pub data Side : Type 0 where
  echofi_chain gaia_chain : Side

-- `ibc.WalletAmount`
pub record WalletAmount : Type 0 where
  pub address : String
  pub denom : String
  pub amount : ℕ

-- `ibc.ChannelOutput`, with the fields that are read.
pub record Channel : Type 0 where
  pub channel_id : String
  pub counterparty_port : String
  pub counterparty_channel : String

-- A transfer that has been sent: the chain, the channel, the sender and what goes to whom.
pub record Transfer : Type 0 where
  pub from : Side
  pub channel : String
  pub sender : String
  pub transfer : WalletAmount

-- The two chains and the relayer. A call runs to its end in one step; `none` and `false` are its
-- error. Heights are 64-bit words, and balances are not negative.
pub record Network : Type 1 where
  pub World : Type 0
  pub Packet : Type 0
  pub chain_id : Side → String
  pub denom : Side → String
  pub wait_for_blocks : ℕ → List Side → World → World × Bool
  pub get_balance : Side → String → String → World → Option ℕ
  pub get_transfer_channel : String → String → World → Option Channel
  pub height : Side → World → Option ℕ
  pub send_ibc_transfer : Transfer → World → World × Option Packet
  pub start_relayer : String → World → World × Bool
  pub poll_for_ack : Side → ℕ → ℕ → Packet → World → World × Bool
  pub get_prefixed_denom : String → String → String → String
  pub ibc_denom : String → String

abbrev pub genesis_wallet_amount : ℕ
genesis_wallet_amount = 10000000

abbrev pub transfer_amount : ℕ
transfer_amount = 1000

abbrev pub path : String
path = "ibc-path"

module _ (n : Network) where
  -- The chains, and the transfers that have been sent, the last one first.
  pub record Net : Type 0 where
    pub world : n.World
    pub sent : List Transfer

  abbrev pub Go : Type 0 → Type 0
  Go A = TestOn Net A

  -- A call whose error stops the test.
  pub must_come : (n.World → n.World × Bool) → Go (Unit {0})
  must_come call s =
      let (after, came) = call s.world in require_on came (record s { world = after })

  abbrev pub ask : {A : Type 0} → (n.World → Option A) → Go A
  ask query s = value_on (query s.world) s

  -- `GetBalance` and `require.Equal`.
  pub check_balance : Side → String → String → (ℕ → Bool) → Go ℕ
  check_balance side address denom wanted = do
    balance ← ask (n.get_balance side address denom)
    require_on (wanted balance)
    value_on (some balance)

  pub send : Transfer → Go n.Packet
  send t s =
      let (after, packet) = n.send_ibc_transfer t s.world in
      value_on packet (record { world = after; sent = t ∷ s.sent })

  -- `PollForAck`. The sum of the heights wraps.
  pub poll_ack : Side → ℕ → ℕ → n.Packet → Go (Unit {0})
  poll_ack side from delta packet =
      must_come (n.poll_for_ack side from ((from + delta) % 2 ^ 64) packet)

  -- The denomination of the tokens of the first chain on the second one.
  abbrev pub echofi_ibc_denom : Channel → String
  echofi_ibc_denom channel = n.ibc_denom (
      n.get_prefixed_denom channel.counterparty_port channel.counterparty_channel
        (n.denom echofi_chain))

  module _ (echofi_user gaia_user : String) where
    abbrev pub transfer_there : Channel → Transfer
    transfer_there channel = record {
      from = echofi_chain;
      channel = channel.channel_id;
      sender = echofi_user;
      transfer = record {
        address = gaia_user;
        denom = n.denom echofi_chain;
        amount = transfer_amount;
      };
    }

    abbrev pub transfer_back : Channel → Transfer
    transfer_back channel = record {
      from = gaia_chain;
      channel = channel.counterparty_channel;
      sender = gaia_user;
      transfer = record {
        address = echofi_user;
        denom = echofi_ibc_denom channel;
        amount = transfer_amount;
      };
    }

    -- The first part: the balances that the users start with. That on the first chain is kept.
    pub check_users : Go ℕ
    unfolding check_balance must_come
    check_users = do
      must_come (n.wait_for_blocks 5 (echofi_chain ∷ gaia_chain ∷ []))
      echofi_orig_bal ←
          check_balance echofi_chain echofi_user (n.denom echofi_chain)
            (λ b. genesis_wallet_amount == b)
      gaia_orig_bal ←
          check_balance gaia_chain gaia_user (n.denom gaia_chain) (λ b. genesis_wallet_amount == b)
      value_on (some echofi_orig_bal)

    -- From the first chain to the second one. The balance is compared with a difference of whole
    -- numbers, which is written as a sum.
    pub go_there : Channel → ℕ → Go ℕ
    unfolding check_balance send must_come poll_ack
    go_there channel echofi_orig_bal = do
      height ← ask (n.height echofi_chain)
      packet ← send (transfer_there channel)
      must_come (n.start_relayer path)
      poll_ack echofi_chain height 50 packet
      must_come (n.wait_for_blocks 10 (echofi_chain ∷ []))
      echofi_update_bal ←
          check_balance echofi_chain echofi_user (n.denom echofi_chain)
            (λ b. echofi_orig_bal == b + transfer_amount)
      check_balance gaia_chain gaia_user (echofi_ibc_denom channel) (λ b. transfer_amount == b)

    -- The way back.
    pub go_back : Channel → ℕ → Go ℕ
    unfolding check_balance send must_come poll_ack
    go_back channel echofi_orig_bal = do
      height ← ask (n.height gaia_chain)
      packet ← send (transfer_back channel)
      poll_ack gaia_chain height 25 packet
      echofi_update_bal ←
          check_balance echofi_chain echofi_user (n.denom echofi_chain) (λ b. echofi_orig_bal == b)
      check_balance gaia_chain gaia_user (echofi_ibc_denom channel) (λ b. 0 == b)

    -- The result is the last balance that is read.
    unfoldable pub test_echofi_gaia_ibc_transfer : Go ℕ
    unfolding check_users go_there go_back
    test_echofi_gaia_ibc_transfer = do
      echofi_orig_bal ← check_users
      channel ← ask (n.get_transfer_channel (n.chain_id echofi_chain) (n.chain_id gaia_chain))
      arrived ← go_there channel echofi_orig_bal
      go_back channel echofi_orig_bal
