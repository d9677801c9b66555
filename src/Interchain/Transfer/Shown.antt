-- ===== src/Interchain/Transfer/Shown.antt =====
-- What the test of interchaintest/ibc_transfer_test.go has shown where it passes.
use echofi.Prelude.{ℕ, ◌≡◌, sym, ap, ◌∙◌, arith, ◌∷◌, String, some}
use echofi.Interchain.{>>=-passes, value-passes}
use echofi.Interchain.Transfer.{
  echofi_chain, gaia_chain, Channel, Network, Net, ask, echofi_ibc_denom, transfer_there,
  transfer_back, check_users, go_there, test_echofi_gaia_ibc_transfer,
}
use echofi.Interchain.Transfer.Passes.{HasBalance, IsSent, users, went_there, came_back}

module _ (n : Network) (echofi_user gaia_user : String) where
  pub record Shows (before after : Net n) : Type 0 where
    pub channel : Channel
    pub start : Net n
    pub channel_of :
        n.get_transfer_channel (n.chain_id echofi_chain) (n.chain_id gaia_chain) start.world
        ≡ some channel
    pub funded : HasBalance n echofi_chain echofi_user (n.denom echofi_chain) start 10000000
    pub funded_too : HasBalance n gaia_chain gaia_user (n.denom gaia_chain) start 10000000
    pub arrived : Net n
    pub goes : IsSent n (transfer_there n echofi_user gaia_user channel) 50 start arrived
    pub gone : HasBalance n echofi_chain echofi_user (n.denom echofi_chain) arrived 9999000
    pub is_there : HasBalance n gaia_chain gaia_user (echofi_ibc_denom n channel) arrived 1000
    pub returns : IsSent n (transfer_back n echofi_user gaia_user channel) 25 arrived after
    pub is_back : HasBalance n echofi_chain echofi_user (n.denom echofi_chain) after 10000000
    pub none_left : HasBalance n gaia_chain gaia_user (echofi_ibc_denom n channel) after 0
    pub two_sent :
        after.sent
        ≡ transfer_back n echofi_user gaia_user channel
          ∷ transfer_there n echofi_user gaia_user channel
          ∷ before.sent

  -- Where the test passes, exactly two transfers have been sent, both of 1000 and both
  -- acknowledged: one to the other chain within 50 blocks, and one of the tokens that came of it
  -- back within 25 blocks, over the other end of the same channel. The user of the first chain
  -- has 10000000, then 9999000 and 10000000 again, and the user of the other chain 1000 in
  -- between and nothing of it in the end.
  pub test_echofi_gaia_ibc_transfer-Shows :
      (before after : Net n) (b : ℕ)
      → test_echofi_gaia_ibc_transfer n echofi_user gaia_user before ≡ (after, some b)
      → Shows before after
  unfolding test_echofi_gaia_ibc_transfer
  test_echofi_gaia_ibc_transfer-Shows before after b h =
      let (s1, orig, checks, h1) = >>=-passes (check_users n echofi_user gaia_user) _ before h in
      let (funded, funded_too, unsent, orig_is) = users n echofi_user gaia_user before checks in
      let (s2, channel, asks, h2) = >>=-passes (ask n (n.get_transfer_channel _ _)) _ s1 h1 in
      let (same, channel_of) = value-passes _ s1 asks in
      let (s3, b3, goes, h3) = >>=-passes (go_there n echofi_user gaia_user channel orig) _ s2 h2 in
      let (sent3, is_there, (gone, has, is)) =
        went_there n echofi_user gaia_user channel orig s1
          (ap (go_there n echofi_user gaia_user channel orig) (sym same) ∙ goes) in
      let (sent4, is_back, none_left) = came_back n echofi_user gaia_user channel orig s3 h3 in
      let gone_is : gone ≡ 9999000 = omega arith in
      let list3 = sent3.one_more in
      let list4 = sent4.one_more in
      record {
        channel = channel;
        start = s1;
        channel_of = channel_of;
        funded = funded;
        funded_too = funded_too;
        arrived = s3;
        goes = sent3;
        gone = has ∙ ap some gone_is;
        is_there = is_there;
        returns = sent4;
        is_back = is_back ∙ ap some orig_is;
        none_left = none_left;
        two_sent = cc;
      }
