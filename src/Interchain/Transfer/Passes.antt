-- ===== src/Interchain/Transfer/Passes.antt =====
-- The steps of the test of interchaintest/ibc_transfer_test.go: what each has checked where it
-- passes.
use echofi.Prelude.{
  ℕ, ◌+◌, ◌%◌, ◌^◌, ◌==◌, ◌≡◌, sym, ap, ◌∙◌, arith, Bool, true, [], ◌∷◌, String, some,
}
use echofi.Interchain.{>>=-passes, require_on, require-passes, value-passes}
use echofi.Interchain.Transfer.{
  Side, echofi_chain, gaia_chain, Channel, Transfer, Network, Net, must_come, ask, check_balance,
  send, poll_ack, echofi_ibc_denom, transfer_there, transfer_back, check_users, go_there, go_back,
  genesis_wallet_amount, transfer_amount, path,
}

equal : (a b : ℕ) → (a == b) ≡ true → a ≡ b
equal a b h = ground arith

module _ (n : Network) where
  -- An account of a chain.
  abbrev pub HasBalance : Side → String → String → Net n → ℕ → Type 0
  HasBalance side address denom s b = n.get_balance side address denom s.world ≡ some b

  abbrev pub ack_call : Transfer → ℕ → ℕ → n.Packet → n.World → n.World × Bool
  ack_call t delta from packet = n.poll_for_ack t.from from ((from + delta) % 2 ^ 64) packet

  -- A transfer is sent from `before` on, and its packet acknowledged within `delta` blocks of the
  -- height there, before `after`.
  pub record IsSent (t : Transfer) (delta : ℕ) (before after : Net n) : Type 0 where
    pub from : ℕ
    pub packet : n.Packet
    pub from_height : n.height t.from before.world ≡ some from
    pub sends : (n.send_ibc_transfer t before.world).1 ≡ some packet
    pub one_more : after.sent ≡ t ∷ before.sent
    pub acked_in : n.World
    pub acked : (ack_call t delta from packet acked_in).1 ≡ true

  check_balance-passes :
      (side : Side) (address denom : String) (wanted : ℕ → Bool) (before : Net n) {after : Net n}
      {b : ℕ}
      → check_balance n side address denom wanted before ≡ (after, some b)
      → (after ≡ before) × HasBalance side address denom before b × (wanted b ≡ true)
  unfolding check_balance
  check_balance-passes side address denom wanted before {after = after} {b = b} h =
      let (s1, b1, asked, h1) = >>=-passes (ask n (n.get_balance side address denom)) _ before h in
      let (same1, has) = value-passes _ before asked in
      let (s2, _, wants, h2) = >>=-passes (require_on (wanted b1)) _ s1 h1 in
      let (want, same2) = require-passes (wanted b1) s1 wants in
      let (same3, is) = value-passes (some b1) s2 h2 in
      let same : b1 ≡ b = cc in (same3 ∙ same2 ∙ same1, has ∙ is, ap wanted (sym same) ∙ want)

  must_come-passes :
      (call : n.World → n.World × Bool) (before : Net n) {after : Net n} {u : Unit {0}}
      → must_come n call before ≡ (after, some u)
      → (after.sent ≡ before.sent) × ((call before.world).1 ≡ true)
  unfolding must_come
  must_come-passes call before h =
      let (came, same) = require-passes _ _ h in (ap (λ (s : Net n). s.sent) same, came)

  send-passes :
      (t : Transfer) (before : Net n) {after : Net n} {p : n.Packet}
      → send n t before ≡ (after, some p)
      → (after.sent ≡ t ∷ before.sent) × ((n.send_ibc_transfer t before.world).1 ≡ some p)
  unfolding send
  send-passes t before h =
      let (same, packet) = value-passes _ _ h in (ap (λ (s : Net n). s.sent) same, packet)

  module _ (echofi_user gaia_user : String) where
    -- What the users start with.
    pub users :
        (before : Net n) {after : Net n} {b : ℕ}
        → check_users n echofi_user gaia_user before ≡ (after, some b)
        → HasBalance echofi_chain echofi_user (n.denom echofi_chain) after genesis_wallet_amount
          × HasBalance gaia_chain gaia_user (n.denom gaia_chain) after genesis_wallet_amount
          × (after.sent ≡ before.sent)
          × (b ≡ genesis_wallet_amount)
    unfolding check_users
    users before {after = after} {b = b} h =
        let wait = n.wait_for_blocks 5 (echofi_chain ∷ gaia_chain ∷ []) in
        let (s1, _, waits, h1) = >>=-passes (must_come n wait) _ before h in
        let (sent1, _) = must_come-passes wait before waits in
        let (s2, b1, first, h2) =
          >>=-passes (check_balance n echofi_chain echofi_user (n.denom echofi_chain) _) _ s1 h1 in
        let (same2, has1, is1) = check_balance-passes _ _ _ _ s1 first in
        let (s3, b2, second, h3) =
          >>=-passes (check_balance n gaia_chain gaia_user (n.denom gaia_chain) _) _ s2 h2 in
        let (same3, has2, is2) = check_balance-passes _ _ _ _ s2 second in
        let (same4, kept) = value-passes (some b1) s3 h3 in
        let eq1 = equal genesis_wallet_amount b1 is1 in
        let eq2 = equal genesis_wallet_amount b2 is2 in
        let sent2 = ap (λ (s : Net n). s.sent) (same4 ∙ same3 ∙ same2) in
        let worlds = ap (λ (s : Net n). s.world) (same4 ∙ same3) in
        let world1 = ap (λ (s : Net n). s.world) same2 in
        let same_b : b1 ≡ b = cc in (cc, cc, sent2 ∙ sent1, sym same_b ∙ sym eq1)

    -- The way there: the transfer, and the balances behind it.
    pub went_there :
        (channel : Channel) (orig : ℕ) (before : Net n) {after : Net n} {b : ℕ}
        → go_there n echofi_user gaia_user channel orig before ≡ (after, some b)
        → IsSent (transfer_there n echofi_user gaia_user channel) 50 before after
          × HasBalance gaia_chain gaia_user (echofi_ibc_denom n channel) after transfer_amount
          × ((b' : ℕ) × HasBalance echofi_chain echofi_user (n.denom echofi_chain) after b'
              × (orig ≡ b' + transfer_amount))
    unfolding go_there poll_ack
    went_there channel orig before {after = after} h =
        let t = transfer_there n echofi_user gaia_user channel in
        let (s1, from, asks, h1) = >>=-passes (ask n (n.height echofi_chain)) _ before h in
        let (same1, from_height) = value-passes _ before asks in
        let (s2, packet, sends, h2) = >>=-passes (send n t) _ s1 h1 in
        let (sent2, packet_of) = send-passes t s1 sends in
        let (s3, _, relays, h3) = >>=-passes (must_come n (n.start_relayer path)) _ s2 h2 in
        let (sent3, _) = must_come-passes (n.start_relayer path) s2 relays in
        let (s4, _, polls, h4) = >>=-passes (poll_ack n echofi_chain from 50 packet) _ s3 h3 in
        let (sent4, acked) = must_come-passes (ack_call t 50 from packet) s3 polls in
        let (s5, _, waits, h5) =
          >>=-passes (must_come n (n.wait_for_blocks 10 (echofi_chain ∷ []))) _ s4 h4 in
        let (sent5, _) = must_come-passes (n.wait_for_blocks 10 (echofi_chain ∷ [])) s4 waits in
        let (s6, b1, first, h6) =
          >>=-passes (check_balance n echofi_chain echofi_user (n.denom echofi_chain) _) _ s5 h5 in
        let (same6, has1, is1) = check_balance-passes _ _ _ _ s5 first in
        let (same7, has2, is2) = check_balance-passes _ _ _ _ s6 h6 in
        let eq2 = equal transfer_amount _ is2 in
        let worlds = ap (λ (s : Net n). s.world) (same7 ∙ same6) in
        let world6 = ap (λ (s : Net n). s.world) same6 in
        let world1 = ap (λ (s : Net n). s.world) same1 in
        let list1 = ap (λ (s : Net n). s.sent) same1 in
        let list7 = ap (λ (s : Net n). s.sent) (same7 ∙ same6) in
        (
          record {
            from = from;
            packet = packet;
            from_height = from_height;
            sends = cc;
            one_more = cc;
            acked_in = s3.world;
            acked = acked;
          },
          cc,
          (b1, cc, equal orig (b1 + transfer_amount) is1),
        )

    -- The way back.
    pub came_back :
        (channel : Channel) (orig : ℕ) (before : Net n) {after : Net n} {b : ℕ}
        → go_back n echofi_user gaia_user channel orig before ≡ (after, some b)
        → IsSent (transfer_back n echofi_user gaia_user channel) 25 before after
          × HasBalance echofi_chain echofi_user (n.denom echofi_chain) after orig
          × HasBalance gaia_chain gaia_user (echofi_ibc_denom n channel) after 0
    unfolding go_back poll_ack
    came_back channel orig before {after = after} h =
        let t = transfer_back n echofi_user gaia_user channel in
        let (s1, from, asks, h1) = >>=-passes (ask n (n.height gaia_chain)) _ before h in
        let (same1, from_height) = value-passes _ before asks in
        let (s2, packet, sends, h2) = >>=-passes (send n t) _ s1 h1 in
        let (sent2, packet_of) = send-passes t s1 sends in
        let (s3, _, polls, h3) = >>=-passes (poll_ack n gaia_chain from 25 packet) _ s2 h2 in
        let (sent3, acked) = must_come-passes (ack_call t 25 from packet) s2 polls in
        let (s4, b1, first, h4) =
          >>=-passes (check_balance n echofi_chain echofi_user (n.denom echofi_chain) _) _ s3 h3 in
        let (same4, has1, is1) = check_balance-passes _ _ _ _ s3 first in
        let (same5, has2, is2) = check_balance-passes _ _ _ _ s4 h4 in
        let eq1 = equal orig b1 is1 in
        let eq2 = equal 0 _ is2 in
        let worlds = ap (λ (s : Net n). s.world) (same5 ∙ same4) in
        let world4 = ap (λ (s : Net n). s.world) same4 in
        let world1 = ap (λ (s : Net n). s.world) same1 in
        let list1 = ap (λ (s : Net n). s.sent) same1 in
        let list5 = ap (λ (s : Net n). s.sent) (same5 ∙ same4) in
        (
          record {
            from = from;
            packet = packet;
            from_height = from_height;
            sends = cc;
            one_more = cc;
            acked_in = s2.world;
            acked = acked;
          },
          cc,
          cc,
        )
