-- ===== src/Interchain/Transfer/Tests.antt =====
-- Two chains that keep four balances and send what they are told to, and a run of the test on them.
use echofi.Prelude.{ℕ, ◌+◌, ◌-◌, ◌≡◌, refl, true, [], String, some, str_eq, if◌then◌else◌}
use echofi.Interchain.Transfer.{
  Side, echofi_chain, gaia_chain, Network, Net, test_echofi_gaia_ibc_transfer,
}
use echofi.Interchain.Transfer.Shown.{Shows, test_echofi_gaia_ibc_transfer-Shows}

-- The tokens of the first chain on it and on the other one, and the height.
record Ledger : Type 0 where
  here : ℕ
  there : ℕ
  height : ℕ

abbrev balance : Side → String → Ledger → ℕ
balance echofi_chain denom l = l.here
balance gaia_chain denom l = if str_eq denom "ibc/1" then l.there else 10000000

abbrev moved : Side → ℕ → Ledger → Ledger
moved echofi_chain amount l = record l { here = l.here - amount; there = l.there + amount }
moved gaia_chain amount l = record l { here = l.here + amount; there = l.there - amount }

abbrev network : Network
network = record {
  World = Ledger;
  Packet = ℕ;
  chain_id = λ side. elim side [ echofi_chain ↦ "echofi-2" | gaia_chain ↦ "ibc-1" ];
  denom = λ side. "uecho";
  wait_for_blocks = λ k sides l. (record l { height = l.height + k }, true);
  get_balance = λ side address denom l. some (balance side denom l);
  get_transfer_channel = λ from to l. some (record {
    channel_id = "channel-0";
    counterparty_port = "transfer";
    counterparty_channel = "channel-1";
  });
  height = λ side l. some l.height;
  send_ibc_transfer = λ t l. (moved t.from t.transfer.amount l, some l.height);
  start_relayer = λ path l. (l, true);
  poll_for_ack = λ side from to packet l. (l, true);
  get_prefixed_denom = λ port channel denom. denom;
  ibc_denom = λ denom. "ibc/1";
}

abbrev start : Net network
start = record { world = record { here = 10000000; there = 0; height = 3 }; sent = [] }

abbrev end : Net network
end = (test_echofi_gaia_ibc_transfer network "alice" "bob" start).0

passes : test_echofi_gaia_ibc_transfer network "alice" "bob" start ≡ (end, some 0)
unfolding test_echofi_gaia_ibc_transfer
passes = refl

test_echofi_gaia_ibc_transfer-Shows_example : Shows network "alice" "bob" start end
test_echofi_gaia_ibc_transfer-Shows_example =
    test_echofi_gaia_ibc_transfer-Shows network "alice" "bob" start end 0 passes
