-- ===== src/Export/PoolTests.antt =====
-- The zero-height preparation over a state that is the community pool.
use echofi.Prelude.{
  ℕ, ◌+◌, ◌≡◌, refl, ap, str_eq, eq_iff, arith, if◌then◌else◌, false, List, [], ◌∷◌, String, some,
}
use echofi.Export.Chain.{Validator, Chain, FeePool, Keepers, ok}
use echofi.Export.ZeroHeight.{reinit_validators}
use echofi.Export.ZeroHeight.Donations.{KeepsAccounts, Scraps, add_all, reinit_validators_donate}

-- Validator b has 4 outstanding, and every other one 3.
abbrev outstanding : String → ℕ
outstanding a = if str_eq a "b" then 4 else 3

abbrev keepers : Keepers
keepers = record {
  D = ℕ;
  Coins = ℕ;
  add = λ a b. a + b;
  val_address_from_bech32 = λ s. some s;
  acc_address_from_bech32 = λ s. some s;
  string_to_bytes = λ s. some s;
  val_address_string = λ s. s;
  fails = λ s c. false;
  withdraw_validator_commission = λ a c. c;
  withdraw_delegation_rewards = λ d v c. some c;
  delete_all_validator_slash_events = λ c. c;
  delete_all_validator_historical_rewards = λ c. c;
  get_validator_outstanding_rewards_coins = λ a c. some (outstanding a);
  fee_pool_get = λ c. some (record { community_pool = c.other });
  fee_pool_set = λ p c. some (record c { other = p.community_pool });
  after_validator_created = λ a c. some c;
  before_delegation_created = λ d v c. some c;
  after_delegation_modified = λ d v c. some c;
  apply_and_return_validator_set_updates = λ c. some c;
}

pool_read :
    (p : FeePool ℕ) (c c' : Chain ℕ)
    → some (record c { other = p.community_pool }) ≡ some c'
    → c'.other ≡ p.community_pool
pool_read p c c' h = let e : c' ≡ record c { other = p.community_pool } = cc in rw e refl

keepers-KeepsAccounts : KeepsAccounts keepers
keepers-KeepsAccounts = record {
  set_get = λ p c c' h. ap (λ n. some (record { community_pool = n })) (pool_read p c c' h);
  set_outstanding = λ p c c' v h. refl;
  hook_pool =
      λ v c c' h. let e : c' ≡ c = cc in ap (λ k. some (record { community_pool = k.other })) e;
  hook_outstanding = λ v w c c' d h. refl;
}

abbrev validators : List Validator
validators =
    record { address = "a"; operator = "a"; unbonding_height = 1; jailed = false; extra = "" }
    ∷ record { address = "b"; operator = "b"; unbonding_height = 2; jailed = false; extra = "" }
    ∷ []

abbrev with_pool : ℕ → Chain ℕ
with_pool n = record {
  height = 0;
  validators = validators;
  delegations = [];
  redelegations = [];
  unbonding_delegations = [];
  signing_infos = [];
  other = n;
}

pool_run : reinit_validators keepers validators (with_pool 10) ≡ ok (with_pool 17)
unfolding reinit_validators
pool_run = refl

reinit_validators_donate_example :
    (ss : List ℕ) × Scraps keepers validators (with_pool 10) ss
    × (keepers.fee_pool_get (with_pool 17)
        ≡ some (record { community_pool = add_all keepers 10 ss }))
reinit_validators_donate_example =
    reinit_validators_donate keepers keepers-KeepsAccounts validators (with_pool 10) (with_pool 17)
      10 ((λ e. ground (arith, eq_iff "a" "b"), tt), (tt, tt)) refl pool_run
