-- ===== src/Export/RecordTests.antt =====
-- A distribution module whose calls fail where its records are missing: they are cleared by the
-- preparation, and made again for the validators.
use echofi.Prelude.{
  ◌≡◌, refl, sym, subst, ℕ, Bool, true, false, List, [], ◌∷◌, Option, none, some, if◌then◌else◌,
}
use echofi.Export.Chain.{Validator, Chain, Keepers}
use echofi.Export.ZeroHeight.Frame.{SameTables, Lawful}
use echofi.Export.ZeroHeight.Records.{Documented}
use echofi.Export.ZeroHeight.Returns.{ComesToUpdate, prep_for_zero_height_genesis-Returns}

abbrev is_empty : List Validator → Bool
is_empty [] = true
is_empty (v ∷ vs) = false

abbrev with_records : Chain Bool → Option (Chain Bool)
with_records c = if c.other then some c else none

-- `other` says whether the records of all validators are there.
abbrev keepers : Keepers
keepers = record {
  D = Bool;
  Coins = ℕ;
  add = λ a b. a;
  val_address_from_bech32 = λ s. some s;
  acc_address_from_bech32 = λ s. some s;
  string_to_bytes = λ s. some s;
  val_address_string = λ s. s;
  fails = λ s c. false;
  withdraw_validator_commission = λ a c. c;
  withdraw_delegation_rewards = λ d v c. with_records c;
  delete_all_validator_slash_events = λ c. c;
  delete_all_validator_historical_rewards = λ c. record c { other = is_empty c.validators };
  get_validator_outstanding_rewards_coins = λ a c. some 1;
  fee_pool_get = λ c. some (record { community_pool = 0 });
  fee_pool_set = λ p c. some c;
  after_validator_created = λ a c. some (record c { other = true });
  before_delegation_created = λ d v c. with_records c;
  after_delegation_modified = λ d v c. with_records c;
  apply_and_return_validator_set_updates = λ c. some c;
}

with_other : (c : Chain Bool) (b : Bool) → SameTables c (record c { other = b })
with_other c b = record {
  height = refl;
  validators = refl;
  delegations = refl;
  redelegations = refl;
  unbonding_delegations = refl;
  signing_infos = refl;
}

given : (c c1 c' : Chain Bool) → SameTables c c1 → some c1 ≡ some c' → SameTables c c'
given c c1 c' same h = let e : c1 ≡ c' = cc in subst (SameTables c) e same

checked : (b : Bool) (c c' : Chain Bool) → (if b then some c else none) ≡ some c' → SameTables c c'
checked true c c' h = given c c c' (with_other c c.other) h
checked false c c' h = absurd (cc)

keepers-Lawful : Lawful keepers
keepers-Lawful = record {
  commission_keeps = λ a c. with_other c c.other;
  rewards_keep = λ d v c. checked c.other c;
  slash_events_keep = λ c. with_other c c.other;
  historical_keep = λ c. with_other c (is_empty c.validators);
  pool_keeps = λ p c c'. given c c c' (with_other c c.other);
  created_keeps = λ a c c'. given c (record c { other = true }) c' (with_other c true);
  before_keeps = λ d v c. checked c.other c;
  after_keeps = λ d v c. checked c.other c;
  update_keeps = λ c c' h. let e : c' ≡ c = cc in rw e (refl, refl);
  update_unique = λ c c' h u. let e : c ≡ c' = cc in rw (← e) u;
}

abbrev Missing : List Validator → Chain Bool → Type 0
Missing [] c = c.other ≡ true
Missing (v ∷ vs) c = Unit

all-Missing :
    (vs : List Validator) (c : Chain Bool)
    → Missing vs (record c { height = 0; validators = vs; other = is_empty vs })
all-Missing [] c = refl
all-Missing (v ∷ vs) c = tt

still-Missing : (vs : List Validator) (c : Chain Bool) → Missing vs (record c { other = true })
still-Missing [] c = refl
still-Missing (v ∷ vs) c = tt

abbrev keepers-Documented : Documented keepers
keepers-Documented = record {
  Complete = λ c. c.other ≡ true;
  Pending = Missing;
  Opened = λ d v c. c.other ≡ true;
  commission = λ a c h. h;
  rewards = λ d v c h s. (c, rw h refl, h);
  cleared = λ c c' h e.
      subst (λ (c' : Chain Bool). Missing c'.validators (record c' { height = 0 })) (sym e)
        (all-Missing c.validators c);
  outstanding = λ v vs a c h e. (1, refl);
  pool_get = λ vs c h. (record { community_pool = 0 }, refl);
  pool_set = λ p vs c h. (c, refl, h);
  created = λ v vs a c h e. (record c { other = true }, refl, still-Missing vs c);
  before = λ d v c h s. (c, rw h refl, h);
  after = λ d v c h. (c, rw h refl, h);
}

abbrev running : Chain Bool
running = record {
  height = 9;
  validators =
      record { address = "a"; operator = "a"; unbonding_height = 3; jailed = false; extra = "" }
      ∷ record { address = "b"; operator = "b"; unbonding_height = 4; jailed = false; extra = "" }
      ∷ [];
  delegations = record { delegator_address = "d"; validator_address = "a" } ∷ [];
  redelegations = [];
  unbonding_delegations = [];
  signing_infos = record { cons_address = "c"; start_height = 5; extra = "" } ∷ [];
  other = true;
}

prep_for_zero_height_genesis-Returns_example :
    ComesToUpdate keepers (λ s c. refl) keepers-Lawful keepers-Documented ("a" ∷ []) running
prep_for_zero_height_genesis-Returns_example =
    prep_for_zero_height_genesis-Returns keepers (λ s c. refl) keepers-Lawful keepers-Documented
      ("a" ∷ []) running refl (("a", refl), tt) ((("a", refl), ("d", refl)), tt)
      (("a", refl), (("b", refl), tt))
