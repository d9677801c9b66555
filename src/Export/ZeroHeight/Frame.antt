-- ===== src/Export/ZeroHeight/Frame.antt =====
-- The part on the fee distribution leaves the staking and slashing tables alone.
use echofi.Prelude.{◌≡◌, refl, ◌∙◌, List, [], ◌∷◌, String, some, arith}
use mathlib.Core.Option
use echofi.Export.Chain.{
  Validator, Delegation, Chain, Site, iterate_commissions, get_all_delegations, iterate_reinit,
  FeePool, Keepers, ok, must,
}
use echofi.Export.Tables.{IsUnique}
use echofi.Export.ZeroHeight.{
  signing_key, C, at_site, withdraw_commissions, withdraw_rewards, reinit_validator,
  reinit_validators, reinit_delegations, handle_distribution,
}
use echofi.Export.ZeroHeight.Loops.{>>=-ok, must-ok, at_site-ok}

-- The two states agree in all but what the bank and the distribution module keep.
pub record SameTables {D : Type 0} (c c' : Chain D) : Type 0 where
  pub height : c'.height ≡ c.height
  pub validators : c'.validators ≡ c.validators
  pub delegations : c'.delegations ≡ c.delegations
  pub redelegations : c'.redelegations ≡ c.redelegations
  pub unbonding_delegations : c'.unbonding_delegations ≡ c.unbonding_delegations
  pub signing_infos : c'.signing_infos ≡ c.signing_infos

-- The calls of the distribution module write to its own store and to the bank only, and the update
-- of the validator set writes no redelegation and no unbonding delegation. The hooks of slashing,
-- which it runs, may write signing infos; they stay a table with one value for a key.
pub record Lawful (x : Keepers) : Type 0 where
  pub commission_keeps : (a : String) (c : C x) → SameTables c (x.withdraw_validator_commission a c)
  pub rewards_keep :
      (d v : String) (c c' : C x) → x.withdraw_delegation_rewards d v c ≡ some c' → SameTables c c'
  pub slash_events_keep : (c : C x) → SameTables c (x.delete_all_validator_slash_events c)
  pub historical_keep : (c : C x) → SameTables c (x.delete_all_validator_historical_rewards c)
  pub pool_keeps :
      (p : FeePool x.Coins) (c c' : C x) → x.fee_pool_set p c ≡ some c' → SameTables c c'
  pub created_keeps :
      (a : String) (c c' : C x) → x.after_validator_created a c ≡ some c' → SameTables c c'
  pub before_keeps :
      (d v : String) (c c' : C x) → x.before_delegation_created d v c ≡ some c' → SameTables c c'
  pub after_keeps :
      (d v : String) (c c' : C x) → x.after_delegation_modified d v c ≡ some c' → SameTables c c'
  pub update_keeps :
      (c c' : C x)
      → x.apply_and_return_validator_set_updates c ≡ some c'
      → (c'.redelegations ≡ c.redelegations) × (c'.unbonding_delegations ≡ c.unbonding_delegations)
  pub update_unique :
      (c c' : C x)
      → x.apply_and_return_validator_set_updates c ≡ some c'
      → IsUnique signing_key c.signing_infos
      → IsUnique signing_key c'.signing_infos

SameTables-refl : {D : Type 0} (c : Chain D) → SameTables c c
SameTables-refl c = record {
  height = refl;
  validators = refl;
  delegations = refl;
  redelegations = refl;
  unbonding_delegations = refl;
  signing_infos = refl;
}

pub SameTables-trans :
    {D : Type 0} (a b c : Chain D) → SameTables a b → SameTables b c → SameTables a c
SameTables-trans a b c p q = record {
  height = q.height ∙ p.height;
  validators = q.validators ∙ p.validators;
  delegations = q.delegations ∙ p.delegations;
  redelegations = q.redelegations ∙ p.redelegations;
  unbonding_delegations = q.unbonding_delegations ∙ p.unbonding_delegations;
  signing_infos = q.signing_infos ∙ p.signing_infos;
}

module _ (x : Keepers) (law : Lawful x) where
  pub at_site-SameTables : (s : Site) (c c' : C x) → at_site x s c ≡ ok c' → SameTables c c'
  at_site-SameTables s c c' h = rw (at_site-ok x s c c' h) (SameTables-refl c)

  pub commissions-SameTables :
      (vs : List Validator) (c : C x) → SameTables c (withdraw_commissions x vs c)
  unfolding withdraw_commissions
  commissions-SameTables [] c = SameTables-refl c
  commissions-SameTables (v ∷ vs) c =
      let a = Option.get_or (x.string_to_bytes v.operator) "" in
      SameTables-trans c (x.withdraw_validator_commission a c) _ (law.commission_keeps a c)
        (commissions-SameTables vs (x.withdraw_validator_commission a c))

  pub rewards-SameTables :
      (ds : List Delegation) (c c' : C x) → withdraw_rewards x ds c ≡ ok c' → SameTables c c'
  unfolding withdraw_rewards
  rewards-SameTables [] c c' h = let e : c ≡ c' = cc in rw (← e) (SameTables-refl c)
  rewards-SameTables (d ∷ ds) c c' h =
      let (val, _, h1) = >>=-ok (must (x.val_address_from_bech32 d.validator_address)) _ h in
      let (del, _, h2) = >>=-ok (must (x.acc_address_from_bech32 d.delegator_address)) _ h1 in
      let (c1, m, h3) = >>=-ok (must (x.withdraw_delegation_rewards del val c)) _ h2 in
      SameTables-trans c c1 c' (law.rewards_keep del val c c1 (must-ok _ m))
        (rewards-SameTables ds c1 c' h3)

  pub reinit_validator-SameTables :
      (v : Validator) (c c' : C x) → reinit_validator x v c ≡ ok c' → SameTables c c'
  unfolding reinit_validator
  reinit_validator-SameTables v c c' h =
      let (val, _, h1) = >>=-ok (must (x.string_to_bytes v.operator)) _ h in
      let (scraps, _, h2) = >>=-ok (must (x.get_validator_outstanding_rewards_coins val c)) _ h1 in
      let (pool, _, h3) = >>=-ok (must (x.fee_pool_get c)) _ h2 in
      let pool' : FeePool x.Coins = record { community_pool = x.add pool.community_pool scraps } in
      let (c1, m, h4) = >>=-ok (must (x.fee_pool_set pool' c)) _ h3 in
      SameTables-trans c c1 c' (law.pool_keeps pool' c c1 (must-ok _ m))
        (law.created_keeps val c1 c' (must-ok _ h4))

  pub reinit_validators-SameTables :
      (vs : List Validator) (c c' : C x) → reinit_validators x vs c ≡ ok c' → SameTables c c'
  unfolding reinit_validators
  reinit_validators-SameTables [] c c' h = let e : c ≡ c' = cc in rw (← e) (SameTables-refl c)
  reinit_validators-SameTables (v ∷ vs) c c' h =
      let (c1, m, h1) = >>=-ok (reinit_validator x v c) _ h in
      SameTables-trans c c1 c' (reinit_validator-SameTables v c c1 m)
        (reinit_validators-SameTables vs c1 c' h1)

  reinit_delegations-SameTables :
      (ds : List Delegation) (c c' : C x) → reinit_delegations x ds c ≡ ok c' → SameTables c c'
  unfolding reinit_delegations
  reinit_delegations-SameTables [] c c' h = let e : c ≡ c' = cc in rw (← e) (SameTables-refl c)
  reinit_delegations-SameTables (d ∷ ds) c c' h =
      let (val, _, h1) = >>=-ok (must (x.val_address_from_bech32 d.validator_address)) _ h in
      let (del, _, h2) = >>=-ok (must (x.acc_address_from_bech32 d.delegator_address)) _ h1 in
      let (c1, m1, h3) = >>=-ok (must (x.before_delegation_created del val c)) _ h2 in
      let (c2, m2, h4) = >>=-ok (must (x.after_delegation_modified del val c1)) _ h3 in
      SameTables-trans c c1 c' (law.before_keeps del val c c1 (must-ok _ m1)) (
        SameTables-trans c1 c2 c' (law.after_keeps del val c1 c2 (must-ok _ m2))
          (reinit_delegations-SameTables ds c2 c' h4))

  -- Where the calls of the distribution module keep to its own state, the part on the fee
  -- distribution, when it does not panic, leaves the validators, the delegations, the redelegations,
  -- the unbonding delegations, the signing infos and the height as they were.
  pub handle_distribution-SameTables :
      (c c' : C x) → handle_distribution x c ≡ ok c' → SameTables c c'
  unfolding handle_distribution
  handle_distribution-SameTables c c' h =
      let w = withdraw_commissions x c.validators c in
      let (c1, h1, r1) = >>=-ok (at_site x iterate_commissions w) _ h in
      let (c2, h2, r2) = >>=-ok (at_site x get_all_delegations c1) _ r1 in
      let (c3, h3, r3) = >>=-ok (withdraw_rewards x c2.delegations c2) _ r2 in
      let s3 = x.delete_all_validator_slash_events c3 in
      let c4 = x.delete_all_validator_historical_rewards s3 in
      let zero_c4 : C x = record c4 { height = 0 } in
      let (c5, h5, r5) = >>=-ok (reinit_validators x zero_c4.validators zero_c4) _ r3 in
      let (c6, h6, r6) = >>=-ok (at_site x iterate_reinit c5) _ r5 in
      let (c7, h7, r7) = >>=-ok (reinit_delegations x c2.delegations c6) _ r6 in
      let before = SameTables-trans c w c4 (commissions-SameTables c.validators c) (
        SameTables-trans w c1 c4 (at_site-SameTables iterate_commissions w c1 h1) (
          SameTables-trans c1 c2 c4 (at_site-SameTables get_all_delegations c1 c2 h2) (
            SameTables-trans c2 c3 c4 (rewards-SameTables c2.delegations c2 c3 h3)
              (SameTables-trans c3 s3 c4 (law.slash_events_keep c3) (law.historical_keep s3))))) in
      let after =
        SameTables-trans zero_c4 c5 c7 (reinit_validators-SameTables c4.validators zero_c4 c5 h5) (
          SameTables-trans c5 c6 c7 (at_site-SameTables iterate_reinit c5 c6 h6)
            (reinit_delegations-SameTables c2.delegations c6 c7 h7)) in
      restored c c4 c7 c' before after (ground arith)
    where
      restored :
          (c c4 c7 c' : C x)
          → SameTables c c4
          → SameTables (record c4 { height = 0 }) c7
          → c' ≡ record c7 { height = c4.height }
          → SameTables c c'
      restored c c4 c7 c' p q e = rw e (record {
        height = p.height;
        validators = q.validators ∙ p.validators;
        delegations = q.delegations ∙ p.delegations;
        redelegations = q.redelegations ∙ p.redelegations;
        unbonding_delegations = q.unbonding_delegations ∙ p.unbonding_delegations;
        signing_infos = q.signing_infos ∙ p.signing_infos;
      })
