-- ===== src/Export/ZeroHeight/Staking.antt =====
-- What the zero-height preparation does to the staking and slashing tables.
use mathlib.Core.Option
use echofi.Prelude.{◌≡◌, refl, ap, subst, ◌∙◌, List, String, some, arith}
use echofi.Export.Tables.{
  get, put_each, put_each-all, update_each, update_each-all, reverse_keys, IsUnique,
}
use echofi.Export.Chain.{
  Validator, Unbonding, iterate_redelegations, iterate_unbondings, Keepers, ok,
}
use echofi.Export.ZeroHeight.{
  reset_entries, unbonding_key, validator_key, C, at_site, reset_validator, handle_staking,
  reset_redelegations, reset_unbonding_delegations,
}
use echofi.Export.ZeroHeight.Loops.{
  >>=-ok, at_site-ok, reset_redelegations-ok, reset_unbonding_delegations-ok, reset_own,
  reset_validators-ok,
}

-- The values under every key are those of the old table, rewritten by `f`.
abbrev pub Rewritten : {A : Type 0} → (A → String) → (A → A) → List A → List A → Type 0
Rewritten key f old new = (k : String) → get key k new ≡ Option.map f (get key k old)

module _ (x : Keepers) where
  -- What the staking part leaves of a state.
  pub record StakingReset (allowed : List String) (c c' : C x) : Type 0 where
    pub redelegations : Rewritten unbonding_key reset_entries c.redelegations c'.redelegations
    pub unbondings :
        Rewritten unbonding_key reset_entries c.unbonding_delegations c'.unbonding_delegations
    pub validators : Rewritten validator_key (reset_own x allowed) c.validators c'.validators
    pub height : c'.height ≡ c.height
    pub delegations : c'.delegations ≡ c.delegations
    pub signing_infos : c'.signing_infos ≡ c.signing_infos
    pub other : c'.other ≡ c.other

  pub reset_own_idem :
      (allowed : List String) (v : Validator)
      → reset_own x allowed (reset_own x allowed v) ≡ reset_own x allowed v
  unfolding reset_validator
  reset_own_idem allowed v = ground arith

  pub reset_own_key :
      (allowed : List String) (v : Validator)
      → validator_key (reset_own x allowed v) ≡ validator_key v
  unfolding reset_validator
  reset_own_key allowed v = refl

  reset_entries_key : (u : Unbonding) → unbonding_key (reset_entries u) ≡ unbonding_key u
  unfolding reset_entries
  reset_entries_key u = refl

  validators-Rewritten :
      (allowed : List String) (vs vs' : List Validator)
      → update_each validator_key (reset_own x allowed) (reverse_keys validator_key vs) vs
        ≡ some vs'
      → Rewritten validator_key (reset_own x allowed) vs vs'
  validators-Rewritten allowed vs vs' h =
      let (vs'', run, is) =
        update_each-all validator_key (reset_own x allowed) (reset_own_key allowed)
          (reset_own_idem allowed) vs in
      let equal : vs'' ≡ vs' = cc in
      subst (Rewritten validator_key (reset_own x allowed) vs) equal is

  -- Where the redelegations and the unbonding delegations hold one value for a key, and the staking
  -- part does not panic, every redelegation and every unbonding delegation has its
  -- creation heights at zero, every validator is reset by the rule for validators, and the rest of
  -- the state is as it was.
  pub handle_staking-StakingReset :
      (allowed : List String) (c c' : C x)
      → IsUnique unbonding_key c.redelegations
      → IsUnique unbonding_key c.unbonding_delegations
      → handle_staking x allowed c ≡ ok c'
      → StakingReset allowed c c'
  unfolding handle_staking
  handle_staking-StakingReset allowed c c' ur uu h =
      let (c1, h1, r1) = >>=-ok (reset_redelegations x c.redelegations c) _ h in
      let (c2, h2, r2) = >>=-ok (at_site x iterate_redelegations c1) _ r1 in
      let (c3, h3, r3) = >>=-ok (reset_unbonding_delegations x c2.unbonding_delegations c2) _ r2 in
      let (c4, h4, r4) = >>=-ok (at_site x iterate_unbondings c3) _ r3 in
      let e1 = reset_redelegations-ok x c.redelegations c c1 h1 in
      let e2 = at_site-ok x iterate_redelegations c1 c2 h2 in
      let e3 = reset_unbonding_delegations-ok x c2.unbonding_delegations c2 c3 h3 in
      let e4 = at_site-ok x iterate_unbondings c3 c4 h4 in
      let (vs, run, e5) =
        reset_validators-ok x allowed (reverse_keys validator_key c4.validators) c4 c' r4 in
      let red : c'.redelegations
          ≡ put_each unbonding_key reset_entries c.redelegations c.redelegations =
        ground arith in
      let ubd : c'.unbonding_delegations
          ≡ put_each unbonding_key reset_entries c.unbonding_delegations c.unbonding_delegations =
        ground arith in
      let val : update_each validator_key (reset_own x allowed)
            (reverse_keys validator_key c.validators) c.validators
          ≡ some c'.validators =
        ground arith in
      record {
        redelegations = λ k.
            ap (get unbonding_key k) red
            ∙ put_each-all unbonding_key reset_entries reset_entries_key k c.redelegations ur;
        unbondings = λ k.
            ap (get unbonding_key k) ubd
            ∙ put_each-all unbonding_key reset_entries reset_entries_key k c.unbonding_delegations
                uu;
        validators = validators-Rewritten allowed c.validators c'.validators val;
        height = ground arith;
        delegations = ground arith;
        signing_infos = ground arith;
        other = ground arith;
      }
