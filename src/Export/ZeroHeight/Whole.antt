-- ===== src/Export/ZeroHeight/Whole.antt =====
-- The zero-height preparation as a whole: what it leaves, and when it cannot panic.
use mathlib.Core.Option
use echofi.Prelude.{◌≡◌, refl, sym, ap, subst, ◌∙◌, List, String, Option, none, some}
use echofi.Export.Tables.{get, put_each, put_each-all, IsUnique}
use echofi.Export.Chain.{SigningInfo, iterate_signing_infos, Keepers, ok, must}
use echofi.Export.ZeroHeight.{
  reset_entries, reset_signing_info, unbonding_key, validator_key, signing_key, C,
  check_allowed_addrs, handle_distribution, handle_staking, handle_slashing, reset_signing_infos,
  prep_for_zero_height_genesis,
}
use echofi.Export.ZeroHeight.Loops.{>>=-ok, must-ok, at_site-ok, reset_own, reset_signing_infos-ok}
use echofi.Export.ZeroHeight.Staking.{Rewritten, handle_staking-StakingReset}
use echofi.Export.ZeroHeight.Frame.{Lawful, handle_distribution-SameTables}

reset_signing_info_key : (i : SigningInfo) → signing_key (reset_signing_info i) ≡ signing_key i
unfolding reset_signing_info
reset_signing_info_key i = refl

started :
    (o : Option SigningInfo) (i : SigningInfo)
    → Option.map reset_signing_info o ≡ some i
    → i.start_height ≡ 0
unfolding reset_signing_info
started none i h = absurd (cc)
started (some j) i h = let same : reset_signing_info j ≡ i = cc in rw (← same) refl

Rewritten-cast :
    {A : Type 0} (key : A → String) (f : A → A) {a a' b b' : List A}
    → a' ≡ a
    → b ≡ b'
    → Rewritten key f a' b'
    → Rewritten key f a b
Rewritten-cast key f p q r k = ap (get key k) q ∙ r k ∙ ap (λ t. Option.map f (get key k t)) p

module _ (x : Keepers) where
  -- Every table holds one value for a key.
  pub record HasUniqueKeys (c : C x) : Type 0 where
    pub redelegations : IsUnique unbonding_key c.redelegations
    pub unbondings : IsUnique unbonding_key c.unbonding_delegations
    pub signing_infos : IsUnique signing_key c.signing_infos

  handle_slashing-ok :
      (c c' : C x)
      → handle_slashing x c ≡ ok c'
      → c' ≡ record c {
        signing_infos = put_each signing_key reset_signing_info c.signing_infos c.signing_infos;
      }
  unfolding handle_slashing
  handle_slashing-ok c c' h =
      let (c1, h1, r1) = >>=-ok (reset_signing_infos x c.signing_infos c) _ h in
      at_site-ok x iterate_signing_infos c1 c' r1 ∙ reset_signing_infos-ok x c.signing_infos c c1 h1

  -- What the preparation leaves of a state `c`, in `c'`. `before` and `after` are the states around
  -- the update of the validator set.
  pub record Prepared (allowed : List String) (c c' : C x) : Type 0 where
    pub before : C x
    pub after : C x
    pub updated : x.apply_and_return_validator_set_updates before ≡ some after
    pub height_at_update : before.height ≡ c.height
    pub validators_reset :
        Rewritten validator_key (reset_own x allowed) c.validators before.validators
    pub validators_kept : c'.validators ≡ after.validators
    pub redelegations : Rewritten unbonding_key reset_entries c.redelegations c'.redelegations
    pub unbondings :
        Rewritten unbonding_key reset_entries c.unbonding_delegations c'.unbonding_delegations
    pub infos_before : before.signing_infos ≡ c.signing_infos
    pub signing_infos :
        Rewritten signing_key reset_signing_info after.signing_infos c'.signing_infos
    pub infos_start :
        (k : String) (i : SigningInfo)
        → get signing_key k c'.signing_infos ≡ some i
        → i.start_height ≡ 0

  -- Where each table holds one value for a key, the calls of the distribution module keep to their
  -- own state, and the update of the validator set to its tables and to the signing infos, and the
  -- preparation does not panic, every redelegation and unbonding delegation has its creation heights
  -- at zero, every signing info that the update leaves has its start height at zero and is otherwise
  -- as the update leaves it, every validator is reset before the update, which runs at the height of
  -- the old context and on the signing infos of the old state, and the validators that the update
  -- leaves are the final ones.
  pub prep_for_zero_height_genesis-Prepared :
      (law : Lawful x) (allowed : List String) (c c' : C x)
      → HasUniqueKeys c
      → prep_for_zero_height_genesis x allowed c ≡ ok c'
      → Prepared allowed c c'
  unfolding prep_for_zero_height_genesis
  prep_for_zero_height_genesis-Prepared law allowed c c' u h =
      let (_, _, r0) = >>=-ok (check_allowed_addrs x allowed) _ h in
      let (c1, h1, r1) = >>=-ok (handle_distribution x c) _ r0 in
      let (c2, h2, r2) = >>=-ok (handle_staking x allowed c1) _ r1 in
      let (c3, h3, r3) = >>=-ok (must (x.apply_and_return_validator_set_updates c2)) _ r2 in
      let same_tables = handle_distribution-SameTables x law c c1 h1 in
      let staking =
        handle_staking-StakingReset x allowed c1 c2
          (subst (IsUnique unbonding_key) (sym same_tables.redelegations) u.redelegations)
          (subst (IsUnique unbonding_key) (sym same_tables.unbonding_delegations) u.unbondings)
          h2 in
      let applied = must-ok _ h3 in
      let (kept_red, kept_ubd) = law.update_keeps c2 c3 applied in
      let last = handle_slashing-ok c3 c' r3 in
      let infos : c2.signing_infos ≡ c.signing_infos =
        staking.signing_infos ∙ same_tables.signing_infos in
      let unique =
        law.update_unique c2 c3 applied
          (subst (IsUnique signing_key) (sym infos) u.signing_infos) in
      let last_red : c'.redelegations ≡ c2.redelegations =
        ap (λ (d : C x). d.redelegations) last ∙ kept_red in
      let last_ubd : c'.unbonding_delegations ≡ c2.unbonding_delegations =
        ap (λ (d : C x). d.unbonding_delegations) last ∙ kept_ubd in
      let last_info : c'.signing_infos
          ≡ put_each signing_key reset_signing_info c3.signing_infos c3.signing_infos =
        ap (λ (d : C x). d.signing_infos) last in
      let rewritten : Rewritten signing_key reset_signing_info c3.signing_infos c'.signing_infos =
        Rewritten-cast signing_key reset_signing_info refl last_info (λ k.
          put_each-all signing_key reset_signing_info reset_signing_info_key k c3.signing_infos
            unique) in
      record {
        before = c2;
        after = c3;
        updated = applied;
        height_at_update = staking.height ∙ same_tables.height;
        validators_reset =
            Rewritten-cast validator_key (reset_own x allowed) same_tables.validators refl
              staking.validators;
        validators_kept = ap (λ (d : C x). d.validators) last;
        redelegations =
            Rewritten-cast unbonding_key reset_entries same_tables.redelegations last_red
              staking.redelegations;
        unbondings =
            Rewritten-cast unbonding_key reset_entries same_tables.unbonding_delegations last_ubd
              staking.unbondings;
        infos_before = infos;
        signing_infos = λ k. rewritten k;
        infos_start =
            λ k i found. started (get signing_key k c3.signing_infos) i (sym (rewritten k) ∙ found);
      }
