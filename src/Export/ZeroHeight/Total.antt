-- ===== src/Export/ZeroHeight/Total.antt =====
-- The zero-height preparation : when its staking part cannot panic.
use echofi.Prelude.{
  ◌≡◌, refl, sym, ap, subst, ◌∙◌, false, List, [], ◌∷◌, String, Option, none, some, arith,
  Option-cases, inl, inr,
}
use echofi.Export.Tables.{
  get, put, update_each, update_each-all, update_each-cons, update_each-missing, reverse_keys,
  get-key,
}
use echofi.Export.Chain.{
  Validator, Unbonding, Site, set_validator, set_redelegation, set_unbonding_delegation,
  iterate_redelegations, iterate_unbondings, Keepers, Result, ok, panic, ◌>>=◌, must,
}
use echofi.Export.ZeroHeight.{
  validator_key, C, at_site, handle_staking, reset_redelegations, reset_unbonding_delegations,
  reset_validator, reset_validators,
}
use echofi.Export.ZeroHeight.Loops.{reset_own}
use echofi.Export.ZeroHeight.Staking.{reset_own_key, reset_own_idem}

pub ok->>= :
    {A B : Type 0} (m : Result A) (f : A → Result B) {a : A} {r : Result B}
    → m ≡ ok a
    → f a ≡ r
    → (m >>= f) ≡ r
ok->>= (ok b) f {a = a} h k = let e : b ≡ a = cc in ap f e ∙ k
ok->>= panic f h k = absurd (cc)

none-ne-some : {ws : List Validator} → ◌≡◌ {A = Option (List Validator)} none (some ws) → ⊥
none-ne-some e = cc

module _ (x : Keepers) where
  -- No access to a store gives an error.
  abbrev pub NeverFails : Type 0
  NeverFails = (s : Site) (c : C x) → x.fails s c ≡ false

  pub at_site-total : (s : Site) (c : C x) → NeverFails → at_site x s c ≡ ok c
  unfolding at_site
  at_site-total s c n = ground (arith, n s c)

  reset_redelegations-total :
      (n : NeverFails) (reds : List Unbonding) (c : C x)
      → (c' : C x) × (reset_redelegations x reds c ≡ ok c')
  unfolding reset_redelegations
  reset_redelegations-total n [] c = (c, refl)
  reset_redelegations-total n (red ∷ reds) c =
      rw (at_site-total set_redelegation c n) (reset_redelegations-total n reds _)

  reset_unbonding_delegations-total :
      (n : NeverFails) (ubds : List Unbonding) (c : C x)
      → (c' : C x) × (reset_unbonding_delegations x ubds c ≡ ok c')
  unfolding reset_unbonding_delegations
  reset_unbonding_delegations-total n [] c = (c, refl)
  reset_unbonding_delegations-total n (ubd ∷ ubds) c =
      rw (at_site-total set_unbonding_delegation c n) (reset_unbonding_delegations-total n ubds _)

  reset_validators-total :
      (n : NeverFails) (allowed addrs : List String) (c : C x) (vs : List Validator)
      → update_each validator_key (reset_own x allowed) addrs c.validators ≡ some vs
      → (c' : C x) × (reset_validators x allowed addrs c ≡ ok c')
  unfolding reset_validators
  reset_validators-total n allowed [] c vs h = (c, refl)
  reset_validators-total n allowed (addr ∷ addrs) c vs h =
      elim (Option-cases (get validator_key addr c.validators)) [
        | inl missing ↦ absurd (
            none-ne-some (
              sym (
                update_each-missing validator_key (reset_own x allowed) addr addrs c.validators
                  missing)
              ∙ h))
        | inr (v, found) ↦
            let written =
              sym (
                update_each-cons validator_key (reset_own x allowed) addr addrs v c.validators
                  found)
              ∙ h in
            let c1 : C x = record c {
              validators = put validator_key (reset_validator x allowed addr v) c.validators;
            } in
            let (c', run) = reset_validators-total n allowed addrs c1 vs (
              subst
                (λ a.
                  update_each validator_key (reset_own x allowed) addrs
                    (put validator_key (reset_validator x allowed a v) c.validators)
                  ≡ some vs)
                (get-key validator_key addr v c.validators found) written) in
            (
              c',
              ok->>= (must (get validator_key addr c.validators)) _ (ap must found)
                  (ok->>= (at_site x set_validator c) _ (at_site-total set_validator c n) run),
            )
      ]

  -- Where no access to a store gives an error, the staking part cannot panic: each validator that
  -- the reverse iterator names is found.
  pub handle_staking-total :
      (allowed : List String) (c : C x)
      → NeverFails
      → (c' : C x) × (handle_staking x allowed c ≡ ok c')
  unfolding handle_staking
  handle_staking-total allowed c n =
      let (c1, r1) = reset_redelegations-total n c.redelegations c in
      let (c2, r2) = reset_unbonding_delegations-total n c1.unbonding_delegations c1 in
      let (vs, all, _) =
        update_each-all validator_key (reset_own x allowed) (reset_own_key x allowed)
          (reset_own_idem x allowed) c2.validators in
      let (c', r3) =
        reset_validators-total n allowed (reverse_keys validator_key c2.validators) c2 vs all in
      (
        c',
        ok->>= (reset_redelegations x c.redelegations c) _ r1 (
            ok->>= (at_site x iterate_redelegations c1) _ (at_site-total iterate_redelegations c1 n)
              (ok->>= (reset_unbonding_delegations x c1.unbonding_delegations c1) _ r2 (
                ok->>= (at_site x iterate_unbondings c2) _ (at_site-total iterate_unbondings c2 n)
                  r3))),
      )
