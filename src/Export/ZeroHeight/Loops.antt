-- ===== src/Export/ZeroHeight/Loops.antt =====
-- What the loops of the zero-height preparation leave, when they do not panic.
use echofi.Prelude.{
  ◌≡◌, refl, subst, sym, ap, ◌∙◌, List, [], ◌∷◌, String, Option, none, some, arith,
}
use echofi.Export.Tables.{get, put, put_each, update_each, update_each-cons, get-key}
use echofi.Export.Chain.{
  Validator, Unbonding, SigningInfo, Site, set_validator, Keepers, Result, ok, panic, ◌>>=◌, must,
}
use echofi.Export.ZeroHeight.{
  reset_entries, reset_signing_info, unbonding_key, validator_key, signing_key, C, at_site,
  reset_redelegations, reset_unbonding_delegations, reset_validator, reset_validators,
  reset_signing_infos,
}

pub >>=-ok :
    {A B : Type 0} (run : Result A) (next : A → Result B) {out : B}
    → (run >>= next) ≡ ok out
    → (v : A) × (run ≡ ok v) × (next v ≡ ok out)
>>=-ok panic next stopped = absurd (cc)
>>=-ok (ok v) next h = (v, refl, h)

pub must-ok : {A : Type 0} (o : Option A) {a : A} → must o ≡ ok a → o ≡ some a
must-ok none h = absurd (cc)
must-ok (some a) h = cc

module _ (x : Keepers) where
  pub at_site-ok : (s : Site) (c c' : C x) → at_site x s c ≡ ok c' → c' ≡ c
  unfolding at_site
  at_site-ok s c c' h = ground arith

  pub reset_redelegations-ok :
      (reds : List Unbonding) (c c' : C x)
      → reset_redelegations x reds c ≡ ok c'
      → c' ≡ record c { redelegations = put_each unbonding_key reset_entries reds c.redelegations }
  unfolding reset_redelegations put_each
  reset_redelegations-ok [] c c' h = cc
  reset_redelegations-ok (red ∷ reds) c c' h = ground (
    arith,
    reset_redelegations-ok reds
        (record c { redelegations = put unbonding_key (reset_entries red) c.redelegations }) c',
  )

  pub reset_unbonding_delegations-ok :
      (ubds : List Unbonding) (c c' : C x)
      → reset_unbonding_delegations x ubds c ≡ ok c'
      → c' ≡ record c {
        unbonding_delegations = put_each unbonding_key reset_entries ubds c.unbonding_delegations;
      }
  unfolding reset_unbonding_delegations put_each
  reset_unbonding_delegations-ok [] c c' h = cc
  reset_unbonding_delegations-ok (ubd ∷ ubds) c c' h = ground (
    arith,
    reset_unbonding_delegations-ok ubds
        (record c {
          unbonding_delegations = put unbonding_key (reset_entries ubd) c.unbonding_delegations;
        })
        c',
  )

  pub reset_signing_infos-ok :
      (infos : List SigningInfo) (c c' : C x)
      → reset_signing_infos x infos c ≡ ok c'
      → c'
        ≡ record c { signing_infos = put_each signing_key reset_signing_info infos c.signing_infos }
  unfolding reset_signing_infos put_each
  reset_signing_infos-ok [] c c' h = cc
  reset_signing_infos-ok (info ∷ infos) c c' h = ground (
    arith,
    reset_signing_infos-ok infos
        (record c { signing_infos = put signing_key (reset_signing_info info) c.signing_infos }) c',
  )

  -- The body of the validator loop, by the validator's own key.
  abbrev pub reset_own : List String → Validator → Validator
  reset_own allowed v = reset_validator x allowed v.address v

  pub reset_validators-ok :
      (allowed addrs : List String) (c c' : C x)
      → reset_validators x allowed addrs c ≡ ok c'
      → (vs : List Validator) × (update_each validator_key (reset_own allowed) addrs c.validators
          ≡ some vs)
        × (c' ≡ record c { validators = vs })
  unfolding reset_validators update_each
  reset_validators-ok allowed [] c c' h = (c.validators, refl, cc)
  reset_validators-ok allowed (addr ∷ addrs) c c' h =
      let (v, read, h') = >>=-ok (must (get validator_key addr c.validators)) _ h in
      let found = must-ok _ read in
      let (c1, written, h'') = >>=-ok (at_site x set_validator c) _ h' in
      let (vs, run, e) = reset_validators-ok allowed addrs _ c' h'' in
      (
        vs,
        update_each-cons validator_key (reset_own allowed) addr addrs v c.validators found
            ∙ (subst
                (λ a.
                  update_each validator_key (reset_own allowed) addrs
                    (put validator_key (reset_validator x allowed a v) c.validators)
                  ≡ some vs)
                (sym (get-key validator_key addr v c.validators found))
                (subst
                  (λ (c2 : C x).
                    update_each validator_key (reset_own allowed) addrs
                      (put validator_key (reset_validator x allowed addr v) c2.validators)
                    ≡ some vs)
                  (at_site-ok set_validator c c1 written) run)),
        e
            ∙ ap (λ (c2 : C x). record c2 { validators = vs })
                (at_site-ok set_validator c c1 written),
      )
