-- ===== src/Export/ZeroHeight/Returns.antt =====
-- When the zero-height preparation as a whole returns.
use echofi.Prelude.{◌≡◌, refl, sym, subst, ◌∙◌, ◌↔◌, List, [], ◌∷◌, String, All}
use echofi.Export.ZeroHeight.Loops.{>>=-ok, must-ok}
use echofi.Export.Chain.{
  iterate_commissions, get_all_delegations, iterate_reinit, iterate_signing_infos, set_signing_info,
  SigningInfo, Keepers, ok, ◌>>=◌, must,
}
use echofi.Export.ZeroHeight.{
  C, check_allowed_addrs, withdraw_commissions, withdraw_rewards, reinit_validators,
  reinit_delegations, handle_distribution, handle_staking, handle_slashing, reset_signing_infos,
  prep_for_zero_height_genesis,
}
use echofi.Export.ZeroHeight.Frame.{
  Lawful, SameTables-trans, commissions-SameTables, rewards-SameTables,
  reinit_validators-SameTables,
}
use echofi.Export.ZeroHeight.Total.{NeverFails, at_site-total, ok->>=, handle_staking-total}
use echofi.Export.ZeroHeight.Records.{
  Gives, all-Stored, Returns, DecodesDelegation, DecodesValidator, Documented, then_must, then_site,
  allowed-Returns, commissions-Complete, rewards-Returns, reinit_validators-Returns,
  reinit_delegations-Returns,
}

module _ (x : Keepers) (stores : NeverFails x) (law : Lawful x) (doc : Documented x) where
  signing_infos-Returns :
      (infos : List SigningInfo) (c : C x) → Returns (reset_signing_infos x infos c)
  unfolding reset_signing_infos
  signing_infos-Returns [] c = (c, refl)
  signing_infos-Returns (i ∷ infos) c =
      let (c1, h) = signing_infos-Returns infos _ in
      (c1, then_site x stores law doc set_signing_info c _ h)

  slashing-Returns : (c : C x) → Returns (handle_slashing x c)
  unfolding handle_slashing
  slashing-Returns c =
      let (c1, h) = signing_infos-Returns c.signing_infos c in
      (
        c1,
        ok->>= (reset_signing_infos x c.signing_infos c) _ h
            (at_site-total x iterate_signing_infos c1 stores),
      )

  distribution-Returns :
      (c : C x)
      → doc.Complete c
      → All (DecodesDelegation x) c.delegations
      → All (DecodesValidator x) c.validators
      → Returns (handle_distribution x c)
  unfolding handle_distribution
  distribution-Returns c complete ds vs =
      let w = withdraw_commissions x c.validators c in
      let kept = commissions-SameTables x law c.validators c in
      let dels = subst (All (DecodesDelegation x)) (sym kept.delegations) ds in
      let (c3, h3, complete3) =
        rewards-Returns x stores law doc w.delegations w.delegations w refl
          (commissions-Complete x stores law doc c.validators c complete) (all-Stored w.delegations)
          dels in
      let s3 = x.delete_all_validator_slash_events c3 in
      let c4 = x.delete_all_validator_historical_rewards s3 in
      let cleared = SameTables-trans c3 s3 c4 (law.slash_events_keep c3) (law.historical_keep s3) in
      let withdrawn = rewards-SameTables x law w.delegations w c3 h3 in
      let since = SameTables-trans w c3 c4 withdrawn cleared in
      let before = SameTables-trans c w c4 kept since in
      let zero_c4 : C x = record c4 { height = 0 } in
      let vals = subst (All (DecodesValidator x)) (sym before.validators) vs in
      let (c5, h5, pending5) =
        reinit_validators-Returns x stores law doc c4.validators zero_c4
          (doc.cleared c3 c4 complete3 refl) vals in
      let rest = reinit_validators-SameTables x law c4.validators zero_c4 c5 h5 in
      let (c7, h7) =
        reinit_delegations-Returns x stores law doc w.delegations w.delegations c5
          (rest.delegations ∙ since.delegations) pending5 (all-Stored w.delegations) dels in
      (
        record c7 { height = c4.height },
        then_site x stores law doc iterate_commissions w _ (
            then_site x stores law doc get_all_delegations w _ (
              ok->>= (withdraw_rewards x w.delegations w) _ h3 (
                ok->>= (reinit_validators x c4.validators zero_c4) _ h5 (
                  then_site x stores law doc iterate_reinit c5 _
                    (ok->>= (reinit_delegations x w.delegations c5) _ h7 refl))))),
      )

  -- How far the preparation comes: to the state `before` of the update of the validator set, on
  -- which alone it depends whether it returns.
  pub record ComesToUpdate (allowed : List String) (c : C x) : Type 0 where
    pub distributed : C x
    pub distributes : handle_distribution x c ≡ ok distributed
    pub before : C x
    pub resets : handle_staking x allowed distributed ≡ ok before
    pub returns :
        Returns (prep_for_zero_height_genesis x allowed c)
        ↔ Gives (x.apply_and_return_validator_set_updates before)

  -- Where the addresses of the arguments and of the state decode, no access to a store gives an
  -- error, and the calls of the distribution module are as documented and find its records of the
  -- validators and delegations of the state, the preparation comes to the update of the validator
  -- set, and it returns exactly if that update gives no error.
  pub prep_for_zero_height_genesis-Returns :
      (allowed : List String) (c : C x)
      → doc.Complete c
      → All (λ a. Gives (x.val_address_from_bech32 a)) allowed
      → All (DecodesDelegation x) c.delegations
      → All (DecodesValidator x) c.validators
      → ComesToUpdate allowed c
  unfolding prep_for_zero_height_genesis
  prep_for_zero_height_genesis-Returns allowed c complete as' ds vs =
      let (_, h0) = allowed-Returns x stores law doc allowed as' in
      let (c1, h1) = distribution-Returns c complete ds vs in
      let (c2, h2) = handle_staking-total x allowed c1 stores in
      let comes : prep_for_zero_height_genesis x allowed c
          ≡ (must (x.apply_and_return_validator_set_updates c2) >>= handle_slashing x) =
        ok->>= (check_allowed_addrs x allowed) _ h0 (
          ok->>= (handle_distribution x c) _ h1 (ok->>= (handle_staking x allowed c1) _ h2 refl)) in
      record {
        distributed = c1;
        distributes = h1;
        before = c2;
        resets = h2;
        returns = (
          λ (c', run).
              let (c3, updated, _) =
                >>=-ok (must (x.apply_and_return_validator_set_updates c2)) _ (sym comes ∙ run) in
              (c3, must-ok _ updated),
          λ (c3, updated).
              let (c4, resets) = slashing-Returns c3 in
              (c4, comes ∙ then_must x stores law doc _ (handle_slashing x) c3 updated resets),
        );
      }
