-- ===== src/Export/ZeroHeight/Donations.antt =====
-- The part of the zero-height preparation that gives what validators have left over to the
-- community pool.
use mathlib.Core.Option
use echofi.Prelude.{◌≡◌, ◌≢◌, sym, ap, ◌∙◌, List, [], ◌∷◌, String, some, All}
use echofi.Export.Chain.{Validator, FeePool, Keepers, ok, must}
use echofi.Export.ZeroHeight.{C, reinit_validator, reinit_validators}
use echofi.Export.ZeroHeight.Loops.{>>=-ok, must-ok}

-- What the distribution keeper is relied on for: the fee pool that is set is read back, and neither
-- setting it nor the hook of a validator changes what another validator has outstanding.
pub record KeepsAccounts (x : Keepers) : Type 0 where
  pub set_get :
      (p : FeePool x.Coins) (c c' : C x) → x.fee_pool_set p c ≡ some c' → x.fee_pool_get c' ≡ some p
  pub set_outstanding :
      (p : FeePool x.Coins) (c c' : C x) (v : String)
      → x.fee_pool_set p c ≡ some c'
      → x.get_validator_outstanding_rewards_coins v c'
        ≡ x.get_validator_outstanding_rewards_coins v c
  pub hook_pool :
      (v : String) (c c' : C x)
      → x.after_validator_created v c ≡ some c'
      → x.fee_pool_get c' ≡ x.fee_pool_get c
  pub hook_outstanding :
      (v w : String) (c c' : C x)
      → v ≢ w
      → x.after_validator_created v c ≡ some c'
      → x.get_validator_outstanding_rewards_coins w c'
        ≡ x.get_validator_outstanding_rewards_coins w c

module _ (x : Keepers) where
  -- What the validators have outstanding in a state, in order.
  abbrev pub Scraps : List Validator → C x → List x.Coins → Type 0
  Scraps [] c [] = Unit
  Scraps [] c (s ∷ ss) = ⊥
  Scraps (v ∷ vs) c [] = ⊥
  Scraps (v ∷ vs) c (s ∷ ss) =
      ((a : String) × (x.string_to_bytes v.operator ≡ some a)
        × (x.get_validator_outstanding_rewards_coins a c ≡ some s))
      × Scraps vs c ss

  abbrev pub add_all : x.Coins → List x.Coins → x.Coins
  add_all p [] = p
  add_all p (s ∷ ss) = add_all (x.add p s) ss

  -- No two validators have the same operator.
  abbrev pub Differs : Validator → Validator → Type 0
  Differs v w = x.string_to_bytes v.operator ≢ x.string_to_bytes w.operator

  abbrev pub HasOwnOperators : List Validator → Type 0
  HasOwnOperators [] = Unit
  HasOwnOperators (v ∷ vs) = All (Differs v) vs × HasOwnOperators vs

  module _ (law : KeepsAccounts x) where
    -- One turn of the loop.
    abbrev Donated : Validator → C x → C x → x.Coins → Type 0
    Donated v c c' pool =
        (a : String) × (s : x.Coins) × (x.string_to_bytes v.operator ≡ some a)
        × (x.get_validator_outstanding_rewards_coins a c ≡ some s)
        × (x.fee_pool_get c' ≡ some (record { community_pool = x.add pool s }))
        × ((w : String)
            → a ≢ w
            → x.get_validator_outstanding_rewards_coins w c'
              ≡ x.get_validator_outstanding_rewards_coins w c)

    reinit_validator-Donated :
        (v : Validator) (c c' : C x) (pool : x.Coins)
        → x.fee_pool_get c ≡ some (record { community_pool = pool })
        → reinit_validator x v c ≡ ok c'
        → Donated v c c' pool
    unfolding reinit_validator
    reinit_validator-Donated v c c' pool before h =
        let (a, h1, r1) = >>=-ok (must (x.string_to_bytes v.operator)) _ h in
        let (s, h2, r2) = >>=-ok (must (x.get_validator_outstanding_rewards_coins a c)) _ r1 in
        let (p, h3, r3) = >>=-ok (must (x.fee_pool_get c)) _ r2 in
        let (c1, h4, r4) =
          >>=-ok (must (x.fee_pool_set (record { community_pool = x.add p.community_pool s }) c)) _
            r3 in
        let set_c1 = must-ok _ h4 in
        let hooked = must-ok _ r4 in
        let read : some p ≡ some (record { community_pool = pool }) = sym (must-ok _ h3) ∙ before in
        (
          a,
          s,
          must-ok _ h1,
          must-ok _ h2,
          law.hook_pool a c1 c' hooked
              ∙ law.set_get _ c c1 set_c1
              ∙ ap (Option.map (λ q. record { community_pool = x.add q.community_pool s })) read,
          λ w d. law.hook_outstanding a w c1 c' d hooked ∙ law.set_outstanding _ c c1 w set_c1,
        )

    Scraps-unchanged :
        (v : Validator) (vs : List Validator) (c c' : C x) (ss : List x.Coins) (a : String)
        → x.string_to_bytes v.operator ≡ some a
        → ((w : String)
            → a ≢ w
            → x.get_validator_outstanding_rewards_coins w c'
              ≡ x.get_validator_outstanding_rewards_coins w c)
        → All (Differs v) vs
        → Scraps vs c' ss
        → Scraps vs c ss
    Scraps-unchanged v [] c c' [] a e same_others d h = tt
    Scraps-unchanged v [] c c' (s ∷ ss) a e same_others d h = absurd h
    Scraps-unchanged v (u ∷ us) c c' [] a e same_others d h = absurd h
    Scraps-unchanged v (u ∷ us) c c' (s ∷ ss) a e same_others (d, ds) ((b, f, g), rest) = (
      (b, f, sym (same_others b (λ q. d (e ∙ ap some q ∙ sym f))) ∙ g),
      Scraps-unchanged v us c c' ss a e same_others ds rest,
    )

    -- Where no two validators have the same operator and the loop over the validators does not
    -- panic, the community pool grows by exactly what each validator had outstanding before the
    -- loop, once for each of them.
    pub reinit_validators_donate :
        (vs : List Validator) (c c' : C x) (pool : x.Coins)
        → HasOwnOperators vs
        → x.fee_pool_get c ≡ some (record { community_pool = pool })
        → reinit_validators x vs c ≡ ok c'
        → (ss : List x.Coins) × Scraps vs c ss
          × (x.fee_pool_get c' ≡ some (record { community_pool = add_all pool ss }))
    unfolding reinit_validators
    reinit_validators_donate [] c c' pool d before h =
        let e : c' ≡ c = cc in ([], tt, ap x.fee_pool_get e ∙ before)
    reinit_validators_donate (v ∷ vs) c c' pool (d, ds) before h =
        let (c1, h1, r1) = >>=-ok (reinit_validator x v c) _ h in
        let (a, s, e, outstanding, after, others) =
          reinit_validator-Donated v c c1 pool before h1 in
        let (ss, scraps, final) = reinit_validators_donate vs c1 c' (x.add pool s) ds after r1 in
        (s ∷ ss, ((a, e, outstanding), Scraps-unchanged v vs c c1 ss a e others d scraps), final)
