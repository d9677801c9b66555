-- ===== src/Export/ZeroHeight/Records.antt =====
-- What the distribution module documents of its calls, and the loops of the zero-height preparation
-- that make them.
use mathlib.Core.Option
use echofi.Prelude.{
  ◌≡◌, refl, sym, ap, subst, ◌∙◌, ◌⊎◌, inl, inr, List, [], ◌∷◌, String, Option, some, All,
}
use echofi.Export.Chain.{Validator, Delegation, Site, FeePool, Keepers, Result, ok, ◌>>=◌, must}
use echofi.Export.ZeroHeight.{
  C, at_site, check_allowed_addrs, withdraw_commissions, withdraw_rewards, reinit_validator,
  reinit_validators, reinit_delegations,
}
use echofi.Export.ZeroHeight.Frame.{Lawful}
use echofi.Export.ZeroHeight.Total.{NeverFails, at_site-total, ok->>=}

abbrev pub Gives : {A : Type 0} → Option A → Type 0
Gives {A = A} o = (a : A) × (o ≡ some a)

abbrev pub Stored : Delegation → List Delegation → Type 0
Stored d [] = ⊥
Stored d (e ∷ es) = (d ≡ e) ⊎ Stored d es

All-map :
    {A : Type 0} {P Q : A → Type 0} → ((a : A) → P a → Q a) → (xs : List A) → All P xs → All Q xs
All-map f [] h = tt
All-map f (x ∷ xs) (h, hs) = (f x h, All-map f xs hs)

pub all-Stored : (ds : List Delegation) → All (λ d. Stored d ds) ds
all-Stored [] = tt
all-Stored (d ∷ ds) = (inl refl, All-map (λ e h. inr h) ds (all-Stored ds))

abbrev pub Returns : {A : Type 0} → Result A → Type 0
Returns {A = A} r = (a : A) × (r ≡ ok a)

module _ (x : Keepers) where
  -- The addresses in the arguments and in the state decode.
  abbrev pub DecodesDelegation : Delegation → Type 0
  DecodesDelegation d =
      Gives (x.val_address_from_bech32 d.validator_address)
      × Gives (x.acc_address_from_bech32 d.delegator_address)

  abbrev pub DecodesValidator : Validator → Type 0
  DecodesValidator v = Gives (x.string_to_bytes v.operator)

  -- The delegation of these addresses is in the state.
  abbrev pub Delegates : C x → String → String → Type 0
  Delegates c d v =
      (del : Delegation) × Stored del c.delegations
      × (x.val_address_from_bech32 del.validator_address ≡ some v)
      × (x.acc_address_from_bech32 del.delegator_address ≡ some d)

  -- What the distribution module documents of its calls: they give no error where the records are
  -- there that they read. In a `Complete` state each validator and each delegation has its records.
  -- In a `Pending` one the records of these validators are still to be made again, and those that the
  -- code reads before are there. An `Opened` delegation has had the first of its two hooks.
  pub record Documented : Type 1 where
    pub Complete : C x → Type 0
    pub Pending : List Validator → C x → Type 0
    pub Opened : String → String → C x → Type 0
    pub commission :
        (a : String) (c : C x) → Complete c → Complete (x.withdraw_validator_commission a c)
    pub rewards :
        (d v : String) (c : C x)
        → Complete c
        → Delegates c d v
        → (c' : C x) × (x.withdraw_delegation_rewards d v c ≡ some c') × Complete c'
    pub cleared :
        (c c' : C x)
        → Complete c
        → c' ≡ x.delete_all_validator_historical_rewards (x.delete_all_validator_slash_events c)
        → Pending c'.validators (record c' { height = 0 })
    pub outstanding :
        (v : Validator) (vs : List Validator) (a : String) (c : C x)
        → Pending (v ∷ vs) c
        → x.string_to_bytes v.operator ≡ some a
        → Gives (x.get_validator_outstanding_rewards_coins a c)
    pub pool_get : (vs : List Validator) (c : C x) → Pending vs c → Gives (x.fee_pool_get c)
    pub pool_set :
        (p : FeePool x.Coins) (vs : List Validator) (c : C x)
        → Pending vs c
        → (c' : C x) × (x.fee_pool_set p c ≡ some c') × Pending vs c'
    pub created :
        (v : Validator) (vs : List Validator) (a : String) (c : C x)
        → Pending (v ∷ vs) c
        → x.string_to_bytes v.operator ≡ some a
        → (c' : C x) × (x.after_validator_created a c ≡ some c') × Pending vs c'
    pub before :
        (d v : String) (c : C x)
        → Pending [] c
        → Delegates c d v
        → (c' : C x) × (x.before_delegation_created d v c ≡ some c') × Opened d v c'
    pub after :
        (d v : String) (c : C x)
        → Opened d v c
        → (c' : C x) × (x.after_delegation_modified d v c ≡ some c') × Pending [] c'

  module _ (stores : NeverFails x) (law : Lawful x) (doc : Documented) where
    pub then_must :
        {A B : Type 0} (o : Option A) (f : A → Result B) {r : Result B} (a : A)
        → o ≡ some a
        → f a ≡ r
        → (must o >>= f) ≡ r
    then_must o f a h k = ok->>= (must o) f (ap must h) k

    pub then_site :
        {B : Type 0} (s : Site) (c : C x) (f : C x → Result B) {r : Result B}
        → f c ≡ r
        → (at_site x s c >>= f) ≡ r
    then_site s c f k = ok->>= (at_site x s c) f (at_site-total x s c stores) k

    pub allowed-Returns :
        (addrs : List String)
        → All (λ a. Gives (x.val_address_from_bech32 a)) addrs
        → Returns (check_allowed_addrs x addrs)
    unfolding check_allowed_addrs
    allowed-Returns [] d = (tt, refl)
    allowed-Returns (a ∷ as') ((v, d), ds) =
        let (r, h) = allowed-Returns as' ds in (r, then_must _ _ v d h)

    pub commissions-Complete :
        (vs : List Validator) (c : C x)
        → doc.Complete c
        → doc.Complete (withdraw_commissions x vs c)
    unfolding withdraw_commissions
    commissions-Complete [] c h = h
    commissions-Complete (v ∷ vs) c h =
        commissions-Complete vs _
          (doc.commission (Option.get_or (x.string_to_bytes v.operator) "") c h)

    pub rewards-Returns :
        (all dels : List Delegation) (c : C x)
        → c.delegations ≡ all
        → doc.Complete c
        → All (λ d. Stored d all) dels
        → All DecodesDelegation dels
        → (c' : C x) × (withdraw_rewards x dels c ≡ ok c') × doc.Complete c'
    unfolding withdraw_rewards
    rewards-Returns all [] c same h s d = (c, refl, h)
    rewards-Returns all (del ∷ dels) c same h (s, ss) (((v, ev), (a, ea)), ds) =
        let (c1, run, h1) = doc.rewards a v c h (del, subst (Stored del) (sym same) s, ev, ea) in
        let kept = law.rewards_keep a v c c1 run in
        let (c2, rest, h2) = rewards-Returns all dels c1 (kept.delegations ∙ same) h1 ss ds in
        (c2, then_must _ _ v ev (then_must _ _ a ea (then_must _ _ c1 run rest)), h2)

    reinit_validator-Returns :
        (v : Validator) (vs : List Validator) (c : C x)
        → doc.Pending (v ∷ vs) c
        → DecodesValidator v
        → (c' : C x) × (reinit_validator x v c ≡ ok c') × doc.Pending vs c'
    unfolding reinit_validator
    reinit_validator-Returns v vs c h (a, ea) =
        let (scraps, es) = doc.outstanding v vs a c h ea in
        let (p, ep) = doc.pool_get (v ∷ vs) c h in
        let pool' : FeePool x.Coins = record { community_pool = x.add p.community_pool scraps } in
        let (c1, e1, h1) = doc.pool_set pool' (v ∷ vs) c h in
        let (c2, e2, h2) = doc.created v vs a c1 h1 ea in
        (
          c2,
          then_must _ _ a ea
              (then_must _ _ scraps es (then_must _ _ p ep (then_must _ _ c1 e1 (ap must e2)))),
          h2,
        )

    pub reinit_validators-Returns :
        (vs : List Validator) (c : C x)
        → doc.Pending vs c
        → All DecodesValidator vs
        → (c' : C x) × (reinit_validators x vs c ≡ ok c') × doc.Pending [] c'
    unfolding reinit_validators
    reinit_validators-Returns [] c h d = (c, refl, h)
    reinit_validators-Returns (v ∷ vs) c h (d, ds) =
        let (c1, r1, h1) = reinit_validator-Returns v vs c h d in
        let (c2, r2, h2) = reinit_validators-Returns vs c1 h1 ds in
        (c2, ok->>= (reinit_validator x v c) _ r1 r2, h2)

    pub reinit_delegations-Returns :
        (all dels : List Delegation) (c : C x)
        → c.delegations ≡ all
        → doc.Pending [] c
        → All (λ d. Stored d all) dels
        → All DecodesDelegation dels
        → Returns (reinit_delegations x dels c)
    unfolding reinit_delegations
    reinit_delegations-Returns all [] c same h s d = (c, refl)
    reinit_delegations-Returns all (del ∷ dels) c same h (s, ss) (((v, ev), (a, ea)), ds) =
        let (c1, e1, h1) = doc.before a v c h (del, subst (Stored del) (sym same) s, ev, ea) in
        let (c2, e2, h2) = doc.after a v c1 h1 in
        let kept =
          (law.after_keeps a v c1 c2 e2).delegations ∙ (law.before_keeps a v c c1 e1).delegations in
        let (c3, rest) = reinit_delegations-Returns all dels c2 (kept ∙ same) h2 ss ds in
        (
          c3,
          then_must _ _ v ev (then_must _ _ a ea (then_must _ _ c1 e1 (then_must _ _ c2 e2 rest))),
        )
