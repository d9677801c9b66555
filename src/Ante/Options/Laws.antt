-- ===== src/Ante/Options/Laws.antt =====
-- What the validation of the handler options guarantees, and the order of the decorators.
use echofi.Prelude.{◌≡◌, ◌⊎◌, inl, inr, ◌↔◌, List, [], ◌∷◌, String, none, some, arith, Option-cases}
use echofi.Ante.Options.{
  Keepers, HandlerOptions, Required, account_keeper_required, bank_keeper_required,
  ibc_keeper_required, fee_market_keeper_required, evm_keeper_required, sig_gas_consumer_required,
  sign_mode_handler_required, tx_fee_checker_required, validate, AnyDecorator, external_decorator,
  authz_limiter, set_up_context, deduct_fee, set_pub_key, validate_sig_count, sig_gas_consume,
  sig_verification, increment_sequence, cosmos_decorators,
}

module _ (k : Keepers) where
  -- The options lack what the message asks for.
  abbrev pub Lacks : HandlerOptions k → Required → Type 0
  Lacks o account_keeper_required = o.account_keeper ≡ none
  Lacks o bank_keeper_required = o.bank_keeper ≡ none
  Lacks o ibc_keeper_required = o.ibc_keeper ≡ none
  Lacks o fee_market_keeper_required = o.fee_market_keeper ≡ none
  Lacks o evm_keeper_required = o.evm_keeper ≡ none
  Lacks o sig_gas_consumer_required = o.sig_gas_consumer ≡ none
  Lacks o sign_mode_handler_required = o.sign_mode_handler ≡ none
  Lacks o tx_fee_checker_required = o.tx_fee_checker ≡ none

  validate-Lacks : (o : HandlerOptions k) (e : Required) → validate k o ≡ some e → Lacks o e
  unfolding validate
  validate-Lacks o account_keeper_required h = ground arith
  validate-Lacks o _ h = ground arith

  validate-none : (o : HandlerOptions k) (e : Required) → validate k o ≡ none → ¬ Lacks o e
  unfolding validate
  validate-none o account_keeper_required h = ground arith
  validate-none o _ h = ground arith

  none-validate : (o : HandlerOptions k) → ((e : Required) → ¬ Lacks o e) → validate k o ≡ none
  none-validate o complete = elim (Option-cases (validate k o)) [
    | inl e ↦ e
    | inr (m, e) ↦ absurd (complete m (validate-Lacks o m e))
  ]

  -- Validation passes exactly the options in which none of the eight required values is nil, and
  -- what it reports otherwise is missing indeed.
  pub validate_sound :
      (o : HandlerOptions k)
      → ((validate k o ≡ none) ↔ ((e : Required) → ¬ Lacks o e))
        × ((e : Required) → validate k o ≡ some e → Lacks o e)
  validate_sound o = ((λ h e. validate-none o e h, none-validate o), validate-Lacks o)

  -- The decorators that read the public keys of the signers.
  abbrev pub NeedsPubKey : AnyDecorator k → Type 0
  NeedsPubKey (external_decorator (validate_sig_count _)) = Unit
  NeedsPubKey (external_decorator (sig_gas_consume _ _)) = Unit
  NeedsPubKey (external_decorator (sig_verification _ _)) = Unit
  NeedsPubKey _ = ⊥

  abbrev pub IsSetPubKey : AnyDecorator k → Type 0
  IsSetPubKey (external_decorator (set_pub_key _)) = Unit
  IsSetPubKey _ = ⊥

  abbrev pub IsSetUpContext : AnyDecorator k → Type 0
  IsSetUpContext (external_decorator set_up_context) = Unit
  IsSetUpContext _ = ⊥

  abbrev pub IsSigVerification : AnyDecorator k → Type 0
  IsSigVerification (external_decorator (sig_verification _ _)) = Unit
  IsSigVerification _ = ⊥

  -- The decorators that change the state of an account.
  abbrev pub ChangesAccount : AnyDecorator k → Type 0
  ChangesAccount (external_decorator (deduct_fee _ _ _ _)) = Unit
  ChangesAccount (external_decorator (set_pub_key _)) = Unit
  ChangesAccount (external_decorator (increment_sequence _)) = Unit
  ChangesAccount _ = ⊥

  abbrev pub IsIncrement : AnyDecorator k → Type 0
  IsIncrement (external_decorator (increment_sequence _)) = Unit
  IsIncrement _ = ⊥

  abbrev pub IsLimiter : List String → AnyDecorator k → Type 0
  IsLimiter types (authz_limiter disabled) = disabled ≡ types
  IsLimiter types _ = ⊥

  -- Some decorator of the list satisfies `P`, and none before it satisfies `Q`.
  abbrev pub Guarded : (P Q : AnyDecorator k → Type 0) → List (AnyDecorator k) → Type 0
  Guarded P Q [] = ⊥
  Guarded P Q (d ∷ ds) = P d ⊎ (¬ Q d × Guarded P Q ds)

  -- In the Cosmos chain the public keys are set before any decorator that reads them, the authz
  -- limiter with exactly the two disabled types stands before every decorator that changes an
  -- account, and no sequence number grows before the signatures are verified.
  pub cosmos_decorators_order :
      (eth_tx_url create_vesting_url : String) (o : HandlerOptions k)
      → let ds = cosmos_decorators k eth_tx_url create_vesting_url o in
        Guarded IsSetPubKey NeedsPubKey ds
        × Guarded (IsLimiter (eth_tx_url ∷ create_vesting_url ∷ [])) ChangesAccount ds
        × Guarded IsSigVerification IsIncrement ds
  unfolding cosmos_decorators
  cosmos_decorators_order eth_tx_url create_vesting_url o =
      (ground arith, ground arith, ground arith)
