-- ===== src/App/Accounts.antt =====
-- The module accounts: `maccPerms` of app/module.go, and the two address maps of app/app.go that
-- `NewEchofiApp` passes to `NewAppKeeper`.
use echofi.Prelude.{
  ◌≡◌, ◌≢◌, refl, sym, ap, ◌∙◌, ◌⊎◌, inl, inr, Bool-cases, ◌↔◌, Bool, true, false, List, [], ◌∷◌,
  String, if◌then◌else◌, str_eq, eq_iff, arith,
}

-- The account names of `maccPerms`, in the order of the literal.
pub data Account : Type 0 where
  fee_collector_name distr ica mint bonded_pool_name not_bonded_pool_name gov : Account
  ibc_transfer consumer_rewards_pool wasm evm feemarket erc20 precisebank : Account

pub data Permission : Type 0 where
  minter burner staking : Permission

unfoldable pub macc_perms : Account → List Permission
macc_perms fee_collector_name = []
macc_perms distr = []
macc_perms ica = []
macc_perms mint = minter ∷ []
macc_perms bonded_pool_name = burner ∷ staking ∷ []
macc_perms not_bonded_pool_name = burner ∷ staking ∷ []
macc_perms gov = burner ∷ []
macc_perms ibc_transfer = minter ∷ burner ∷ []
macc_perms consumer_rewards_pool = []
macc_perms wasm = burner ∷ []
macc_perms evm = minter ∷ burner ∷ []
macc_perms feemarket = []
macc_perms erc20 = minter ∷ burner ∷ []
macc_perms precisebank = minter ∷ burner ∷ []

unfoldable pub accounts : List Account
accounts =
    fee_collector_name ∷ distr ∷ ica ∷ mint ∷ bonded_pool_name ∷ not_bonded_pool_name ∷ gov
    ∷ ibc_transfer ∷ consumer_rewards_pool ∷ wasm ∷ evm ∷ feemarket ∷ erc20 ∷ precisebank ∷ []

-- A `map[string]bool` in which a key that is missing reads as false.
abbrev pub AddrMap : Type 0
AddrMap = String → Bool

abbrev pub set_true : String → AddrMap → AddrMap
set_true k m a = if str_eq k a then true else m a

abbrev pub delete : String → AddrMap → AddrMap
delete k m a = if str_eq k a then false else m a

-- The text of the address of a module account, `authtypes.NewModuleAddress(acc).String()`.
module _ (new_module_address : Account → String) where
  pub add_accounts : List Account → AddrMap → AddrMap
  add_accounts [] m = m
  add_accounts (acc ∷ accs) m = add_accounts accs (set_true (new_module_address acc) m)

  pub module_account_addrs : AddrMap
  unfolding add_accounts accounts
  module_account_addrs = add_accounts accounts (λ _. false)

  -- The map of the argument after the call, which is also the map that is returned.
  pub blocked_module_account_addrs : AddrMap → AddrMap
  blocked_module_account_addrs mod_acc_addrs =
      delete (new_module_address consumer_rewards_pool)
        (delete (new_module_address gov) mod_acc_addrs)

  -- The arguments `modAccAddrs` and `blockedAddress` of `NewAppKeeper`: both are the one map that
  -- `BlockedModuleAccountAddrs` changes before the call.
  pub address_arguments : AddrMap × AddrMap
  unfolding module_account_addrs blocked_module_account_addrs
  address_arguments =
      let module_account_addresses = module_account_addrs in
      let changed = blocked_module_account_addrs module_account_addresses in (changed, changed)

two_deletes :
    (p q k : String) (m : AddrMap)
    → (delete p (delete q m) k ≡ true) ↔ ((m k ≡ true) × (p ≢ k) × (q ≢ k))
two_deletes p q k m = ground (arith, eq_iff p k, eq_iff q k)

deleted_first : (p : String) (m : AddrMap) → delete p m p ≡ false
deleted_first p m = ground (arith, eq_iff p p)

deleted_second : (p q : String) (m : AddrMap) → delete p (delete q m) q ≡ false
deleted_second p q m = ground (arith, eq_iff q q)

-- The accounts that the code takes out of the map.
abbrev pub is_open : Account → Bool
is_open gov = true
is_open consumer_rewards_pool = true
is_open _ = false

module _ (new_module_address : Account → String)
    (injective : (a b : Account) → new_module_address a ≡ new_module_address b → a ≡ b) where
  add_accounts-keeps :
      (accs : List Account) (m : AddrMap) (k : String)
      → m k ≡ true
      → add_accounts new_module_address accs m k ≡ true
  unfolding add_accounts
  add_accounts-keeps [] m k h = h
  add_accounts-keeps (a ∷ accs) m k h =
      add_accounts-keeps accs (set_true (new_module_address a) m) k (ground arith)

  added :
      (accs : List Account) (m : AddrMap) (k : String)
      → add_accounts new_module_address accs m k ≡ true
      → (m k ≡ true) ⊎ ((a : Account) × (k ≡ new_module_address a))
  unfolding add_accounts
  added [] m k h = inl h
  added (a ∷ accs) m k h = elim (added accs (set_true (new_module_address a) m) k h) [
    | inr r ↦ inr r
    | inl e ↦ elim (Bool-cases (str_eq (new_module_address a) k)) [
      | inl equal ↦ inr (a, sym ((eq_iff (new_module_address a) k).0 equal))
      | inr differ ↦ inl (rw differ at e)
    ]
  ]

  abbrev Among : Account → List Account → Type 0
  Among a [] = ⊥
  Among a (b ∷ bs) = (a ≡ b) ⊎ Among a bs

  all-Among : (a : Account) → Among a accounts
  unfolding accounts
  all-Among fee_collector_name = inl refl
  all-Among _ = ground arith

  add_accounts-has :
      (accs : List Account) (m : AddrMap) (a : Account)
      → Among a accs
      → add_accounts new_module_address accs m (new_module_address a) ≡ true
  unfolding add_accounts
  add_accounts-has [] m a among = absurd among
  add_accounts-has (b ∷ bs) m a (inl e) =
      add_accounts-keeps bs (set_true (new_module_address b) m) (new_module_address a) (
        ground
          (arith, eq_iff (new_module_address b) (new_module_address a), ap new_module_address e))
  add_accounts-has (b ∷ bs) m a (inr r) =
      add_accounts-has bs (set_true (new_module_address b) m) a r

  has_account :
      (a : Account) → module_account_addrs new_module_address (new_module_address a) ≡ true
  unfolding module_account_addrs
  has_account a = add_accounts-has accounts (λ _. false) a (all-Among a)

  module_addr :
      (k : String)
      → module_account_addrs new_module_address k ≡ true
      → (a : Account) × (k ≡ new_module_address a)
  unfolding module_account_addrs
  module_addr k h = elim (added accounts (λ _. false) k h) [ inl e ↦ absurd (cc) | inr r ↦ r ]

  closed_differs :
      (a b : Account) (k : String)
      → is_open a ≡ false
      → is_open b ≡ true
      → k ≡ new_module_address a
      → new_module_address b ≢ k
  closed_differs a b k closed open_one e f = let equal = injective b a (f ∙ e) in cc

  -- The addresses that the bank blocks are those of the module accounts other than the governance
  -- account and the pool of consumer rewards. `NewAppKeeper` gets the same map also for the module
  -- account addresses, so those two accounts are missing there too.
  pub blocked_exactly :
      (k : String)
      → let (mod_acc_addrs, blocked_address) = address_arguments new_module_address in
        ((blocked_address k ≡ true)
          ↔ ((a : Account) × (k ≡ new_module_address a) × (is_open a ≡ false)))
        × (mod_acc_addrs (new_module_address gov) ≡ false)
        × (mod_acc_addrs (new_module_address consumer_rewards_pool) ≡ false)
  unfolding address_arguments blocked_module_account_addrs
  blocked_exactly k = (
    (
      λ h.
          let (module_account, not_pool, not_gov) =
            (two_deletes _ _ k (module_account_addrs new_module_address)).0 h in
          is_blocked not_pool not_gov (module_addr k module_account),
      λ (a, e, closed). (two_deletes _ _ k (module_account_addrs new_module_address)).1 (
        ap (module_account_addrs new_module_address) e ∙ has_account a,
        closed_differs a consumer_rewards_pool k closed refl e,
        closed_differs a gov k closed refl e,
      ),
    ),
    deleted_second (new_module_address consumer_rewards_pool) (new_module_address gov)
        (module_account_addrs new_module_address),
    deleted_first _ (delete (new_module_address gov) (module_account_addrs new_module_address)),
  )
    where
      is_blocked :
          new_module_address consumer_rewards_pool ≢ k
          → new_module_address gov ≢ k
          → ((a : Account) × (k ≡ new_module_address a))
          → (a : Account) × (k ≡ new_module_address a) × (is_open a ≡ false)
      is_blocked not_pool not_gov (gov, e) = absurd (not_gov (sym e))
      is_blocked not_pool not_gov (consumer_rewards_pool, e) = absurd (not_pool (sym e))
      is_blocked not_pool not_gov (a, e) = (a, e, refl)
