-- ===== src/Startup/Node.antt =====
-- `newApp` of cmd/echofid/cmd/command.go: what it makes of the flags before it builds the
-- application.
use echofi.Prelude.{
  ℕ, ◌≡◌, refl, subst, ◌↔◌, ◌⊎◌, inl, inr, Bool, true, false, List, [], ◌∷◌, String, Option, none,
  some, if◌then◌else◌, str_eq, ◌==◌, arith,
}

-- What is passed on to the base app as it is; `T` stands for the pruning options.
pub record BaseAppFlags : Type 1 where
  pub T : Type 0
  pub pruning : T
  pub min_gas_prices : String
  pub halt_height : ℕ
  pub halt_time : ℕ
  pub min_retain_blocks : ℕ
  pub trace : Bool
  pub index_events : List String
  pub snapshot_interval : ℕ
  pub snapshot_keep_recent : ℕ
  pub iavl_cache_size : ℕ

-- The flags. `chain_id_of_genesis` is the chain id of the genesis file, or `none` where it cannot
-- be read; the last three say whether the calls succeed.
pub record Flags : Type 1 where
  pub base : BaseAppFlags
  pub inter_block_cache : Bool
  pub telemetry_enabled : Bool
  pub unsafe_skip_upgrades : List ℕ
  pub home : String
  pub chain_id : String
  pub chain_id_of_genesis : Option String
  pub pruning_ok : Bool
  pub snapshot_db_ok : Bool
  pub snapshot_store_ok : Bool

-- The arguments of `NewEchofiApp`, with the options of the base app.
pub record AppArguments : Type 1 where
  pub base_options : BaseAppFlags
  pub load_latest : Bool
  pub skip_upgrade_heights : ℕ → Bool
  pub home_path : String
  pub base_chain_id : String
  pub has_cache : Bool
  pub vm_cache_metrics : Bool

-- The loop that fills `skipUpgradeHeights`.
pub skip_heights : List ℕ → (ℕ → Bool) → ℕ → Bool
skip_heights [] m = m
skip_heights (h ∷ hs) m = skip_heights hs (λ n. if n == h then true else m n)

-- `none` is a panic.
pub node_chain_id : Flags → Option String
node_chain_id f = if str_eq f.chain_id "" then f.chain_id_of_genesis else some f.chain_id

pub app_arguments : Flags → String → AppArguments
unfolding skip_heights
app_arguments f id = record {
  base_options = f.base;
  load_latest = true;
  skip_upgrade_heights = skip_heights f.unsafe_skip_upgrades (λ n. false);
  home_path = f.home;
  base_chain_id = id;
  has_cache = f.inter_block_cache;
  vm_cache_metrics = f.telemetry_enabled;
}

pub with_chain_id : Flags → Option String → Option AppArguments
unfolding app_arguments
with_chain_id f none = none
with_chain_id f (some id) =
    if f.snapshot_db_ok
    then (if f.snapshot_store_ok then some (app_arguments f id) else none)
    else none

unfoldable pub new_app : Flags → Option AppArguments
unfolding node_chain_id with_chain_id
new_app f = if f.pruning_ok then with_chain_id f (node_chain_id f) else none

abbrev pub Listed : ℕ → List ℕ → Type 0
Listed n [] = ⊥
Listed n (h ∷ hs) = (n ≡ h) ⊎ Listed n hs

skip_heights-Listed :
    (hs : List ℕ) (m : ℕ → Bool) (n : ℕ)
    → (skip_heights hs m n ≡ true) ↔ ((m n ≡ true) ⊎ Listed n hs)
unfolding skip_heights
skip_heights-Listed [] m n = (λ h. inl h, only)
  where
    only : (m n ≡ true) ⊎ ⊥ → m n ≡ true
    only (inl h) = h
    only (inr no') = absurd no'
skip_heights-Listed (h ∷ hs) m n =
    ground (arith, skip_heights-Listed hs (λ k. if k == h then true else m k) n)

skip_exactly : (hs : List ℕ) (n : ℕ) → (skip_heights hs (λ _. false) n ≡ true) ↔ Listed n hs
skip_exactly hs n = (
  λ h. from_start ((skip_heights-Listed hs (λ _. false) n).0 h),
  λ l. (skip_heights-Listed hs (λ _. false) n).1 (inr l),
)
  where
    from_start : (false ≡ true) ⊎ Listed n hs → Listed n hs
    from_start (inl no') = absurd (cc)
    from_start (inr l) = l

-- When the set-up does not panic, the application is to load the latest version, skips exactly the
-- upgrades at the heights of the flag, and has the chain id of the flag, or that of the genesis file
-- where the flag is empty.
pub new_app_arguments :
    (f : Flags) (args : AppArguments) (n : ℕ)
    → new_app f ≡ some args
    → (args.load_latest ≡ true)
      × ((args.skip_upgrade_heights n ≡ true) ↔ Listed n f.unsafe_skip_upgrades)
      × (some args.base_chain_id
          ≡ (if str_eq f.chain_id "" then f.chain_id_of_genesis else some f.chain_id))
unfolding new_app node_chain_id with_chain_id
new_app_arguments f args n h = from_chain_id (node_chain_id f) (ground arith)
  where
    from_chain_id :
        (id : Option String)
        → with_chain_id f id ≡ some args
        → (args.load_latest ≡ true)
          × ((args.skip_upgrade_heights n ≡ true) ↔ Listed n f.unsafe_skip_upgrades)
          × (some args.base_chain_id ≡ id)
    from_chain_id none run = absurd (cc)
    from_chain_id (some id) run =
        let e : app_arguments f id ≡ args = ground arith in
        subst
          (λ r.
            (r.load_latest ≡ true)
            × ((r.skip_upgrade_heights n ≡ true) ↔ Listed n f.unsafe_skip_upgrades)
            × (some r.base_chain_id ≡ some id))
          e (refl, skip_exactly f.unsafe_skip_upgrades n, refl)
