-- ===== src/Interchain.antt =====
-- interchaintest: the tests that run the node in containers. This file has what they take from
-- other repositories, and a test as a run that stops at the first failed check.
pub mod Numbers
pub mod Votes
pub mod Types
pub mod Query
pub mod Staking
pub mod Proposal
pub mod Image
pub mod Setup
pub mod Gov
pub mod StakingTest
pub mod Transfer
pub mod Encoding
pub mod Tests
pub mod SetupTests
use echofi.Prelude.{
  ℕ, ◌≡◌, refl, sym, ap, arith, Bool, true, false, List, [], ◌∷◌, String, Option, none, some,
  if◌then◌else◌,
}

-- `(stdout, err)` of `chain.Exec`. Its third result is only ever printed.
pub record Output : Type 0 where
  pub stdout : String
  pub fails : Bool

-- `cosmos.ChainNode`: one container of a chain.
pub record ChainNode : Type 0 where
  pub name : String
  pub validator : Bool

-- A running chain of interchaintest. `World` is the state of its containers: a command runs to its
-- end in one step, and an error is its text. `wait_for_blocks` says whether the blocks came, and
-- `poll_for_status` whether the proposal came to the status between two heights, which are 64-bit
-- words. The three texts are constants of other repositories.
pub record Chain : Type 1 where
  pub World : Type 0
  pub rpc_address : String
  pub home_dir : String
  pub chain_id : String
  pub denom : String
  pub nodes : List ChainNode
  pub exec : List String → World → World × Output
  pub exec_tx : ChainNode → String → List String → World → World × Option String
  pub height : World → Option ℕ
  pub poll_for_status : ℕ → ℕ → ℕ → String → World → World × Bool
  pub backend_test : String
  pub proposal_vote_yes : String
  pub status_passed : String
  pub wait_for_blocks : ℕ → World → World × Bool

-- A wallet of the chain.
pub record Wallet : Type 0 where
  pub key_name : String

-- A test on a state of type `S`. `none`: it has been stopped, by `require` or by `t.Fatal`.
abbrev pub TestOn : Type 0 → Type 0 → Type 0
TestOn S A = S → S × Option A

module _ {S : Type 0} where
  abbrev pub proceed : {A B : Type 0} → S × Option A → (A → TestOn S B) → S × Option B
  proceed (s, none) next = (s, none)
  proceed (s, some a) next = next a s

  -- `require.NoError` and `require.True`.
  abbrev pub require_on : Bool → TestOn S (Unit {0})
  require_on true s = (s, some tt)
  require_on false s = (s, none)

  -- The check of an error that comes with a value.
  abbrev pub value_on : {A : Type 0} → Option A → TestOn S A
  value_on o s = (s, o)

module _ (c : Chain) where
  -- The containers, and the commands that have been run in them, the last one first.
  pub record Lab : Type 0 where
    pub world : c.World
    pub commands : List (List String)

  abbrev pub Run : Type 0 → Type 0
  Run A = TestOn Lab A

  abbrev pub give : {A : Type 0} → A → Run A
  give a lab = (lab, some a)

  abbrev pub fatal : {A : Type 0} → Run A
  fatal lab = (lab, none)

  abbrev pub require : Bool → Run (Unit {0})
  require = require_on

  -- `json.Unmarshal`, and the end of the test where it fails.
  abbrev pub decoded : {A : Type 0} → Option A → Run A
  decoded = value_on

  -- `stdout, _, err := chain.Exec(ctx, cmd, nil)` and `require.NoError(t, err)`.
  unfoldable pub exec_ok : List String → Run String
  exec_ok cmd lab =
      let (after, out) = c.exec cmd lab.world in
      let lab' : Lab = record { world = after; commands = cmd ∷ lab.commands } in
      if out.fails then (lab', none) else (lab', some out.stdout)

  -- `testutil.WaitForBlocks(ctx, n, chain)`, and the end of the test where it fails.
  unfoldable pub wait_ok : ℕ → Run (Unit {0})
  wait_ok n lab =
      let (after, came) = c.wait_for_blocks n lab.world in
      require came (record lab { world = after })

infixl 5 ◌>>=◌ ◌>>◌
abbrev pub ◌>>=◌ : {S A B : Type 0} → TestOn S A → (A → TestOn S B) → TestOn S B
(first >>= next) s = proceed (first s) next

abbrev pub ◌>>◌ : {S B : Type 0} → TestOn S (Unit {0}) → TestOn S B → TestOn S B
first >> next = first >>= λ _. next

module _ {S A B : Type 0} where
  proceed-passes :
      (r : S × Option A) (next : A → TestOn S B) {s : S} {b : B}
      → proceed r next ≡ (s, some b)
      → (s1 : S) × (a : A) × (r ≡ (s1, some a)) × (next a s1 ≡ (s, some b))
  proceed-passes (s1, none) next h = absurd (cc)
  proceed-passes (s1, some a) next h = (s1, a, refl, h)

  -- Inversion of a test that passes.
  pub >>=-passes :
      (m : TestOn S A) (next : A → TestOn S B) (before : S) {s : S} {b : B}
      → (m >>= next) before ≡ (s, some b)
      → (s1 : S) × (a : A) × (m before ≡ (s1, some a)) × (next a s1 ≡ (s, some b))
  >>=-passes m next before h = proceed-passes (m before) next h

module _ {S : Type 0} where
  pub require-passes :
      (b : Bool) (before : S) {s : S} {u : Unit {0}}
      → require_on b before ≡ (s, some u)
      → (b ≡ true) × (s ≡ before)
  require-passes false before h = absurd (cc (ap (λ (r : S × Option (Unit {0})). r.1) h))
  require-passes true before h = (refl, sym (ap (λ (r : S × Option (Unit {0})). r.0) h))

  pub value-passes :
      {A : Type 0} (o : Option A) (before : S) {s : S} {a : A}
      → value_on o before ≡ (s, some a)
      → (s ≡ before) × (o ≡ some a)
  value-passes o before h =
      (sym (ap (λ (r : S × Option _). r.0) h), ap (λ (r : S × Option _). r.1) h)

module _ (c : Chain) where
  -- A command that did not fail is the last one that has been run.
  pub exec_ok-passes :
      (cmd : List String) (before : Lab c) {lab : Lab c} {out : String}
      → exec_ok c cmd before ≡ (lab, some out)
      → (lab.commands ≡ cmd ∷ before.commands)
        × ((c.exec cmd before.world).1.fails ≡ false)
        × ((c.exec cmd before.world).1.stdout ≡ out)
  unfolding exec_ok
  exec_ok-passes cmd before h = ground arith

  pub exec_ok-world :
      (cmd : List String) (before : Lab c) {lab : Lab c} {out : String}
      → exec_ok c cmd before ≡ (lab, some out)
      → lab.world ≡ (c.exec cmd before.world).0
  unfolding exec_ok
  exec_ok-world cmd before h = ground arith

  pub wait_ok-world :
      (n : ℕ) (before : Lab c) {lab : Lab c} {u : Unit {0}}
      → wait_ok c n before ≡ (lab, some u)
      → lab.world ≡ (c.wait_for_blocks n before.world).0
  unfolding wait_ok
  wait_ok-world n before h = ground arith

  pub wait_ok-passes :
      (n : ℕ) (before : Lab c) {lab : Lab c} {u : Unit {0}}
      → wait_ok c n before ≡ (lab, some u)
      → (lab.commands ≡ before.commands) × ((c.wait_for_blocks n before.world).1 ≡ true)
  unfolding wait_ok
  wait_ok-passes n before h = ground arith
