-- ===== src/Wiring/Precompiles.antt =====
-- app/keepers/precompiles.go: the static precompiles of the EVM.
use echofi.Prelude.{
  ℕ, ◌≡◌, refl, subst, ◌∙◌, inl, inr, Bool, true, false, ◌||◌, List, [], ◌∷◌, map, String, Option,
  none, some, if◌then◌else◌, str_eq, eq_iff, arith, Bool-cases,
}
use mathlib.Core.Option.{some-injective}
use echofi.Wiring.State.{◌>>=◌}

abbrev pub bech32_precompile_base_gas : ℕ
bech32_precompile_base_gas = 6000

-- The contracts of the EVM module with their constructors, of which `none` is an error, the map of
-- the latest fork, and the constants for the addresses.
pub record Contracts : Type 1 where
  pub Contract : Type 0
  pub address : Contract → String
  pub precompiled_contracts_prague : String → Option Contract
  pub p256_precompile : Contract
  pub new_bech32 : ℕ → Option Contract
  pub new_bank : Option Contract
  pub new_gov : Option Contract
  pub new_slashing : Option Contract
  pub new_evidence : Option Contract
  pub p256_address : String
  pub bech32_address : String
  pub bank_address : String
  pub gov_address : String
  pub slashing_address : String
  pub evidence_address : String

>>=-some :
    {A B : Type 0} (o : Option A) (go : A → Option B) {out : B}
    → (o >>= go) ≡ some out
    → (v : A) × (o ≡ some v) × (go v ≡ some out)
>>=-some none go stopped = absurd (cc)
>>=-some (some v) go h = (v, refl, h)

module _ (x : Contracts) where
  -- `BabylonAvailableStaticPrecompiles`
  abbrev pub available_static_precompiles : List String
  available_static_precompiles =
      x.p256_address ∷ x.bech32_address ∷ x.bank_address ∷ x.gov_address ∷ x.slashing_address
      ∷ x.evidence_address ∷ []

  abbrev pub PrecompileMap : Type 0
  PrecompileMap = String → Option x.Contract

  -- `precompiles[c.Address()] = c`
  abbrev pub add_precompile : x.Contract → PrecompileMap → PrecompileMap
  add_precompile c m a = if str_eq (x.address c) a then some c else m a

  abbrev pub add_precompiles : List x.Contract → PrecompileMap → PrecompileMap
  add_precompiles [] m = m
  add_precompiles (c ∷ cs) m = add_precompiles cs (add_precompile c m)

  -- `none` is a panic.
  unfoldable pub new_available_static_precompiles : Option PrecompileMap
  new_available_static_precompiles = do
    bech32 ← x.new_bech32 bech32_precompile_base_gas
    bank ← x.new_bank
    gov ← x.new_gov
    slashing ← x.new_slashing
    evidence ← x.new_evidence
    some (
        add_precompiles (bech32 ∷ x.p256_precompile ∷ bank ∷ gov ∷ slashing ∷ evidence ∷ [])
          x.precompiled_contracts_prague)

  -- What the EVM module documents: a contract has the address of its constant.
  pub record HasAddresses : Type 0 where
    pub p256_at : x.address x.p256_precompile ≡ x.p256_address
    pub bech32_at :
        (g : ℕ) (c : x.Contract) → x.new_bech32 g ≡ some c → x.address c ≡ x.bech32_address
    pub bank_at : (c : x.Contract) → x.new_bank ≡ some c → x.address c ≡ x.bank_address
    pub gov_at : (c : x.Contract) → x.new_gov ≡ some c → x.address c ≡ x.gov_address
    pub slashing_at : (c : x.Contract) → x.new_slashing ≡ some c → x.address c ≡ x.slashing_address
    pub evidence_at : (c : x.Contract) → x.new_evidence ≡ some c → x.address c ≡ x.evidence_address

  abbrev pub listed : String → List String → Bool
  listed a [] = false
  listed a (b ∷ bs) = str_eq b a || listed a bs

  -- Whether the map has a contract of its own under the address, or what it had before.
  abbrev pub Holds : Bool → PrecompileMap → PrecompileMap → String → Type 0
  Holds true m old a = (c : x.Contract) × (m a ≡ some c) × (x.address c ≡ a)
  Holds false m old a = m a ≡ old a

  keeps_own :
      (cs : List x.Contract) (m : PrecompileMap) (a : String) (c : x.Contract)
      → m a ≡ some c
      → x.address c ≡ a
      → Holds true (add_precompiles cs m) m a
  keeps_own [] m a c h e = (c, h, e)
  keeps_own (d ∷ ds) m a c h e = elim (Bool-cases (str_eq (x.address d) a)) [
    | inl hit ↦
        let (c', h', e') =
          keeps_own ds (add_precompile d m) a d (rw hit refl) ((eq_iff (x.address d) a).0 hit) in
        (c', h', e')
    | inr miss ↦ keeps_own ds (add_precompile d m) a c (rw miss h) e
  ]

  add_precompiles-Holds :
      (cs : List x.Contract) (m : PrecompileMap) (a : String)
      → Holds (listed a (map x.address cs)) (add_precompiles cs m) m a
  add_precompiles-Holds [] m a = refl
  add_precompiles-Holds (d ∷ ds) m a = elim (Bool-cases (str_eq (x.address d) a)) [
    | inl hit ↦
        rw hit
          (keeps_own ds (add_precompile d m) a d (rw hit refl) ((eq_iff (x.address d) a).0 hit))
    | inr miss ↦ rw miss (
        from_rest (listed a (map x.address ds)) _ (add_precompile d m) m a
          (add_precompiles-Holds ds (add_precompile d m) a) (rw miss refl))
  ]
    where
      from_rest :
          (b : Bool) (m1 m2 m3 : PrecompileMap) (a : String)
          → Holds b m1 m2 a
          → m2 a ≡ m3 a
          → Holds b m1 m3 a
      from_rest true m1 m2 m3 a h e = h
      from_rest false m1 m2 m3 a h e = h ∙ e

  listed_swap :
      (a p q : String) (rest : List String) → listed a (p ∷ q ∷ rest) ≡ listed a (q ∷ p ∷ rest)
  listed_swap a p q rest = ground arith

  -- When the set-up of the precompiles does not panic, each address of the list of available
  -- precompiles has a contract with that address, and under any other address the map is that of
  -- the latest fork.
  pub precompiles_available :
      (at_constants : HasAddresses) (m : PrecompileMap) (a : String)
      → new_available_static_precompiles ≡ some m
      → Holds (listed a available_static_precompiles) m x.precompiled_contracts_prague a
  unfolding new_available_static_precompiles
  precompiles_available at_constants m a h =
      let (bech32, h1, r1) = >>=-some (x.new_bech32 bech32_precompile_base_gas) _ h in
      let (bank, h2, r2) = >>=-some x.new_bank _ r1 in
      let (gov, h3, r3) = >>=-some x.new_gov _ r2 in
      let (slashing, h4, r4) = >>=-some x.new_slashing _ r3 in
      let (evidence, h5, r5) = >>=-some x.new_evidence _ r4 in
      let cs = bech32 ∷ x.p256_precompile ∷ bank ∷ gov ∷ slashing ∷ evidence ∷ [] in
      let same_addresses : listed a (map x.address cs) ≡ listed a available_static_precompiles =
        rw
          (
            at_constants.bech32_at _ _ h1,
            at_constants.p256_at,
            at_constants.bank_at _ h2,
            at_constants.gov_at _ h3,
            at_constants.slashing_at _ h4,
            at_constants.evidence_at _ h5,
          )
          (listed_swap a x.bech32_address x.p256_address
            (x.bank_address ∷ x.gov_address ∷ x.slashing_address ∷ x.evidence_address ∷ [])) in
      subst (λ b. Holds b m x.precompiled_contracts_prague a) same_addresses
        (subst (λ n. Holds (listed a (map x.address cs)) n x.precompiled_contracts_prague a)
          (some-injective _ _ r5) (add_precompiles-Holds cs x.precompiled_contracts_prague a))
