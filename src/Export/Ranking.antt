-- ===== src/Export/Ranking.antt =====
-- The validators of an exported state: the stable sort by power, and the cut to the number of
-- consensus validators.
use mathlib.Core.List.{Perm}
use mathlib.Core.List.Perm
use echofi.Prelude.{
  ℕ, zero, suc, ◌≤◌, ◌≡◌, refl, ap, ◌∙◌, List, [], ◌∷◌, ◌++◌, String, Option, none, some,
  if◌then◌else◌, ltb, ◌==◌, arith, length, take, drop, take-append-drop, min, All, length-take,
  Bool-cases, inl, inr,
}

-- `tmtypes.GenesisValidator`: the power, and the address that stands for the other fields.
pub record GenesisValidator : Type 0 where
  pub address : String
  pub power : ℕ

-- One step of the stable sort: `v` stood before every validator of the sorted list.
unfoldable pub insert_by_power : GenesisValidator → List GenesisValidator → List GenesisValidator
insert_by_power v [] = v ∷ []
insert_by_power v (w ∷ ws) = if ltb v.power w.power then w ∷ insert_by_power v ws else v ∷ w ∷ ws

-- `sort.SliceStable` with `validators[i].Power > validators[j].Power`.
unfoldable pub sort_by_power : List GenesisValidator → List GenesisValidator
unfolding insert_by_power
sort_by_power [] = []
sort_by_power (v ∷ vs) = insert_by_power v (sort_by_power vs)

-- An `int64`: `negative` is any number below zero.
pub data MaxValidators : Type 0 where
  at_most : ℕ → MaxValidators
  negative : MaxValidators

-- `none` is the run-time panic of a slice expression with a negative bound.
unfoldable pub trim_validators :
    MaxValidators → List GenesisValidator → Option (List GenesisValidator)
trim_validators (at_most n) vs = some (if ltb n (length vs) then take n vs else vs)
trim_validators negative vs = none

abbrev pub IsDescending : List GenesisValidator → Type 0
IsDescending [] = Unit
IsDescending (v ∷ vs) = All (λ w. w.power ≤ v.power) vs × IsDescending vs

-- The validators of one power, in their order.
pub with_power : ℕ → List GenesisValidator → List GenesisValidator
with_power p [] = []
with_power p (v ∷ vs) = if v.power == p then v ∷ with_power p vs else with_power p vs

All-insert_by_power :
    (b : ℕ) (v : GenesisValidator) (ws : List GenesisValidator)
    → v.power ≤ b
    → All (λ w. w.power ≤ b) ws
    → All (λ w. w.power ≤ b) (insert_by_power v ws)
unfolding insert_by_power
All-insert_by_power b v [] h a = (h, tt)
All-insert_by_power b v (w ∷ ws) h a = ground (arith, All-insert_by_power b v ws h a.1)

All-weaken :
    (b c : ℕ) (ws : List GenesisValidator)
    → c ≤ b
    → All (λ w. w.power ≤ c) ws
    → All (λ w. w.power ≤ b) ws
All-weaken b c [] h a = tt
All-weaken b c (w ∷ ws) h a = (omega arith, All-weaken b c ws h a.1)

insert_by_power-IsDescending :
    (v : GenesisValidator) (ws : List GenesisValidator)
    → IsDescending ws
    → IsDescending (insert_by_power v ws)
unfolding insert_by_power
insert_by_power-IsDescending v [] d = (tt, tt)
insert_by_power-IsDescending v (w ∷ ws) d = elim (Bool-cases (ltb v.power w.power)) [
  | inl below ↦
      rw below
        (All-insert_by_power w.power v ws (ground arith) d.0, insert_by_power-IsDescending v ws d.1)
  | inr above ↦ rw above ((ground arith, All-weaken v.power w.power ws (ground arith) d.0), d)
]

sort_by_power-IsDescending : (vs : List GenesisValidator) → IsDescending (sort_by_power vs)
unfolding sort_by_power
sort_by_power-IsDescending [] = tt
sort_by_power-IsDescending (v ∷ vs) =
    insert_by_power-IsDescending v (sort_by_power vs) (sort_by_power-IsDescending vs)

insert_by_power-perm :
    (v : GenesisValidator) (ws : List GenesisValidator) → Perm (insert_by_power v ws) (v ∷ ws)
unfolding insert_by_power
insert_by_power-perm v [] = Perm.refl _
insert_by_power-perm v (w ∷ ws) = elim (Bool-cases (ltb v.power w.power)) [
  | inl below ↦ rw below (Perm.trans (Perm.cons w (insert_by_power-perm v ws)) (Perm.swap v w ws))
  | inr above ↦ rw above (Perm.refl _)
]

sort_by_power-perm : (vs : List GenesisValidator) → Perm (sort_by_power vs) vs
unfolding sort_by_power
sort_by_power-perm [] = Perm.refl _
sort_by_power-perm (v ∷ vs) =
    Perm.trans (insert_by_power-perm v (sort_by_power vs)) (Perm.cons v (sort_by_power-perm vs))

insert_by_power-stable :
    (p : ℕ) (v : GenesisValidator) (ws : List GenesisValidator)
    → with_power p (insert_by_power v ws) ≡ with_power p (v ∷ ws)
unfolding insert_by_power with_power
insert_by_power-stable p v [] = refl
insert_by_power-stable p v (w ∷ ws) = ground (arith, insert_by_power-stable p v ws)

sort_by_power-stable :
    (p : ℕ) (vs : List GenesisValidator) → with_power p (sort_by_power vs) ≡ with_power p vs
unfolding sort_by_power with_power
sort_by_power-stable p [] = refl
sort_by_power-stable p (v ∷ vs) =
    insert_by_power-stable p v (sort_by_power vs) ∙ ground (arith, sort_by_power-stable p vs)

-- The sort gives the same validators in descending order of power, and keeps the order of those of
-- equal power.
pub sort_by_power_lem :
    (vs : List GenesisValidator)
    → IsDescending (sort_by_power vs)
      × Perm (sort_by_power vs) vs
      × ((p : ℕ) → with_power p (sort_by_power vs) ≡ with_power p vs)
sort_by_power_lem vs =
    (sort_by_power-IsDescending vs, sort_by_power-perm vs, λ p. sort_by_power-stable p vs)

take-length : (n : ℕ) (vs : List GenesisValidator) → length vs ≤ n → take n vs ≡ vs
take-length zero [] h = refl
take-length zero (v ∷ vs) h = absurd (omega arith)
take-length (suc n) [] h = refl
take-length (suc n) (v ∷ vs) h = ap (◌∷◌ v) (take-length n vs (omega arith))

trim_validators-take :
    (n : ℕ) (vs : List GenesisValidator) → trim_validators (at_most n) vs ≡ some (take n vs)
unfolding trim_validators
trim_validators-take n vs = ground (arith, take-length n vs)

length-insert_by_power :
    (v : GenesisValidator) (ws : List GenesisValidator)
    → length (insert_by_power v ws) ≡ suc (length ws)
unfolding insert_by_power
length-insert_by_power v [] = refl
length-insert_by_power v (w ∷ ws) = ground (arith, length-insert_by_power v ws)

length-sort_by_power : (vs : List GenesisValidator) → length (sort_by_power vs) ≡ length vs
unfolding sort_by_power
length-sort_by_power [] = refl
length-sort_by_power (v ∷ vs) =
    length-insert_by_power v (sort_by_power vs) ∙ ap suc (length-sort_by_power vs)

-- Every power of the first list is at least every power of the second.
abbrev pub Dominates : List GenesisValidator → List GenesisValidator → Type 0
Dominates [] ws = Unit
Dominates (v ∷ vs) ws = All (λ w. w.power ≤ v.power) ws × Dominates vs ws

All-drop :
    (b n : ℕ) (vs : List GenesisValidator)
    → All (λ w. w.power ≤ b) vs
    → All (λ w. w.power ≤ b) (drop n vs)
All-drop b zero vs a = a
All-drop b (suc n) [] a = tt
All-drop b (suc n) (v ∷ vs) a = All-drop b n vs a.1

take-Dominates :
    (n : ℕ) (vs : List GenesisValidator) → IsDescending vs → Dominates (take n vs) (drop n vs)
take-Dominates zero vs d = tt
take-Dominates (suc n) [] d = tt
take-Dominates (suc n) (v ∷ vs) d = (All-drop v.power n vs d.0, take-Dominates n vs d.1)

-- The exported validators are the first of the sorted ones, at most as many as the limit allows,
-- all validators where there are no more than that, and none of the validators that are left out
-- has more power than one that is exported.
pub trim_keeps_strongest :
    (n : ℕ) (vs : List GenesisValidator)
    → (kept : List GenesisValidator) × (dropped : List GenesisValidator) × (trim_validators
          (at_most n)
          (sort_by_power vs)
        ≡ some kept)
      × Perm (kept ++ dropped) vs
      × (length kept ≡ min n (length vs))
      × Dominates kept dropped
trim_keeps_strongest n vs =
    let sorted = sort_by_power vs in
    (
      take n sorted,
      drop n sorted,
      trim_validators-take n sorted,
      rw (take-append-drop n sorted) (sort_by_power-perm vs),
      length-take n sorted ∙ ap (min n) (length-sort_by_power vs),
      take-Dominates n sorted (sort_by_power-IsDescending vs),
    )
