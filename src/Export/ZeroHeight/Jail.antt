-- ===== src/Export/ZeroHeight/Jail.antt =====
-- Which validators the zero-height preparation jails.
use mathlib.Core.Logic.Or
use mathlib.Core.HLevel.{⊥_prop}
use mathlib.Core.List.{cons≢nil, mem-cons, mem-cons_self, mem-cons_of_mem, not-mem-nil}
use echofi.Prelude.{
  ◌≡◌, ◌≢◌, refl, subst, ◌↔◌, ◌⊎◌, Bool, true, false, not, ◌&&◌, List, [], ◌∷◌, String, arith,
  Bool-cases, inl, inr, if◌then◌else◌, str_eq, eq_iff, Mem,
}
use echofi.Export.Chain.{Validator, Keepers}
use echofi.Export.ZeroHeight.{is_allowed, is_empty, reset_validator}

is_allowed→Mem : (bs : List String) (a : String) → is_allowed bs a ≡ true → Mem a bs
is_allowed→Mem [] a h = cc
is_allowed→Mem (b ∷ bs) a h = elim (Bool-cases (str_eq b a)) [
  | inl equal ↦ subst (λ u. Mem u (b ∷ bs)) ((eq_iff b a).0 equal) mem-cons_self
  | inr differ ↦ mem-cons_of_mem b (is_allowed→Mem bs a (ground arith))
]

Mem→is_allowed : (bs : List String) (a : String) → is_allowed bs a ≡ false → ¬ Mem a bs
Mem→is_allowed [] a h m = not-mem-nil m
Mem→is_allowed (b ∷ bs) a h m =
    Or.elim ⊥_prop (mem-cons.0 m) (λ e. ground (arith, eq_iff b a))
      (Mem→is_allowed bs a (ground arith))

abbrev Jails : List String → String → Bool → Type 0
Jails allowed a was = (was ≡ true) ⊎ ((allowed ≢ []) × ¬ Mem a allowed)

jail_rule :
    (allowed : List String) (a : String) (was : Bool)
    → ((if not (is_empty allowed) && not (is_allowed allowed a) then true else was) ≡ true)
      ↔ Jails allowed a was
jail_rule [] a was = (λ h. inl h, from_jails)
  where
    from_jails : Jails [] a was → was ≡ true
    from_jails (inl h) = h
    from_jails (inr (some_allowed, _)) = absurd (some_allowed refl)
jail_rule (b ∷ bs) a was = elim (Bool-cases (is_allowed (b ∷ bs) a)) [
  | inl found ↦ rw found (λ h. inl h, from_found found)
  | inr missing ↦
      rw missing (λ _. inr (λ e. cons≢nil e, Mem→is_allowed (b ∷ bs) a missing), λ _. refl)
]
  where
    from_found : is_allowed (b ∷ bs) a ≡ true → Jails (b ∷ bs) a was → was ≡ true
    from_found found (inl h) = h
    from_found found (inr (_, absent)) = absurd (absent (is_allowed→Mem (b ∷ bs) a found))

-- After the reset a validator has unbonding height zero, keeps its address, its operator and its
-- other fields, and is jailed exactly if it was jailed before, or if there is a list of allowed
-- addresses and its own address is not in it.
pub reset_validator_jailed :
    (x : Keepers) (allowed : List String) (addr : String) (v : Validator)
    → let v' = reset_validator x allowed addr v in
      (v'.unbonding_height ≡ 0)
      × (v'.address ≡ v.address)
      × (v'.operator ≡ v.operator)
      × (v'.extra ≡ v.extra)
      × ((v'.jailed ≡ true)
          ↔ ((v.jailed ≡ true) ⊎ ((allowed ≢ []) × ¬ Mem (x.val_address_string addr) allowed)))
unfolding reset_validator
reset_validator_jailed x allowed addr v =
    (refl, refl, refl, refl, jail_rule allowed (x.val_address_string addr) v.jailed)
