-- ===== src/Ante/Authz/Accepts.antt =====
-- Exactly which transactions the authz limiter accepts: a description of the messages that does not
-- mention the traversal, and the equivalence of the two.
use mathlib.Core.Logic.Or
use mathlib.Core.List.{mem-cons, not-mem-nil, mem-cons_self, mem-cons_of_mem}
use mathlib.Core.HLevel.{⊥_prop}
use echofi.Prelude.{
  ℕ, suc, ◌+◌, ◌<◌, max, ◌≡◌, refl, sym, ◌↔◌, Bool, true, false, List, [], ◌∷◌, Mem, String, str_eq,
  eq_iff, Bool-cases, inl, inr, arith, subst,
}
use echofi.Ante.Authz.{
  Check, ok, err, Authorization, authorization, bad_authorization, Msg, exec, grant, other, Packed,
  unpacked, bad_packed, Msgs, nil, cons, max_nested_msgs, is_disabled_msg, check_nested_lvl,
  check_url, check_grant, next_lvl, check_msgs, check_msg, check_packed, check_disabled_msgs, ◌>>◌,
}

-- The scan of the list of disabled types is membership.
pub is_disabled_msg→Mem :
    (disabled : List String) (url : String) → is_disabled_msg disabled url ≡ true → Mem url disabled
unfolding is_disabled_msg
is_disabled_msg→Mem [] url h = cc
is_disabled_msg→Mem (d ∷ rest) url h = elim (Bool-cases (str_eq url d)) [
  | inl equal ↦ subst (λ u. Mem u (d ∷ rest)) (sym ((eq_iff url d).0 equal)) mem-cons_self
  | inr differ ↦ mem-cons_of_mem d (is_disabled_msg→Mem rest url (ground arith))
]

pub not_is_disabled_msg→Mem :
    (disabled : List String) (url : String)
    → is_disabled_msg disabled url ≡ false
    → ¬ Mem url disabled
unfolding is_disabled_msg
not_is_disabled_msg→Mem [] url h m = not-mem-nil m
not_is_disabled_msg→Mem (d ∷ rest) url h m =
    Or.elim ⊥_prop (mem-cons.0 m) (λ e. ground (arith, eq_iff url d))
      (not_is_disabled_msg→Mem rest url (ground arith))

-- Whether a URL may travel where it is searched for disabled types.
abbrev pub Allowed : List String → Bool → String → Type 0
Allowed disabled searched url = searched ≡ true → ¬ Mem url disabled

abbrev pub GrantAllowed : List String → Authorization → Type 0
GrantAllowed disabled (authorization url) = ¬ Mem url disabled
GrantAllowed disabled (bad_authorization e) = ⊥

-- Every authz message unpacks, no grant at any depth is for a disabled type, and no message inside
-- a `MsgExec`, at any depth, is of a disabled type. The Boolean says whether the list itself stands
-- inside a `MsgExec`.
unfoldable mutual
  pub IsClean : List String → Bool → Msgs → Type 0
  IsClean disabled inner nil = Unit
  IsClean disabled inner (cons msg msgs) =
      IsCleanMsg disabled inner msg × IsClean disabled inner msgs

  pub IsCleanMsg : List String → Bool → Msg → Type 0
  IsCleanMsg disabled inner (exec packed) = IsCleanPacked disabled packed
  IsCleanMsg disabled inner (grant a) = GrantAllowed disabled a
  IsCleanMsg disabled inner (other url) = Allowed disabled inner url

  pub IsCleanPacked : List String → Packed → Type 0
  IsCleanPacked disabled (bad_packed e) = ⊥
  IsCleanPacked disabled (unpacked msgs) = IsClean disabled true msgs

-- What the messages add to the nesting level: a `MsgExec` counts for the messages inside it and
-- also for those that follow it in the same list.
unfoldable mutual
  pub load : Msgs → ℕ
  load nil = 0
  load (cons msg msgs) = max (load_msg msg) (next_lvl msg 0 + load msgs)

  pub load_msg : Msg → ℕ
  load_msg (exec packed) = suc (load_packed packed)
  load_msg (grant a) = 0
  load_msg (other url) = 0

  pub load_packed : Packed → ℕ
  load_packed (bad_packed e) = 0
  load_packed (unpacked msgs) = load msgs

check_url-ok :
    (disabled : List String) (searched : Bool) (url : String)
    → check_url disabled searched url ≡ ok
    → Allowed disabled searched url
unfolding check_url
check_url-ok disabled searched url h s = not_is_disabled_msg→Mem disabled url (ground arith)

ok-check_url :
    (disabled : List String) (searched : Bool) (url : String)
    → Allowed disabled searched url
    → check_url disabled searched url ≡ ok
unfolding check_url
ok-check_url disabled false url allowed = refl
ok-check_url disabled true url allowed = elim (Bool-cases (is_disabled_msg disabled url)) [
  | inl yes' ↦ absurd (allowed refl (is_disabled_msg→Mem disabled url yes'))
  | inr no' ↦ rw no'
]

check_grant-ok :
    (disabled : List String) (a : Authorization)
    → check_grant disabled a ≡ ok
    → GrantAllowed disabled a
unfolding check_grant
check_grant-ok disabled (authorization url) h = check_url-ok disabled true url h refl
check_grant-ok disabled (bad_authorization e) h = cc

ok-check_grant :
    (disabled : List String) (a : Authorization)
    → GrantAllowed disabled a
    → check_grant disabled a ≡ ok
unfolding check_grant
ok-check_grant disabled (authorization url) allowed = ok-check_url disabled true url (λ _. allowed)
ok-check_grant disabled (bad_authorization e) allowed = absurd allowed

>>-ok : (m k : Check) → (m >> k) ≡ ok → (m ≡ ok) × (k ≡ ok)
>>-ok ok k h = (refl, h)
>>-ok (err e) k h = absurd (cc)

ok->> : (m k : Check) → m ≡ ok → k ≡ ok → (m >> k) ≡ ok
ok->> m k p q = ground arith

check_nested_lvl-ok : (lvl : ℕ) → check_nested_lvl lvl ≡ ok → lvl < max_nested_msgs
unfolding check_nested_lvl
check_nested_lvl-ok lvl h = ground arith

ok-check_nested_lvl : (lvl : ℕ) → lvl < max_nested_msgs → check_nested_lvl lvl ≡ ok
unfolding check_nested_lvl
ok-check_nested_lvl lvl h = ground arith

next_lvl-add : (msg : Msg) (lvl : ℕ) → next_lvl msg lvl ≡ next_lvl msg 0 + lvl
next_lvl-add (exec p) lvl = omega arith
next_lvl-add (grant a) lvl = omega arith
next_lvl-add (other url) lvl = omega arith

-- A message that passes leaves the level within the limit.
mutual
  unfolding check_msgs IsClean load

  check_msgs-ok :
      (disabled : List String) (inner : Bool) (lvl : ℕ) (msgs : Msgs)
      → lvl < max_nested_msgs
      → check_msgs disabled inner lvl msgs ≡ ok
      → IsClean disabled inner msgs × (lvl + load msgs < max_nested_msgs)
  check_msgs-ok disabled inner lvl nil h e = (tt, omega arith)
  check_msgs-ok disabled inner lvl (cons msg msgs) h e =
      let (first, rest) = >>-ok (check_msg disabled inner lvl msg) _ e in
      let (clean, fits, next) = check_msg-ok disabled inner lvl msg h first in
      let (cleans, fit) = check_msgs-ok disabled inner (next_lvl msg lvl) msgs next rest in
      ((clean, cleans), omega (arith, next_lvl-add msg lvl))

  check_msg-ok :
      (disabled : List String) (inner : Bool) (lvl : ℕ) (msg : Msg)
      → lvl < max_nested_msgs
      → check_msg disabled inner lvl msg ≡ ok
      → IsCleanMsg disabled inner msg
        × (lvl + load_msg msg < max_nested_msgs)
        × (next_lvl msg lvl < max_nested_msgs)
  check_msg-ok disabled inner lvl (exec packed) h e =
      let (clean, fits) = check_packed-ok disabled (suc lvl) packed e in
      (clean, omega arith, omega arith)
  check_msg-ok disabled inner lvl (grant a) h e = (check_grant-ok disabled a e, omega arith, h)
  check_msg-ok disabled inner lvl (other url) h e =
      (check_url-ok disabled inner url e, omega arith, h)

  check_packed-ok :
      (disabled : List String) (lvl : ℕ) (packed : Packed)
      → check_packed disabled lvl packed ≡ ok
      → IsCleanPacked disabled packed × (lvl + load_packed packed < max_nested_msgs)
  check_packed-ok disabled lvl (bad_packed e) h = absurd (cc)
  check_packed-ok disabled lvl (unpacked msgs) h =
      let (within, rest) = >>-ok (check_nested_lvl lvl) _ h in
      check_msgs-ok disabled true lvl msgs (check_nested_lvl-ok lvl within) rest

mutual
  unfolding check_msgs IsClean load

  ok-check_msgs :
      (disabled : List String) (inner : Bool) (lvl : ℕ) (msgs : Msgs)
      → IsClean disabled inner msgs
      → lvl + load msgs < max_nested_msgs
      → check_msgs disabled inner lvl msgs ≡ ok
  ok-check_msgs disabled inner lvl nil clean h = refl
  ok-check_msgs disabled inner lvl (cons msg msgs) clean h =
      ok->> (check_msg disabled inner lvl msg) _
        (ok-check_msg disabled inner lvl msg clean.0 (omega arith))
        (ok-check_msgs disabled inner (next_lvl msg lvl) msgs clean.1
          (omega (arith, next_lvl-add msg lvl)))

  ok-check_msg :
      (disabled : List String) (inner : Bool) (lvl : ℕ) (msg : Msg)
      → IsCleanMsg disabled inner msg
      → lvl + load_msg msg < max_nested_msgs
      → check_msg disabled inner lvl msg ≡ ok
  ok-check_msg disabled inner lvl (exec packed) clean h =
      ok-check_packed disabled (suc lvl) packed clean (omega arith)
  ok-check_msg disabled inner lvl (grant a) clean h = ok-check_grant disabled a clean
  ok-check_msg disabled inner lvl (other url) clean h = ok-check_url disabled inner url clean

  ok-check_packed :
      (disabled : List String) (lvl : ℕ) (packed : Packed)
      → IsCleanPacked disabled packed
      → lvl + load_packed packed < max_nested_msgs
      → check_packed disabled lvl packed ≡ ok
  ok-check_packed disabled lvl (bad_packed e) clean h = absurd clean
  ok-check_packed disabled lvl (unpacked msgs) clean h =
      ok->> (check_nested_lvl lvl) _ (ok-check_nested_lvl lvl (omega arith))
        (ok-check_msgs disabled true lvl msgs clean h)

-- The check accepts a list of messages at a nesting level exactly when every authz message in it
-- unpacks, no grant at any depth is for a disabled type, no message inside a `MsgExec` is of a
-- disabled type, and the level plus what the messages add to it stays below the limit.
pub check_disabled_msgs_iff :
    (disabled : List String) (msgs : Msgs) (inner : Bool) (lvl : ℕ)
    → (check_disabled_msgs disabled msgs inner lvl ≡ ok)
      ↔ (IsClean disabled inner msgs × (lvl + load msgs < max_nested_msgs))
unfolding check_disabled_msgs
check_disabled_msgs_iff disabled msgs inner lvl = (
  λ e.
      let (within, rest) = >>-ok (check_nested_lvl lvl) _ e in
      check_msgs-ok disabled inner lvl msgs (check_nested_lvl-ok lvl within) rest,
  λ (clean, fits).
      ok->> (check_nested_lvl lvl) _ (ok-check_nested_lvl lvl (omega arith))
        (ok-check_msgs disabled inner lvl msgs clean fits),
)
