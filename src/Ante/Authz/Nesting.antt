-- ===== src/Ante/Authz/Nesting.antt =====
-- The nesting limit of the authz limiter: how the level that the code counts relates to the depth
-- of the nesting that its comment speaks of.
use echofi.Prelude.{
  ℕ, zero, suc, ◌+◌, ◌≤◌, ◌<◌, max, ◌≡◌, refl, ◌↔◌, Bool, false, List, String, arith,
}
use echofi.Ante.Authz.{
  ok, err, too_many_nested_msgs, Msg, exec, grant, other, Packed, unpacked, bad_packed, Msgs, nil,
  cons, next_lvl, check_nested_lvl, check_msgs, check_disabled_msgs,
}
use echofi.Ante.Authz.Accepts.{IsClean, load, load_msg, load_packed, check_disabled_msgs_iff}

-- How many `MsgExec`s stand around the innermost message.
mutual
  pub depth : Msgs → ℕ
  depth nil = 0
  depth (cons msg msgs) = max (depth_msg msg) (depth msgs)

  pub depth_msg : Msg → ℕ
  depth_msg (exec packed) = suc (depth_packed packed)
  depth_msg (grant a) = 0
  depth_msg (other url) = 0

  pub depth_packed : Packed → ℕ
  depth_packed (bad_packed e) = 0
  depth_packed (unpacked msgs) = depth msgs

mutual
  unfolding depth load

  depth-le : (msgs : Msgs) → depth msgs ≤ load msgs
  depth-le nil = omega arith
  depth-le (cons msg msgs) = omega (arith, depth_msg-le msg, depth-le msgs)

  depth_msg-le : (msg : Msg) → depth_msg msg ≤ load_msg msg
  depth_msg-le (exec packed) = omega (arith, depth_packed-le packed)
  depth_msg-le (grant a) = omega arith
  depth_msg-le (other url) = omega arith

  depth_packed-le : (packed : Packed) → depth_packed packed ≤ load_packed packed
  depth_packed-le (bad_packed e) = omega arith
  depth_packed-le (unpacked msgs) = depth-le msgs

-- The `MsgExec`s of the list itself.
unfoldable pub exec_count : Msgs → ℕ
exec_count nil = 0
exec_count (cons msg msgs) = next_lvl msg 0 + exec_count msgs

exec_count-le-load : (msgs : Msgs) → exec_count msgs ≤ load msgs
unfolding exec_count load
exec_count-le-load nil = omega arith
exec_count-le-load (cons msg msgs) = omega (arith, exec_count-le-load msgs)

-- No list has a second `MsgExec`.
unfoldable mutual
  pub IsLinear : Msgs → Type 0
  IsLinear nil = Unit
  IsLinear (cons msg msgs) =
      (next_lvl msg 0 + exec_count msgs ≤ 1) × IsLinearMsg msg × IsLinear msgs

  pub IsLinearMsg : Msg → Type 0
  IsLinearMsg (exec packed) = IsLinearPacked packed
  IsLinearMsg (grant a) = Unit
  IsLinearMsg (other url) = Unit

  pub IsLinearPacked : Packed → Type 0
  IsLinearPacked (bad_packed e) = Unit
  IsLinearPacked (unpacked msgs) = IsLinear msgs

load-eq_zero : (msgs : Msgs) → exec_count msgs ≡ 0 → load msgs ≡ 0
unfolding exec_count load
load-eq_zero nil h = refl
load-eq_zero (cons (exec p) msgs) h = absurd (omega arith)
load-eq_zero (cons (grant a) msgs) h = omega (arith, load-eq_zero msgs (omega arith))
load-eq_zero (cons (other url) msgs) h = omega (arith, load-eq_zero msgs (omega arith))

mutual
  unfolding IsLinear depth load

  load-eq-depth : (msgs : Msgs) → IsLinear msgs → load msgs ≡ depth msgs
  load-eq-depth nil l = refl
  load-eq-depth (cons (exec p) msgs) l =
      omega
        (arith, load_packed-eq-depth p l.1, load-eq-depth msgs l.2, load-eq_zero msgs (omega arith))
  load-eq-depth (cons (grant a) msgs) l = omega (arith, load-eq-depth msgs l.2)
  load-eq-depth (cons (other url) msgs) l = omega (arith, load-eq-depth msgs l.2)

  load_packed-eq-depth : (p : Packed) → IsLinearPacked p → load_packed p ≡ depth_packed p
  load_packed-eq-depth (bad_packed e) l = refl
  load_packed-eq-depth (unpacked msgs) l = load-eq-depth msgs l

-- A transaction that the check accepts nests its messages less than six deep, and holds less than
-- six `MsgExec`s side by side.
pub accepted_depth :
    (disabled : List String) (msgs : Msgs)
    → check_disabled_msgs disabled msgs false 1 ≡ ok
    → (depth msgs < 6) × (exec_count msgs < 6)
accepted_depth disabled msgs e =
    let fits = ((check_disabled_msgs_iff disabled msgs false 1).0 e).1 in
    (omega (arith, depth-le msgs), omega (arith, exec_count-le-load msgs))

-- For a transaction in which no list has a second `MsgExec`, the check accepts exactly the messages
-- that are clean and nest less than six deep.
pub linear_accepted_iff :
    (disabled : List String) (msgs : Msgs)
    → IsLinear msgs
    → (check_disabled_msgs disabled msgs false 1 ≡ ok)
      ↔ (IsClean disabled false msgs × (depth msgs < 6))
linear_accepted_iff disabled msgs l = (
  λ e.
      let (clean, fits) = (check_disabled_msgs_iff disabled msgs false 1).0 e in
      (clean, omega (arith, load-eq-depth msgs l)),
  λ (clean, shallow).
      (check_disabled_msgs_iff disabled msgs false 1).1
        (clean, omega (arith, load-eq-depth msgs l)),
)

-- `n` empty `MsgExec`s one after the other: nothing is nested in them.
abbrev pub siblings : ℕ → Msgs
siblings zero = nil
siblings (suc n) = cons (exec (unpacked nil)) (siblings n)

pub depth-siblings : (n : ℕ) → depth (siblings n) ≤ 1
unfolding depth
depth-siblings zero = omega arith
depth-siblings (suc n) = omega (arith, depth-siblings n)

siblings_refused :
    (disabled : List String) (inner : Bool) (lvl n : ℕ)
    → lvl < 7
    → 7 ≤ lvl + n
    → check_msgs disabled inner lvl (siblings n) ≡ err too_many_nested_msgs
unfolding check_msgs check_nested_lvl
siblings_refused disabled inner lvl zero h k = absurd (omega arith)
siblings_refused disabled inner lvl (suc n) h k =
    ground (arith, siblings_refused disabled inner (suc lvl) n)

-- Six or more `MsgExec`s side by side, which nest one deep at most, are refused as too many nested
-- messages.
pub siblings_too_many :
    (disabled : List String) (n : ℕ)
    → 6 ≤ n
    → (depth (siblings n) ≤ 1)
      × (check_disabled_msgs disabled (siblings n) false 1 ≡ err too_many_nested_msgs)
unfolding check_disabled_msgs check_nested_lvl
siblings_too_many disabled n h =
    (depth-siblings n, siblings_refused disabled false 1 n (omega arith) (omega arith))
