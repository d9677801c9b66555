-- ===== src/Ante/Authz.antt =====
-- The authz limiter of app/ante/authz.go: the messages of a transaction, the recursive check of
-- the messages that travel inside authz messages, and the decorator around it.
pub mod Accepts
pub mod Nesting
use echofi.Prelude.{
  ℕ, suc, Bool, true, false, ◌&&◌, List, [], ◌∷◌, String, if◌then◌else◌, leb, str_eq,
}

-- What the check reports. `unpack_failed` carries the text of the error that
-- `GetMessages` or `GetAuthorization` gave.
pub data AuthzError : Type 0 where
  too_many_nested_msgs : AuthzError
  found_disabled_msg_type : String → AuthzError
  unpack_failed : String → AuthzError

pub data Check : Type 0 where
  ok : Check
  err : AuthzError → Check

-- The result of `MsgGrant.GetAuthorization`, up to the type URL that the check reads.
pub data Authorization : Type 0 where
  authorization : String → Authorization
  bad_authorization : String → Authorization

-- `exec` is `*authz.MsgExec` with what its `GetMessages` returns, `grant` is `*authz.MsgGrant`,
-- and `other` any other message with its type URL.
mutual
  pub data Msg : Type 0 where
    exec : Packed → Msg
    grant : Authorization → Msg
    other : String → Msg

  pub data Packed : Type 0 where
    unpacked : Msgs → Packed
    bad_packed : String → Packed

  pub data Msgs : Type 0 where
    nil : Msgs
    cons : Msg → Msgs → Msgs

abbrev pub max_nested_msgs : ℕ
max_nested_msgs = 7

infixl 5 ◌>>◌
abbrev pub ◌>>◌ : Check → Check → Check
ok >> k = k
err e >> k = err e

pub is_disabled_msg : List String → String → Bool
is_disabled_msg [] url = false
is_disabled_msg (disabled_type ∷ rest) url =
    if str_eq url disabled_type then true else is_disabled_msg rest url

-- `if nestedLvl >= maxNestedMsgs { return ... }`
pub check_nested_lvl : ℕ → Check
check_nested_lvl nested_lvl =
    if leb max_nested_msgs nested_lvl then err too_many_nested_msgs else ok

pub check_url : List String → Bool → String → Check
check_url disabled searched url =
    if searched && is_disabled_msg disabled url then err (found_disabled_msg_type url) else ok

pub check_grant : List String → Authorization → Check
unfolding check_url
check_grant disabled (bad_authorization e) = err (unpack_failed e)
check_grant disabled (authorization url) = check_url disabled true url

abbrev pub next_lvl : Msg → ℕ → ℕ
next_lvl (exec _) nested_lvl = suc nested_lvl
next_lvl _ nested_lvl = nested_lvl

-- The loop over the messages. Its `nestedLvl` is the variable that the loop increments at each
-- `MsgExec`, and it keeps that value for the messages that follow.
mutual
  pub check_msgs : List String → Bool → ℕ → Msgs → Check
  check_msgs disabled is_authz_inner_msg nested_lvl nil = ok
  check_msgs disabled is_authz_inner_msg nested_lvl (cons msg msgs) =
      check_msg disabled is_authz_inner_msg nested_lvl msg
      >> check_msgs disabled is_authz_inner_msg (next_lvl msg nested_lvl) msgs

  pub check_msg : List String → Bool → ℕ → Msg → Check
  check_msg disabled is_authz_inner_msg nested_lvl (exec packed) =
      check_packed disabled (suc nested_lvl) packed
  check_msg disabled is_authz_inner_msg nested_lvl (grant a) = check_grant disabled a
  check_msg disabled is_authz_inner_msg nested_lvl (other url) =
      check_url disabled is_authz_inner_msg url

  -- The recursive call on the messages of a `MsgExec`.
  pub check_packed : List String → ℕ → Packed → Check
  check_packed disabled nested_lvl (bad_packed e) = err (unpack_failed e)
  check_packed disabled nested_lvl (unpacked inner) =
      check_nested_lvl nested_lvl >> check_msgs disabled true nested_lvl inner

pub check_disabled_msgs : List String → Msgs → Bool → ℕ → Check
check_disabled_msgs disabled msgs is_authz_inner_msg nested_lvl =
    check_nested_lvl nested_lvl >> check_msgs disabled is_authz_inner_msg nested_lvl msgs
