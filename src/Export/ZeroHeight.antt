-- ===== src/Export/ZeroHeight.antt =====
-- `prepForZeroHeightGenesis` of app/export.go.
mod Loops
pub mod Staking
pub mod Frame
pub mod Jail
pub mod Whole
pub mod Donations
pub mod Total
pub mod Records
pub mod Returns
use echofi.Prelude.{
  ℕ, Bool, true, false, not, ◌&&◌, List, [], ◌∷◌, map, String, Option, none, some, if◌then◌else◌,
  str_eq,
}
use mathlib.Core.Option
use echofi.Export.Tables.{get, put, reverse_keys}
use echofi.Export.Chain.{
  Validator, Delegation, Entry, Unbonding, SigningInfo, Chain, Site, iterate_commissions,
  get_all_delegations, iterate_reinit, iterate_redelegations, iterate_unbondings,
  iterate_signing_infos, set_redelegation, set_unbonding_delegation, set_validator,
  set_signing_info, FeePool, Keepers, Result, ok, panic, ◌>>=◌, ◌>>◌, must,
}

abbrev pub is_allowed : List String → String → Bool
is_allowed [] addr = false
is_allowed (a ∷ rest) addr = if str_eq a addr then true else is_allowed rest addr

abbrev pub is_empty : List String → Bool
is_empty [] = true
is_empty (_ ∷ _) = false

pub reset_entry : Entry → Entry
reset_entry e = record e { creation_height = 0 }

-- `for i := range red.Entries { red.Entries[i].CreationHeight = 0 }`
pub reset_entries : Unbonding → Unbonding
unfolding reset_entry
reset_entries u = record u { entries = map reset_entry u.entries }

pub reset_signing_info : SigningInfo → SigningInfo
reset_signing_info info = record info { start_height = 0 }

abbrev pub unbonding_key : Unbonding → String
unbonding_key u = u.store_key

abbrev pub validator_key : Validator → String
validator_key v = v.address

abbrev pub signing_key : SigningInfo → String
signing_key i = i.cons_address

module _ (x : Keepers) where
  abbrev pub C : Type 0
  C = Chain x.D

  -- An error of the store at this place.
  pub at_site : Site → C → Result C
  at_site site c = if x.fails site c then panic else ok c

  pub check_allowed_addrs : List String → Result (Unit {0})
  check_allowed_addrs [] = ok tt
  check_allowed_addrs (addr ∷ addrs) =
      must (x.val_address_from_bech32 addr) >>= λ _. check_allowed_addrs addrs

  -- An error of the decoding is logged, and the address is then nil.
  pub withdraw_commissions : List Validator → C → C
  withdraw_commissions [] c = c
  withdraw_commissions (v ∷ vs) c =
      withdraw_commissions vs
        (x.withdraw_validator_commission (Option.get_or (x.string_to_bytes v.operator) "") c)

  pub withdraw_rewards : List Delegation → C → Result C
  withdraw_rewards [] c = ok c
  withdraw_rewards (delegation ∷ dels) c = do
    val_addr ← must (x.val_address_from_bech32 delegation.validator_address)
    del_addr ← must (x.acc_address_from_bech32 delegation.delegator_address)
    c' ← must (x.withdraw_delegation_rewards del_addr val_addr c)
    withdraw_rewards dels c'

  -- The scraps of a validator go to the community pool, and its hook runs.
  pub reinit_validator : Validator → C → Result C
  reinit_validator v c = do
    val_addr ← must (x.string_to_bytes v.operator)
    scraps ← must (x.get_validator_outstanding_rewards_coins val_addr c)
    fee_pool ← must (x.fee_pool_get c)
    c' ← must (x.fee_pool_set (record { community_pool = x.add fee_pool.community_pool scraps }) c)
    must (x.after_validator_created val_addr c')

  unfoldable pub reinit_validators : List Validator → C → Result C
  unfolding reinit_validator
  reinit_validators [] c = ok c
  reinit_validators (v ∷ vs) c = do c' ← reinit_validator v c; reinit_validators vs c'

  pub reinit_delegations : List Delegation → C → Result C
  reinit_delegations [] c = ok c
  reinit_delegations (del ∷ dels) c = do
    val_addr ← must (x.val_address_from_bech32 del.validator_address)
    del_addr ← must (x.acc_address_from_bech32 del.delegator_address)
    c' ← must (x.before_delegation_created del_addr val_addr c)
    c'' ← must (x.after_delegation_modified del_addr val_addr c')
    reinit_delegations dels c''

  pub reset_redelegations : List Unbonding → C → Result C
  unfolding reset_entries at_site put
  reset_redelegations [] c = ok c
  reset_redelegations (red ∷ reds) c = do
    c' ← at_site set_redelegation c
    reset_redelegations reds
        (record c' { redelegations = put unbonding_key (reset_entries red) c'.redelegations })

  pub reset_unbonding_delegations : List Unbonding → C → Result C
  unfolding reset_entries at_site put
  reset_unbonding_delegations [] c = ok c
  reset_unbonding_delegations (ubd ∷ ubds) c = do
    c' ← at_site set_unbonding_delegation c
    reset_unbonding_delegations ubds (record c' {
      unbonding_delegations = put unbonding_key (reset_entries ubd) c'.unbonding_delegations;
    })

  -- The body of the loop over the validators, at the address of the key.
  pub reset_validator : List String → String → Validator → Validator
  reset_validator allowed addr v = record v {
    unbonding_height = 0;
    jailed =
        if not (is_empty allowed) && not (is_allowed allowed (x.val_address_string addr))
        then true
        else v.jailed;
  }

  pub reset_validators : List String → List String → C → Result C
  unfolding reset_validator at_site get put
  reset_validators allowed [] c = ok c
  reset_validators allowed (addr ∷ addrs) c = do
    v ← must (get validator_key addr c.validators)
    c' ← at_site set_validator c
    reset_validators allowed addrs (record c' {
      validators = put validator_key (reset_validator allowed addr v) c'.validators;
    })

  pub reset_signing_infos : List SigningInfo → C → Result C
  unfolding reset_signing_info at_site put
  reset_signing_infos [] c = ok c
  reset_signing_infos (info ∷ infos) c = do
    c' ← at_site set_signing_info c
    reset_signing_infos infos
        (record c' { signing_infos = put signing_key (reset_signing_info info) c'.signing_infos })

  -- The part on the fee distribution. The delegations are read once.
  unfoldable pub handle_distribution : C → Result C
  unfolding withdraw_commissions withdraw_rewards reinit_validators reinit_delegations at_site
  handle_distribution c = do
    c1 ← at_site iterate_commissions (withdraw_commissions c.validators c)
    c2 ← at_site get_all_delegations c1
    let dels = c2.delegations
    c3 ← withdraw_rewards dels c2
    let c4 = x.delete_all_validator_historical_rewards (x.delete_all_validator_slash_events c3)
    let at_zero : C = record c4 { height = 0 }
    c5 ← reinit_validators at_zero.validators at_zero
    c6 ← at_site iterate_reinit c5
    c7 ← reinit_delegations dels c6
    ok (record c7 { height = c4.height })

  -- The part on staking, up to the update of the validator set.
  unfoldable pub handle_staking : List String → C → Result C
  unfolding reset_redelegations reset_unbonding_delegations reset_validators reverse_keys
  handle_staking allowed c = do
    c1 ← reset_redelegations c.redelegations c
    c2 ← at_site iterate_redelegations c1
    c3 ← reset_unbonding_delegations c2.unbonding_delegations c2
    c4 ← at_site iterate_unbondings c3
    reset_validators allowed (reverse_keys validator_key c4.validators) c4

  pub handle_slashing : C → Result C
  unfolding reset_signing_infos
  handle_slashing c = do
    c1 ← reset_signing_infos c.signing_infos c
    at_site iterate_signing_infos c1

  unfoldable pub prep_for_zero_height_genesis : List String → C → Result C
  unfolding check_allowed_addrs handle_distribution handle_staking handle_slashing
  prep_for_zero_height_genesis allowed c = do
    check_allowed_addrs allowed
    c1 ← handle_distribution c
    c2 ← handle_staking allowed c1
    c3 ← must (x.apply_and_return_validator_set_updates c2)
    handle_slashing c3
