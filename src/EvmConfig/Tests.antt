-- ===== src/EvmConfig/Tests.antt =====
-- The configuration over a registry that is an association list, and the theorems at concrete
-- inputs.
use text.Mathlib.TextPositions.{eq_refl}
use echofi.Prelude.{
  ℕ, ◌≡◌, refl, ◌≢◌, Bool, true, false, List, [], ◌∷◌, String, Option, none, some, arith,
  if◌then◌else◌, str_eq, eq_iff,
}
use echofi.EvmConfig.{EvmCoinInfo, EvmError, external, Effect, Globals, EvmState, evm_app_options}
use echofi.EvmConfig.Sealing.{Lawful, FailsFrom, failure_final}

abbrev pub Registry : Type 0
Registry = List (String × ℕ)

abbrev unit_of : Registry → String → Option ℕ
unit_of [] d = none
unit_of ((j, u) ∷ r) d = if str_eq j d then some u else unit_of r d

abbrev register_new : Option ℕ → String → ℕ → Registry → Registry × Option EvmError
register_new none d u r = ((d, u) ∷ r, none)
register_new (some _) d u r = (r, some (external 1))

-- The configurator fails where `broken` says so.
abbrev configure : Bool → ℕ → EvmCoinInfo → Effect Registry
configure broken c i r = (r, if broken then some (external 2) else none)

abbrev pub globals : Bool → Globals
globals broken = record {
  G = Registry;
  register_denom = λ d u r. register_new (unit_of r d) d u r;
  configure = configure broken;
  six_decimals = 6;
}

register_new-ok :
    (o : Option ℕ) (d : String) (u : ℕ) (r : Registry)
    → (register_new o d u r).1 ≡ none
    → unit_of (register_new o d u r).0 d ≡ some u
register_new-ok none d u r h = simp eq_refl
register_new-ok (some x) d u r h = absurd (cc)

register_new-keeps :
    (o : Option ℕ) (d d' : String) (u u' : ℕ) (r : Registry)
    → unit_of r d ≡ o
    → unit_of r d' ≡ some u'
    → unit_of (register_new o d u r).0 d' ≡ some u'
register_new-keeps none d d' u u' r e h = ground (arith, eq_iff d d')
register_new-keeps (some x) d d' u u' r e h = h

register_new-fails :
    (o : Option ℕ) (d : String) (u : ℕ) (r : Registry)
    → (register_new o d u r).1 ≢ none
    → (register_new o d u r).0 ≡ r
register_new-fails none d u r h = absurd (h refl)
register_new-fails (some x) d u r h = refl

globals-Lawful : (broken : Bool) → Lawful (globals broken)
globals-Lawful broken = record {
  unit_of = unit_of;
  register_ok = λ d u r h. register_new-ok (unit_of r d) d u r h;
  register_keeps = λ d d' u u' r h. register_new-keeps (unit_of r d) d d' u u' r refl h;
  register_twice = λ d u u' r h. rw h (λ e. cc);
  register_fails = λ d u r h. register_new-fails (unit_of r d) d u r h;
  configure_keeps = λ c i r d. refl;
}

abbrev pub fresh : EvmState Registry
fresh = record { sealed = false; globals = [] }

pub fresh_succeeds : (evm_app_options (globals false) 6969 fresh).1 ≡ none
unfolding evm_app_options
fresh_succeeds = refl

broken_fails : (evm_app_options (globals true) 6969 fresh).1 ≢ none
unfolding evm_app_options
broken_fails = λ e. cc

failure_final_example :
    FailsFrom (globals true) (globals-Lawful true) (evm_app_options (globals true) 6969 fresh).0 1
failure_final_example =
    failure_final (globals true) (globals-Lawful true) fresh 1 refl refl broken_fails
