-- ===== src/App/AutoCli.antt =====
-- `AutoCliOpts` of app/app.go: the loop over the map of the manager's modules, whose order Go does
-- not fix, and the address codecs.
use echofi.Prelude.{
  ◌≡◌, refl, sym, ◌∙◌, ap, ◌≢◌, ◌⊎◌, inl, inr, Bool, true, false, List, [], ◌∷◌, String, Option,
  none, some, if◌then◌else◌, str_eq, eq_iff, Bool-cases,
}
use echofi.RootCmd.SdkConfig.{SdkApi, Prefixes, prefixes}

-- The modules of the manager: the name of a module that is a `module.HasName`, and whether it is
-- an `appmodule.AppModule`.
pub record ModuleSort : Type 1 where
  pub M : Type 0
  pub name : M → Option String
  pub is_app_module : M → Bool

module _ (s : ModuleSort) where
  pub record AppOptions : Type 0 where
    pub modules : String → Option s.M
    pub codecs : Prefixes

  -- `modules[moduleName] = appModule`
  abbrev pub put : String → s.M → (String → Option s.M) → String → Option s.M
  put n m modules k = if str_eq k n then some m else modules k

  pub add_module : Option String → s.M → (String → Option s.M) → String → Option s.M
  add_module none m modules = modules
  add_module (some n) m modules = if s.is_app_module m then put n m modules else modules

  -- The loop, in the order in which the map gives its modules.
  pub add_modules : List s.M → (String → Option s.M) → String → Option s.M
  unfolding add_module
  add_modules [] modules = modules
  add_modules (m ∷ ms) modules = add_modules ms (add_module (s.name m) m modules)

  unfoldable pub auto_cli_opts : (api : SdkApi) → api.Config → List s.M → AppOptions
  unfolding add_modules
  auto_cli_opts api config ms = record {
    modules = add_modules ms (λ k. none);
    codecs = prefixes api config;
  }

  -- No module of the list has the name.
  abbrev pub Free : String → List s.M → Type 0
  Free n [] = Unit
  Free n (m ∷ ms) = (s.name m ≢ some n) × Free n ms

  abbrev pub NamedOnce : List s.M → Type 0
  NamedOnce [] = Unit
  NamedOnce (m ∷ ms) = ((n : String) → s.name m ≡ some n → Free n ms) × NamedOnce ms

  abbrev pub In : s.M → List s.M → Type 0
  In m [] = ⊥
  In m (x ∷ xs) = (m ≡ x) ⊎ In m xs

  choice-other :
      (b : Bool) (n k : String) (m : s.M) (modules : String → Option s.M)
      → str_eq n k ≡ false
      → (if b then put k m modules else modules) n ≡ modules n
  choice-other true n k m modules differs = rw (differs) refl
  choice-other false n k m modules differs = refl

  add_module-other :
      (o : Option String) (m : s.M) (modules : String → Option s.M) (n : String)
      → o ≢ some n
      → add_module o m modules n ≡ modules n
  unfolding add_module
  add_module-other none m modules n other = refl
  add_module-other (some k) m modules n other = elim (Bool-cases (str_eq n k)) [
    | inl same ↦ absurd (other (ap some (sym ((eq_iff n k).0 same))))
    | inr differs ↦ choice-other (s.is_app_module m) n k m modules differs
  ]

  add_modules-other :
      (ms : List s.M) (modules : String → Option s.M) (n : String)
      → Free n ms
      → add_modules ms modules n ≡ modules n
  unfolding add_modules
  add_modules-other [] modules n free = refl
  add_modules-other (m ∷ ms) modules n (other, free) =
      add_modules-other ms (add_module (s.name m) m modules) n free
      ∙ add_module-other (s.name m) m modules n other

  choice_self :
      (b : Bool) (n : String) (m : s.M) (modules : String → Option s.M)
      → modules n ≡ none
      → (if b then put n m modules else modules) n ≡ (if b then some m else none)
  choice_self true n m modules empty =
      let same : str_eq n n ≡ true = (eq_iff n n).1 refl in rw (same) refl
  choice_self false n m modules empty = empty

  Free-name : (ms : List s.M) {m : s.M} {n : String} → Free n ms → In m ms → s.name m ≢ some n
  Free-name [] free m_in named = m_in
  Free-name (x ∷ xs) (other, free) (inl here) named = other (ap s.name (sym here) ∙ named)
  Free-name (x ∷ xs) (other, free) (inr later) named = Free-name xs free later named

  add_modules_self :
      (ms : List s.M) (modules : String → Option s.M) (m : s.M) (n : String)
      → NamedOnce ms
      → In m ms
      → s.name m ≡ some n
      → modules n ≡ none
      → add_modules ms modules n ≡ (if s.is_app_module m then some m else none)
  unfolding add_modules add_module
  add_modules_self (x ∷ xs) modules m n (once, rest) (inl here) named empty =
      let x_named : s.name x ≡ some n = ap s.name (sym here) ∙ named in
      add_modules-other xs (add_module (s.name x) x modules) n (once n x_named)
      ∙ rw (x_named) (choice_self (s.is_app_module x) n x modules empty)
      ∙ ap (λ y. if s.is_app_module y then some y else none) (sym here)
  add_modules_self (x ∷ xs) modules m n (once, rest) (inr later) named empty =
      let other : s.name x ≢ some n = λ e. Free-name xs (once n e) later named in
      add_modules_self xs _ m n rest later named
        (add_module-other (s.name x) x modules n other ∙ empty)
  add_modules_self [] modules m n once m_in named empty = absurd m_in

  -- In whatever order the map of the manager gives its modules, where no two have the same name the
  -- options have a module under its name exactly if it is an application module, and nothing under
  -- a name that no module has.
  pub auto_cli_opts-exactly :
      (api : SdkApi) (config : api.Config) (ms : List s.M) (n : String)
      → NamedOnce ms
      → ((m : s.M)
          → In m ms
          → s.name m ≡ some n
          → (auto_cli_opts api config ms).modules n ≡ (if s.is_app_module m then some m else none))
        × (Free n ms → (auto_cli_opts api config ms).modules n ≡ none)
  unfolding auto_cli_opts
  auto_cli_opts-exactly api config ms n once = (
    λ m m_in named. add_modules_self ms (λ k. none) m n once m_in named refl,
    λ free. add_modules-other ms (λ k. none) n free,
  )
