-- ===== src/RootCmd/Once.antt =====
-- A process makes its root command once: what is left behind, and what a second call does.
use echofi.Prelude.{
  ◌≡◌, refl, subst, ◌⊎◌, inl, inr, Bool, true, false, List, String, Option, none, some,
  if◌then◌else◌, str_eq, arith,
}
use echofi.EvmConfig.{Globals, EvmState, evm_chain_id, evm_app_options}
use echofi.EvmConfig.Sealing.{success-sealed}
use echofi.Startup.{World, App, require_nil, ◌>>=◌}
use echofi.Startup.Again.{>>=-returns, require_nil-some}
use echofi.RootCmd.Commands.{Command, init_root_cmd}
use echofi.RootCmd.SdkConfig.{SdkApi, IsSdkApi, prefixes, seal_config}
use echofi.RootCmd.{
  Host, Process, RootCommand, temp_dir, check, enrich_auto_cli_opts, root_body, clean_up, deferred,
  with_application, in_temp_dir, new_root_cmd,
}

chosen : {A : Type 0} (b : Bool) (a : A) {r : A} → (if b then some a else none) ≡ some r → a ≡ r
chosen true a e = cc (e)
chosen false a e = absurd (cc (e))

module _ (h : Host) (api : SdkApi) (laws : IsSdkApi api) (w : World) (s : Globals) where
  -- What the body of `NewRootCmd` leaves where it comes to its end.
  record IsBody (p p' : Process h api w s) (cmd : RootCommand h api w s) : Type 0 where
    same_fs : p'.fs ≡ p.fs
    config_sealed : api.is_sealed p'.config ≡ true
    evm_sealed : p'.evm.sealed ≡ true
    codecs : cmd.codecs ≡ prefixes api p'.config

  init_root_cmd-seals :
      (c : api.Config) (init : api.Config × List Command)
      → init_root_cmd api h.added c ≡ some init
      → api.is_sealed init.0 ≡ true
  unfolding init_root_cmd
  init_root_cmd-seals c init run =
      subst (λ (x : api.Config × List Command). api.is_sealed x.0 ≡ true)
        (chosen h.added.add_tx_flags_ok _ run) (laws.seal_seals c).0

  root_body-IsBody :
      (p p' : Process h api w s) (cmd : RootCommand h api w s)
      → root_body h api w s p ≡ some (p', cmd)
      → IsBody p p' cmd
  unfolding root_body enrich_auto_cli_opts
  root_body-IsBody p p' cmd e =
      let (c, r1, e1) = >>=-returns (seal_config api p.config) _ e in
      let (init, r2, e2) = >>=-returns (init_root_cmd api h.added c) _ e1 in
      let (_, r3, e3) = >>=-returns (require_nil w (evm_app_options s evm_chain_id p.evm).1) _ e2 in
      let (_, r4, e4) = >>=-returns (check h api w s h.enhance_ok) _ e3 in
      subst Fits e4 (record {
        same_fs = refl;
        config_sealed = init_root_cmd-seals c init r2;
        evm_sealed = success-sealed s evm_chain_id p.evm (require_nil-some w _ r3);
        codecs = refl;
      })
    where
      Fits : Option (Process h api w s × RootCommand h api w s) → Type 0
      Fits none = ⊥
      Fits (some (q, c)) = IsBody p q c

  -- What `NewRootCmd` leaves where it returns a command; `dir` is the home of the application that
  -- was built for its codecs.
  pub record IsMade (dir : String) (p' : Process h api w s) (cmd : RootCommand h api w s)
      : Type 0 where
    pub gone : (str_eq dir h.default_node_home ≡ true) ⊎ (h.exists dir p'.fs ≡ false)
    pub config_sealed : api.is_sealed p'.config ≡ true
    pub evm_sealed : p'.evm.sealed ≡ true
    pub codecs : cmd.codecs ≡ prefixes api p'.config

  abbrev Removes : Type 0
  Removes = (d : String) (fs : h.Fs) → h.exists d (h.remove_all d fs) ≡ false

  cleaned :
      (removes : Removes) (dir : String) (p p' : Process h api w s) (cmd : RootCommand h api w s)
      → IsBody p p' cmd
      → IsMade dir (clean_up h api w s dir p') cmd
  unfolding clean_up
  cleaned removes dir p p' cmd body = by_dir (str_eq dir h.default_node_home) refl
    where
      by_dir :
          (b : Bool)
          → str_eq dir h.default_node_home ≡ b
          → IsMade dir (if b then p' else record p' { fs = h.remove_all dir p'.fs }) cmd
      by_dir true same = record {
        gone = inl same;
        config_sealed = body.config_sealed;
        evm_sealed = body.evm_sealed;
        codecs = body.codecs;
      }
      by_dir false differs = record {
        gone = inr (removes dir p'.fs);
        config_sealed = body.config_sealed;
        evm_sealed = body.evm_sealed;
        codecs = body.codecs;
      }

  abbrev Result : Type 0
  Result = Process h api w s × Option (RootCommand h api w s)

  -- A result is a panic, or what `IsMade` says.
  pub MadeOrPanic : String → Result → Type 0
  MadeOrPanic dir (p', none) = Unit
  MadeOrPanic dir (p', some cmd) = IsMade dir p' cmd

  -- With the directory that `os.MkdirTemp` has made, if any.
  pub MadeIn : Option (String × h.Fs) → Result → Type 0
  unfolding MadeOrPanic
  MadeIn none r = r.1 ≡ none
  MadeIn (some (dir, fs)) r = MadeOrPanic dir r

  deferred-MadeOrPanic :
      (removes : Removes) (dir : String) (p : Process h api w s)
      (r : Option (Process h api w s × RootCommand h api w s))
      → root_body h api w s p ≡ r
      → (b : Bool) → h.close_ok ≡ b
      → MadeOrPanic dir (deferred h api w s dir p r)
  unfolding deferred MadeOrPanic
  deferred-MadeOrPanic removes dir p none e true ok = rw (ok) tt
  deferred-MadeOrPanic removes dir p none e false ok = rw (ok) tt
  deferred-MadeOrPanic removes dir p (some (p', cmd)) e true ok =
      rw (ok) (cleaned removes dir p p' cmd (root_body-IsBody p p' cmd e))
  deferred-MadeOrPanic removes dir p (some (p', cmd)) e false ok = rw (ok) tt

  with_application-MadeOrPanic :
      (removes : Removes) (dir : String) (p : Process h api w s) (o : Option (App × EvmState s.G))
      → MadeOrPanic dir (with_application h api w s dir p o)
  unfolding with_application MadeOrPanic
  with_application-MadeOrPanic removes dir p none = tt
  with_application-MadeOrPanic removes dir p (some (a, evm)) =
      deferred-MadeOrPanic removes dir (record p { evm = evm }) _ refl h.close_ok refl

  in_temp_dir-MadeIn :
      (removes : Removes) (made : Option (String × h.Fs)) (p : Process h api w s)
      → MadeIn made (
          in_temp_dir h api w s
            (made >>= λ m. some (m.0, record p { fs = h.remove_all m.0 m.1 }))
            p)
  unfolding in_temp_dir MadeIn MadeOrPanic
  in_temp_dir-MadeIn removes none p = refl
  in_temp_dir-MadeIn removes (some (dir, fs)) p = with_application-MadeOrPanic removes dir _ _

  new_root_cmd-MadeIn :
      (removes : Removes) (p : Process h api w s)
      → MadeIn (h.mkdir_temp p.fs) (new_root_cmd h api w s p)
  unfolding new_root_cmd temp_dir
  new_root_cmd-MadeIn removes p = in_temp_dir-MadeIn removes (h.mkdir_temp p.fs) p

  made-sealed :
      (made : Option (String × h.Fs)) (p' : Process h api w s) (cmd : RootCommand h api w s)
      → MadeIn made (p', some cmd)
      → api.is_sealed p'.config ≡ true
  unfolding MadeIn MadeOrPanic
  made-sealed none p' cmd e = absurd (cc)
  made-sealed (some (dir, fs)) p' cmd m = m.config_sealed

  -- The configuration stays sealed up to the first setter, which panics.
  root_body_sealed :
      (p : Process h api w s) → api.is_sealed p.config ≡ true → root_body h api w s p ≡ none
  unfolding root_body seal_config
  root_body_sealed p sealed = rw (laws.sealed_coin_type api.bip44_coin_type p.config sealed) refl

  deferred_panic :
      (dir : String) (p : Process h api w s) (b : Bool)
      → h.close_ok ≡ b
      → (deferred h api w s dir p none).1 ≡ none
  unfolding deferred
  deferred_panic dir p b ok = ground arith

  with_application_sealed :
      (dir : String) (p : Process h api w s) (o : Option (App × EvmState s.G))
      → api.is_sealed p.config ≡ true
      → (with_application h api w s dir p o).1 ≡ none
  unfolding with_application
  with_application_sealed dir p none sealed = refl
  with_application_sealed dir p (some (a, evm)) sealed =
      rw (root_body_sealed (record p { evm = evm }) sealed) (deferred_panic dir _ h.close_ok refl)

  in_temp_dir_sealed :
      (made : Option (String × h.Fs)) (p : Process h api w s)
      → api.is_sealed p.config ≡ true
      → (in_temp_dir h api w s
          (made >>= λ m. some (m.0, record p { fs = h.remove_all m.0 m.1 }))
          p).1
        ≡ none
  unfolding in_temp_dir
  in_temp_dir_sealed none p sealed = refl
  in_temp_dir_sealed (some (dir, fs)) p sealed = with_application_sealed dir _ _ sealed

  -- The configuration of the SDK is to keep what is documented of it, and a directory that is
  -- removed is to be gone. Then `NewRootCmd` panics where no temporary directory can be made. Where it
  -- returns a command, the configurations of the SDK and of the EVM are sealed, the address codecs
  -- have the prefixes of the former, and the temporary directory is gone, unless it is the default
  -- home of a node. A second call in the same process panics, since the configuration of the SDK is
  -- sealed by then.
  pub new_root_cmd-IsOnce :
      (removes : Removes) (p : Process h api w s)
      → MadeIn (h.mkdir_temp p.fs) (new_root_cmd h api w s p)
        × ((p' : Process h api w s) (cmd : RootCommand h api w s)
            → new_root_cmd h api w s p ≡ (p', some cmd)
            → (new_root_cmd h api w s p').1 ≡ none)
  unfolding new_root_cmd temp_dir
  new_root_cmd-IsOnce removes p = (
    new_root_cmd-MadeIn removes p,
    λ p' cmd run.
        let sealed =
          made-sealed (h.mkdir_temp p.fs) p' cmd
            (subst (MadeIn (h.mkdir_temp p.fs)) run (new_root_cmd-MadeIn removes p)) in
        in_temp_dir_sealed (h.mkdir_temp p'.fs) p' sealed,
  )
