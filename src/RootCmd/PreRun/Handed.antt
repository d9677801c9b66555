-- ===== src/RootCmd/PreRun/Handed.antt =====
-- What a command is handed by `PersistentPreRunE` of cmd/echofid/cmd/cmd.go.
use echofi.Prelude.{
  ◌≡◌, refl, ◌⊎◌, inl, inr, Bool, true, false, [], ◌∷◌, ◌++◌, String, Option, none, some,
}
use echofi.RootCmd.PreRun.{
  Result, ok, err, Client, init_app_config, init_comet_config, with_textual, hand_over, attempt,
  persistent_pre_run,
}

module _ (cl : Client) where
  -- The context that is handed over by a client that is offline, or that has the textual mode.
  abbrev pub Textual : cl.Ctx → cl.Ctx → Type 0
  Textual configured ctx =
      ((cl.offline configured ≡ true) × (ctx ≡ configured))
      ⊎ ((cl.offline configured ≡ false)
          × ((t : cl.TxConfig) × (cl.new_tx_config_with_options
                  (cl.default_sign_modes ++ (cl.sign_mode_textual ∷ [])) configured
                ≡ ok t)
              × (ctx ≡ cl.with_tx_config t configured)))

  -- What a run without an error has done.
  pub record IsHanded (outer ctx : cl.Ctx) : Type 0 where
    pub flagged : cl.Ctx
    pub configured : cl.Ctx
    pub flags_read : cl.read_persistent_command_flags outer ≡ ok flagged
    pub config_read : cl.read_from_client_config flagged ≡ ok configured
    pub textual : Textual configured ctx
    pub handler_set : cl.set_cmd_client_context_handler ctx ≡ none
    pub intercepted :
        cl.intercept_configs (init_app_config cl).0 (init_app_config cl).1 (init_comet_config cl)
        ≡ none

  -- A result is an error, or a context that the command has been handed.
  pub HandedOrError : cl.Ctx → Option cl.Ctx × Option String → Type 0
  HandedOrError outer (handed, some e) = Unit
  HandedOrError outer (none, none) = ⊥
  HandedOrError outer (some ctx, none) = IsHanded outer ctx

  module _ (outer flagged configured : cl.Ctx)
      (flags_read : cl.read_persistent_command_flags outer ≡ ok flagged)
      (config_read : cl.read_from_client_config flagged ≡ ok configured) where
    hand_over-HandedOrError :
        (ctx : cl.Ctx) → Textual configured ctx → HandedOrError outer (hand_over cl ctx)
    unfolding hand_over HandedOrError
    hand_over-HandedOrError ctx textual =
        by_handler (cl.set_cmd_client_context_handler ctx) refl
          (cl.intercept_configs (init_app_config cl).0 (init_app_config cl).1
            (init_comet_config cl))
          refl
      where
        by_handler :
            (o : Option String)
            → cl.set_cmd_client_context_handler ctx ≡ o
            → (i : Option String)
            → cl.intercept_configs
                (init_app_config cl).0
                (init_app_config cl).1
                (init_comet_config cl)
              ≡ i
            → HandedOrError outer (elim o as (λ x. Option cl.Ctx × Option String) [
              | some e ↦ (none, some e)
              | none ↦ (some ctx, i)
            ])
        by_handler (some e) set i intercepted = tt
        by_handler none set (some e) intercepted = tt
        by_handler none set none intercepted = record {
          flagged = flagged;
          configured = configured;
          flags_read = flags_read;
          config_read = config_read;
          textual = textual;
          handler_set = set;
          intercepted = intercepted;
        }

    textual-HandedOrError :
        (b : Bool)
        → cl.offline configured ≡ b
        → HandedOrError outer (attempt cl (with_textual cl b configured) (hand_over cl))
    unfolding with_textual attempt HandedOrError
    textual-HandedOrError true offline = hand_over-HandedOrError configured (inl (offline, refl))
    textual-HandedOrError false online =
        by_config
          (cl.new_tx_config_with_options (cl.default_sign_modes ++ (cl.sign_mode_textual ∷ []))
            configured)
          refl
      where
        by_config :
            (r : Result cl.TxConfig)
            → cl.new_tx_config_with_options
                (cl.default_sign_modes ++ (cl.sign_mode_textual ∷ []))
                configured
              ≡ r
            → HandedOrError outer (
                attempt cl
                  (elim r as (λ x. Result cl.Ctx) [
                    | err e ↦ err e
                    | ok t ↦ ok (cl.with_tx_config t configured)
                  ])
                  (hand_over cl))
        by_config (err e) made = tt
        by_config (ok t) made = hand_over-HandedOrError _ (inr (online, (t, made, refl)))

  config-HandedOrError :
      (outer flagged : cl.Ctx)
      → cl.read_persistent_command_flags outer ≡ ok flagged
      → (r : Result cl.Ctx) → cl.read_from_client_config flagged ≡ r
      → HandedOrError outer (
          attempt cl r λ configured.
            attempt cl (with_textual cl (cl.offline configured) configured) (hand_over cl))
  unfolding attempt HandedOrError
  config-HandedOrError outer flagged read (err e) config_read = tt
  config-HandedOrError outer flagged read (ok configured) config_read =
      textual-HandedOrError outer flagged configured read config_read (cl.offline configured) refl

  flags-HandedOrError :
      (outer : cl.Ctx) (r : Result cl.Ctx)
      → cl.read_persistent_command_flags outer ≡ r
      → HandedOrError outer (
          attempt cl r λ flagged. attempt cl (cl.read_from_client_config flagged) λ configured.
            attempt cl (with_textual cl (cl.offline configured) configured) (hand_over cl))
  unfolding attempt HandedOrError
  flags-HandedOrError outer (err e) read = tt
  flags-HandedOrError outer (ok flagged) read =
      config-HandedOrError outer flagged read (cl.read_from_client_config flagged) refl

  -- The variable of the root command is given the context of the command and nothing else. The run
  -- gives an error, or the command is handed the context that the flags and the client's file made
  -- of it, with the textual sign mode exactly if the client is online, and the files of the node
  -- have been read with the configuration of this chain.
  pub persistent_pre_run-HandedOrError :
      (init_client_ctx : cl.Ctx)
      → ((persistent_pre_run cl init_client_ctx).0 ≡ cl.with_cmd_context init_client_ctx)
        × HandedOrError
            (cl.with_cmd_context init_client_ctx)
            (persistent_pre_run cl init_client_ctx).1
  unfolding persistent_pre_run
  persistent_pre_run-HandedOrError init_client_ctx =
      (refl, flags-HandedOrError (cl.with_cmd_context init_client_ctx) _ refl)
