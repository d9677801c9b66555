-- ===== src/Export/AppState/Exported.antt =====
-- What a successful export says of the state: its height and its validators.
use mathlib.Core.List.{Perm}
use echofi.Prelude.{
  ℕ, ◌+◌, ◌≡◌, refl, ap, sym, subst, ◌∙◌, ◌⊎◌, inl, inr, Bool, true, false, List, ◌++◌, String,
  Option, none, some, min, length,
}
use echofi.Export.Chain.{Keepers, Result, ok, panic}
use echofi.Export.ZeroHeight.{C, prep_for_zero_height_genesis}
use echofi.Export.Ranking.{
  GenesisValidator, MaxValidators, at_most, negative, sort_by_power, trim_validators, Dominates,
  trim_keeps_strongest,
}
use echofi.Export.AppState.{
  Exporter, ExportError, export_genesis_failed, marshal_failed, write_validators_failed, Outcome,
  returned, failed, panicked, ◌>>=◌, or_fail, or_panic, of_result, ExportedApp, export_height,
  prepare, export_app_state_and_validators,
}

>>=-returned :
    {A B : Type 0} (m : Outcome A) (f : A → Outcome B) {b : B}
    → (m >>= f) ≡ returned b
    → (a : A) × (m ≡ returned a) × (f a ≡ returned b)
>>=-returned (returned a) f h = (a, refl, h)
>>=-returned (failed n) f h = absurd (cc)
>>=-returned panicked f h = absurd (cc)

or_fail-returned :
    {A : Type 0} (o : Option A) (n : ExportError) {a : A} → or_fail o n ≡ returned a → o ≡ some a
or_fail-returned none n h = absurd (cc)
or_fail-returned (some a) n h = cc

or_panic-returned : {A : Type 0} (o : Option A) {a : A} → or_panic o ≡ returned a → o ≡ some a
or_panic-returned none h = absurd (cc)
or_panic-returned (some a) h = cc

of_result-returned : {A : Type 0} (r : Result A) {a : A} → of_result r ≡ returned a → r ≡ ok a
of_result-returned (ok a) h = cc
of_result-returned panic h = absurd (cc)

module _ {x : Keepers} (e : Exporter x) where
  -- The state that is exported, and what a successful export says of it.
  pub record Exports (for_zero : Bool) (allowed modules : List String) (c : C x) (r : ExportedApp e)
      : Type 0 where
    pub state : C x
    pub prepared :
        ((for_zero ≡ true) × (prep_for_zero_height_genesis x allowed c ≡ ok state) × (r.height ≡ 0))
        ⊎ ((for_zero ≡ false) × (state ≡ c) × (r.height ≡ c.height + 1))
    pub gen_state : e.GenState
    pub genesis_exported : e.export_genesis_for_modules modules state ≡ some gen_state
    pub app_state_of : e.marshal_indent gen_state ≡ some r.app_state
    pub params_of : r.consensus_params ≡ e.get_consensus_params state
    pub written : List GenesisValidator
    pub validators_written : e.write_validators state ≡ some written
    pub limit : ℕ
    pub limit_read : e.get_max_provider_consensus_validators state ≡ at_most limit
    pub dropped : List GenesisValidator
    pub same_validators : Perm (r.validators ++ dropped) written
    pub how_many : length r.validators ≡ min limit (length written)
    pub strongest : Dominates r.validators dropped

  -- The validators of an export, by what was written and the limit.
  record Ranked (written : List GenesisValidator) (m : MaxValidators) (vs : List GenesisValidator)
      : Type 0 where
    limit : ℕ
    is_limit : m ≡ at_most limit
    dropped : List GenesisValidator
    same_validators : Perm (vs ++ dropped) written
    how_many : length vs ≡ min limit (length written)
    strongest : Dominates vs dropped

  trim-Ranked :
      (m : MaxValidators) (written vs : List GenesisValidator)
      → trim_validators m (sort_by_power written) ≡ some vs
      → Ranked written m vs
  unfolding trim_validators
  trim-Ranked (at_most n) written vs h = ranked (trim_keeps_strongest n written)
    where
      ranked :
          ((kept : List GenesisValidator) × (dropped : List GenesisValidator) × (trim_validators
                (at_most n)
                (sort_by_power written)
              ≡ some kept)
            × Perm (kept ++ dropped) written
            × (length kept ≡ min n (length written))
            × Dominates kept dropped)
          → Ranked written (at_most n) vs
      ranked (kept, dropped, run, p, l, d) =
          let equal : kept ≡ vs = cc in
          subst (Ranked written (at_most n)) equal (record {
            limit = n;
            is_limit = refl;
            dropped = dropped;
            same_validators = p;
            how_many = l;
            strongest = d;
          })
  trim-Ranked negative written vs h = absurd (cc)

  validators_of : List GenesisValidator → Outcome (ExportedApp e) → List GenesisValidator
  validators_of d (returned r) = r.validators
  validators_of d _ = d

  app_state_of : Outcome (ExportedApp e) → Option e.Bytes
  app_state_of (returned r) = some r.app_state
  app_state_of _ = none

  params_of : Outcome (ExportedApp e) → Option e.ConsensusParams
  params_of (returned r) = some r.consensus_params
  params_of _ = none

  height_of : ℕ → Outcome (ExportedApp e) → ℕ
  height_of d (returned r) = r.height
  height_of d _ = d

  prepare-returned :
      (for_zero : Bool) (allowed : List String) (c c' : C x)
      → prepare e for_zero allowed c ≡ returned c'
      → (h : ℕ) → h ≡ export_height e for_zero c.height
      → ((for_zero ≡ true) × (prep_for_zero_height_genesis x allowed c ≡ ok c') × (h ≡ 0))
        ⊎ ((for_zero ≡ false) × (c' ≡ c) × (h ≡ c.height + 1))
  unfolding prepare export_height
  prepare-returned true allowed c c' r h e = inl (refl, of_result-returned _ r, e)
  prepare-returned false allowed c c' r h e = inr (refl, cc, e)

  -- A successful export is of the prepared state, at height zero, when it is for height zero, and
  -- otherwise of the state as it is, at the height behind the last block. Its application state is
  -- the marshalled genesis of the modules that were asked for in that state, and its consensus
  -- parameters are those of that state. Its validators are the strongest of those that were written,
  -- as many as the limit allows, and the limit is no negative number.
  pub export-Exports :
      (for_zero : Bool) (allowed modules : List String) (c : C x) (r : ExportedApp e)
      → export_app_state_and_validators e for_zero allowed modules c ≡ returned r
      → Exports for_zero allowed modules c r
  unfolding export_app_state_and_validators validators_of height_of app_state_of params_of
  export-Exports for_zero allowed modules c r h =
      let (c', h1, r1) = >>=-returned (prepare e for_zero allowed c) _ h in
      let (gen, h2, r2) =
        >>=-returned (or_fail (e.export_genesis_for_modules modules c') export_genesis_failed) _
          r1 in
      let (app, h3, r3) = >>=-returned (or_fail (e.marshal_indent gen) marshal_failed) _ r2 in
      let (written, h4, r4) =
        >>=-returned (or_fail (e.write_validators c') write_validators_failed) _ r3 in
      let (trimmed, h5, r5) =
        >>=-returned
          (or_panic
            (trim_validators (e.get_max_provider_consensus_validators c') (sort_by_power written)))
          _ r4 in
      let read = or_fail-returned (e.write_validators c') write_validators_failed h4 in
      let ranked =
        trim-Ranked (e.get_max_provider_consensus_validators c') written trimmed
          (or_panic-returned _ h5) in
      let r_validators : trimmed ≡ r.validators = ap (validators_of trimmed) r5 in
      let r_height : export_height e for_zero c.height ≡ r.height = ap (height_of 0) r5 in
      record {
        state = c';
        prepared = prepare-returned for_zero allowed c c' h1 r.height (sym r_height);
        gen_state = gen;
        genesis_exported =
            or_fail-returned (e.export_genesis_for_modules modules c') export_genesis_failed h2;
        app_state_of =
            or_fail-returned (e.marshal_indent gen) marshal_failed h3 ∙ ap app_state_of r5;
        params_of =
            let same : some (e.get_consensus_params c') ≡ some r.consensus_params =
              ap params_of r5 in
            cc;
        written = written;
        validators_written = read;
        limit = ranked.limit;
        limit_read = ranked.is_limit;
        dropped = ranked.dropped;
        same_validators =
            subst (λ vs. Perm (vs ++ ranked.dropped) written) r_validators ranked.same_validators;
        how_many =
            subst (λ (vs : List GenesisValidator). length vs ≡ min ranked.limit (length written))
              r_validators ranked.how_many;
        strongest = subst (λ vs. Dominates vs ranked.dropped) r_validators ranked.strongest;
      }
