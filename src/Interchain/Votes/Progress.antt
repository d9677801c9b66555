-- ===== src/Interchain/Votes/Progress.antt =====
-- The group of the votes always comes to its end, and the schedule that runs the goroutines one by
-- one is among those of the group.
use echofi.Prelude.{
  ℕ, suc, ◌+◌, ◌*◌, ◌<◌, ◌≤◌, ◌≡◌, refl, ap, ◌∙◌, ◌⊎◌, inl, inr, Bool, true, false, List, [], ◌∷◌,
  String, if◌then◌else◌, length, arith,
}
use echofi.Interchain.{ChainNode, Chain}
use echofi.Interchain.Votes.{
  Vote, Group, Pick, here, there, new_group, launch, vote_on, finish, Step, launches, votes,
  finishes, Reachable, starts, continues, IsFinished, vote_command, one_by_one,
}

length-Pick :
    {A : Type 0} {a : A} {xs rest : List A} → Pick a xs rest → length xs ≡ suc (length rest)
length-Pick here = refl
length-Pick (there h) = omega (arith, length-Pick h)

length-cons :
    {A : Type 0} {a : A} {xs rest : List A} → xs ≡ a ∷ rest → length xs ≡ suc (length rest)
length-cons same = rw (same) refl

module _ (c : Chain) (proposal_id : ℕ) (vote : String) where
  -- The steps that are left at most.
  abbrev pub work : Group c → ℕ
  work g = 3 * length g.to_start + 2 * length g.waiting + length g.returning

  -- `n` steps from one state to another.
  pub data Steps : ℕ → Group c → Group c → Type 0 where
    stays : {g : Group c} → Steps 0 g g
    goes :
        {n : ℕ} {g g' g'' : Group c}
        → Step c proposal_id vote g g'
        → Steps n g' g''
        → Steps (1 + n) g g''

  work-launch :
      (b : Bool) (g : Group c) (n : ChainNode) (ns : List ChainNode)
      → g.to_start ≡ n ∷ ns
      → work (
          if b
          then record g { to_start = ns; waiting = n ∷ g.waiting }
          else record g { to_start = ns })
        < work g
  work-launch true g n ns start = omega (arith, length-cons start)
  work-launch false g n ns start = omega (arith, length-cons start)

  work-Step : {g g' : Group c} → Step c proposal_id vote g g' → work g' < work g
  unfolding launch vote_on finish
  work-Step {g = g} (launches n ns start) = work-launch n.validator g n ns start
  work-Step (votes n rest pick) = omega (arith, length-Pick pick)
  work-Step (finishes r rest pick) = omega (arith, length-Pick pick)

  work-Steps : {n : ℕ} {g g' : Group c} → Steps n g g' → n + work g' ≤ work g
  work-Steps stays = omega arith
  work-Steps (goes step rest) = omega (arith, work-Step step, work-Steps rest)

  next :
      (g : Group c) (start waiting : List ChainNode) (back : List Vote)
      → g.to_start ≡ start
      → g.waiting ≡ waiting
      → g.returning ≡ back
      → IsFinished c proposal_id vote g ⊎ ((g' : Group c) × Step c proposal_id vote g g')
  next g (n ∷ ns) waiting back s w r = inr (_, launches n ns s)
  next g [] (n ∷ ns) back s w r = inr (_, votes n ns (rw (w) here))
  next g [] [] (v ∷ vs) s w r = inr (_, finishes v vs (rw (r) here))
  next g [] [] [] s w r = inl (record { none_to_start = s; none_waiting = w; none_returning = r })

  -- The vote ends, whatever the nodes return: a run has at most three steps for each node of the
  -- chain, and in every state that is not the end some step can be taken.
  pub Steps-bounded :
      (w : c.World) (n : ℕ) (g : Group c)
      → Steps n (new_group c proposal_id vote w) g
      → (n ≤ 3 * length c.nodes)
        × (IsFinished c proposal_id vote g ⊎ ((g' : Group c) × Step c proposal_id vote g g'))
  unfolding new_group
  Steps-bounded w n g run =
      (omega (arith, work-Steps run), next g g.to_start g.waiting g.returning refl refl refl)

  -- Before and after a turn of the loop in the schedule.
  record IsQuiet (w : c.World) (ns : List ChainNode) (g : Group c) : Type 0 where
    reached : Reachable c proposal_id vote w g
    quiet_start : g.to_start ≡ ns
    quiet_waiting : g.waiting ≡ []
    quiet_returning : g.returning ≡ []

  choice-fields :
      (b : Bool) (n : ChainNode) (ns : List ChainNode) (g : Group c)
      → let g1 : Group c =
          if b
          then record g { to_start = ns; waiting = n ∷ g.waiting }
          else record g { to_start = ns } in
        (g1.to_start ≡ ns)
        × (g1.waiting ≡ (if b then n ∷ g.waiting else g.waiting))
        × (g1.returning ≡ g.returning)
  choice-fields true n ns g = (refl, refl, refl)
  choice-fields false n ns g = (refl, refl, refl)

  launch-fields :
      (n : ChainNode) (ns : List ChainNode) (g : Group c)
      → let g1 = launch c proposal_id vote n ns g in
        (g1.to_start ≡ ns)
        × (g1.waiting ≡ (if n.validator then n ∷ g.waiting else g.waiting))
        × (g1.returning ≡ g.returning)
  unfolding launch
  launch-fields n ns g = choice-fields n.validator n ns g

  turned : ChainNode → List ChainNode → Group c → Bool → Group c
  unfolding vote_on finish
  turned n rest g1 b =
      let e = (c.exec_tx n "validator" (vote_command proposal_id vote) g1.world).1 in
      if b
      then finish c proposal_id vote (n, e) g1.returning (vote_on c proposal_id vote n rest g1)
      else g1

  turn-IsQuiet :
      (w : c.World) (n : ChainNode) (ns : List ChainNode) (g : Group c)
      → IsQuiet w (n ∷ ns) g
      → (b : Bool) → n.validator ≡ b
      → IsQuiet w ns (turned n g.waiting (launch c proposal_id vote n ns g) b)
  unfolding turned launch vote_on finish
  turn-IsQuiet w n ns g quiet true valid =
      let (start, waiting, returning) = launch-fields n ns g in
      let is_waiting = waiting ∙ ap (λ b. if b then n ∷ g.waiting else g.waiting) valid in
      record {
        reached =
            continues
              (continues (continues quiet.reached (launches n ns quiet.quiet_start))
                (votes n g.waiting (rw (is_waiting) here)))
              (finishes _ _ here);
        quiet_start = start;
        quiet_waiting = quiet.quiet_waiting;
        quiet_returning = returning ∙ quiet.quiet_returning;
      }
  turn-IsQuiet w n ns g quiet false other =
      let (start, waiting, returning) = launch-fields n ns g in
      record {
        reached = continues quiet.reached (launches n ns quiet.quiet_start);
        quiet_start = start;
        quiet_waiting =
            waiting ∙ ap (λ b. if b then n ∷ g.waiting else g.waiting) other ∙ quiet.quiet_waiting;
        quiet_returning = returning ∙ quiet.quiet_returning;
      }

  one_by_one-IsQuiet :
      (w : c.World) (ns : List ChainNode) (g : Group c)
      → IsQuiet w ns g
      → IsQuiet w [] (one_by_one c proposal_id vote ns g)
  unfolding one_by_one turned
  one_by_one-IsQuiet w [] g quiet = quiet
  one_by_one-IsQuiet w (n ∷ ns) g quiet =
      one_by_one-IsQuiet w ns _ (turn-IsQuiet w n ns g quiet n.validator refl)

  -- One schedule of the vote is to run each goroutine to its end before the next validator is
  -- looked at, and it comes to the end of the vote.
  pub one_by_one-IsFinished :
      (w : c.World)
      → Reachable c proposal_id vote w
          (one_by_one c proposal_id vote c.nodes (new_group c proposal_id vote w))
        × IsFinished c proposal_id vote
            (one_by_one c proposal_id vote c.nodes (new_group c proposal_id vote w))
  unfolding new_group
  one_by_one-IsFinished w =
      let quiet = one_by_one-IsQuiet w c.nodes (new_group c proposal_id vote w) (record {
        reached = starts;
        quiet_start = refl;
        quiet_waiting = refl;
        quiet_returning = refl;
      }) in
      (
        quiet.reached,
        record {
          none_to_start = quiet.quiet_start;
          none_waiting = quiet.quiet_waiting;
          none_returning = quiet.quiet_returning;
        },
      )
