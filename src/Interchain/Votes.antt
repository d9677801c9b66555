-- ===== src/Interchain/Votes.antt =====
-- `VoteOnProposalAllValidators` of interchaintest/helpers/gov.go: a goroutine for each validator,
-- in an `errgroup`. A state of the group says how far each goroutine is.
pub mod Once
pub mod Progress
pub mod Command
use echofi.Prelude.{
  ℕ, ◌≡◌, Bool, true, false, List, [], ◌∷◌, String, Option, none, some, if◌then◌else◌,
}
use echofi.Interchain.{ChainNode, Chain}
use echofi.Interchain.Numbers.{itoa, int_of}

-- What a goroutine returns, with its node.
abbrev pub Vote : Type 0
Vote = ChainNode × Option String

-- The nodes that the loop has still to look at, the goroutines that have not run the transaction,
-- and those that have run it and not returned. `ran` and `returned` say what came of it, the last
-- one first. `err` is what the group keeps.
pub record Group (c : Chain) : Type 0 where
  pub to_start : List ChainNode
  pub waiting : List ChainNode
  pub returning : List Vote
  pub ran : List Vote
  pub returned : List Vote
  pub world : c.World
  pub err : Option String

-- The arguments of `n.ExecTx` behind the key.
abbrev pub vote_command : ℕ → String → List String
vote_command proposal_id vote =
    "gov"
    ∷ "vote"
    ∷ itoa (int_of proposal_id)
    ∷ vote
    ∷ "--gas"
    ∷ "auto"
    ∷ "--gas-adjustment"
    ∷ "2.0"
    ∷ []

-- The first error is kept: `errOnce` of the group.
abbrev pub keep_first : Option String → Option String → Option String
keep_first none e = e
keep_first (some e) _ = some e

-- `Pick a xs rest`: `rest` is `xs` without one `a`.
pub data Pick {A : Type 0} (a : A) : List A → List A → Type 0 where
  here : {xs : List A} → Pick a (a ∷ xs) xs
  there : {x : A} {xs rest : List A} → Pick a xs rest → Pick a (x ∷ xs) (x ∷ rest)

module _ (c : Chain) (proposal_id : ℕ) (vote : String) where
  -- The group of a chain before the loop.
  unfoldable pub new_group : c.World → Group c
  new_group w = record {
    to_start = c.nodes;
    waiting = [];
    returning = [];
    ran = [];
    returned = [];
    world = w;
    err = none;
  }

  -- One turn of the loop: `eg.Go` for a validator.
  pub launch : ChainNode → List ChainNode → Group c → Group c
  launch n ns g =
      if n.validator
      then record g { to_start = ns; waiting = n ∷ g.waiting }
      else record g { to_start = ns }

  -- A goroutine runs `n.ExecTx`.
  pub vote_on : ChainNode → List ChainNode → Group c → Group c
  vote_on n rest g =
      let (after, e) = c.exec_tx n "validator" (vote_command proposal_id vote) g.world in
      record g {
        waiting = rest;
        returning = (n, e) ∷ g.returning;
        ran = (n, e) ∷ g.ran;
        world = after;
      }

  -- A goroutine returns its error to the group.
  pub finish : Vote → List Vote → Group c → Group c
  finish r rest g = record g {
    returning = rest;
    returned = r ∷ g.returned;
    err = keep_first g.err r.1;
  }

  -- Any goroutine may be the next one to run, and the loop goes on meanwhile.
  pub data Step : Group c → Group c → Type 0 where
    launches :
        {g : Group c} (n : ChainNode) (ns : List ChainNode)
        → g.to_start ≡ n ∷ ns
        → Step g (launch n ns g)
    votes :
        {g : Group c} (n : ChainNode) (rest : List ChainNode)
        → Pick n g.waiting rest
        → Step g (vote_on n rest g)
    finishes :
        {g : Group c} (r : Vote) (rest : List Vote)
        → Pick r g.returning rest
        → Step g (finish r rest g)

  pub data Reachable (w : c.World) : Group c → Type 0 where
    starts : Reachable w (new_group w)
    continues : {g g' : Group c} → Reachable w g → Step g g' → Reachable w g'

  -- `eg.Wait` comes back, with `g.err`.
  pub record IsFinished (g : Group c) : Type 0 where
    pub none_to_start : g.to_start ≡ []
    pub none_waiting : g.waiting ≡ []
    pub none_returning : g.returning ≡ []

  -- The schedule in which each goroutine ends before the next one starts.
  unfoldable pub one_by_one : List ChainNode → Group c → Group c
  unfolding launch vote_on finish
  one_by_one [] g = g
  one_by_one (n ∷ ns) g =
      let g1 = launch n ns g in
      let voted = vote_on n g.waiting g1 in
      let e = (c.exec_tx n "validator" (vote_command proposal_id vote) g1.world).1 in
      one_by_one ns (if n.validator then finish (n, e) g1.returning voted else g1)
