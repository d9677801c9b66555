-- ===== src/Interchain/Proposal/Id.antt =====
-- The id that a submitted proposal is given, and the vote on it.
use echofi.Prelude.{
  ℕ, ◌+◌, ◌%◌, ◌^◌, ◌≡◌, refl, sym, ap, ◌∙◌, Bool, true, List, [], ◌∷◌, ◌++◌, String, Option, none,
  some, if◌then◌else◌, str_eq, Bool-cases, inl, inr, arith, All,
}
use echofi.Interchain.{
  ◌>>=◌, ChainNode, Chain, Wallet, Lab, decoded, require, exec_ok, wait_ok, >>=-passes,
  exec_ok-passes, exec_ok-world, wait_ok-passes, wait_ok-world, require-passes, value-passes,
}
use echofi.Interchain.Types.{Attribute, Event, TxResponse, TxResult}
use echofi.Interchain.Votes.{Vote, Group, Reachable, IsFinished}
use echofi.Interchain.Votes.Once.{count_if, validators, Reachable-IsVote}
use echofi.Interchain.Proposal.{
  attribute_loop, or_else, event_loop, found, extract_proposal_id, tx_command,
  get_proposal_id_from_tx, submit_command, submit_proposal_from_file, poll, after_vote,
  ValidatorVote, voted, is_nil,
}

-- All ids of proposals in an answer: the values of the attributes `proposal_id` of the events
-- `submit_proposal`, in their order.
abbrev pub id_values : List Attribute → List String
id_values [] = []
id_values (attr ∷ attrs) =
    if str_eq attr.key "proposal_id" then attr.value ∷ id_values attrs else id_values attrs

abbrev pub proposal_ids : List Event → List String
proposal_ids [] = []
proposal_ids (ev ∷ events) =
    if str_eq ev.type_name "submit_proposal"
    then id_values ev.attributes ++ proposal_ids events
    else proposal_ids events

abbrev pub first : List String → Option String
first [] = none
first (id ∷ _) = some id

abbrev pub first_id : {Any : Type 0} → Option (TxResponse Any) → Option String
first_id none = none
first_id (some parsed) = first (proposal_ids parsed.events)

attribute_loop-first : (attrs : List Attribute) → attribute_loop attrs ≡ first (id_values attrs)
unfolding attribute_loop
attribute_loop-first [] = refl
attribute_loop-first (attr ∷ attrs) = ground (arith, attribute_loop-first attrs)

or_else-first : (ids rest : List String) → or_else (first ids) (first rest) ≡ first (ids ++ rest)
unfolding or_else
or_else-first [] rest = refl
or_else-first (id ∷ ids) rest = refl

event_loop-first : (events : List Event) → event_loop events ≡ first (proposal_ids events)
unfolding event_loop
event_loop-first [] = refl
event_loop-first (ev ∷ events) = elim (Bool-cases (str_eq ev.type_name "submit_proposal")) [
  | inl submit ↦
      rw (submit, attribute_loop-first ev.attributes, event_loop-first events)
        (or_else-first (id_values ev.attributes) (proposal_ids events))
  | inr other ↦ rw (other) (event_loop-first events)
]

found-same : (c : Chain) (o : Option String) (lab : Lab c) → found c o lab ≡ (lab, o)
unfolding found
found-same c none lab = refl
found-same c (some id) lab = refl

-- The id that is read from the answer of a transaction is the first of all its proposal ids, and
-- the test is stopped exactly if the answer cannot be decoded or has none. No command is run.
pub extract_proposal_id-first :
    (c : Chain) {Any : Type 0} (unmarshal : String → Option (TxResponse Any)) (tx_resp : String)
    (lab : Lab c)
    → extract_proposal_id c unmarshal tx_resp lab ≡ (lab, first_id (unmarshal tx_resp))
unfolding extract_proposal_id
extract_proposal_id-first c {Any = Any} unmarshal tx_resp lab = by_answer (unmarshal tx_resp)
  where
    by_answer :
        (o : Option (TxResponse Any))
        → (decoded c o >>= λ parsed. found c (event_loop parsed.events)) lab ≡ (lab, first_id o)
    by_answer none = refl
    by_answer (some parsed) =
        found-same c (event_loop parsed.events) lab ∙ rw (event_loop-first parsed.events) refl

-- How a submission came to an id: the outputs are those of the two commands, the first one in the
-- state before and the second one two blocks behind the first.
pub record IsSubmission {Any : Type 0} (c : Chain) (unmarshal : String → Option TxResult)
    (unmarshal_tx : String → Option (TxResponse Any)) (submit : List String) (before after : Lab c)
    (id : String) : Type 0 where
  pub res : TxResult
  pub res_decoded : unmarshal (c.exec submit before.world).1.stdout ≡ some res
  pub two_commands : after.commands ≡ tx_command c res.tx_hash ∷ submit ∷ before.commands
  pub id_of_tx :
      first_id (
        unmarshal_tx
          (c.exec
            (tx_command c res.tx_hash)
            (c.wait_for_blocks 2 (c.exec submit before.world).0).0).1.stdout)
      ≡ some id

-- When a submission gives an id, exactly two commands have been run: the submission, and the query
-- of the transaction whose hash the submission wrote; and the id is the first proposal id in the
-- answer of the query.
pub submit_proposal_from_file-IsSubmission :
    (c : Chain) {Any : Type 0} (unmarshal : String → Option TxResult)
    (unmarshal_tx : String → Option (TxResponse Any)) (user : Wallet) (file_path : String)
    (before after : Lab c) (id : String)
    → submit_proposal_from_file c unmarshal unmarshal_tx user file_path before ≡ (after, some id)
    → IsSubmission c unmarshal unmarshal_tx (submit_command c user file_path) before after id
unfolding submit_proposal_from_file get_proposal_id_from_tx
submit_proposal_from_file-IsSubmission c unmarshal unmarshal_tx user file_path before after id h =
    let (lab1, out, submitted, h1) =
      >>=-passes (exec_ok c (submit_command c user file_path)) _ before h in
    let (lab2, res, res_decoded, h2) = >>=-passes (decoded c (unmarshal out)) _ lab1 h1 in
    let (lab3, _, waited, h3) = >>=-passes (wait_ok c 2) _ lab2 h2 in
    let (lab4, tx_out, queried, h4) = >>=-passes (exec_ok c (tx_command c res.tx_hash)) _ lab3 h3 in
    let extracted = sym (extract_proposal_id-first c unmarshal_tx tx_out lab4) ∙ h4 in
    let (same_lab, res_is) = value-passes (unmarshal out) lab1 res_decoded in
    let (_, _, out_is) = exec_ok-passes c (submit_command c user file_path) before submitted in
    let (last, _, tx_out_is) = exec_ok-passes c (tx_command c res.tx_hash) lab3 queried in
    let world3 : lab3.world
        ≡ (c.wait_for_blocks 2 (c.exec (submit_command c user file_path) before.world).0).0 =
      wait_ok-world c 2 lab2 waited
      ∙ ap (λ (l : Lab c). (c.wait_for_blocks 2 l.world).0) same_lab
      ∙ ap (λ w. (c.wait_for_blocks 2 w).0)
          (exec_ok-world c (submit_command c user file_path) before submitted) in
    record {
      res = res;
      res_decoded = ap unmarshal out_is ∙ res_is;
      two_commands =
          ap (λ (r : Lab c × Option String). r.0.commands) (sym extracted)
          ∙ last
          ∙ ap (◌∷◌ (tx_command c res.tx_hash)) (
              (wait_ok-passes c 2 lab2 waited).0
              ∙ ap (λ (l : Lab c). l.commands) same_lab
              ∙ (exec_ok-passes c (submit_command c user file_path) before submitted).0);
      id_of_tx =
          ap (λ w. first_id (unmarshal_tx (c.exec (tx_command c res.tx_hash) w).1.stdout))
            (sym world3)
          ∙ ap (λ o. first_id (unmarshal_tx o)) tx_out_is
          ∙ ap (λ (r : Lab c × Option String). r.1) extracted;
    }

-- What a vote that passes has shown, from the state `lab` to the end `r`.
pub record IsPassed (c : Chain) (proposal_id search_height_delta : ℕ) (lab : Lab c)
    (r : Lab c × Option (Unit {0})) : Type 0 where
  pub group : Group c
  pub run : Reachable c proposal_id c.proposal_vote_yes lab.world group
  pub done : IsFinished c proposal_id c.proposal_vote_yes group
  pub each_once :
      (p : ChainNode → Bool)
      → count_if (λ (r : Vote). p r.0) group.ran ≡ count_if p (validators c.nodes)
  pub none_failed : All (λ (r : Vote). r.1 ≡ none) group.ran
  pub from : ℕ
  pub from_height : c.height group.world ≡ some from
  pub polled :
      c.poll_for_status from
        ((from + search_height_delta) % 2 ^ 64)
        proposal_id
        c.status_passed
        group.world
      ≡ (r.0.world, true)

is_nil-none : (c : Chain) (o : Option String) → is_nil c o ≡ true → o ≡ none
is_nil-none c none h = refl
is_nil-none c (some e) h = absurd (cc)

poll-passes :
    (c : Chain) (from delta proposal_id : ℕ) (before : Lab c) {lab : Lab c} {u : Unit {0}}
    → poll c from delta proposal_id before ≡ (lab, some u)
    → c.poll_for_status from ((from + delta) % 2 ^ 64) proposal_id c.status_passed before.world
      ≡ (lab.world, true)
unfolding poll
poll-passes c from delta proposal_id before {lab = lab} h =
    let (passed, same) = require-passes _ _ h in
    let world = ap (λ (l : Lab c). l.world) same in λ i. (sym world i, passed i)

-- In whatever order the votes run, where `ValidatorVote` passes they are those of a finished run of
-- the group for this proposal and the vote yes, in which every validator has voted once, no other
-- node has, and no vote has given an error; and from the state that they leave, the proposal has come
-- to the status between the height there and that height plus the delta.
pub ValidatorVote-IsPassed :
    (c : Chain) (proposal_id search_height_delta : ℕ) (lab : Lab c) (r : Lab c × Option (Unit {0}))
    → ValidatorVote c proposal_id search_height_delta lab r
    → r.1 ≡ some tt
    → IsPassed c proposal_id search_height_delta lab r
unfolding after_vote
ValidatorVote-IsPassed c proposal_id delta lab r (voted g run done) h =
    let vote = Reachable-IsVote c proposal_id c.proposal_vote_yes lab.world g run done in
    let before : Lab c = record lab { world = g.world } in
    let (lab1, _, nil_error, h1) =
      >>=-passes (require c (is_nil c g.err)) _ before (λ i. (r.0, h i)) in
    let (lab2, from, height_known, h2) =
      >>=-passes (λ (l : Lab c). decoded c (c.height l.world) l) _ lab1 h1 in
    let (err_nil, lab1_is) = require-passes (is_nil c g.err) before nil_error in
    let (lab2_is, from_is) = value-passes (c.height lab1.world) lab1 height_known in
    let world_is : lab2.world ≡ g.world = ap (λ (l : Lab c). l.world) (lab2_is ∙ lab1_is) in
    record {
      group = g;
      run = run;
      done = done;
      each_once = vote.each_once;
      none_failed = vote.passes.0 (is_nil-none c g.err err_nil);
      from = from;
      from_height = ap (λ (l : Lab c). c.height l.world) (sym lab1_is) ∙ from_is;
      polled =
          ap (c.poll_for_status from ((from + delta) % 2 ^ 64) proposal_id c.status_passed)
            (sym world_is)
          ∙ poll-passes c from delta proposal_id lab2 h2;
    }
