-- ===== src/Interchain/Gov.antt =====
-- `TestGov` of interchaintest/gov_test.go behind its set-up: a proposal from its submission to its
-- status.
use echofi.Prelude.{ℕ, ◌≡◌, refl, sym, subst, ap, ◌∙◌, String, Option, none, some, str_eq, eq_iff}
use echofi.Interchain.{Chain, Wallet, Lab, Run, ◌>>=◌, >>=-passes, require, require-passes}
use echofi.Interchain.Numbers.{parse_uint}
use echofi.Interchain.Types.{TxResult, TxResponse, ProposalWrapper}
use echofi.Interchain.Query.{query_proposal_status}
use echofi.Interchain.Proposal.{submit_proposal_from_file, submit_command, ValidatorVote}
use echofi.Interchain.Proposal.Id.{
  IsSubmission, submit_proposal_from_file-IsSubmission, IsPassed, ValidatorVote-IsPassed,
}

abbrev pub proposal_file : String
proposal_file = "/opt/proposal-test.json"

abbrev pub passed_text : String
passed_text = "PROPOSAL_STATUS_PASSED"

-- What `json.Unmarshal` makes of the three answers.
pub record Decoders (Any : Type 0) : Type 0 where
  pub of_submission : String → Option TxResult
  pub of_tx : String → Option (TxResponse Any)
  pub of_proposal : String → Option ProposalWrapper

module _ {Any : Type 0} (c : Chain) (d : Decoders Any) (user : Wallet) where
  abbrev pub submit : Run c String
  submit = submit_proposal_from_file c d.of_submission d.of_tx user proposal_file

  -- `QueryProposalStatus` and `require.Equal`.
  pub check_status : String → Run c (Unit {0})
  check_status prop_id = do
    status ← query_proposal_status c d.of_proposal prop_id
    require c (str_eq status passed_text)

  -- Behind the votes.
  unfoldable pub after_votes : String → Lab c × Option (Unit {0}) → Lab c × Option (Unit {0})
  unfolding check_status
  after_votes prop_id (lab, none) = (lab, none)
  after_votes prop_id (lab, some u) = check_status prop_id lab

  -- The ways in which the test may go from a state of the chain.
  pub data TestGov (lab : Lab c) : Lab c × Option (Unit {0}) → Type 0 where
    not_submitted : {lab1 : Lab c} → submit lab ≡ (lab1, none) → TestGov lab (lab1, none)
    no_number :
        {lab1 : Lab c} (prop_id : String)
        → submit lab ≡ (lab1, some prop_id)
        → parse_uint prop_id ≡ none
        → TestGov lab (lab1, none)
    voted_on :
        {lab1 : Lab c} {r : Lab c × Option (Unit {0})} (prop_id : String) (n : ℕ)
        → submit lab ≡ (lab1, some prop_id)
        → parse_uint prop_id ≡ some n
        → ValidatorVote c n 25 lab1 r
        → TestGov lab (after_votes prop_id r)

  -- What a test that passes has shown, from the state `lab` to the state `after`. The states in
  -- between are behind the submission, and behind the votes and the wait for the status.
  pub record Shows (lab after : Lab c) : Type 0 where
    pub prop_id : String
    pub n : ℕ
    pub submitted_at : Lab c
    pub voted_at : Lab c
    pub submitted : submit lab ≡ (submitted_at, some prop_id)
    pub submission :
        IsSubmission c d.of_submission d.of_tx
          (submit_command c user proposal_file)
          lab
          submitted_at
          prop_id
    pub is_number : parse_uint prop_id ≡ some n
    pub passed : IsPassed c n 25 submitted_at (voted_at, some tt)
    pub status : query_proposal_status c d.of_proposal prop_id voted_at ≡ (after, some passed_text)

  status_shown :
      (prop_id : String) (r : Lab c × Option (Unit {0})) {after : Lab c}
      → after_votes prop_id r ≡ (after, some tt)
      → (r.1 ≡ some tt)
        × (query_proposal_status c d.of_proposal prop_id r.0 ≡ (after, some passed_text))
  unfolding after_votes check_status
  status_shown prop_id (lab, none) h = absurd (cc (ap (λ (r : Lab c × Option (Unit {0})). r.1) h))
  status_shown prop_id (lab, some u) h =
      let (l1, status, queried, h1) =
        >>=-passes (query_proposal_status c d.of_proposal prop_id) _ lab h in
      let (same, at) = require-passes (str_eq status passed_text) l1 h1 in
      (refl, queried ∙ λ i. (sym at i, some ((eq_iff status passed_text).0 same i)))

  -- Where the test passes, the proposal has been submitted and given an id that is a number of 64
  -- bits; from the state behind that, all validators have voted yes for that number once and with no
  -- error, in some order, and the proposal has passed within 25 blocks; and the query of its id in the
  -- state behind that has given the status that it passed.
  pub TestGov-Shows : (lab after : Lab c) → TestGov lab (after, some tt) → Shows lab after
  TestGov-Shows lab after run = shown _ run refl
    where
      shown :
          (r : Lab c × Option (Unit {0})) → TestGov lab r → r ≡ (after, some tt) → Shows lab after
      shown r (not_submitted failed) h = absurd (cc (ap (λ (r : Lab c × Option (Unit {0})). r.1) h))
      shown r (no_number prop_id run no_n) h =
          absurd (cc (ap (λ (r : Lab c × Option (Unit {0})). r.1) h))
      shown r (voted_on {lab1 = lab1} {r = r1} prop_id n run number votes) h =
          let (passes, status) = status_shown prop_id r1 h in
          record {
            prop_id = prop_id;
            n = n;
            submitted_at = lab1;
            voted_at = r1.0;
            submitted = run;
            submission =
                submit_proposal_from_file-IsSubmission c d.of_submission d.of_tx user proposal_file
                  lab lab1 prop_id run;
            is_number = number;
            passed =
                subst (IsPassed c n 25 lab1) (λ i. (r1.0, passes i))
                  (ValidatorVote-IsPassed c n 25 lab1 r1 votes passes);
            status = status;
          }
