-- ===== src/Interchain/Votes/Command.antt =====
-- The vote command of `VoteOnProposalAllValidators`, as the command line of the node reads it.
use echofi.Prelude.{
  ℕ, ◌<◌, ◌^◌, ◌≡◌, refl, ap, ◌∙◌, ◌&&◌, List, ◌∷◌, String, Option, none, some, if◌then◌else◌, ltb,
  str_eq, inl, inr, Bool-cases,
}
use mathlib.Core.Option
use echofi.Interchain.Numbers.{parse_uint, parse_uint-itoa}
use echofi.Interchain.Votes.{vote_command}

-- `gov vote [proposal-id] [option]` with its flags.
abbrev pub read_vote : List String → Option (ℕ × String)
read_vote (group ∷ command ∷ id ∷ option ∷ flags) =
    if str_eq group "gov" && str_eq command "vote"
    then Option.map (λ n. (n, option)) (parse_uint id)
    else none
read_vote _ = none

-- A vote command is read back as a vote of this option on this proposal if the id of the proposal is
-- below 2 ^ 63. From there on no id is read: `int` has made the number negative.
pub vote_command-reads :
    (proposal_id : ℕ) (vote : String)
    → proposal_id < 2 ^ 64
    → read_vote (vote_command proposal_id vote)
      ≡ (if ltb proposal_id (2 ^ 63) then some (proposal_id, vote) else none)
vote_command-reads proposal_id vote fits =
    ap (Option.map (λ n. (n, vote))) (parse_uint-itoa proposal_id fits)
    ∙ elim (Bool-cases (ltb proposal_id (2 ^ 63))) [
      | inl small ↦ rw (small) refl
      | inr large ↦ rw (large) refl
    ]
