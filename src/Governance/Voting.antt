-- ===== src/Governance/Voting.antt =====
-- `VotingService`, `DelegationService` and `DiscussionService`, src/governance/services/index.ts.
use peerx_backend.Common.{
  ℕ, ◌+◌, Bool, true, false, not, ◌&&◌, Option, none, some, List, [], ◌∷◌, ◌++◌, String,
  if◌then◌else◌, ltb, ◌==◌, nat_keys, text_keys, any,
}
use peerx_backend.Common.Outcome.{Outcome, returns, ◌>>=◌, ◌>>◌, guard, or_fail}
use peerx_backend.Governance.State.{
  VoteType, for_vote, against, abstain, Proposal, Vote, Delegation, Discussion,
  DiscussionMessageType, Governance, GovernanceError, proposal_not_found, no_voting_power,
  self_delegation, already_delegated, no_holdings, delegation_not_found, already_inactive, add_days,
  find_proposal, save_proposal,
}
use peerx_backend.Governance.Power.{token_balance, effective_voting_power, can_user_vote}

unfoldable pub add_votes : VoteType → ℕ → Proposal → Proposal
add_votes for_vote power p = record p { for_votes = p.for_votes + power }
add_votes against power p = record p { against_votes = p.against_votes + power }
add_votes abstain power p = record p { abstain_votes = p.abstain_votes + power }

unfoldable pub new_vote : ℕ → String → String → VoteType → Option String → ℕ → ℕ → Vote
new_vote now proposal voter type reason power balance = record {
  proposal_id = proposal;
  voter_id = voter;
  vote_type = type;
  weight = power;
  balance_at_vote = balance;
  timestamp = now;
  reason = reason;
}

unfoldable pub cast_vote :
    ℕ
    → String
    → String
    → VoteType
    → Option String
    → Governance
    → Outcome GovernanceError (Governance × Vote)
cast_vote now proposal voter type reason g = do
  can_user_vote now voter proposal g
  p ← or_fail (find_proposal proposal g.proposals) proposal_not_found
  let power = effective_voting_power now voter proposal g
  guard (ltb 0 power) no_voting_power
  let v = new_vote now proposal voter type reason power (token_balance voter g.holdings)
  returns (
    record g {
      votes = v ∷ g.votes;
      proposals = save_proposal (add_votes type power p) g.proposals;
    },
    v,
  )

abbrev pub is_delegation_of : String → String → Delegation → Bool
is_delegation_of delegator delegatee d =
    d.delegator_id == delegator && d.delegatee_id == delegatee && d.is_active

unfoldable pub new_delegation : ℕ → String → String → String → ℕ → ℕ → Delegation
new_delegation now id delegator delegatee days balance = record {
  id = id;
  delegator_id = delegator;
  delegatee_id = delegatee;
  proposal_id = none;
  delegated_balance = balance;
  is_active = true;
  start_time = now;
  end_time = some (add_days now days);
}

unfoldable pub delegate_votes :
    ℕ
    → String
    → String
    → String
    → ℕ
    → Governance
    → Outcome GovernanceError (Governance × Delegation)
delegate_votes now id delegator delegatee days g = do
  guard (not (delegator == delegatee)) self_delegation
  guard (not (any (is_delegation_of delegator delegatee) g.delegations)) already_delegated
  let balance = token_balance delegator g.holdings
  guard (ltb 0 balance) no_holdings
  let d = new_delegation now id delegator delegatee days balance
  returns (record g { delegations = d ∷ g.delegations }, d)

unfoldable pub find_delegation : String → List Delegation → Option Delegation
find_delegation id [] = none
find_delegation id (d ∷ ds) = if d.id == id then some d else find_delegation id ds

unfoldable pub save_delegation : Delegation → List Delegation → List Delegation
save_delegation d [] = []
save_delegation d (e ∷ es) = (if e.id == d.id then d else e) ∷ save_delegation d es

unfoldable pub revoke_delegation :
    ℕ → String → Governance → Outcome GovernanceError (Governance × Delegation)
revoke_delegation now id g = do
  d ← or_fail (find_delegation id g.delegations) delegation_not_found
  guard d.is_active already_inactive
  let e = record d { is_active = false; end_time = some now }
  returns (record g { delegations = save_delegation e g.delegations }, e)

unfoldable pub add_message :
    String → String → DiscussionMessageType → String → Governance → Governance × Discussion
add_message proposal author type content g =
    let d : Discussion = record {
      proposal_id = proposal;
      author_id = author;
      message_type = type;
      content = content;
    } in
    (record g { discussions = g.discussions ++ d ∷ [] }, d)
