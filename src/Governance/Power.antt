-- ===== src/Governance/Power.antt =====
-- src/governance/services/governance.service.ts: balances, voting power, who may vote, quorum and
-- majority.
use peerx_backend.Common.{
  ℕ, ◌+◌, ◌*◌, Bool, true, false, not, ◌&&◌, Option, none, some, List, [], ◌∷◌, String,
  if◌then◌else◌, leb, ltb, ◌==◌, text_keys, nat_keys, any, sum_of,
}
use peerx_backend.Common.Outcome.{Outcome, ◌>>=◌, ◌>>◌, guard, or_fail}
use peerx_backend.Governance.State.{
  Proposal, Vote, Delegation, Holding, Governance, GovernanceError, proposal_not_found, not_active,
  not_started, period_ended, own_proposal, already_voted, is_active, find_proposal,
}

-- `holding?.balance ?? 0`, at the asset 0.
unfoldable pub token_balance : String → List Holding → ℕ
token_balance user [] = 0
token_balance user (h ∷ hs) =
    if h.user_id == user && h.asset_id == 0 then h.balance else token_balance user hs

abbrev applies_to : String → Option String → Bool
applies_to proposal none = true
applies_to proposal (some p) = p == proposal

abbrev is_current : ℕ → Option ℕ → Bool
is_current now none = true
is_current now (some end) = not (ltb end now)

-- Whether a delegation counts for a user's vote on a proposal.
unfoldable pub counts_for : ℕ → String → String → Delegation → Bool
counts_for now user proposal d =
    d.delegatee_id == user
    && d.is_active
    && applies_to proposal d.proposal_id
    && is_current now d.end_time

abbrev pub delegated_to : ℕ → String → String → List Delegation → ℕ
delegated_to now user proposal =
    sum_of (λ d. if counts_for now user proposal d then d.delegated_balance else 0)

unfoldable pub effective_voting_power : ℕ → String → String → Governance → ℕ
effective_voting_power now user proposal g =
    token_balance user g.holdings + delegated_to now user proposal g.delegations

-- `isVotingActive`.
unfoldable pub is_voting_active : ℕ → Proposal → Bool
is_voting_active now p = is_active p.status && leb p.start_time now && leb now p.end_time

abbrev pub is_vote_of : String → String → Vote → Bool
is_vote_of proposal user v = v.proposal_id == proposal && v.voter_id == user

-- `canUserVote`: the reason of a refusal is the error.
unfoldable pub can_user_vote : ℕ → String → String → Governance → Outcome GovernanceError (Unit {0})
can_user_vote now user proposal g = do
  p ← or_fail (find_proposal proposal g.proposals) proposal_not_found
  guard (is_active p.status) not_active
  guard (leb p.start_time now) not_started
  guard (leb now p.end_time) period_ended
  guard (not (p.proposer_id == user)) own_proposal
  guard (not (any (is_vote_of proposal user) g.votes)) already_voted

abbrev pub total_votes : Proposal → ℕ
total_votes p = p.for_votes + p.against_votes + p.abstain_votes

-- `totalVotes >= totalSupply * quorumVotes / 100`, multiplied out.
unfoldable pub quorum_met : Proposal → Bool
quorum_met p = leb (p.total_supply * p.quorum_votes) (total_votes p * 100)

-- `proposalHasPassed` of a proposal that is there; the percentage is multiplied out.
unfoldable pub has_passed : Proposal → Bool
has_passed p =
    quorum_met p
    && not (total_votes p == 0)
    && leb (p.pass_threshold_votes * total_votes p) (p.for_votes * 100)

unfoldable pub proposal_has_passed : String → Governance → Bool
proposal_has_passed id g = elim (find_proposal id g.proposals) [
  | none ↦ false
  | some p ↦ has_passed p
]
