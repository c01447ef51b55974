-- ===== src/Governance/State.antt =====
-- The entities of src/governance/entities, the enums of src/governance/enums/governance.enum.ts and
-- the parameters of src/governance/constants/governance.constants.ts. Token amounts are numbers of
-- 10^-8 tokens, percentages whole numbers, times milliseconds; columns that no operation reads
-- (addresses, descriptions, payloads) are not carried.
use peerx_backend.Common.{
  ℕ, ◌*◌, ◌+◌, Bool, true, false, Option, none, some, List, [], ◌∷◌, String, if◌then◌else◌, ◌==◌,
  text_keys,
}

pub data ProposalType : Type 0 where
  parameter_change fee_structure new_feature treasury emergency upgrade : ProposalType

pub data ProposalStatus : Type 0 where
  pending active passed executed defeated cancelled : ProposalStatus

pub data VoteType : Type 0 where
  for_vote against abstain : VoteType

pub data ExecutionStatus : Type 0 where
  execution_pending success failed : ExecutionStatus

pub data DiscussionMessageType : Type 0 where
  comment amendment informational : DiscussionMessageType

abbrev pub is_active : ProposalStatus → Bool
is_active active = true
is_active _ = false

abbrev pub is_passed : ProposalStatus → Bool
is_passed passed = true
is_passed _ = false

abbrev pub is_executed : ProposalStatus → Bool
is_executed executed = true
is_executed _ = false

abbrev pub is_emergency : ProposalType → Bool
is_emergency emergency = true
is_emergency _ = false

abbrev pub same_type : VoteType → VoteType → Bool
same_type for_vote for_vote = true
same_type against against = true
same_type abstain abstain = true
same_type _ _ = false

pub record Proposal : Type 0 where
  pub id : String
  pub proposer_id : String
  pub type : ProposalType
  pub status : ProposalStatus
  pub for_votes : ℕ
  pub against_votes : ℕ
  pub abstain_votes : ℕ
  pub quorum_votes : ℕ
  pub pass_threshold_votes : ℕ
  pub total_supply : ℕ
  pub voting_period_days : ℕ
  pub start_time : ℕ
  pub end_time : ℕ
  pub executed_at : Option ℕ
  pub cancellation_reason : Option String
  pub execution_reason : Option String

pub record Vote : Type 0 where
  pub proposal_id : String
  pub voter_id : String
  pub vote_type : VoteType
  pub weight : ℕ
  pub balance_at_vote : ℕ
  pub timestamp : ℕ
  pub reason : Option String

pub record Delegation : Type 0 where
  pub id : String
  pub delegator_id : String
  pub delegatee_id : String
  pub proposal_id : Option String
  pub delegated_balance : ℕ
  pub is_active : Bool
  pub start_time : ℕ
  pub end_time : Option ℕ

pub record Holding : Type 0 where
  pub user_id : String
  pub asset_id : ℕ
  pub balance : ℕ

pub record Execution : Type 0 where
  pub proposal_id : String
  pub execution_status : ExecutionStatus
  pub executed_by : String
  pub error_message : Option String

pub record Discussion : Type 0 where
  pub proposal_id : String
  pub author_id : String
  pub message_type : DiscussionMessageType
  pub content : String

pub record Governance : Type 0 where
  pub proposals : List Proposal
  pub votes : List Vote
  pub delegations : List Delegation
  pub holdings : List Holding
  pub executions : List Execution
  pub discussions : List Discussion

abbrev pub token : ℕ
token = 100000000

abbrev pub voting_period_days : ℕ
voting_period_days = 7

abbrev pub emergency_voting_period_days : ℕ
emergency_voting_period_days = 1

abbrev pub min_token_threshold : ℕ
min_token_threshold = 10000 * token

abbrev pub quorum_percentage : ℕ
quorum_percentage = 40

-- The default of the column, which `createProposal` leaves to the database.
abbrev pub default_pass_threshold : ℕ
default_pass_threshold = 51

-- `setDate(getDate() + days)`, on days of equal length.
abbrev pub add_days : ℕ → ℕ → ℕ
add_days now days = now + days * 86400000

unfoldable pub find_proposal : String → List Proposal → Option Proposal
find_proposal id [] = none
find_proposal id (p ∷ ps) = if p.id == id then some p else find_proposal id ps

unfoldable pub save_proposal : Proposal → List Proposal → List Proposal
save_proposal p [] = []
save_proposal p (q ∷ qs) = (if q.id == p.id then p else q) ∷ save_proposal p qs

-- The exceptions, one for each message.
pub data GovernanceError : Type 0 where
  proposal_not_found below_threshold not_passed not_cancellable not_active : GovernanceError
  period_not_ended not_started period_ended own_proposal already_voted : GovernanceError
  no_voting_power self_delegation already_delegated no_holdings : GovernanceError
  delegation_not_found already_inactive : GovernanceError
