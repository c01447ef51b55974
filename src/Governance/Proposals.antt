-- ===== src/Governance/Proposals.antt =====
-- `ProposalManagementService` and `ProposalExecutionService`, src/governance/services/index.ts. New
-- identifiers are arguments. Whether the first save of an execution fails is an argument, too; the
-- second save, in the handler, is taken to succeed.
use peerx_backend.Common.{
  ℕ, Bool, not, ◌||◌, Option, none, some, [], ◌∷◌, ◌++◌, String, if◌then◌else◌, ltb, ◌==◌, nat_keys,
}
use peerx_backend.Common.Outcome.{Outcome, returns, ◌>>=◌, ◌>>◌, guard, or_fail}
use peerx_backend.Governance.State.{
  ProposalType, pending, active, passed, executed, defeated, cancelled, Proposal, Execution,
  success, failed, Governance, GovernanceError, proposal_not_found, below_threshold, not_passed,
  not_cancellable, not_active, period_not_ended, is_active, is_passed, is_executed, is_emergency,
  voting_period_days, emergency_voting_period_days, min_token_threshold, quorum_percentage,
  default_pass_threshold, add_days, find_proposal, save_proposal,
}
use peerx_backend.Governance.Power.{token_balance, total_votes, proposal_has_passed}

unfoldable pub voting_days : ProposalType → ℕ
voting_days type = if is_emergency type then emergency_voting_period_days else voting_period_days

unfoldable pub new_proposal : ℕ → String → String → ProposalType → ℕ → Proposal
new_proposal now id proposer type balance = record {
  id = id;
  proposer_id = proposer;
  type = type;
  status = pending;
  for_votes = 0;
  against_votes = 0;
  abstain_votes = 0;
  quorum_votes = quorum_percentage;
  pass_threshold_votes = default_pass_threshold;
  total_supply = balance;
  voting_period_days = voting_days type;
  start_time = now;
  end_time = add_days now (voting_days type);
  executed_at = none;
  cancellation_reason = none;
  execution_reason = none;
}

unfoldable pub create_proposal :
    ℕ
    → String
    → String
    → ProposalType
    → Governance
    → Outcome GovernanceError (Governance × Proposal)
create_proposal now id proposer type g = do
  let balance = token_balance proposer g.holdings
  guard (not (ltb balance min_token_threshold)) below_threshold
  let p = new_proposal now id proposer type balance
  returns (record g { proposals = g.proposals ++ p ∷ [] }, p)

unfoldable pub approved : ℕ → Proposal → Proposal
approved now p = record p {
  status = active;
  start_time = now;
  end_time = add_days now (voting_days p.type);
  voting_period_days = voting_days p.type;
}

-- The source does not look at the status.
unfoldable pub approve_proposal :
    ℕ → String → Governance → Outcome GovernanceError (Governance × Proposal)
approve_proposal now id g = do
  p ← or_fail (find_proposal id g.proposals) proposal_not_found
  let q = approved now p
  returns (record g { proposals = save_proposal q g.proposals }, q)

unfoldable pub cancel_proposal :
    String → String → Governance → Outcome GovernanceError (Governance × Proposal)
cancel_proposal id reason g = do
  p ← or_fail (find_proposal id g.proposals) proposal_not_found
  guard (not (is_active p.status || is_executed p.status)) not_cancellable
  let q = record p { status = cancelled; cancellation_reason = some reason }
  returns (record g { proposals = save_proposal q g.proposals }, q)

-- `totalSupply || votes`; the outcome is computed from the stored row.
unfoldable pub finalized : Bool → Proposal → Proposal
finalized pass p = record p {
  total_supply = if p.total_supply == 0 then total_votes p else p.total_supply;
  status = if pass then passed else defeated;
}

unfoldable pub finalize_proposal :
    ℕ → String → Governance → Outcome GovernanceError (Governance × Proposal)
finalize_proposal now id g = do
  p ← or_fail (find_proposal id g.proposals) proposal_not_found
  guard (is_active p.status) not_active
  guard (not (ltb now p.end_time)) period_not_ended
  let q = finalized (proposal_has_passed id g) p
  returns (record g { proposals = save_proposal q g.proposals }, q)

unfoldable pub executed_proposal : ℕ → Option String → Proposal → Proposal
executed_proposal now none p = record p { status = executed; executed_at = some now }
executed_proposal now (some message) p = record p {
  status = passed;
  executed_at = some now;
  execution_reason = some message;
}

unfoldable pub execution_row : String → String → Option String → Execution
execution_row id actor none = record {
  proposal_id = id;
  execution_status = success;
  executed_by = actor;
  error_message = none;
}
execution_row id actor (some message) = record {
  proposal_id = id;
  execution_status = failed;
  executed_by = actor;
  error_message = some message;
}

unfoldable pub execute_proposal :
    ℕ
    → String
    → String
    → Option String
    → Governance
    → Outcome GovernanceError (Governance × Execution)
execute_proposal now id actor failure g = do
  p ← or_fail (find_proposal id g.proposals) proposal_not_found
  guard (is_passed p.status) not_passed
  let e = execution_row id actor failure
  returns (
    record g {
      proposals = save_proposal (executed_proposal now failure p) g.proposals;
      executions = g.executions ++ e ∷ [];
    },
    e,
  )
