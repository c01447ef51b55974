-- ===== src/Governance.antt =====
-- Governance, src/governance: proposals, votes, delegations and executions.
pub mod State
pub mod Power
pub mod Proposals
pub mod Voting
pub mod Rows
pub mod Tally
pub mod Ballot
pub mod Support
pub mod Invariant
pub mod History
pub mod Delegated
pub mod Repeated
mod Tests
