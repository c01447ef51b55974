-- ===== src/Governance/Repeated.antt =====
-- Approval in src/governance/services/index.ts, which looks at no status: what it does to a proposal
-- that is decided already.
use peerx_backend.Common.{
  ℕ, ◌≤◌, ◌≡◌, refl, true, none, some, List, [], ◌∷◌, ◌++◌, String, arith, text_keys, nat_keys,
}
use peerx_backend.Common.Outcome.{Outcome, returns, ◌>>=◌}
use peerx_backend.Governance.State.{
  Proposal, Execution, Governance, GovernanceError, find_proposal, save_proposal, is_active,
  is_passed, add_days,
}
use peerx_backend.Governance.Power.{has_passed, proposal_has_passed, quorum_met}
use peerx_backend.Governance.Proposals.{
  approve_proposal, approved, finalize_proposal, finalized, execute_proposal, executed_proposal,
  voting_days, execution_row,
}

find_proposal-save_proposal :
    (id : String) (p q : Proposal) (ps : List Proposal)
    → find_proposal id ps ≡ some p
    → q.id ≡ id
    → find_proposal id (save_proposal q ps) ≡ some q
unfolding find_proposal save_proposal
find_proposal-save_proposal id p q [] e h = cc
find_proposal-save_proposal id p q (r ∷ rs) e h = ground (
  arith,
  text_keys.same_iff r.id id,
  text_keys.same_iff r.id q.id,
  text_keys.same_iff q.id id,
  find_proposal-save_proposal id p q rs,
)

find_proposal-id :
    (id : String) (p : Proposal) (ps : List Proposal) → find_proposal id ps ≡ some p → p.id ≡ id
unfolding find_proposal
find_proposal-id id p [] e = cc
find_proposal-id id p (q ∷ qs) e =
    ground (arith, text_keys.same_iff q.id id, find_proposal-id id p qs)

-- Approve, finalize and execute, one after the other.
unfoldable pub run_again :
    ℕ → ℕ → String → String → Governance → Outcome GovernanceError (Governance × Execution)
run_again now later id actor g = do
  (g1, _) ← approve_proposal now id g
  (g2, _) ← finalize_proposal later id g1
  execute_proposal later id actor none g2

approve_proposal-returns :
    (now : ℕ) (id : String) (g : Governance) (p : Proposal)
    → find_proposal id g.proposals ≡ some p
    → approve_proposal now id g
      ≡ returns
          (record g { proposals = save_proposal (approved now p) g.proposals }, approved now p)
unfolding approve_proposal
approve_proposal-returns now id g p e = ground arith

finalize_proposal-returns :
    (now : ℕ) (id : String) (g : Governance) (p : Proposal)
    → find_proposal id g.proposals ≡ some p
    → is_active p.status ≡ true
    → p.end_time ≤ now
    → finalize_proposal now id g
      ≡ returns (
        record g { proposals = save_proposal (finalized (has_passed p) p) g.proposals },
        finalized (has_passed p) p,
      )
unfolding finalize_proposal proposal_has_passed
finalize_proposal-returns now id g p e a h = ground arith

execute_proposal-returns :
    (now : ℕ) (id actor : String) (g : Governance) (p : Proposal)
    → find_proposal id g.proposals ≡ some p
    → is_passed p.status ≡ true
    → execute_proposal now id actor none g
      ≡ returns (
        record g {
          proposals = save_proposal (executed_proposal now none p) g.proposals;
          executions = g.executions ++ execution_row id actor none ∷ [];
        },
        execution_row id actor none,
      )
unfolding execute_proposal
execute_proposal-returns now id actor g p e a = ground arith

-- A proposal that has its votes, executed or not, can be approved, finalized after the voting period
-- and executed: the calls succeed, and the execution is one more row than before.
pub run_again-executes :
    (now later : ℕ) (id actor : String) (g : Governance) (p : Proposal)
    → find_proposal id g.proposals ≡ some p
    → has_passed p ≡ true
    → add_days now (voting_days p.type) ≤ later
    → (h : Governance) × (run_again now later id actor g ≡ returns (h, execution_row id actor none))
      × (h.executions ≡ g.executions ++ execution_row id actor none ∷ [])
unfolding run_again approved finalized has_passed quorum_met
run_again-executes now later id actor g p e pass late =
    let same = find_proposal-id id p g.proposals e in
    let q = approved now p in
    let g1 : Governance = record g { proposals = save_proposal q g.proposals } in
    let e1 = find_proposal-save_proposal id p q g.proposals e same in
    let r = finalized (has_passed q) q in
    let g2 : Governance = record g1 { proposals = save_proposal r g1.proposals } in
    let e2 = find_proposal-save_proposal id q r g1.proposals e1 same in
    (
      record g2 {
        proposals = save_proposal (executed_proposal later none r) g2.proposals;
        executions = g.executions ++ execution_row id actor none ∷ [];
      },
      rw
          (
            approve_proposal-returns now id g p e,
            finalize_proposal-returns later id g1 q e1 refl late,
            execute_proposal-returns later id actor g2 r e2 (rw pass refl),
          )
          refl,
      refl,
    )
