-- ===== src/Governance/Rows.antt =====
-- The table of proposals of src/governance under reads and saves, and what an operation of
-- src/governance/services/index.ts does to a property of every proposal.
use peerx_backend.Common.{
  ℕ, ◌≡◌, subst, true, not, ◌||◌, Option, some, List, [], ◌∷◌, String, arith, All, All-append, ltb,
  ◌==◌, text_keys, nat_keys, Bool-cases, inl, inr,
}
use peerx_backend.Common.Outcome.{
  returns, guard, or_fail, after, after_bind, guard-eq-returns, or_fail-eq-returns,
}
use peerx_backend.Governance.State.{
  ProposalType, Proposal, Vote, Governance, cancelled, proposal_not_found, below_threshold,
  not_passed, not_cancellable, not_active, period_not_ended, find_proposal, save_proposal,
  is_active, is_passed, is_executed, min_token_threshold,
}
use peerx_backend.Governance.Power.{token_balance, proposal_has_passed, has_passed}
use peerx_backend.Governance.Proposals.{
  new_proposal, create_proposal, approved, approve_proposal, cancel_proposal, finalized,
  finalize_proposal, executed_proposal, execute_proposal,
}

pub All-save_proposal :
    (P : Proposal → Type 0) (p : Proposal) (ps : List Proposal)
    → P p
    → All P ps
    → All P (save_proposal p ps)
unfolding save_proposal
All-save_proposal P p [] h a = tt
All-save_proposal P p (q ∷ qs) h a = (
  elim (Bool-cases (q.id == p.id)) [ inl e ↦ rw e h | inr e ↦ rw e (a.0) ],
  All-save_proposal P p qs h a.1,
)

pub All-find_proposal :
    (P : Proposal → Type 0) (id : String) (ps : List Proposal) (p : Proposal)
    → find_proposal id ps ≡ some p
    → All P ps
    → P p × (p.id ≡ id)
unfolding find_proposal
All-find_proposal P id [] p e a = cc
All-find_proposal P id (q ∷ qs) p e a = elim (Bool-cases (q.id == id)) [
  | inl h ↦
      let same : q ≡ p = ground arith in
      (subst P same a.0, ground (arith, text_keys.same_iff q.id id))
  | inr h ↦ All-find_proposal P id qs p (ground arith) a.1
]

-- A property of every proposal, beside the votes.
pub record Each (P : List Vote → Proposal → Type 0) (g : Governance) : Type 0 where
  pub each : All (P g.votes) g.proposals

found :
    (P : Proposal → Type 0) (id : String) (g : Governance) (p : Proposal)
    → or_fail (find_proposal id g.proposals) proposal_not_found ≡ returns p
    → All P g.proposals
    → P p
found P id g p e a = (All-find_proposal P id g.proposals p (or_fail-eq-returns _ _ p e) a).0

module _ (P : List Vote → Proposal → Type 0) (g : Governance) (a : Each P g) where
  pub create_proposal-Each :
      (now : ℕ) (id proposer : String) (type : ProposalType)
      → P g.votes (new_proposal now id proposer type (token_balance proposer g.holdings))
      → Each P (after g (create_proposal now id proposer type g))
  unfolding create_proposal
  create_proposal-Each now id proposer type h =
      after_bind (Each P) g
        (guard (not (ltb (token_balance proposer g.holdings) min_token_threshold)) below_threshold)
        _ a
        λ _ _. record {
          each =
              All-append (P g.votes) g.proposals
                (new_proposal now id proposer type (token_balance proposer g.holdings) ∷ []) a.each
                (h, tt);
        }

  pub approve_proposal-Each :
      (now : ℕ) (id : String)
      → ((p : Proposal) → P g.votes p → P g.votes (approved now p))
      → Each P (after g (approve_proposal now id g))
  unfolding approve_proposal
  approve_proposal-Each now id h =
      after_bind (Each P) g (or_fail (find_proposal id g.proposals) proposal_not_found) _ a λ p e.
        record {
          each =
              All-save_proposal (P g.votes) _ g.proposals (h p (found (P g.votes) id g p e a.each))
                a.each;
        }

  pub cancel_proposal-Each :
      (id reason : String)
      → ((p : Proposal)
          → P g.votes p
          → P g.votes (record p { status = cancelled; cancellation_reason = some reason }))
      → Each P (after g (cancel_proposal id reason g))
  unfolding cancel_proposal
  cancel_proposal-Each id reason h =
      after_bind (Each P) g (or_fail (find_proposal id g.proposals) proposal_not_found) _ a λ p e.
        after_bind (Each P) g
          (guard (not (is_active p.status || is_executed p.status)) not_cancellable) _ a
          λ _ _. record {
            each =
                All-save_proposal (P g.votes) _ g.proposals
                  (h p (found (P g.votes) id g p e a.each)) a.each;
          }

  pub finalize_proposal-Each :
      (now : ℕ) (id : String)
      → ((p : Proposal) → P g.votes p → P g.votes (finalized (has_passed p) p))
      → Each P (after g (finalize_proposal now id g))
  unfolding finalize_proposal proposal_has_passed
  finalize_proposal-Each now id h =
      after_bind (Each P) g (or_fail (find_proposal id g.proposals) proposal_not_found) _ a λ p e.
        after_bind (Each P) g (guard (is_active p.status) not_active) _ a λ _ _.
          after_bind (Each P) g (guard (not (ltb now p.end_time)) period_not_ended) _ a λ _ _.
            record {
              each =
                  All-save_proposal (P g.votes) (finalized (proposal_has_passed id g) p) g.proposals
                    (rw (or_fail-eq-returns _ _ p e, proposal_has_passed)
                      (h p (found (P g.votes) id g p e a.each)))
                    a.each;
            }

  pub execute_proposal-Each :
      (now : ℕ) (id actor : String) (failure : Option String)
      → ((p : Proposal)
          → is_passed p.status ≡ true
          → P g.votes p
          → P g.votes (executed_proposal now failure p))
      → Each P (after g (execute_proposal now id actor failure g))
  unfolding execute_proposal
  execute_proposal-Each now id actor failure h =
      after_bind (Each P) g (or_fail (find_proposal id g.proposals) proposal_not_found) _ a λ p e.
        after_bind (Each P) g (guard (is_passed p.status) not_passed) _ a λ u s. record {
          each =
              All-save_proposal (P g.votes) _ g.proposals
                (h p (guard-eq-returns _ _ u s) (found (P g.votes) id g p e a.each)) a.each;
        }
