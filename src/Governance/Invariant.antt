-- ===== src/Governance/Invariant.antt =====
-- The calls of the services of src/governance, failed calls included, and what each keeps of the
-- proposals and votes.
use peerx_backend.Common.{ℕ, ◌≡◌, refl, arith, Option, none, some, List, String}
use peerx_backend.Common.Outcome.{after}
use peerx_backend.Governance.State.{
  ProposalType, VoteType, for_vote, against, abstain, Proposal, Vote, Holding, Governance,
  DiscussionMessageType,
}
use peerx_backend.Governance.Proposals.{
  new_proposal, create_proposal, approved, approve_proposal, cancel_proposal, finalized,
  finalize_proposal, executed_proposal, execute_proposal,
}
use peerx_backend.Governance.Voting.{cast_vote, delegate_votes, revoke_delegation, add_message}
use peerx_backend.Governance.Rows.{
  Each, create_proposal-Each, approve_proposal-Each, cancel_proposal-Each, finalize_proposal-Each,
  execute_proposal-Each,
}
use peerx_backend.Governance.Tally.{IsTallied, Unvoted, cast_weight-Unvoted}
use peerx_backend.Governance.Ballot.{AreOnce, cast_vote-IsTallied, cast_vote-AreOnce}
use peerx_backend.Governance.Support.{
  IsSupported, new_proposal-IsSupported, approved-IsSupported, finalized-IsSupported,
  executed_proposal-IsSupported, cast_vote-IsSupported,
}

-- The identifier of a new proposal is on no vote.
pub data Call (g : Governance) : Governance → Type 0 where
  creates :
      (now : ℕ) (id proposer : String) (type : ProposalType)
      → Unvoted id g.votes
      → Call g (after g (create_proposal now id proposer type g))
  approves : (now : ℕ) (id : String) → Call g (after g (approve_proposal now id g))
  cancels : (id reason : String) → Call g (after g (cancel_proposal id reason g))
  finalizes : (now : ℕ) (id : String) → Call g (after g (finalize_proposal now id g))
  executes :
      (now : ℕ) (id actor : String) (failure : Option String)
      → Call g (after g (execute_proposal now id actor failure g))
  ballots :
      (now : ℕ) (id voter : String) (type : VoteType) (reason : Option String)
      → Call g (after g (cast_vote now id voter type reason g))
  delegates :
      (now : ℕ) (id delegator delegatee : String) (days : ℕ)
      → Call g (after g (delegate_votes now id delegator delegatee days g))
  revokes : (now : ℕ) (id : String) → Call g (after g (revoke_delegation now id g))
  discusses :
      (id author : String) (type : DiscussionMessageType) (content : String)
      → Call g (add_message id author type content g).0
  trades : (holdings : List Holding) → Call g (record g { holdings = holdings })

-- Only `castVote` writes to the table of votes.
module _ (g : Governance) where
  create_proposal-votes :
      (now : ℕ) (id proposer : String) (type : ProposalType)
      → (after g (create_proposal now id proposer type g)).votes ≡ g.votes
  unfolding create_proposal
  create_proposal-votes now id proposer type = ground arith

  approve_proposal-votes :
      (now : ℕ) (id : String) → (after g (approve_proposal now id g)).votes ≡ g.votes
  unfolding approve_proposal
  approve_proposal-votes now id = ground arith

  cancel_proposal-votes :
      (id reason : String) → (after g (cancel_proposal id reason g)).votes ≡ g.votes
  unfolding cancel_proposal
  cancel_proposal-votes id reason = ground arith

  finalize_proposal-votes :
      (now : ℕ) (id : String) → (after g (finalize_proposal now id g)).votes ≡ g.votes
  unfolding finalize_proposal
  finalize_proposal-votes now id = ground arith

  execute_proposal-votes :
      (now : ℕ) (id actor : String) (failure : Option String)
      → (after g (execute_proposal now id actor failure g)).votes ≡ g.votes
  unfolding execute_proposal
  execute_proposal-votes now id actor failure = ground arith

  delegate_votes-kept :
      (now : ℕ) (id delegator delegatee : String) (days : ℕ)
      → ((after g (delegate_votes now id delegator delegatee days g)).votes ≡ g.votes)
        × ((after g (delegate_votes now id delegator delegatee days g)).proposals ≡ g.proposals)
  unfolding delegate_votes
  delegate_votes-kept now id delegator delegatee days = (ground arith, ground arith)

  revoke_delegation-kept :
      (now : ℕ) (id : String)
      → ((after g (revoke_delegation now id g)).votes ≡ g.votes)
        × ((after g (revoke_delegation now id g)).proposals ≡ g.proposals)
  unfolding revoke_delegation
  revoke_delegation-kept now id = (ground arith, ground arith)

kept_once : (g h : Governance) → h.votes ≡ g.votes → AreOnce g → AreOnce h
kept_once g h e a = record { once = rw e a.once }

new_proposal-IsTallied :
    (now : ℕ) (id proposer : String) (type : ProposalType) (balance : ℕ) (votes : List Vote)
    → Unvoted id votes
    → IsTallied votes (new_proposal now id proposer type balance)
unfolding new_proposal
new_proposal-IsTallied now id proposer type balance votes h = record {
  for_tally = rw (cast_weight-Unvoted for_vote id votes h) refl;
  against_tally = rw (cast_weight-Unvoted against id votes h) refl;
  abstain_tally = rw (cast_weight-Unvoted abstain id votes h) refl;
}

executed_proposal-IsTallied :
    (now : ℕ) (failure : Option String) (votes : List Vote) (p : Proposal)
    → IsTallied votes p
    → IsTallied votes (executed_proposal now failure p)
unfolding executed_proposal
executed_proposal-IsTallied now none votes p t = record {
  for_tally = t.for_tally;
  against_tally = t.against_tally;
  abstain_tally = t.abstain_tally;
}
executed_proposal-IsTallied now (some message) votes p t = record {
  for_tally = t.for_tally;
  against_tally = t.against_tally;
  abstain_tally = t.abstain_tally;
}

pub Call-IsTallied : {g h : Governance} → Call g h → Each IsTallied g → Each IsTallied h
unfolding approved finalized add_message
Call-IsTallied {g} (creates now id proposer type f) t =
    create_proposal-Each IsTallied g t now id proposer type
      (new_proposal-IsTallied now id proposer type _ g.votes f)
Call-IsTallied {g} (approves now id) t = approve_proposal-Each IsTallied g t now id λ p s. record {
  for_tally = s.for_tally;
  against_tally = s.against_tally;
  abstain_tally = s.abstain_tally;
}
Call-IsTallied {g} (cancels id reason) t = cancel_proposal-Each IsTallied g t id reason λ p s.
    record {
      for_tally = s.for_tally;
      against_tally = s.against_tally;
      abstain_tally = s.abstain_tally;
    }
Call-IsTallied {g} (finalizes now id) t = finalize_proposal-Each IsTallied g t now id λ p s.
    record {
      for_tally = s.for_tally;
      against_tally = s.against_tally;
      abstain_tally = s.abstain_tally;
    }
Call-IsTallied {g} (executes now id actor failure) t =
    execute_proposal-Each IsTallied g t now id actor failure
      λ p _ s. executed_proposal-IsTallied now failure g.votes p s
Call-IsTallied {g} (ballots now id voter type reason) t =
    cast_vote-IsTallied now id voter type reason g t
Call-IsTallied {g} (delegates now id a b days) t =
    let k = delegate_votes-kept g now id a b days in record { each = rw (k.0, k.1) t.each }
Call-IsTallied {g} (revokes now id) t =
    let k = revoke_delegation-kept g now id in record { each = rw (k.0, k.1) t.each }
Call-IsTallied (discusses id author type content) t = record { each = t.each }
Call-IsTallied (trades holdings) t = record { each = t.each }

pub Call-IsSupported :
    {g h : Governance} → Call g h → Each (λ _. IsSupported) g → Each (λ _. IsSupported) h
unfolding add_message
Call-IsSupported {g} (creates now id proposer type f) t =
    create_proposal-Each (λ _. IsSupported) g t now id proposer type
      (new_proposal-IsSupported now id proposer type _)
Call-IsSupported {g} (approves now id) t =
    approve_proposal-Each (λ _. IsSupported) g t now id (approved-IsSupported now)
Call-IsSupported {g} (cancels id reason) t =
    cancel_proposal-Each (λ _. IsSupported) g t id reason
      λ p s. record { percentage = s.percentage; supported = λ h. cc }
Call-IsSupported {g} (finalizes now id) t =
    finalize_proposal-Each (λ _. IsSupported) g t now id finalized-IsSupported
Call-IsSupported {g} (executes now id actor failure) t =
    execute_proposal-Each (λ _. IsSupported) g t now id actor failure
      (executed_proposal-IsSupported now failure)
Call-IsSupported {g} (ballots now id voter type reason) t =
    cast_vote-IsSupported now id voter type reason g t
Call-IsSupported {g} (delegates now id a b days) t = record {
  each = rw (delegate_votes-kept g now id a b days).1 t.each;
}
Call-IsSupported {g} (revokes now id) t = record {
  each = rw (revoke_delegation-kept g now id).1 t.each;
}
Call-IsSupported (discusses id author type content) t = record { each = t.each }
Call-IsSupported (trades holdings) t = record { each = t.each }

pub Call-AreOnce : {g h : Governance} → Call g h → AreOnce g → AreOnce h
unfolding add_message
Call-AreOnce {g} (creates now id proposer type f) a =
    kept_once g _ (create_proposal-votes g now id proposer type) a
Call-AreOnce {g} (approves now id) a = kept_once g _ (approve_proposal-votes g now id) a
Call-AreOnce {g} (cancels id reason) a = kept_once g _ (cancel_proposal-votes g id reason) a
Call-AreOnce {g} (finalizes now id) a = kept_once g _ (finalize_proposal-votes g now id) a
Call-AreOnce {g} (executes now id actor failure) a =
    kept_once g _ (execute_proposal-votes g now id actor failure) a
Call-AreOnce {g} (ballots now id voter type reason) a =
    cast_vote-AreOnce now id voter type reason g a
Call-AreOnce {g} (delegates now id x y days) a =
    kept_once g _ (delegate_votes-kept g now id x y days).0 a
Call-AreOnce {g} (revokes now id) a = kept_once g _ (revoke_delegation-kept g now id).0 a
Call-AreOnce (discusses id author type content) a = record { once = a.once }
Call-AreOnce (trades holdings) a = record { once = a.once }
