-- ===== src/Governance/Ballot.antt =====
-- `castVote` of src/governance/services/index.ts: who gets through `canUserVote`, and what a vote does
-- to the tallies and to the table of votes.
use peerx_backend.Common.{
  ℕ, ◌≡◌, refl, true, false, Option, some, List, [], ◌∷◌, String, arith, any, ltb, text_keys,
  Option-cases, inl, inr,
}
use peerx_backend.Common.Outcome.{returns, guard, or_fail, after, after_bind, or_fail-eq-returns}
use peerx_backend.Governance.State.{
  VoteType, for_vote, against, abstain, Proposal, Vote, Governance, proposal_not_found,
  no_voting_power, find_proposal, save_proposal, is_active,
}
use peerx_backend.Governance.Power.{
  effective_voting_power, can_user_vote, token_balance, is_vote_of,
}
use peerx_backend.Governance.Voting.{add_votes, new_vote, cast_vote}
use peerx_backend.Governance.Rows.{Each, All-find_proposal}
use peerx_backend.Governance.Tally.{IsTallied, add_votes-IsTallied, cast-AllTallied}

-- What `canUserVote` has checked when it lets a user vote.
pub record MayVote (user proposal : String) (g : Governance) : Type 0 where
  pub unvoted : any (is_vote_of proposal user) g.votes ≡ false
  pub active :
      (p : Proposal) → find_proposal proposal g.proposals ≡ some p → is_active p.status ≡ true

pub can_user_vote-MayVote :
    (now : ℕ) (user proposal : String) (g : Governance) (u : Unit {0})
    → can_user_vote now user proposal g ≡ returns u
    → MayVote user proposal g
unfolding can_user_vote
can_user_vote-MayVote now user proposal g u e =
    elim (Option-cases (find_proposal proposal g.proposals)) [
      | inl h ↦ record { unvoted = ground arith; active = λ q k. ground arith }
      | inr (p, h) ↦ record { unvoted = ground arith; active = λ q k. ground arith }
    ]

-- No user has two votes on a proposal.
pub data Once : List Vote → Type 0 where
  no_votes : Once []
  one_more :
      {v : Vote} {vs : List Vote}
      → any (is_vote_of v.proposal_id v.voter_id) vs ≡ false
      → Once vs
      → Once (v ∷ vs)

add_votes-id : (t : VoteType) (w : ℕ) (p : Proposal) → (add_votes t w p).id ≡ p.id
unfolding add_votes
add_votes-id for_vote w p = refl
add_votes-id against w p = refl
add_votes-id abstain w p = refl

-- What holds of the proposals and votes before a vote, and after a vote that is let through, holds
-- after `castVote`.
pub cast_vote-after :
    (P : Governance → Type 0) (now : ℕ) (proposal voter : String) (type : VoteType)
    (reason : Option String) (g : Governance)
    → P g
    → ((p : Proposal) (power balance : ℕ)
        → find_proposal proposal g.proposals ≡ some p
        → MayVote voter proposal g
        → P (record g {
          votes = new_vote now proposal voter type reason power balance ∷ g.votes;
          proposals = save_proposal (add_votes type power p) g.proposals;
        }))
    → P (after g (cast_vote now proposal voter type reason g))
unfolding cast_vote
cast_vote-after P now proposal voter type reason g a k =
    after_bind P g (can_user_vote now voter proposal g) _ a λ u may.
      after_bind P g (or_fail (find_proposal proposal g.proposals) proposal_not_found) _ a λ p e.
        after_bind P g (guard (ltb 0 (effective_voting_power now voter proposal g)) no_voting_power)
          _ a
          λ _ _.
            k p (effective_voting_power now voter proposal g) (token_balance voter g.holdings)
              (or_fail-eq-returns _ _ p e) (can_user_vote-MayVote now voter proposal g u may)

pub cast_vote-IsTallied :
    (now : ℕ) (proposal voter : String) (type : VoteType) (reason : Option String) (g : Governance)
    → Each IsTallied g
    → Each IsTallied (after g (cast_vote now proposal voter type reason g))
unfolding new_vote
cast_vote-IsTallied now proposal voter type reason g t =
    cast_vote-after (Each IsTallied) now proposal voter type reason g t λ p power balance e may.
      let v = new_vote now proposal voter type reason power balance in
      let row = All-find_proposal (IsTallied g.votes) proposal g.proposals p e t.each in
      record {
        each =
            cast-AllTallied v g.votes (add_votes type power p) g.proposals
              (rw (add_votes-id type power p, row.1) refl)
              (add_votes-IsTallied v g.votes p (rw row.1 refl) row.0) t.each;
      }

pub record AreOnce (g : Governance) : Type 0 where
  pub once : Once g.votes

pub cast_vote-AreOnce :
    (now : ℕ) (proposal voter : String) (type : VoteType) (reason : Option String) (g : Governance)
    → AreOnce g
    → AreOnce (after g (cast_vote now proposal voter type reason g))
unfolding new_vote
cast_vote-AreOnce now proposal voter type reason g a =
    cast_vote-after AreOnce now proposal voter type reason g a
      λ p power balance e may. record { once = Once.one_more may.unvoted a.once }
