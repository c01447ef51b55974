-- ===== src/Governance/Support.antt =====
-- Quorum and majority of src/governance: what a proposal that passed has behind it, and how the
-- operations of src/governance/services/index.ts keep it.
use native.Mathlib.Nat.{mul-le-mul_left}
use peerx_backend.Common.{
  ℕ, ◌*◌, ◌≤◌, ◌<◌, ◌≡◌, refl, Bool, true, false, ◌||◌, Option, none, some, String, arith, ◌==◌,
  nat_keys, Bool-cases, if_both, inl, inr,
}
use peerx_backend.Common.Outcome.{after}
use peerx_backend.Governance.State.{
  ProposalType, ProposalStatus, pending, active, passed, executed, defeated, cancelled, VoteType,
  for_vote, against, abstain, Proposal, Governance, is_active, is_passed, is_executed,
}
use peerx_backend.Governance.Power.{total_votes, quorum_met, has_passed}
use peerx_backend.Governance.Proposals.{new_proposal, approved, finalized, executed_proposal}
use peerx_backend.Governance.Voting.{add_votes, cast_vote}
use peerx_backend.Governance.Rows.{Each, All-save_proposal, All-find_proposal}
use peerx_backend.Governance.Ballot.{cast_vote-after}

abbrev pub is_decided : ProposalStatus → Bool
is_decided s = is_passed s || is_executed s

-- Votes were cast, the quorum of the supply among them, and the share that the threshold asks for
-- is in favour.
pub record HasSupport (p : Proposal) : Type 0 where
  pub some_votes : 0 < total_votes p
  pub quorum : p.total_supply * p.quorum_votes ≤ total_votes p * 100
  pub majority : p.pass_threshold_votes * total_votes p ≤ p.for_votes * 100

has_passed-HasSupport : (p : Proposal) → has_passed p ≡ true → HasSupport p
unfolding has_passed quorum_met
has_passed-HasSupport p h = record {
  some_votes = ground arith;
  quorum = ground arith;
  majority = ground arith;
}

-- A proposal's quorum is a percentage, and one that has passed or is executed has its support.
pub record IsSupported (p : Proposal) : Type 0 where
  pub percentage : p.quorum_votes ≤ 100
  pub supported : is_decided p.status ≡ true → HasSupport p

pub new_proposal-IsSupported :
    (now : ℕ) (id proposer : String) (type : ProposalType) (balance : ℕ)
    → IsSupported (new_proposal now id proposer type balance)
unfolding new_proposal
new_proposal-IsSupported now id proposer type balance = record {
  percentage = omega arith;
  supported = λ h. cc;
}

pub approved-IsSupported : (now : ℕ) (p : Proposal) → IsSupported p → IsSupported (approved now p)
unfolding approved
approved-IsSupported now p s = record { percentage = s.percentage; supported = λ h. cc }

pub finalized-IsSupported :
    (p : Proposal) → IsSupported p → IsSupported (finalized (has_passed p) p)
unfolding finalized
finalized-IsSupported p s = elim (Bool-cases (has_passed p)) [
  | inl h ↦
      let b = has_passed-HasSupport p h in
      record {
        percentage = s.percentage;
        supported = λ k. record {
          some_votes = b.some_votes;
          quorum =
              if_both (λ n. n * p.quorum_votes ≤ total_votes p * 100) (p.total_supply == 0)
                (mul-le-mul_left (total_votes p) s.percentage) b.quorum;
          majority = b.majority;
        };
      }
  | inr h ↦ record { percentage = s.percentage; supported = λ k. ground arith }
]

pub executed_proposal-IsSupported :
    (now : ℕ) (failure : Option String) (p : Proposal)
    → is_passed p.status ≡ true
    → IsSupported p
    → IsSupported (executed_proposal now failure p)
unfolding executed_proposal
executed_proposal-IsSupported now none p h s =
    let b = s.supported (rw h refl) in
    record {
      percentage = s.percentage;
      supported =
          λ k. record { some_votes = b.some_votes; quorum = b.quorum; majority = b.majority };
    }
executed_proposal-IsSupported now (some message) p h s =
    let b = s.supported (rw h refl) in
    record {
      percentage = s.percentage;
      supported =
          λ k. record { some_votes = b.some_votes; quorum = b.quorum; majority = b.majority };
    }

active_not_decided : (s : ProposalStatus) → is_active s ≡ true → is_decided s ≡ false
active_not_decided pending h = refl
active_not_decided active h = refl
active_not_decided passed h = cc
active_not_decided executed h = cc
active_not_decided defeated h = refl
active_not_decided cancelled h = refl

add_votes-kept :
    (t : VoteType) (w : ℕ) (p : Proposal)
    → ((add_votes t w p).status ≡ p.status) × ((add_votes t w p).quorum_votes ≡ p.quorum_votes)
unfolding add_votes
add_votes-kept for_vote w p = (refl, refl)
add_votes-kept against w p = (refl, refl)
add_votes-kept abstain w p = (refl, refl)

-- A vote is counted on an active proposal, which is not decided.
add_votes-IsSupported :
    (t : VoteType) (w : ℕ) (p : Proposal)
    → is_active p.status ≡ true
    → IsSupported p
    → IsSupported (add_votes t w p)
add_votes-IsSupported t w p a s = record {
  percentage = rw (add_votes-kept t w p).1 s.percentage;
  supported = λ h. ground (arith, active_not_decided p.status a, (add_votes-kept t w p).0);
}

pub cast_vote-IsSupported :
    (now : ℕ) (proposal voter : String) (type : VoteType) (reason : Option String) (g : Governance)
    → Each (λ _. IsSupported) g
    → Each (λ _. IsSupported) (after g (cast_vote now proposal voter type reason g))
cast_vote-IsSupported now proposal voter type reason g a =
    cast_vote-after (Each (λ _. IsSupported)) now proposal voter type reason g a
      λ p power balance e may. record {
        each =
            All-save_proposal IsSupported (add_votes type power p) g.proposals
              (add_votes-IsSupported type power p (may.active p e)
                (All-find_proposal IsSupported proposal g.proposals p e a.each).0)
              a.each;
      }
