-- ===== src/Governance/Tally.antt =====
-- The tallies of src/governance: the votes counted on a proposal against the table of votes.
use peerx_backend.Common.{
  ℕ, ◌≡◌, refl, ◌≢◌, ◌&&◌, List, [], ◌∷◌, String, arith, All, sum_of, if◌then◌else◌, ◌==◌,
  text_keys, Bool-cases, inl, inr,
}
use peerx_backend.Governance.State.{
  VoteType, for_vote, against, abstain, same_type, Proposal, Vote, save_proposal,
}
use peerx_backend.Governance.Voting.{add_votes}

-- The weight of the votes of a type on a proposal.
abbrev pub cast_weight : VoteType → String → List Vote → ℕ
cast_weight type id =
    sum_of (λ v. if v.proposal_id == id && same_type v.vote_type type then v.weight else 0)

pub record IsTallied (votes : List Vote) (p : Proposal) : Type 0 where
  pub for_tally : p.for_votes ≡ cast_weight for_vote p.id votes
  pub against_tally : p.against_votes ≡ cast_weight against p.id votes
  pub abstain_tally : p.abstain_votes ≡ cast_weight abstain p.id votes

-- A vote on another proposal changes no tally.
IsTallied-cons_ne :
    (v : Vote) (votes : List Vote) (p : Proposal)
    → v.proposal_id ≢ p.id
    → IsTallied votes p
    → IsTallied (v ∷ votes) p
IsTallied-cons_ne v votes p h t = ground (arith, text_keys.same_iff v.proposal_id p.id)

pub add_votes-IsTallied :
    (v : Vote) (votes : List Vote) (p : Proposal)
    → v.proposal_id ≡ p.id
    → IsTallied votes p
    → IsTallied (v ∷ votes) (add_votes v.vote_type v.weight p)
unfolding add_votes
add_votes-IsTallied v votes p h t = ground (arith, (text_keys.same_iff v.proposal_id p.id).1 h)

-- The proposals after a vote: those with its identifier are replaced by the counted one.
pub cast-AllTallied :
    (v : Vote) (votes : List Vote) (q : Proposal) (ps : List Proposal)
    → v.proposal_id ≡ q.id
    → IsTallied (v ∷ votes) q
    → All (IsTallied votes) ps
    → All (IsTallied (v ∷ votes)) (save_proposal q ps)
unfolding save_proposal
cast-AllTallied v votes q [] e t a = tt
cast-AllTallied v votes q (p ∷ ps) e t a = (
  elim (Bool-cases (p.id == q.id)) [
    | inl h ↦ rw h t
    | inr h ↦
        rw h (IsTallied-cons_ne v votes p (λ k. ground (arith, text_keys.same_iff p.id q.id)) a.0)
  ],
  cast-AllTallied v votes q ps e t a.1,
)

-- A new proposal has no votes.
abbrev pub Unvoted : String → List Vote → Type 0
Unvoted id votes = All (λ v. v.proposal_id ≢ id) votes

pub cast_weight-Unvoted :
    (type : VoteType) (id : String) (votes : List Vote)
    → Unvoted id votes
    → cast_weight type id votes ≡ 0
cast_weight-Unvoted type id [] h = refl
cast_weight-Unvoted type id (v ∷ vs) h =
    ground (arith, h.0, text_keys.same_iff v.proposal_id id, cast_weight-Unvoted type id vs h.1)
