-- ===== src/Governance/Delegated.antt =====
-- Delegation in src/governance: `getEffectiveVotingPower` of governance.service.ts after
-- `delegateVotes` of src/governance/services/index.ts.
use peerx_backend.Common.{ℕ, ◌+◌, ◌≤◌, ◌≡◌, false, ◌∷◌, String, arith, ◌==◌, text_keys}
use peerx_backend.Common.Outcome.{returns}
use peerx_backend.Governance.State.{Delegation, Governance, add_days}
use peerx_backend.Governance.Power.{token_balance, effective_voting_power, counts_for}
use peerx_backend.Governance.Voting.{delegate_votes, new_delegation}

-- What `delegateVotes` has checked and written when it returns.
record IsDelegated (d : Delegation) (delegator delegatee : String) (g h : Governance) : Type 0 where
  apart : (delegator == delegatee) ≡ false
  written : h ≡ record g { delegations = d ∷ g.delegations }

delegate_votes-IsDelegated :
    (now : ℕ) (id delegator delegatee : String) (days : ℕ) (g h : Governance) (d : Delegation)
    → delegate_votes now id delegator delegatee days g ≡ returns (h, d)
    → IsDelegated
        (new_delegation now id delegator delegatee days (token_balance delegator g.holdings))
        delegator
        delegatee
        g
        h
unfolding delegate_votes
delegate_votes-IsDelegated now id delegator delegatee days g h d e = record {
  apart = ground arith;
  written = ground arith;
}

-- A new delegation counts for its delegatee alone, on every proposal, until its end.
counts_for-new_delegation :
    (now later : ℕ) (id delegator delegatee user proposal : String) (days balance : ℕ)
    → later ≤ add_days now days
    → counts_for later user proposal (new_delegation now id delegator delegatee days balance)
      ≡ (delegatee == user)
unfolding counts_for new_delegation
counts_for-new_delegation now later id delegator delegatee user proposal days balance h =
    ground arith

-- A delegation that succeeds counts the delegator's balance twice: on every proposal and until the
-- delegation's end, the delegatee's power is higher by that balance than without it, and the
-- delegator's own power is the same.
pub delegate_votes-counted_twice :
    (now later : ℕ) (id delegator delegatee proposal : String) (days : ℕ) (g h : Governance)
    (d : Delegation)
    → delegate_votes now id delegator delegatee days g ≡ returns (h, d)
    → later ≤ add_days now days
    → (effective_voting_power later delegatee proposal h
        ≡ effective_voting_power later delegatee proposal g + token_balance delegator g.holdings)
      × (effective_voting_power later delegator proposal h
          ≡ effective_voting_power later delegator proposal g)
unfolding effective_voting_power new_delegation
delegate_votes-counted_twice now later id delegator delegatee proposal days g h d e in_time =
    let s = delegate_votes-IsDelegated now id delegator delegatee days g h d e in
    (
      rw s.written (
          ground (
            arith,
            text_keys.same_iff delegatee delegatee,
            counts_for-new_delegation now later id delegator delegatee delegatee proposal days
                (token_balance delegator g.holdings) in_time,
          )),
      rw s.written (
          ground (
            arith,
            text_keys.same_iff delegatee delegator,
            text_keys.same_iff delegator delegatee,
            s.apart,
            counts_for-new_delegation now later id delegator delegatee delegator proposal days
                (token_balance delegator g.holdings) in_time,
          )),
    )
