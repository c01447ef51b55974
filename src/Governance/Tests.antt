-- ===== src/Governance/Tests.antt =====
-- Runs of governance, src/governance, and its theorems at concrete inputs.
use mathlib.Core.List.{Memᴰ}
use peerx_backend.Common.{
  ℕ, ◌+◌, ◌*◌, ◌≡◌, refl, none, [], ◌∷◌, ◌++◌, String, arith, All, text_keys, nat_keys,
}
use peerx_backend.Common.Outcome.{returns, throws, after}
use peerx_backend.Governance.State.{
  treasury, for_vote, against, Proposal, Governance, Holding, find_proposal, save_proposal, passed,
  token, already_voted, own_proposal,
}
use peerx_backend.Governance.Power.{
  token_balance, counts_for, effective_voting_power, can_user_vote, quorum_met, has_passed,
  proposal_has_passed,
}
use peerx_backend.Governance.Proposals.{
  voting_days, new_proposal, create_proposal, approved, approve_proposal, cancel_proposal,
  finalized, finalize_proposal, executed_proposal, execution_row, execute_proposal,
}
use peerx_backend.Governance.Voting.{add_votes, new_vote, cast_vote, new_delegation, delegate_votes}
use peerx_backend.Governance.Tally.{IsTallied}
use peerx_backend.Governance.Ballot.{Once}
use peerx_backend.Governance.Support.{HasSupport}
use peerx_backend.Governance.Invariant.{creates, approves, ballots, finalizes}
use peerx_backend.Governance.History.{start, call, Past-IsTallied, Past-HasSupport}
use peerx_backend.Governance.Delegated.{delegate_votes-counted_twice}
use peerx_backend.Governance.Repeated.{run_again, run_again-executes}

governing : Unit {0}
unfolding find_proposal save_proposal token_balance counts_for effective_voting_power can_user_vote
    quorum_met has_passed proposal_has_passed voting_days new_proposal create_proposal approved
    approve_proposal cancel_proposal finalized finalize_proposal executed_proposal execution_row
    execute_proposal add_votes new_vote cast_vote new_delegation delegate_votes
governing = tt

abbrev holds : String → ℕ → Holding
holds user tokens = record { user_id = user; asset_id = 0; balance = tokens * token }

abbrev founded : Governance
founded = record {
  proposals = [];
  votes = [];
  delegations = [];
  holdings = holds "ann" 20000 ∷ holds "ben" 9000 ∷ holds "cat" 300 ∷ [];
  executions = [];
  discussions = [];
}

abbrev created : Governance
created = after founded (create_proposal 0 "p" "ann" treasury founded)

abbrev opened : Governance
opened = after created (approve_proposal 10 "p" created)

abbrev voted : Governance
voted = after opened (cast_vote 20 "p" "ben" for_vote none opened)

abbrev voted_twice : Governance
voted_twice = after voted (cast_vote 30 "p" "cat" against none voted)

abbrev closed : Governance
closed = after voted_twice (finalize_proposal 700000000 "p" voted_twice)

-- A second vote of the same user is refused, and so is the proposer's.
second_vote : cast_vote 25 "p" "ben" against none voted ≡ throws already_voted
unfolding governing
second_vote = refl

own_vote : cast_vote 25 "p" "ann" for_vote none voted ≡ throws own_proposal
unfolding governing
own_vote = refl

Past-IsTallied_example :
    All (IsTallied voted_twice.votes) voted_twice.proposals × Once voted_twice.votes
Past-IsTallied_example = Past-IsTallied founded voted_twice refl refl (
    call (creates 0 "p" "ann" treasury tt) (
      call (approves 10 "p") (
        call (ballots 20 "p" "ben" for_vote none)
          (call (ballots 30 "p" "cat" against none) start))))

abbrev won : Proposal
won = record {
  id = "p";
  proposer_id = "ann";
  type = treasury;
  status = passed;
  for_votes = 9000 * token;
  against_votes = 300 * token;
  abstain_votes = 0;
  quorum_votes = 40;
  pass_threshold_votes = 51;
  total_supply = 20000 * token;
  voting_period_days = 7;
  start_time = 10;
  end_time = 604800010;
  executed_at = none;
  cancellation_reason = none;
  execution_reason = none;
}

Past-HasSupport_example : HasSupport won
Past-HasSupport_example =
    Past-HasSupport founded closed won refl refl
      (call (creates 0 "p" "ann" treasury tt) (
        call (approves 10 "p") (
          call (ballots 20 "p" "ben" for_vote none)
            (call (ballots 30 "p" "cat" against none) (call (finalizes 700000000 "p") start)))))
      (unfold governing in Memᴰ.head refl) refl

abbrev delegated : Governance
delegated = record founded {
  delegations = new_delegation 0 "d" "ann" "ben" 30 (20000 * token) ∷ [];
}

delegate_votes-counted_twice_example :
    (effective_voting_power 1 "ben" "p" delegated
      ≡ effective_voting_power 1 "ben" "p" founded + token_balance "ann" founded.holdings)
    × (effective_voting_power 1 "ann" "p" delegated ≡ effective_voting_power 1 "ann" "p" founded)
delegate_votes-counted_twice_example =
    delegate_votes-counted_twice 0 1 "d" "ann" "ben" "p" 30 founded delegated
      (new_delegation 0 "d" "ann" "ben" 30 (20000 * token)) (unfold governing in refl) (omega arith)

run_again-executes_example :
    (h : Governance) × (run_again 800000000 1500000000 "p" "dan"
        (after closed (execute_proposal 700000001 "p" "dan" none closed))
      ≡ returns (h, execution_row "p" "dan" none))
    × (h.executions
        ≡ (after closed (execute_proposal 700000001 "p" "dan" none closed)).executions
          ++ execution_row "p" "dan" none ∷ [])
run_again-executes_example =
    run_again-executes 800000000 1500000000 "p" "dan"
      (after closed (execute_proposal 700000001 "p" "dan" none closed))
      (executed_proposal 700000001 none won) (unfold governing in refl) (unfold governing in refl)
      (unfold governing in omega arith)
