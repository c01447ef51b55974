-- ===== src/Governance/History.antt =====
-- Histories of governance, src/governance: any sequence of calls of the services, failed calls
-- included, between which token balances change in any way.
use mathlib.Core.List.{Memᴰ}
use peerx_backend.Common.{◌≡◌, true, [], All, All-of_mem}
use peerx_backend.Governance.State.{Proposal, Governance}
use peerx_backend.Governance.Rows.{Each}
use peerx_backend.Governance.Tally.{IsTallied}
use peerx_backend.Governance.Ballot.{Once, no_votes, AreOnce}
use peerx_backend.Governance.Support.{IsSupported, HasSupport, is_decided}
use peerx_backend.Governance.Invariant.{Call, Call-IsTallied, Call-AreOnce, Call-IsSupported}

pub data Past (now : Governance) : Governance → Type 0 where
  start : Past now now
  call : {before later : Governance} → Call before later → Past now later → Past now before

-- Tallies, single votes and support, for every proposal.
pub record IsSound (g : Governance) : Type 0 where
  pub tallied : Each IsTallied g
  pub once : AreOnce g
  pub supported : Each (λ _. IsSupported) g

Past-IsSound : {now before : Governance} → Past now before → IsSound before → IsSound now
Past-IsSound start s = s
Past-IsSound (call c rest) s = Past-IsSound rest record {
  tallied = Call-IsTallied c s.tallied;
  once = Call-AreOnce c s.once;
  supported = Call-IsSupported c s.supported;
}

empty-IsSound : (g : Governance) → g.proposals ≡ [] → g.votes ≡ [] → IsSound g
empty-IsSound g e f = record {
  tallied = record { each = rw e tt };
  once = record { once = rw f no_votes };
  supported = record { each = rw e tt };
}

-- Whatever calls are made, from no proposals and no votes: the votes counted for, against and
-- abstaining on every proposal are the weights of the votes on it in the table, and no user has two
-- votes on a proposal in the table.
pub Past-IsTallied :
    (before now : Governance)
    → before.proposals ≡ []
    → before.votes ≡ []
    → Past now before
    → All (IsTallied now.votes) now.proposals × Once now.votes
Past-IsTallied before now e f past =
    let s = Past-IsSound past (empty-IsSound before e f) in (s.tallied.each, s.once.once)

-- Whatever calls are made, from no proposals and no votes: on a proposal that has passed or is
-- executed there are votes, they reach the quorum of the supply recorded with it, and the votes for
-- it reach the threshold.
pub Past-HasSupport :
    (before now : Governance) (p : Proposal)
    → before.proposals ≡ []
    → before.votes ≡ []
    → Past now before
    → Memᴰ p now.proposals
    → is_decided p.status ≡ true
    → HasSupport p
Past-HasSupport before now p e f past m d =
    let s = Past-IsSound past (empty-IsSound before e f) in
    (All-of_mem IsSupported p now.proposals m s.supported.each).supported d
