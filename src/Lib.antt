-- ===== src/Lib.antt =====
-- Verification library of the PeerX backend, a NestJS service in TypeScript for trading, governance
-- and their supporting infrastructure. Paths below are from the repository's root.
--
-- Parts and how they interact.
--
-- src/orders is the trading core. `OrdersService` places, cancels and modifies orders inside database
-- transactions and calls `OrderBookService.matchTakerOrder`, which fills a taker against resting LIMIT
-- orders; `StopOrderMonitorService` sweeps dormant stop orders and hands those that trigger to the same
-- engine. All of them send the order's state to the websocket.
--   Orders/Order.antt          order.entity.ts and src/common/enums/order-type.enum.ts
--   Orders/Book.antt           services/order-book.service.ts; its children prove the query for makers
--                              (Best), the loop (Rounds), amounts and prices (Fills)
--   Orders/Service.antt        orders.service.ts; its children prove the reservation invariant
--   Orders/Stops.antt          services/stop-order-monitor.service.ts
--   Orders/Rows.antt           the table of orders under saves by primary key
--   Orders/Conservation.antt   both sides of a match
--   Orders/History.antt        sequences of requests and monitor steps
--
-- src/governance keeps proposals, votes, delegations, executions and discussions; one file of services
-- works on the same tables and asks `GovernanceService` for voting power and outcomes.
--   Governance/State.antt      entities, enums and constants
--   Governance/Power.antt      services/governance.service.ts
--   Governance/Proposals.antt  services/index.ts: creation, approval, cancellation, finalization, execution
--   Governance/Voting.antt     services/index.ts: votes, delegations, discussions
--   Governance/Rows.antt, Tally.antt, Ballot.antt, Support.antt, Invariant.antt, History.antt
--                              proofs on tallies and support in sequences of calls
--   Governance/Delegated.antt, Repeated.antt
--                              voting power after a delegation; a second approval
-- Decimal columns are numbers, as their declared types say, in units of 10^-8; days have equal length;
-- percentages are compared by multiplying out.
--
-- src/queue keeps jobs in order by partitions.
--   Messages/Ordering.antt     message-ordering.service.ts; its children prove the order of a partition
--                              (Ascending), that every call keeps it (Invariant), and the behaviour as
--                              queues (Fifo)
--   Messages/Deduplication.antt
--                              message-deduplication.service.ts; its children prove that the two tables
--                              agree (Tables), the duplicate test and the limit (Bound). The digest of a
--                              payload and the rounding of a tenth in floating point are parameters
--   Messages/Backoff.antt      exponential-backoff.service.ts with queue.config.ts: delays of retries
--
-- src/ratelimit limits requests.
--   RateLimit/Bucket.antt, Window.antt
--                              deterministic-rate-limit.service.ts, and what it lets through in a time
--
-- src/common/services/saga.service.ts runs steps and takes them back when one fails.
--   Saga.antt, Saga/Rollback.antt
--                              the sequential saga, and rollback
--
-- src/protection keeps insurance funds by tiers; liquidations draw on them.
--   Protection/State.antt      entities and enums
--   Protection/Funds.antt      services/insurance-fund.service.ts, fund-health.service.ts,
--                              insurance-fee-contribution.service.ts
--   Protection/Shortfall.antt  services/liquidation-protection.service.ts
--   Protection/Ledger.antt, Cover.antt, Covered.antt, Health.antt, Books.antt
--                              proofs on payouts, the walk over the tiers, health and the transactions
--
-- src/margin trades on margin: a position locks collateral, is charged interest, and is closed or
-- liquidated; what a liquidation loses beyond the collateral is asked of the insurance funds.
--   Margin/State.antt          entities and enums
--   Margin/Calculator.antt     services/margin-calculator.service.ts; Margin/Price.antt its liquidation
--                              price
--   Margin/Positions.antt      services/margin-position.service.ts; Margin/Settlement.antt,
--                              Closed.antt and Finality.antt what is settled, and when no more
--   Margin/Engine.antt         services/liquidation-engine.service.ts; Margin/Loss.antt who bears a loss
--   Margin/Interest.antt       services/margin-interest.service.ts; Margin/Daily.antt its daily run
--
-- src/exchange keeps liquidity pools at a constant product.
--   Exchange/State.antt        entities and enums
--   Exchange/Amm.antt          services/amm.service.ts
--   Exchange/Pools.antt        services/liquidity-pool.service.ts, its swaps in Exchange/Trades.antt;
--                              Swaps and Shares take its operations apart, Product, Supply, Balanced,
--                              History and Fees prove what quotes, histories and fees keep, with
--                              Rounding on sums of columns. Quotes are exact fractions; what a decimal
--                              column makes of a fraction and the square root are parameters
--
-- src/identity/roles gives users their roles.
--   Roles/Hierarchy.antt       constants/role-hierarchy.ts and enums/user-role.enum.ts; Roles/Inherited.antt
--                              what a role inherits
--
-- Numbers, loops and limits. Prices and amounts are natural numbers of the smallest unit, average prices
-- fractions; quotients that go into a column of amounts are rounded down to the unit, except in
-- src/exchange;  times are
-- milliseconds. Two loops have fuel. The one of `matchTakerOrder` is given one round more than the book
-- has rows, and each round fills a row or the taker. The recursion of `getInheritedRoles` is given a round
-- for each role, and the hierarchy is less deep. Transactions run one after the other; locks on rows are
-- not modelled.
--
-- Not modelled: controllers, guards and other framework glue, logging and emitted events other than those
-- of the trading core, plain queries and statistics, calls of external services, and the parts of the
-- repository that no file above names (the rest of identity, websocket, social trading and others).
pub mod Common
pub mod Orders
pub mod Governance
pub mod Messages
pub mod RateLimit
pub mod Saga
pub mod Protection
pub mod Margin
pub mod Exchange
pub mod Roles
