-- ===== src/Lib.antt =====
-- A model, with proofs, of the core logic of the TypeScript SDK of Stellar agent payment rails
-- (packages/core/src) and of its indexer (packages/indexer/src): how a payment's route is chosen, how
-- many submissions run at once and in what order, how the fleet of channel accounts that sign them
-- is shared, and how the events that the contracts emit become a ledger, statements and reports.
--
-- How the parts interact. An agent plans a payment by asking providers for route quotes and lets
-- the route selector (packages/core/src/math/routing.ts) rank those within its policy. It puts
-- the submission of the payment into the submission queue (packages/core/src/fleet/
-- submissionQueue.ts), which bounds the submissions under way, keeps those of one ordering key one
-- after the other, and retries. A submission leases an account of the channel account pool
-- (packages/core/src/fleet/channelPool.ts) for the time in which it uses that account's sequence
-- number. These parts do not share state: each is modelled on its own, with the calls of its clients
-- as events. In the indexer the event store rebuilds the ledger at each change of its events,
-- statements are built of its entries, exported, and delivered to subscribers on schedules.
--
-- Which file models which part.
--
-- Routing.antt: packages/core/src/math/routing.ts, with the data types of
-- packages/core/src/routing/types.ts. RouteQuote, RouteHop, RoutingPolicy and ScoredRoute are the
-- interfaces of those names; validate_policy, validate_route, is_route_eligible, score_route,
-- compare_scored_routes, binary_compare, rank_routes and select_route are the functions
-- validatePolicy, validateRoute, isRouteEligible, scoreRoute, compareScoredRoutes, binaryCompare,
-- rankRoutes and selectRoute. A thrown error is the `err` of a result. Routing/Lexicographic and
-- Routing/Order are about the comparator, Routing/Ranking and Routing/Selection about the list
-- that it sorts, Routing/Validation about the guards, Routing/Scores about the weights.
--
-- Planner.antt: packages/core/src/routing/planner.ts, the client of the route selector. quote,
-- quote_override, assert_fresh, finish_quote, positive_integer, basis_points and create are quote,
-- quoteOverride, assertFresh, finishQuote, positiveInteger, basisPoints and the constructor of
-- RoutePlanner; the routes that discoverRoutes finds are an argument. Planner/Quotes is about what
-- a quote promises.
--
-- Discovery.antt: packages/core/src/routing/discovery.ts. normalize_route, validate_hop,
-- parse_positive_integer, parse_non_negative_integer and assert_bps are normalizeRoute,
-- validateHop, parsePositiveInteger, parseNonNegativeInteger and assertBps; walk is the loop over
-- the hops. It makes the quotes that the planner ranks. Discovery/Chains is about the routes that it
-- lets pass.
--
-- SubmissionQueue.antt: packages/core/src/fleet/submissionQueue.ts. The record Queue holds the
-- private fields of the class, the runs under way, and two lists that record what was done to the
-- callers: which promises were settled and how, and which calls of `drain` were let go. submit,
-- drain, close and schedule are the methods of those names; on_abort, on_attempt, on_wake and
-- on_finally are the code of `submit`, `#run` and `#schedule` behind its awaits; step runs what an
-- event names. Schedule, Runs, Submission, Attempts and Events prove the invariant of
-- SubmissionQueue/Invariant for each, Settlements counts promises, History states what holds after
-- any history.
--
-- ChannelPool.antt: packages/core/src/fleet/channelPool.ts. The record Pool holds the private
-- fields of the class and what its closures remember: the leases out, the calls of `resize` under
-- way and the accounts on their way back. create, lease, release, resize and close are the methods,
-- dispatch, make_lease and available_entry the private ones; give_up, on_created,
-- on_create_failed, on_surplus, on_returned and on_resize are the code behind timers, aborts and
-- awaits. Entries and Leases are about its lists, Dispatch, Calls, Releases, Creations and Sizes
-- show that each operation keeps its invariant, Invariant and Closing are about histories, Picks is
-- about the choice of an account.
--
-- Prediction.antt: packages/core/src/math/predict.ts, with `bn` and `add` of
-- packages/core/src/math/fixed-point.ts and `isWithinSpendLimit` of packages/core/src/math/bid.ts.
-- predict_payment_outcome, sum_live_buckets, sum_live_tx_buckets, is_window_expired and
-- ledgers_remaining_in_window are the functions of those names. It predicts, of a payment that the
-- agent is about to make, which limits the contracts would enforce against it. `bignumber.js` is a
-- parameter, a record of the operations that the code calls; Prediction/Amounts states what it
-- documents of integers. Windows is about the live buckets, Limits and Channel about the checks,
-- Outcome about the whole, which is compared with the limits in integers. A rate limit's
-- `active` is not read, as in the code; Outcome is about agents that are live.
--
-- FeeStrategy.antt: packages/core/src/fleet/feeStrategy.ts. positive_fee, multiply_ceil,
-- clamp_to_context and create are positiveFee, multiplyCeil, clampToContext and the constructor of
-- RecentFeeStrategy; fixed_get_fee, multiplier_get_fee, callback_get_fee and get_fee are `getFee`
-- of the four strategies, at what their base, callback or statistics answered. A submission asks a
-- strategy for the fee that it bids. Bounds is about the fees, Cache about the loads of the
-- statistics.
--
-- Retry.antt: packages/core/src/retry.ts, the policy that the agent applies to its RPC reads.
-- retry_async and compute_retry_delay_ms are retryAsync and computeRetryDelayMs. The loop recurs on
-- the attempts that are left. Retry/Loop is about how it ends.
--
-- Ledger.antt and its modules are the ledger of the indexer, packages/indexer/src/ledger.ts: the state
-- snapshots among the events (Ledger.Snapshots), the entries with their postings and the check that
-- they balance (Ledger.Entries), the branches for channels and escrows (Ledger.Channels,
-- Ledger.Escrows), normalizeLedger (Ledger.Normalize) and reconcileLedger (Ledger.Reconcile). A runtime
-- is what the language gives: BigInt of a text, toString and localeCompare. An amount that the source
-- keeps as the decimal text of a bigint is that integer. Statement.antt builds the statements of
-- packages/indexer/src/reporting.ts from the entries of the ledger, and Export.antt writes a statement
-- as the streams of packages/indexer/src/export.ts.
--
-- EventStore.antt is `InMemoryEventStore` of packages/indexer/src/store.ts: its maps as lists of
-- pairs in the order of insertion, replaceRange, recordTransactionFees and rebuildLedger;
-- EventStore.Queries and EventStore.Events have the operations that read it. Keys, Ranges,
-- Refresh and Fees are about the operations that write, Batches about iterateLedgerEntries,
-- Reports about the reconciliations and statements that go through it.
--
-- Delivery.antt is packages/indexer/src/delivery.ts: its data and checks; Delivery.Tables has the
-- schedules and artifacts of ReportDeliveryStore, Delivery.Claims the life of a delivery,
-- Delivery.Service the periods and ScheduledReportService. A table is the list of its rows, an
-- update a function on the rows that its WHERE names. What a transport or the builder of
-- artifacts does is an argument, a function of the tables too, since other workers change them
-- during an await. States and Rows state what holds of a delivery and of all of them; Operations
-- has the calls as operations and Calls what a property needs to outlast them, Invariant, History
-- and Final are about histories of calls, Bounds about the loops. catch_up recurs on
-- maxCatchUpRuns and deliver_loop on the limit of deliverDue, as the loops do.
--
-- Base.antt passes on what the parts share: Boolean tests and lists over the native numbers,
-- results, a stable sort by insertion for `Array.prototype.sort`, signed integers, and the
-- numbers and amounts of JavaScript.
--
-- Conventions, bounds and fuel. A JavaScript number that should be an integer is `whole` of a
-- signed integer or `nan`, which stands for everything that is no integer. Where the code compares
-- numbers without a check that they are integers, the expiry of a route and the attempts of a
-- destination, a number is a `Real`: an integer, with or without a fraction, an infinity or NaN.
-- Amounts are strings of
-- bytes; those that the validation lets pass are canonical decimals, and a bigint is a natural
-- number. Addresses, promises and ordering keys are natural numbers, which are only compared; the
-- ordering key `none` is a missing or an empty key. The stretches of code between two awaits are
-- atomic, as in JavaScript, so that histories are lists of events. The loop of `#schedule` runs on
-- fuel, the number of items that wait: each round takes one, so that the fuel is enough, and the
-- proof that the schedule leaves no item that could start is about the function with this fuel.
-- The loop of iterateLedgerEntries runs on fuel, one more than the entries that are cached, and
-- EventStore.Batches shows that it ends with the last batch. The loop of `#dispatch` recurs on its
-- waiters. All else is structural recursion. In the indexer a text, an address included, is the list
-- of its codes.
--
-- Not modelled: metrics, traces and clocks (a time is an argument); the default classification of
-- errors by regular expressions, whose result is an argument of an attempt's end; tasks that call
-- the queue again while it starts them; account factories that throw before they return a promise
-- or that return an address twice; the statistics getters; the route providers and their fan-out;
-- and of the indexer the SQL of its event store, its decoder and its polling. The prediction reads
-- ledger numbers and counts as natural numbers. The reports' webhook and email requests, RPC
-- calls, views, command lines, generated code and the Rust contracts are outside the model.
pub mod EventStore
pub mod Export
pub mod Statement
pub mod Ledger
pub mod Base
pub mod Discovery
pub mod FeeStrategy
pub mod Planner
pub mod Prediction
pub mod Retry
pub mod Routing
pub mod SubmissionQueue
pub mod ChannelPool
pub mod Delivery
