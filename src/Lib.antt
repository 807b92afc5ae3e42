-- ===== src/Lib.antt =====
-- tidal-crypto-intelligence: the request scheduler, the paper-trading experiment, the watch on the
-- VIX index, the radar of large positions and the watch on the cost of coins.
--
-- The server collects market data from one upstream under a strict request budget, runs a
-- paper-trading experiment on a stream of quotes, watches the VIX index, follows large positions on a
-- public exchange, watches the cost of coins on chain and tracks large orders. These parts of
-- internal/datahub are modelled, and the price episodes that its studies use.
--
-- Scheduler (scheduler.go, order_scheduler.go): one goroutine calls `Step` on every tick, which
-- starts at most one request; each request runs in its own goroutine and writes its answer back
-- under the scheduler's lock (`run`, `runOrderHistory`).
--   * Scheduler/Ranges: `OrderRange` and `mergeRanges`.
--   * Scheduler/Quota: `Quota`, the rolling ledger of request starts (`prune`, `available`), and
--     what an upstream refusal writes to it.
--   * Scheduler/Job: `Job`, `Dataset`, and the map of jobs as an association list.
--   * Scheduler/Dispatch: `priority`, `selectJobLocked`, `Step`.
--   * Scheduler/Completion: the error branch of `run`.
--   * Scheduler/Success: the success branch of `run`, with `bookFlowNext` (book_flow_profile.go) and
--     `nextETF` (signals.go).
--   * Scheduler/OrderHistory: `runOrderHistory`, whole.
--   * Scheduler/Trace: ticks and answers in any order, as a step relation. Only the ticks' instants are
--     in order: an answer may carry instants that were read before a tick that it follows.
--
-- Paper (paper_types.go, paper_engine.go, paper_store.go, paper_funding.go, paper_recovery.go): one
-- goroutine feeds quotes, publications of signals and heartbeats to `paperStore`, whose state and
-- ledger rows are saved in one transaction.
--   * Paper/Decimal: the decimal library as a parameter, with the laws that the proofs use.
--   * Paper/Types, Paper/Store: the records, the tests on them, the store and `commit`.
--   * Paper/Trading: prices, triggers, extrema and fills of one trade.
--   * Paper/Admission, Paper/Gap, Paper/Intakes, Paper/Quotes, Paper/Heartbeat: `admission`,
--     `discontinuity`, `consume`, `onQuote` and `heartbeat`, whole.
--   * Paper/Funding: `paperFundingKnown` and `paperFundingQuantity`.
--   * Paper/Settlement: `settle`, on the tables that it reads or writes.
--   * Paper/Audit: how `reconcile` reads the fills and the charges of a trade and compares the trade
--     with them. Its query sorts the fills by time; as the quotes' times do not go back, that is the
--     order in which they were written.
--
-- Vix (vix_store.go, vix_source.go): the watch on the VIX index, which gives an alert for each band
-- once in a cycle and mails it.
--   * Vix: points, feeds, the bands and the quality of a feed; New York time is a parameter.
--   * Vix/Cycle: `evaluateVIX`, the alert cycle with its events and notices.
--   * Vix/Store: `ingestVIX`, `SetVIXSettings` and `vixFailure`, one transaction each.
--   * Vix/Alerts: the theorems, and Vix/Alerts/Runs over any sequence of these operations.
--
-- Radar (radar_types.go, radar_engine.go, radar_store.go, radar_study.go): the fills of a wallet
-- become episodes of a position; an episode that the account confirms gives alerts and a sample.
--   * Radar: the records, `radarNumber` and `radarMoney`; what the decimal library reads and rounds
--     is a parameter (`Reading`).
--   * Radar/Transition: `radarTransition`; Radar/Fills: the loop over the fills in `radarApply`.
--   * Radar/Evidence: the loop over the episodes, `radarQueueNotice` and `radarFreezeTrial`.
--   * Radar/Apply: `radarAge` and the whole transaction `radarApply`. The digest that names an
--     episode is an argument.
--   * Radar/Transition/Exposure, Radar/Replay, Radar/Alerts: the theorems.
--
-- Cost (onchain.go, onchain_engine.go, onchain_events.go): the watch on the cost of coins on chain.
--   * Cost: the records; the decimals, the reading of texts (`dec`) and the digests that name cycles,
--     cases and events are parameters.
--   * Cost/Advance: `costAdvanceCase`; Cost/Cases: `costNewCases` and `costPriceChannel`.
--   * Cost/Structure: `costCompressed` and `costAdvanceV2`.
--   * Cost/Boundary, Cost/Confirmation, Cost/Distinct: the theorems.
--
-- Orders (orders.go): `ingestOrders`, which tracks large orders by their identity; the digest of an
-- order and the size of the store are parameters. Orders/Forward: the theorems.
--
-- Study (signal_events.go, signals.go): price episodes and signals.
--   * Study: `matchEpisodes`, which assigns signals to price episodes, one to one.
--   * Study/Prices: `priceEpisodes`, `priceCross` and `candleBounds`, over a parameter for floats. The
--     loop has one round of fuel for each five minutes, and one more, which is enough.
--   * Study/Account, Study/Prices/Spacing: the theorems.
--
-- Signals (signals.go, rolling_baseline.go, multifactor.go, multifactor_context.go,
-- multifactor_engine.go, signal_features.go, hourly_atr.go, progress_repair.go): signals of unusual
-- flow, which paper trading follows.
--   * Signals, Signals/Accumulator: rows of flow, `flowAccumulator`, `sumBars`.
--   * Signals/Baseline, Signals/Baseline/Rolling: `baselineFromBars`, and `rollingBaseline`, which
--     moves the window by a bar at a time.
--   * Signals/Conditions: `signalCondition`, `hourlyATR`, `candidateFeatures`, `candidateLevel`.
--   * Signals/Snapshot, Signals/Snapshot/Explain: `flowWindow`, `coreAssessment`,
--     `buildFlowSnapshot`, `explain`, `fundingWarning`.
--   * Signals/Lifecycle: `confirms`, `reverseBars`, `priceProgress`.
--   * Signals/Track: `openSignals`, the loop of `processSignals` over them, `updatePriceProgress`.
--   * Signals/Rearm: the loops over the sides in `processSignals` and `processMultifactor`.
--   * Signals/Commit: `commitSignals`, which makes the publications that Paper/Intakes takes in.
--   * The modules below these: the theorems. A Go map by time is a function, a binary search a walk
--     from the first, and `int64` is without a bound: sums of cents stay far below 2^63.
--
-- Conventions. Times are nanoseconds since Go's zero time, durations nanoseconds, both natural
-- numbers (Base/Time). Go's maps are association lists in the order in which the source ranges over
-- them. What comes from outside (the clock, the upstream's answers, whether the database takes a
-- transaction) is an argument. Loops are structural, but for two. The one that moves a live job's
-- due time on (`catch_up`) has the nanoseconds to make up for, and one more, as its fuel, of which
-- each move makes up one at least. The one over the instants of `priceEpisodes` has a round for each
-- five minutes, and one more.
--
-- Not modelled: the minute contract and the filtering of samples in `run`, `Request`, the start from
-- disk, the radar's source, groups and study, the daily transaction of the cost watch, the trimming and the gap marks of the order history, the fields
-- that only feed status pages, and the rest of the server: SQL, HTTP, mail, the candidates and
-- the shadow records of the signals, the other studies and the user interface.
mod Base
pub mod Scheduler
pub mod Paper
pub mod Vix
pub mod Radar
pub mod Cost
pub mod Study
pub mod Orders
pub mod Signals
