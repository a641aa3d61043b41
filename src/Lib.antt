-- ===== src/Lib.antt =====
-- The off-chain services of the Sidiora perpetual protocol: the keeper, which executes triggered
-- orders, liquidates positions and syncs the vAMM pools; the indexer, which turns the events of the
-- Diamond contract into tables that the keeper reads; the perps engine, which fetches prices and sends
-- the keeper's work of a cycle as one transaction; and the oracle, which only submits the prices. Beside
-- them, the scripts that cut facets into the Diamond and set up its markets and pools.
--
-- How the parts interact. The keeper's listener polls for PricesUpdated events and starts a cycle,
-- which writes the prices into the state cache and runs the vAMM syncer, the order scanner and the
-- liquidation scanner, in this order, each of which submits its transactions through the executor.
-- The cache is refreshed from the indexer, or from the chain's events where the indexer fails.
-- The indexer's loop scans ranges of blocks; each log is decoded, routed to a handler and stored by
-- statements of its models; the resolvers answer the keeper's queries from the tables. The engine's
-- scanners return what they find, and the cycle builder puts it beside the prices into one call. The
-- engine and the oracle fetch from the same two sources and submit over the same retry loop; after a
-- submission the engine checks its health and refreshes its own cache.
--
-- Which file models which part:
--   Protocol          the values read from the contract: the read helpers of .keeper/src/executor.js
--   Chain             the contract's checks that the services repeat: OrderBookFacet.sol
--                     (_validateTriggerCondition, executeOrder), KeeperMulticallFacet.sol
--                     (_checkTrigger); Chain/Margin is LibPosition.sol
--                     with the signed arithmetic of LibMath.sol
--   Margin            _calculateMarginBps of .keeper/src/liquidation-scanner.js and, with the pending
--                     funding, of .perps-engine/src/scanners/liquidation-scanner.js
--   Keeper/Cache      the maps of .keeper/src/state-cache.js; Keeper/Refresh its refreshes
--   Keeper/Orders     .keeper/src/order-scanner.js
--   Keeper/Liquidations  .keeper/src/liquidation-scanner.js
--   Keeper/Executor   .keeper/src/executor.js: _submitTx, _getNextNonce, _isNonRetryable and the rest
--   Keeper/Vamm       .keeper/src/vamm-syncer.js
--   Keeper/Events     the polls of .keeper/src/event-listener.js, which may overlap
--   Keeper/Cycle      executionCycle and the fallback poll of .keeper/index.js; Keeper/Upkeep its
--                     first load and its periodic refresh
--   Indexer/Rows      the tables of .indexer/src/db/migrate.js
--   Indexer/Models    the statements of .indexer/src/db/models.js
--   Indexer/Accounts  the statements and handlers of the second migration's tables
--   Indexer/Handlers, Indexer/Dispatch  _handleEvent and the handlers of .indexer/src/scanner.js;
--                     Indexer/Effects reads off what each event does to a table
--   Indexer/Scanner   scanBlocks of .indexer/src/scanner.js
--   Indexer/Sync      the loops of .indexer/index.js
--   Indexer/Resolvers the positions and orders queries of .indexer/src/graphql/resolvers.js;
--                     Indexer/Queries its other queries, with the statistics
--   Engine/Orders, Engine/Liquidations  the scanners of .perps-engine/src/scanners, on the maps of
--                     Engine/Cache (.perps-engine/src/state-cache.js)
--   Engine/Refresh    the refreshes of .perps-engine/src/state-cache.js
--   Engine/Prices, Engine/Deviation  .perps-engine/src/price-sources/pyth-fetcher.js
--   Engine/Orderly    .perps-engine/src/price-sources/orderly-fetcher.js; Engine/Sources asks both
--   Engine/Cycle      the scans and the submission of .perps-engine/index.js, with
--                     .perps-engine/src/cycle-builder.js; Engine/Main is its whole cycle in one
--                     piece, Engine/Overlap cycles beside one another, Engine/Startup the start
--   Engine/Submitter  the methods and statistics of .perps-engine/src/submitter.js, over the retry
--                     loop of Retry, which .oracle/src/submitter.js shares
--   Engine/Health     .perps-engine/src/health-monitor.js
--   Oracle            .oracle/src/submitter.js and a cycle of .oracle/index.js
--   Upgrade           scripts/upgrade/upgrade-facet.js over diamondCut of LibDiamond.sol;
--                     Upgrade/Robustness is the cut of scripts/upgrade/upgrade-v2-robustness.js
--   Deploy            scripts/deploy/09-add-market.js (Deploy/Markets) and
--                     .keeper/scripts/init-pools.js (Deploy/Pools) over the facets that they call
--                     (Deploy/Facets) and a network that may lose what they send (Deploy/Sending);
--                     Deploy/Steps is the cuts of scripts/helpers/diamond-helpers.js in the steps 02
--                     to 04 and in deploy-all.js of scripts/deploy
--   Flow              a row of the indexer as the keeper holds it
--   Base              shared helpers: lists, dictionaries for Map and for tables, integers for BigInt,
--                     sorting, strings as code points, ranges of blocks
--   Tests             small inputs
--
-- How they correspond. An object's fields are a record and each method is a function from the old
-- state to the new one with its result. A Map is a list of entries in insertion order. Unsigned
-- BigInts, addresses, hashes and times are natural numbers, signed BigInts are integers, and
-- BigInt.asIntN and asUintN keep their wrap-around. A call of the RPC endpoint, of the executor or
-- of the indexer is a parameter, with none or a thrown error for its failure; the executor's endpoint
-- acts on a state of the world. Log lines, timers and waiting times are left out.
--
-- Bounds and fuel. The retry loops count down from maxRetries of the configuration files, three, and
-- each attempt uses one. JavaScript's text of a number is an input of Engine/Orderly. The loops of
-- the indexer consume one answer of the node per turn, so their fuel is the list of answers; an
-- interruption is its end. Overlapping cycles run over a list of events, each a step of one cycle.
--
-- What is not modelled: the time limit of a cycle of the oracle, and the shutdown of the services,
-- which only print a summary; failures of the database connection; the contracts apart from the
-- checks and the functions above, the SDK, the scripts apart from those above, the GraphQL schema and
-- server, and the loggers, which are not logic of these services. In Engine/Overlap a step is what a
-- cycle does between two awaits of its main loop or of its submission: a refresh is one step. In
-- Keeper/Events a step is what a poll does between two awaits. In all other modules overlapping
-- asynchronous calls are run one after the other.
pub mod Base
pub mod Protocol
pub mod Chain
pub mod Margin
pub mod Keeper
pub mod Indexer
pub mod Engine
pub mod Flow
pub mod Retry
pub mod Oracle
pub mod Upgrade
pub mod Deploy
pub mod Tests
