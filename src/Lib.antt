-- ===== src/Lib.antt =====
-- The parts of the usage statistics plugin that decide what is counted, charged and stored.
--
-- The program is a plugin written in Go (directory go). It records each request that passes through
-- its host, keeps aggregates and an append-only journal of them, prices requests with a table of
-- rules, and follows the quota windows that upstream providers report for a credential.
--
--   Common     what the parts share: tests and list functions over the native numbers, strings as code
--              points, int64 values, weekday masks, and instants of Go's time package.
--   Pricing    go/stats.go and go/types.go, the model price rules: validateModelPriceRules
--              (validate_model_price_rules), parsePricingMinute, modelPriceRuleDayMask (day_mask),
--              normalizedRuleDays, ruleMatchesInstant and effectivePrice. A rule list is validated
--              before it is stored and looked up for each request.
--   Quota      go/quota_cycles.go, go/quota_types.go, go/quota_pricing.go and go/quota_storage.go, the
--              window of one credential: detection of early resets (latest_reset, effective_period),
--              compaction of samples, the archive of the segment that a reset ended, and
--              applyQuotaObservationLocked for the window of the observation's key
--              (apply_observation); the state around the windows: facts and tombstones
--              (addQuotaFactLocked, removeQuotaFactLocked), advanceQuotaCyclesLocked, pruneQuotaLocked,
--              the merge of two histories (mergeQuotaWindowHistory) and repairQuotaPeriods.
--   Storage    go/storage_schedule.go and go/stats.go, the worker of the journal: what is due
--              (flush_due, sync_due, snapshot_due), the timer's deadline (next_deadline), and flush,
--              sync, writeSnapshot, closeFile, open (open_shard), appendBatch and a round of the
--              worker's loop (tick) with the outcomes of the file system as parameters.
--   Accounting go/accounting_blocks.go and go/range_cache.go, the retained accounting records of one
--              model: accountingBlocks with at, mutableAt, writableBlock, freeze, append, records,
--              truncate and remove (Blocks), against a plain list with copies of it (Refinement,
--              Simulation), and the range blocks that a write makes invalid (Stale, Retire,
--              Coherence) and that a query prepares anew (Events, Identity, Fresh). The
--              memory of the arrays is part of the state, so that slices share arrays as in Go. The
--              cache of range summaries (RangeCache, Budget), the bounds of a block and its merge into
--              a query's summary (RangeSummary, MergeBlock), with the summary itself as a parameter.
--   Fallback   go/response_intercept.go, usageFallbackCoordinator: Schedule, HandleNative, Supersede,
--              commit and Flush (Operations, Handlers) with the indexes of pending fallbacks and of
--              recent occurrences (Select, Cleanup). Pointers are places in the state's memory, so that
--              an index, a timer and a handler see one flag `cancelled`. Run puts the calls in any
--              order; a timer's commit may come at any time. Delivery and Best have the results.
--   Correlation
--              go/protocol_fallback.go, whether two records are of one request:
--              buildProtocolTokenShapes (Shapes), protocolTokenEvidenceCompatible,
--              protocolCorrelationEvidence and protocolCorrelationEdge (Evidence), and their laws.
--   Counters   go/stats.go and go/protocol_fallback.go, saturating counters: saturatingProtocolAdd,
--              subtractNonNegativeInt64, the increments and decrements of the counters of a model's
--              providers and of a time series, and finalizedModelProviderStats.
--
-- State is passed explicitly: an operation takes the state before and returns the state after, and
-- a function that reports failure returns an Option, a Result or a pair with a Boolean. Prices and
-- usage ratios are float64 in the program; here they are a type with the operations that the code
-- applies to them as a parameter. An instant is a number of nanoseconds from an origin long before
-- Go's zero time. A map is the list of its entries in the order in which the code ranges over it.
-- Conversion to lower case, over all of Unicode, and comparison without case are parameters, and so
-- is the hash that names a request without an id. That cached responses are dropped is not in the
-- state: the code drops them where the version counter of the quota state moves.
--
-- The recursion of quotaEffectivePeriod runs on fuel, one more than the number of samples: each
-- round leaves at least one sample out (effective_loop-enough in Quota/Effective). All other loops
-- are structural.
--
-- Not modelled: the cost estimates and the import of quota snapshots, the queue between the plugin
-- and the storage worker, the accumulators of the range queries, the SQLite ledger, the
-- observations and the minimum-cost matching of fallback and native records, the parsing of
-- responses, HTTP handlers and exports. Most of these are calls of the operating system, of a
-- database or of libraries around the parts above.
pub mod Common
pub mod Accounting
pub mod Correlation
pub mod Counters
pub mod Fallback
pub mod Pricing
pub mod Quota
pub mod Storage
