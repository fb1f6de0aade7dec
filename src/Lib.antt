-- ===== src/Lib.antt =====
-- The decision core of the trading automation, with the runner that drives it and the gates that stand
-- between a strategy and an order, the technical analysis that it reads, the market calendar, the risk
-- overlay, the thesis lifecycle, the market regime, the goalposts of a thesis, the ranking of
-- discovered candidates, and the limiter that the ingestion shares.
--
-- How the parts of the program hang together. The bars of a symbol become a technical state
-- (src/platform/technical.rs). A strategy definition has a lifecycle stage
-- (src/automation/readiness.rs); an operator changes it by hand, and the readiness gate promotes it.
-- A pass of the runner (src/automation/mod.rs) asks each strategy which side and weight it wants.
-- Its desired position passes the policy proof (src/automation/policy.rs), to which the trading
-- session (src/platform/market_calendar.rs), the market readiness
-- (src/automation/market_readiness.rs), the risk overlay (src/risk/mod.rs) and the
-- capital allocator (src/automation/allocator.rs) contribute their reasons; a position that passes is
-- reconciled against the digital broker (src/automation/simulator.rs). Beside this, a thesis is
-- promoted through its own lifecycle (src/thesis/substance.rs), its edits are held against the
-- conditions that it set itself (src/goalpost/mod.rs), discovered candidates are ranked
-- (src/discovery/ranking.rs), the regime of the market is scored from indicators (src/regime), and
-- the adapters that fetch data wait on one limiter for each provider (src/ingest/rate_limit.rs).
--
-- Which file models what. A function keeps its name; a record its fields.
--   Automation/Stage        the stages and `manual_stage_change`
--   Automation/Readiness    `evaluate_readiness`; Gates states its conditions, Ready and Freeze the two
--                           answers, Lifecycle the histories of a stage
--   Automation/Allocator    `evaluate_allocation`
--   Automation/Policy       `evaluate_proof_policy`, with its input types from src/automation/mod.rs
--   Automation/MarketReadiness  `evaluate_market_readiness` and `window_contains`
--   Automation/Strategy     `evaluate_strategy` and what it calls, of src/automation/mod.rs
--   Automation/Runner       `risk_and_capital_policy_state`, which joins risk and capital to the proof;
--                           Session has `session_policy_state`, Freshness
--                           `data_freshness_policy_state`, Pass `run_once`
--   Automation/Simulator    `reconcile_simulated`; Legs has the positions and `apply_leg`
--   Technical               `build_technical_state_with_benchmarks`: Series and Averages the
--                           indicators, Positions what stands in them, Daily and Indicators the
--                           labels on them, Cross and Setup the decisions, Events the crossings and
--                           analogs
--   MarketCalendar          src/platform/market_calendar.rs
--   Regime                  `classify` of src/regime/mod.rs; Expr the conditions of src/regime/expr.rs
--   Goalpost                `analyze` of src/goalpost/mod.rs; Expr the comparison of two conditions
--   Discovery/Ranking       `rank_candidate` of src/discovery/ranking.rs
--   Risk                    `derive_portfolio` and `evaluate`
--   Thesis                  `substance_report` and `promotion_allowed`, with the states and conditions
--                           of src/platform/domain.rs
--   RateLimit               `ProviderLimiter`
--   Reasons                 the lists of reasons and their `sort` and `dedup`
--   Float, Time, Base       `f64`, instants, and the helpers that all share
-- Files called Types hold the records of the module above them; files called Tests run the
-- definitions at concrete inputs.
--
-- How code is rendered. A sequence of `push` to a list of reasons is the list of what each step
-- pushes, flattened, in the order of the source. `f64` is a type with the operations that are called
-- (Float); a theorem that needs a fact of IEEE arithmetic names it as the hypothesis `IsIeee`, or
-- `IsMonotone` where it compares sums; Float/Micros has numbers that meet both; those of
-- Float/Ratios divide exactly. Durations and instants are integers of
-- nanoseconds without bounds, and dates are day numbers. The calendar of the crate `chrono`, its
-- parser of times and the parser of `f64` are parameters; the calendar meets `IsGregorian` where a
-- theorem says so, and MarketCalendar/Tests has one that does. A panic is an answer of its own. A
-- loop over a list is recursion on the list, so no fuel is needed. The search for the
-- latest session goes back day by day and takes fuel; 213 is enough, since a session lies at most 212
-- days back, and without fuel the answer is `out_of_fuel`. A call of the
-- limiter, which awaits a mutex, is one event for each acquisition of the lock; every interleaving of
-- callers is a list of events. A pass of the runner takes the answers of the store as a record for
-- each candidate.
--
-- Not modelled: the JSON snapshots that decisions carry (they repeat their inputs), the texts that
-- summarise a technical state, the SQL of the store and its errors, the HTTP adapters and routes, the
-- message bus, the language models, and the parts of the program that run on their own schedule
-- (the rest of discovery, consensus, reflection, attention, price alerts, and the gate of live
-- execution).
pub mod Automation
pub mod Base
pub mod Discovery
pub mod Float
pub mod Goalpost
pub mod MarketCalendar
pub mod RateLimit
pub mod Reasons
pub mod Regime
pub mod Risk
pub mod Technical
pub mod Thesis
pub mod Time
