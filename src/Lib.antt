-- ===== src/Lib.antt =====
-- td_sandboxed: the decision core of the trading engine of a proprietary-trading platform.
--
-- The engine (services/trading-engine/src, Python) turns signals of strategies into orders. Before an
-- order goes to the MT5 bridge it passes the compliance rules of its account and a reservation gate
-- on open and pending lots. What the files model, paths from the repository's root:
--
--   Base        lists, dicts with text keys, sorting, signed integers, and `Number`, the type of the
--               Python numbers with the laws of IEEE-754 comparison as named hypotheses.
--   Rules       services/trading-engine/src/rules: Model is base_rule.py; DailyLoss and MaxDrawdown
--               are types/drawdown.py, PositionSize types/position.py, Consistency
--               types/consistency.py, Targets types/targets.py. Ladder is the search of the warning
--               levels that they share, Grading what a threshold rule promises. Engine is engine.py
--               with engine_result.py, Overrides is override_merger.py.
--   Execution   services/trading-engine/src/execution: Reservation is exposure_reservation.py with
--               its two Lua scripts, Gate is validated_adapter.py (send_order_and_wait,
--               _try_reserve, _release_reservation), Gate/Tasks the interleavings of many calls,
--               Validator order_validator.py with the context of rules/context_builder.py.
--   Regime      services/trading-engine/src/regime: Model is states.py, features.py and the
--               thresholds of config/firm_profile.py, Classifier classifier.py, Hysteresis
--               hysteresis.py and decision.py.
--   Orders      services/trading-engine/src/orders: Lifecycle is order.py, Positions is
--               position_tracker.py, Trade trade.py, Service execution_service.py with signal.py.
--   Strategies  services/trading-engine/src/strategies: ScaleOut is bracket_scale_out.py,
--               PositionSizer position_sizer.py, RiskBasedSizer risk_based_position_sizer.py.
--   Accounts    services/trading-engine/src/accounts: RiskState is risk_state.py with the checks of
--               risk_manager.py, Registry risk_registry.py, Isolation risk_isolation.py, Manager
--               state.py with account_manager.py, PnlTracker pnl_tracker.py, PnlRegistry
--               pnl_registry.py, SignalRouter signal_router.py, PhasePromotion
--               phase_promotion.py with `resolve` of config/firm_registry.py.
--   Backtesting services/trading-engine/src/backtesting: WalkForward is the generation of folds of
--               walk_forward.py.
--   State       services/trading-engine/src/state: Discrepancy, Matching and PositionReconciler are
--               position_reconciler.py.
--   Samples     a concrete type of numbers, and each theorem at a concrete input.
--
-- An operation of a class is a function on a record of the object's fields and returns the fields
-- after it. A Python exception is `raised` of Outcome, a merge error, or none of Option. The rules
-- read the account through a context, which the validator builds; the engine asks the rules in order
-- of priority; the validator maps its answer, and the adapter asks the validator, then reserves the
-- lots, sends, and releases. The execution service turns a signal into an order, sends it through
-- the adapter, and keeps positions and trades; the P&L tracker reports to the risk state, and the
-- isolation service pauses an account whose limit is reached. A loop over a list is recursion on that
-- list. The `while` loop of WalkForwardFolds.generate has fuel: two more than the end of the range,
-- which is enough since each round moves by a positive step.
--
-- Bounds and simplifications. Lots in Execution are natural numbers of hundredths, up to 10^12 of
-- them, where the code has floats, decimals and doubles of Lua; where a sum of doubles meets the cap
-- exactly, a parameter of the scripts says whether it rounds above it. The counter is that of one
-- account, whose key no other account shares. It expires as seconds pass between the steps of its
-- calls; within one call alone no time passes. What the broker, the audit, the
-- P&L registry and the connection to Redis answer is an argument; in Accounts Redis answers every
-- call. A call of execute_signal takes what other calls do while it waits as a function. Texts of
-- messages are kept as the numbers that they interpolate; logging and timing are left out. Not
-- modelled: the services in Go and Rust, sockets, databases, the command line, the runs of
-- back-testing, the other strategies and the indicators, which mostly call frameworks outside the
-- repository, and the rest of the state package.
pub mod Base
pub mod Rules
pub mod Execution
pub mod Regime
pub mod Orders
pub mod Strategies
pub mod Samples
pub mod Accounts
pub mod Backtesting
pub mod State
