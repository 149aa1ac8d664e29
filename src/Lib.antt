-- ===== src/Lib.antt =====
-- PolyCortex is an agent that trades on prediction markets: it scans markets, estimates
-- probabilities, sizes positions, places orders, and keeps a database of its trades. This
-- library models the parts that decide about money and orders, file by file:
--
-- - Base: numbers, lists, options, results, texts and integers, with the lemmas shared here.
-- - Float: Python's float as an interface of operations, with the laws used as records
--   (an order, the monotonicity of the rounded operations, and the sizes of literals); NaN and overflow are left out.
--   Float.Milli is an arithmetic in thousandths that meets the laws and in which examples run.
-- - Execution.StateMachine: src/polymarket_agent/execution/state_machine.py with the table of
--   types.py. `transition`, `can_transition` and `force_state` act on the record of a machine;
--   Persist holds `to_dict` and `from_dict`; Trail and Progress hold the audit trail.
-- - Execution.TrailingStop: src/polymarket_agent/execution/trailing_stop.py. `feed` gives a
--   stop a list of prices.
-- - Execution.Batch: src/polymarket_agent/execution/batch.py. The client of the exchange is a
--   parameter. The loop of `flush` runs on fuel, one round for each pending order, which is
--   enough where a batch holds at least one order.
-- - Execution.Twap: src/polymarket_agent/execution/twap.py.
-- - Execution.Paper: src/polymarket_agent/execution/paper_engine.py. The draws of `random`
--   are arguments.
-- - Execution.Arbitrage: src/polymarket_agent/execution/arbitrage.py.
-- - Execution.Slippage: src/polymarket_agent/execution/slippage.py, the walk of the book.
-- - Execution.Executor: src/polymarket_agent/execution/executor.py. Orders holds an order and
--   the store of orders, Guard the state and the checks of `place_order`, Brackets the arming
--   of the children, Place the placement and `close_position`, Cancel the cancellations,
--   Status the answers of the exchange, Children and Reconcile the reconciliations.
--   `uuid4().hex[:12]` is a function of the number of draws, and a theorem that needs its
--   values to differ says so; the answers of the exchange, the database and the chain are
--   arguments. Moves is what an operation may do to the store; Sound, Siblings, Trigger and
--   Traces follow the moves, and Refine takes the operations to them.
-- - Infra.CircuitBreaker: src/polymarket_agent/infra/circuit_breaker.py.
-- - Infra.Retry: src/polymarket_agent/infra/retry.py. Breaker is its own circuit breaker, Loop
--   the wrapper of `with_retry`, whose rounds are counted by `max_retries`; the wrapped function
--   is a schedule of attempts with what each of them does.
-- - Infra.RateLimiter and Infra.Backpressure: src/polymarket_agent/infra/rate_limiter.py and
--   src/polymarket_agent/infra/backpressure.py.
-- - Risk.Drawdown: src/polymarket_agent/risk/drawdown.py, the controller and the daily tracker.
-- - Risk.KillSwitch: src/polymarket_agent/risk/kill_switch.py. The file is its text, and what the
--   file system answers is an argument.
-- - Risk.Sizer: src/polymarket_agent/risk/sizer.py. Odds holds its divisions, Caps its limits.
-- - Risk.Alerts: src/polymarket_agent/risk/alerts.py, with the clock as an argument of a check.
-- - Tracking.Trades: the table of trades of src/polymarket_agent/tracking/tracker.py. Trades holds a
--   row, reading the open positions and `close_position`; Orders the insertion of a row, the
--   syncs with an order, the fees, the running profit and `close_trade_for_order`, and History
--   any sequence of these calls. A dictionary that Python hands over is a record, with an option
--   for a key that may be missing.
-- - Tracking.Metrics: `get_metrics`, `record_snapshot` and `get_fee_summary` of the same file.
--   Tally is the filling of a dictionary row by row, Streaks the loop over wins and losses;
--   `datetime.fromisoformat` and `json.loads` are arguments.
-- - Tracking.Reconciler: the four checks of src/polymarket_agent/tracking/reconciler.py.
-- - Intelligence.Anomaly: src/polymarket_agent/intelligence/anomaly.py. The power 0.5 is an argument.
-- - Infra.PidLock: src/polymarket_agent/infra/pid_lock.py, as a step relation between states of
--   the file system and of any number of processes, one call of the system at a time.
-- - Agent.Cycle: `run_cycle` of src/polymarket_agent/main.py from the sorted opportunities on, which composes
--   the drawdown, the sizer, the executor, the kill switch and the tracker; Agent.Payload is what
--   it passes between them. The answers of a cycle's surroundings are arguments.
-- - Events.Bus: src/polymarket_agent/events/bus.py. A dispatch gives what it delivers.
-- - Reporting.Tax: src/polymarket_agent/reporting/tax.py, Form 8949 from the rows of the table.
--
-- An object that the code changes in place is a record that an operation returns anew; a reading
-- of a clock or of `random` is an argument; an exception is a value of Result or Option.
--
-- Not modelled: logging, the texts of messages, the network, the database beyond the table of
-- trades, the executor's lifecycle events, the creation of tables, the scan of the markets and the
-- statistical models that find a cycle's opportunities, the simulator, the dashboard and the scripts.
pub mod Base
pub mod Float
pub mod Execution
pub mod Infra
pub mod Intelligence
pub mod Risk
pub mod Tracking
pub mod Reporting
pub mod Events
pub mod Agent
