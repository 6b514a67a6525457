-- ===== src/Lib.antt =====
-- A verification library for the package digital_fte: the parts that a run of the agent is made of.
--
-- A run drives agents through the orchestrator (digital_fte/loop.py: Loop). Around it stand the
-- guards that decide whether an action may go ahead: the circuit breaker
-- (digital_fte/circuit_breaker.py: CircuitBreaker), the concurrency limiter
-- (digital_fte/concurrency_limiter.py: ConcurrencyLimiter), the token budget
-- (digital_fte/token_budget.py: TokenBudget), the retry budget (digital_fte/retry_budget.py:
-- RetryBudget) and the backpressure controller (digital_fte/backpressure.py: Backpressure), the rate
-- limiter (digital_fte/rate_limiter.py: RateLimiter) and the retry policy with its waits
-- (digital_fte/retry_policy.py: RetryPolicy; digital_fte/exponential_backoff.py:
-- ExponentialBackoff), which the classes of errors inform (digital_fte/retry_classifier.py and
-- digital_fte/error_taxonomy.py: ErrorText); and the stores that remember what was done: checkpoints
-- (digital_fte/checkpoint.py: Checkpoint), the cache with expiry (digital_fte/ttl_cache.py:
-- TtlCache) and the dead-letter queue (digital_fte/dead_letter_queue.py: DeadLetterQueue). Tasks
-- wait in the task queue (digital_fte/task_queue.py, with the record of digital_fte/models.py:
-- TaskQueue), are chosen by their tags (digital_fte/task_filter.py: TaskFilter) and are found again
-- when they stall (digital_fte/stale_reaper.py and digital_fte/heartbeat.py: StaleReaper); a run's
-- configuration and the payloads of tasks are checked against schemas
-- (digital_fte/config_validator.py: ConfigValidator; digital_fte/payload_schema.py: PayloadSchema).
-- Leases (digital_fte/lease.py: Lease) and the transition guard (digital_fte/transition_guard.py:
-- TransitionGuard) say who may act and which move is next; batches (digital_fte/batcher.py: Batcher)
-- and merges (digital_fte/fanout_merge.py: FanoutMerge) shape lists of work. These classes do not
-- call one another: a caller composes them. The timeline (digital_fte/run_timeline.py: RunTimeline),
-- the diff (digital_fte/state_diff.py: StateDiff) and the checks (digital_fte/loop_validation.py:
-- LoopValidation) are functions of the results of the orchestrator, and use its types. The audit log
-- (digital_fte/audit_log.py: AuditLog) writes the timeline as lines of JSON and reads it back.
--
-- How the code is written down. The file of a component has its class as a record of fields and one
-- function for each method, under the method's name; its children prove. A method is an action: from
-- the fields to a result or an exception, and the fields afterwards (Prelude/Action.antt). Arguments
-- are Python values where the code checks their types (Prelude/Values.antt), so the TypeError and
-- ValueError paths are there; messages of exceptions are left out. A float is a whole number, an
-- infinity or NaN: whole floats below 2^53 are exact, and larger ones are not rounded, but in the
-- waits of the retry policy and the backoff a product or a sum from the bound at which a float
-- overflows is infinite, and such a power raises OverflowError (Prelude/Amounts.antt).
-- Counters that the code keeps from falling below 0 by a guard are natural numbers; where that is
-- not so they are integers. A dict is a list of pairs in insertion order (Prelude/Dict.antt); `sort`
-- is a stable insertion sort (Prelude/Sort.antt); texts compare by code points
-- (Prelude/TextOrder.antt).
--
-- What the package takes from its caller is a parameter: the clock of the circuit breaker, as the
-- sequence of its readings, and the function that it calls, which may use the breaker itself; the
-- agents and the validator of the orchestrator, which may keep a state and raise; the type of the
-- keys and values of the cache; the clock of the rate limiter; the function that a retry policy
-- calls and its `sleep`, which act on a world. What it takes from Python is a parameter where it is
-- not written out: json.dumps and json.loads of the audit log, of which a proof assumes that the
-- text of a record is one line that decodes to the record's object, and str.lower, the regular
-- expressions of a payload schema and the == of configuration values, of which nothing is assumed. A
-- wait of the rate limiter is a whole number of seconds, or the float next to a quotient that is
-- none: that float is only named by the quotient, and times between whole seconds are not modelled.
--
-- Loops are recursions on lists, but for `_run` of the orchestrator, which recurs on the number of
-- rounds left of its `range`, and the attempts of a retry policy and of its schedules, on the number
-- left of theirs, so no fuel is needed.
--
-- Not modelled: the command line and the file system (digital_fte/cli.py, engine.py, parser.py,
-- state_store.py, loop_telemetry.py), digests (idempotency_key.py, correlation_id.py), the functions
-- whose values are fractions (rates, percentages and means), the rendering of timelines and diffs
-- into lines, the priority queue, the other reports on results and the remaining policies and
-- validators.
pub mod Prelude
pub mod CircuitBreaker
pub mod ConcurrencyLimiter
pub mod TokenBudget
pub mod Backpressure
pub mod Checkpoint
pub mod TtlCache
pub mod DeadLetterQueue
pub mod RetryBudget
pub mod Loop
pub mod StateDiff
pub mod RunTimeline
pub mod TransitionGuard
pub mod Lease
pub mod Batcher
pub mod FanoutMerge
pub mod LoopValidation
pub mod AuditLog
pub mod TaskQueue
pub mod RateLimiter
pub mod ErrorText
pub mod ExponentialBackoff
pub mod RetryPolicy
pub mod TaskFilter
pub mod ConfigValidator
pub mod StaleReaper
pub mod PayloadSchema
