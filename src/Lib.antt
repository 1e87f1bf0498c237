-- ===== src/Lib.antt =====
-- The gateway core of CoreAI Protocol Suite, modelled and verified.
--
-- The suite is an asynchronous Python gateway in front of several language-model providers. A
-- request enters through the API layer (src/api), passes the drain switch, is routed to a provider
-- (src/coreai/router.py) and comes back through the response cache. What the modules here are about
-- is the part of it that decides: whether a request is let in, which provider and which key is
-- asked, how often and how long, what a failure means, what is kept and for how long, and which
-- tool calls of a model run.
--
-- How the parts interact. An exception of a provider is read by `classify` (Errors), which every
-- other decision uses: the retry loop (Retry) repeats only what is retryable, and waits no longer
-- than the deadline of the request leaves (Deadline); the key pool (KeyPool) changes keys on key
-- errors and parks what is refused; the circuit breaker of each provider (CircuitBreaker) counts
-- the failures and stops admitting calls; the router (Router) asks the breakers, gives each
-- candidate its number of attempts and fails over. Which candidates these are is planned before
-- (Planning), by the strategy of the router or by a policy (Policy). The limiter (Limiter) admits each call at the
-- rate and concurrency of its provider. The budgets (Budgets) refuse a subject that has used up
-- its window. The drain controller (Drain) counts the requests in flight.
-- MemoryCache keeps responses until they expire or are evicted. Tasks keeps the tasks that run in
-- the background.
--
-- On top of the gateway the model's tool calls run. The registry (Tools) checks each call before its
-- handler; the tool loop (ToolLoop) alternates calls of the model and of tools, and asks the
-- approvals (Approvals) where the registry wants one; what it sends is a conversation
-- (Conversation) that the providers accept. The harness (Harness) does the same for a run that is
-- stored, which may wait for a human, be paused or be killed between two of its steps: Harness/Loop
-- is one execution of it, over the rows of Harness/Store, the compaction of Harness/Context (with the
-- call of the model that summarizes what is dropped, where the agent wants one) and the tool calls of
-- Harness/Calls, and Harness/Control is what callers do to it from outside. A workflow
-- (Harness/Workflow) runs fixed steps through the same registry.
--
-- Files and code (a file X.antt holds the definitions, the files of the folder X what is proved
-- about them; X/Tests holds runs on concrete values):
--   CircuitBreaker   src/coreai/circuit_breaker.py   CircuitBreaker: allow, record_success, ...
--   Errors           src/coreai/errors.py            classify and what it reads of an exception
--   Deadline         src/coreai/deadline.py          Deadline: remaining, expired, check, clamp
--   Retry            src/coreai/retry.py             compute_wait, run_with_retry, RetryManager
--   Router           src/coreai/router.py            the loop of _route over the candidates
--   Router/Embed     src/coreai/router.py            the loop of embed
--   Router/Stream    src/coreai/router.py            _stream, _open_stream
--   Policy           src/coreai/policy.py            Policy, PolicySet
--   Planning         src/coreai/router.py            what a plan reads; the virtual models
--   Planning/Select  src/coreai/router.py            _select_provider, _failover_order
--   Planning/Owners  src/coreai/router.py            _owner_of, _policy_for
--   Planning/Ranking  src/coreai/router.py           _rank_for_policy
--   Planning/Policies  src/coreai/router.py          _plan_with_policy, _policy_models
--   Planning/Plan    src/coreai/router.py            _plan_any, _plan, explain
--   Planning/Screen  src/coreai/router.py            _screen, _model_problem, can_offer_tools
--   Limiter          src/coreai/limiter.py           TokenBucket, ProviderLimiter, GlobalRateLimiter
--   ResponseCache    src/coreai/cache.py             ResponseCache, CacheBackend, RedisCache
--   MemoryCache      src/coreai/cache.py             MemoryCache: get, set, delete, purge, clear
--   Budgets          src/coreai/budgets.py           BudgetManager: check, record, add_usage
--   Drain            src/coreai/drain.py             DrainController, DrainMiddleware
--   KeyPool          src/providers/pool.py           KeyPoolProvider: rotation, complete, stream
--   Approvals        src/tools/approvals.py          ApprovalStore: request, decide, consume
--   Tools            src/tools/registry.py           ToolRegistry: register, call, _check_rate
--   Conversation     src/providers/base.py           Message, validate_conversation
--   ToolLoop         src/tools/executor.py           run_tool_loop, _run_one
--   Harness/Context  src/harness/context.py          compact
--   Harness/Store    src/harness/store.py            RunStore: the rows of the runs
--   Harness/Runner   src/harness/runner.py           the limits and tests of a run
--   Harness/Calls    src/harness/runner.py           HarnessRunner._tools
--   Harness/Loop     src/harness/runner.py           HarnessRunner._execute, _plan, _model
--   Harness/Control  src/harness/runner.py           create, resume, pause, cancel, kill
--   Harness/Workflow  src/harness/workflow.py        run_workflow, parse_steps (Parse)
--   Tasks            src/coreai/orchestrator.py      the task table of the orchestrator
--   Scheduler        src/coreai/scheduler.py         Scheduler: register, is_due, _run_job
--   Counter          collections.Counter as used     counts by key
--   Dict             dict and OrderedDict as used    association lists in insertion order
--   Prelude          no code of its own              names, lists, texts and tests that are shared
-- Functions and fields keep the names of the source, in the spelling of this language.
--
-- Conventions. A method is a function from the state to the state and what it returns, or to the
-- state alone. An exception is a value of a result type. Clock readings are arguments, one for each
-- reading of the source where their order matters; times are natural numbers of a fixed small unit,
-- so that what the source computes with floats is exact here. Random draws, new identifiers and
-- the behaviour of providers are arguments or a function of the state of an environment. An awaited
-- call happens between two steps, so a sequence of operations in any order stands for
-- the interleavings of one event loop.
--
-- Bounds. Loops recur on the list they run over. The retry loop recurs on the attempts left,
-- and starts with max_attempts of them, as many as the source can make, so that fuel never cuts it
-- short. The rounds of a tool loop recur on max_steps + 1, and the turns of an execution of a run
-- start with max_steps + 1 too, of which each takes a step of the limit. Python's integers are
-- unbounded and so are the natural numbers; a subtraction that stops at 0 stands only where the
-- source takes the maximum with 0 or where the value is known positive.
--
-- Not modelled: logging, tracing and metrics, which do not feed back; network, files, subprocesses
-- and the database; the interfaces (the CLI, the TUI, the SDK, the web page); the HTTP layer; the
-- neural examples; the hedged calls of the router.
pub mod Approvals
pub mod Budgets
pub mod CircuitBreaker
pub mod Conversation
pub mod Counter
pub mod Deadline
pub mod Dict
pub mod Drain
pub mod Errors
pub mod Harness
pub mod KeyPool
pub mod Limiter
pub mod MemoryCache
pub mod Planning
pub mod Policy
pub mod Prelude
pub mod ResponseCache
pub mod Retry
pub mod Router
pub mod Scheduler
pub mod Tasks
pub mod ToolLoop
pub mod Tools
