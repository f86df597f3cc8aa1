-- ===== src/Lib.antt =====
-- Orchestration of reservation tasks between an orders-service and an inventory-service: a task is
-- driven by decisions (CONTINUE, RETRY, WAIT, FALLBACK, ABORT) that an engine proposes, a validator
-- checks and an executor carries out, while requests and replies travel through a broker that may
-- delay, repeat or lose them.
--
-- Parts, and the files that model them:
-- * shared (task.py, events.py, messaging.py, decision.py, system_state.py, envelope.py, config.py):
--   Contract. Vocabulary has the enumerations, Decision the proposals and decisions with their
--   validators and `resolve_action`, SystemState the state that engines are given, Envelope the
--   messages and `build_envelope`. Contract/Decision/Texts is about the texts of decisions.
--   Json is a value as `json.loads` gives it.
-- * services/orders/app/llm (decision_parser.py, llm_engine.py, ollama_client.py): Engine/Llm, from the
--   outcome of an exchange to the engine's output, and Engine/Output. Its children Reading and
--   Spelling are about the texts that spell a decision, Exchanges about the outcomes after which the
--   engine returns.
-- * services/orders/app/orchestration (rules_engine.py, decision_engine.py, validator.py): Engine.
--   `policy` and `decide` of Rules are the methods of `RulesDecisionEngine`, `validate` of Validator
--   that of `DecisionValidator`, its `_first_error` in three functions.
-- * services/orders/app/db (models.py, repositories.py, trajectory.py): Orders/Db has the four tables
--   of `orders.db` as lists of rows under numeric keys, Repositories and Trajectory one function for
--   each function of these files, with its guards and its SQL statements.
-- * services/orders/app/orchestration (executor.py, event_handler.py, state_builder.py,
--   orchestrator.py, timeouts.py, waits.py, dead_letters.py): Orders/Executor, EventHandler,
--   StateBuilder, Orchestrator and Internal.
-- * services/orders/app/messaging/consumers.py and services/orders/app/api/orders.py:
--   Orders/Consumers, what runs for each message and for a new order.
-- * services/inventory/app (db, reservation): Inventory. Db has the tables, Processing the injected
--   fault, Service the answer to a request.
-- * Both services and the broker between them: Services. A world has the two databases, every message
--   that was published, and the identifiers that were drawn (`unique_id` of shared/ids.py); a move
--   delivers a message to one of the services.
-- * scripts/pilot (collect_artifacts.py, check_traceability.py): Reports. Artifacts is the export of the
--   trajectories, Trajectories their check, Records the checks of states, decisions, logs and
--   faults, and Records/Recorded what StateRecorder writes
--   (services/orders/app/observability/recorders.py).
--
-- A method that works on a connection is an `Action`: from a database to a result, which may be a
-- Python exception, and the database that it leaves; `transaction` undoes the writes of a body that
-- raised (shared/sqlite.py). Messages that are published and internal tasks that are scheduled are
-- effects in the result, since they leave after the commit. The queue of the orders-service has one
-- worker (docker-compose.yml, `--concurrency=1`), so a step takes one whole message.
--
-- The proofs: Orders/Invariant says what holds of each task between two transactions and what
-- makes a task ready for a decision, and its children are about one operation each; Orders/System
-- is about the whole database, and its child Runs about any interleaving of steps. Inventory/Store,
-- Answers and Once are about the reservations. Orders/Numbering is about the numbers, the identifiers
-- and the requests on record in `task_events`, and Services puts both sides together. Tests holds
-- the theorems at concrete inputs.
--
-- Bounds: numbers are natural numbers without a width, as Python's are. All recursion is
-- structural over tables and texts; there is no fuel. Identifiers are numbers, since they are only
-- compared; times are milliseconds.
--
-- From outside, as arguments: the clock, fresh identifiers, the broker's counters, the engine of a
-- `Setup`, `json.loads` and the exchange with the model's server for the LLM engine, and the draw
-- of a fault (a SHA-256 digest). Assumed of the engine: it returns in every coherent state; the
-- rules engine does, and the LLM engine does where its exchanges give a text or time out and the
-- server's counts of tokens are numbers, null or left out, as it documents them.
-- Assumed of an event of the inventory-service in Orders/System: it is in the contract, and it
-- names the target of the request that it answers if that is the latest one; Services assumes
-- nothing of it, but that identifiers are drawn once. Assumed of the clock: it does not stand
-- before the creation of a task.
--
-- Not modelled: the text of the LLM's prompt and the HTTP client, reading configuration and data
-- sets, HTTP and Celery, raw messages outside the contract, the patterns of identifiers, the logs,
-- the scripts that run experiments, and what they compute from the artefacts beyond the
-- trajectories.
pub mod Prelude
pub mod Contract
pub mod Engine
pub mod Orders
pub mod Inventory
pub mod Services
pub mod Reports
pub mod Tests
