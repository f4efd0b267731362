-- ===== src/Lib.antt =====
-- A verification library of the reimbursement analyzer: the shared package, the publisher, and the
-- agent that decides, as functions that change the state of a service, with the theorems that make
-- them correct.
--
-- The program. The API (packages/api) takes batches of submissions and publishes each as one
-- message on the `Request` topic. The publisher (packages/publisher) turns every item of such a
-- message into a pending row of the table `reimbursement` and a message on the `Reimbursement`
-- topic; what fails goes back onto `Request` with one retry more, and past the ceiling of three it
-- becomes a row for a person to review. The agent (packages/reimbursement) takes a `Reimbursement`
-- message, reads its row, runs a graph of nodes over it, two of which ask a language model, and
-- writes the decision. A person approves or rejects what was escalated (packages/shared, the use
-- case review_reimbursement), which adds a row to `human_review`.
--
-- The files, for the code below packages/<name>/src/<name>:
--   Json, Decimal, Status, Errors, Models: the data of shared/models.py and shared/errors.py.
--   Models/Request: ReimbursementRequest.model_validate.
--   Env: the functions of other libraries that the code calls, as one record of parameters.
--   World: the state and the actions; World/Returns (actions that never raise), World/Keeps (what an
--     action keeps as an invariant), World/Gives (what has been done when it returns), World/Yields
--     (what holds of the value that it returns), World/Steady (states in which no call fails).
--   Repository, Repository/Tables, Repository/Page: shared/reimbursement/repository.py, its queries
--     that only read, and the migrations' tables; Repository/Consistent, Statements and Frames for
--     what each statement keeps, and Repository/Inserts for what the INSERTs have done.
--   Config, FailureLog, Producer: the files of those names in shared.
--   Settings: the environment as the three files config.py read it, and the clients' settings.
--   UseCases: shared/reimbursement/use_cases.
--   Publisher/Processing, Publisher/Consumer: publisher/processing.py and consumer.py.
--   Agent: reimbursement/validation.py (Validation), consumer.py (Consumer), agent/agent.py (Graph),
--     agent/nodes (Nodes), schema.py and models.py (State), agent/prompts (Prompts).
--   Api: Payload, Create (create/payload.py, validation.py, producer.py, route.py), ReviewRequest and
--     Review (update/validation.py and route.py), Listing (list and get), Response (response.py),
--     Errors, Middleware, Metrics and Migrate (the files of those names in api).
--   Examples: concrete services and states, and its children the theorems at them.
-- A function of the source has the function of the same name here, in snake_case without the
-- leading underscore; a part of one that follows an await, an except or a branch is a helper named
-- for what it does.
--
-- The state and what can fail. `World` holds the tables, the topics, the failure log, the logged
-- events, the counters and the committed offsets. Each call of the database, the broker or a model
-- takes the next event of a script, which says how much time passed, whether the call raised before
-- or after it had its effect, and in which order a query finds the rows; a script that has ended
-- answers that all is fine. An exception
-- is a value beside the state, which stays as it was left, and a transaction restores the tables on
-- one. A theorem for every world therefore holds for every fault at every call, a lost reply
-- included.
--
-- Conventions. A time is a count of microseconds and a date an ordinal. A uuid is a counter, which
-- a rollback restores. A finite number is its decimal rendering. The items of a message run one after
-- the other, where the source interleaves them at its awaits. The language models are functions of
-- the prompt and the time. The printing of a number n has n + 1 steps of fuel,
-- which is enough since each step divides by ten. The hypotheses on code that is not in the
-- repository are arguments of the theorems that need them.
--
-- A byte string is a text with one character for each byte. An `int` of a query is ℤ; an identifier
-- of a path is a uuid already. Rows of one time come in an order that each query takes from the
-- script of events, since PostgreSQL leaves it open. The wait for the migrations' lock has the fuel
-- timeout / 500000 + 2, which is enough since each round takes half a second at least.
--
-- Not modelled: yoyo's application of the migrations; FastAPI's routing and coercion; tracing,
-- logging, metrics servers and the construction of clients. Free-text log lines and the values of
-- observed durations leave no trace in the state.
mod Prelude
pub mod Json
pub mod Decimal
pub mod Settings
pub mod Status
pub mod Errors
pub mod Models
pub mod Env
pub mod Repository
pub mod World
pub mod Config
pub mod FailureLog
pub mod Producer
pub mod UseCases
pub mod Publisher
pub mod Agent
pub mod Api
mod Examples
