-- ===== src/Lib.antt =====
-- The internal event bus, the policy engine, the tasks, the memory system, the sessions, the workflow
-- definitions and the routing of model calls of Foundora's API (apps/api/src/foundora).
--
-- The services of the repository are classes over a relational database. An operation runs in one
-- transaction: it reads rows, checks them, writes rows and commits, or raises and leaves nothing.
-- So a component's state is a record of tables, each a list of rows in the order of insertion, and
-- an operation is a function `Tx E S A` (Base/Results.antt) from the state to an error or to a
-- result and the next state. The statements of a method follow each other in a do block. Two
-- transactions do not interleave: the row locks of the source order them.
--
-- Parts:
-- - Base.antt: shared tests on numbers and texts, lists as tables (`find`, `put`, `sum_of`,
--   `Distinct`), transactions, JSON objects, and the record `External` of what other code gives.
-- - Business.antt: business/context.py, the business that a session has selected.
-- - Events/Contracts.antt: events/contracts.py, the registered contracts and consumers.
-- - Events/Publish.antt, Events/Delivery.antt: events/service.py. Publishing writes an event and one
--   delivery for each registered consumer; the dispatcher attempts due deliveries; an owner redrives
--   dead letters. Events/Model.antt has the rows of models.py.
-- - Events/Invariant.antt: what holds of the outbox between transactions.
-- - Governance/Registry.antt: governance/registry.py, the catalogues and the risk classification.
-- - Governance/Decision.antt: `_initial_decision` of governance/service.py.
-- - Governance/Service.antt and its children: the other methods of `GovernanceService`. Evaluate
--   records an action and its decision, and publishes an event when an approval is needed; Decide
--   takes the owner's verdict; Authorize rechecks an approved action when it is to run; Controls
--   changes the settings, the tool permissions and the kill switch. Governance/Model.antt has the
--   rows of models.py and the tables of a session.
-- - Tasks/Model.antt, Tasks/Cycle.antt, Tasks/Service.antt and its children: tasks/service.py. An
--   owner creates tasks, links them by dependencies that may not close a cycle, moves them through
--   their statuses, which publishes their outcomes, and retries them.
-- - Memory.antt and its children: memory/service.py. Text has the checks that read no table, Sources the
--   rows that a memory may refer to, Policy, Propose, Accept, Decide and Retrieve the operations. A
--   proposal is checked and then accepted, by the founder or by the business's policy, as a new record
--   or by merging into the active record of the same text. Constraints has the CHECK constraints of the
--   tables in models.py, Runs and Accept/Written what a run that succeeds finds and writes, Histories the
--   sequences of operations, and Lasting what does not change along them.
-- - Auth.antt and its children: auth/service.py, auth/passwords.py and auth/rate_limit.py. An owner is
--   provisioned, signs in, and is given a session with two expiries and a CSRF token; a use of its
--   token refreshes or closes the session. Histories has the sequences of operations, and Lasting what a
--   revoked session is along them.
-- - Workflows.antt and its children: workflows/definition.py. Json has nested JSON values, Definition the
--   parser of a workflow's steps with its search for cycles, and the internal tools.
-- - ModelGateway.antt and its children: model_gateway/routing.py and model_gateway/registry.py, the choice
--   of the providers and models that a call may be sent to.
-- - The files named Examples.antt, and Business/Samples.antt: runs on concrete data.
--
-- Correspondence: a UUID is a number, and `uuid.uuid4()` is the next number of a supply in the
-- state, so two draws differ. A time is the count of microseconds since an epoch at midnight UTC;
-- `_now()` reads the next value of a clock that the state holds, and the bus takes its one reading
-- as an argument. Amounts and counts are natural numbers, as the tables' check constraints and the
-- request schemas keep them from being negative. `timeout_seconds` is held by a consumer and not
-- run: a handler that times out is one that raises.
--
-- A confidence is a count of millionths, above or under zero, since the code only compares and keeps it; a
-- `datetime` without a
-- timezone is a constructor of its own where an operation takes one. The methods of `str` that the code
-- calls are functions on the characters of a text (Base/Strings.antt).
--
-- Loops and bounds: the dispatcher's loop is bounded by its `limit` in the source, and the model
-- recurses on it. The search for a cycle runs on fuel, one round for each row of the dependency table
-- and two more: a task is expanded once, so each row is pushed at most once. The search of a workflow's steps
-- nests one call for each step and one more, which is proved to be enough.
--
-- Parameters: the spelling of a UUID, the JSON schema validator's verdict on a payload, the cut of a
-- text, the size of an object's JSON, the correlation id (`External`), the handlers of the consumers
-- (`Handlers`); regular expressions, Unicode normalisation, SHA-256, JSON text, URL parsing and ILIKE in the
-- memory system (`Libraries`); the password hasher and the digest (`Crypto`), and Redis (`Redis`); which
-- characters a step's key may have and which values read as a UUID (`Libraries` of the
-- workflows); and `json.loads`, the pattern of a task's name and `str.lower` (`Libraries` of the routing).
--
-- Not modelled: the read-only dashboards of the event bus, the policy engine and the tasks; what a handler
-- writes to other tables; the widths of text columns; row locks and lost connections; the HTTP routes, and
-- the other services of the API. The caller of `redrive` gives it the business that
-- `resolve_selected_business` found.
pub mod Base
pub mod Business
pub mod Governance
pub mod Memory
pub mod Events
pub mod Tasks
pub mod Workflows
pub mod ModelGateway
pub mod Auth
