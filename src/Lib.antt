-- ===== src/Lib.antt =====
-- A model of FlowPilot: the worker that takes commands from RabbitMQ, runs the nodes of a workflow or
-- enriches a lead, and reports through a transactional outbox; the scheduled messages to leads; the service
-- that stores lifecycle events; the API's methods on workflows, events and registrations; and the
-- contracts that these share.
--
-- The parts, and where they stand:
--   Json        JSON values and the tests that the guards are made of
--   Contracts   packages/contracts/src: Message (messaging.ts), Workflow (workflow-nodes and the shape of
--               workflow-definition.ts) and Definition (the refinement of workflowDefinitionSchema)
--   Worker      apps/execution-worker/src/index.ts and nodes/
--     State, Effects   the tables, what was published and settled, and the monad of the worker's code
--     Outbox           persistOutboxEvent, dispatchOutboxEvent, markOutboxPublishFailure, the two loops
--     Nodes, Graph     the node executors; orderWorkflowNodes and getNodeInput
--     Events, Trace    the create...Message functions; the AI traces
--     NodeRuns         executeWorkflowNodes
--     Execution        processWorkflowExecution, failWorkflowExecution
--     Topology         the bindings of declareTopology and declareLeadEnrichmentTopology
--     Command, Delivery  the parsing of a delivery; handleDelivery, retries and dead letters
--     Keeps, Triples   how statements about this code are proved: a relation that every step keeps, and
--                      what holds after a return and after a throw
--     Enrichment       processLeadEnrichment and, in Consumer, handleLeadEnrichmentDelivery (enrichment/)
--     Dispatcher       the scheduled actions (engagement/scheduled-action-dispatcher.ts): the loop and its
--                      claims; Send and Decide for the two kinds of action, Draft for their texts
--     Safe             the node code under Keeps; the other proofs are children of the file they are about
--     Fixtures, Runs and the files ...Tests  the theorems at concrete inputs, and whole runs
--   Engagement  Policy: apps/execution-worker/src/engagement/communication-policy.ts; Cadence:
--               apps/api/src/modules/engagement/cadence-schedule.ts; Qualification:
--               apps/execution-worker/src/qualification/qualification-policy.ts; Tables: the tables
--               and services of the engagement part; Enroll: the writes of the enrichment's
--               transaction; Tests: concrete inputs
--   WorkflowService  apps/workflow-service/src/index.ts: the guard and the storing of lifecycle events;
--               Encoding: the JSON of the messages that the worker publishes
--   Api         apps/api/src/modules/. Workflows: the methods of workflows/workflows.service.ts that
--               write; Engagement: the status changes, the public links and the withdrawal of consent in
--               engagement/engagement.service.ts (Status: what an operator does; Inbound: the
--               replies of leads); Events: the life of an event and, in Register, the public
--               registration in events/events.service.ts
--
-- An action is a function of the environment and the world. One call of prisma, or one $transaction, is
-- one atomic step; before it the environment may change the database (the other processes), or the call
-- fails and has changed nothing (a commit whose answer is lost is not modelled). A call of
-- channel.publish is accepted, accepted with backpressure (it returns false), or throws. What was written
-- before a throw stays written. An acknowledgement, too, is taken, or throws and then does not count.
-- Where a theorem speaks of the other processes, it names what they are asked to keep.
--
-- Parameters, since their code is outside the repository or behind a network call: JSON.parse, parseInt,
-- randomUUID, the clock, fetch, the AI orchestrator, String(x), Number(x) < Number(y), s.includes(t),
-- the shape that zod reads from a stored definition, the hour that Intl gives in a timezone,
-- what the qualification asks of texts and fractional numbers, the enrichment and email providers, the
-- ids and random tokens of new rows, and in the API the ids, the time, trim and toLowerCase, the
-- regular expressions on a reply, and how the database and the broker answer. Dates are
-- milliseconds as natural numbers.
--
-- Fuel: the loop of orderWorkflowNodes has the number of nodes and edges, since every round takes an entry
-- off the queue and an entry comes from a trigger or from an edge of a node that is visited once.
-- validateReachability has the number of triggers and edges for the same reason, and the depth of
-- validateAcyclicGraph's calls is at most the number of edges and two, since the texts on the stack
-- differ. The loops over lists are structural.
--
-- Not modelled: starting and stopping the worker and its timers, the declaration of queues beyond their bindings, logging, the
-- timestamp, content type and delivery mode of a publication, the estimated cost and the sizes in bytes
-- of an AI trace, the hash of a draft's context, the rest of the API, the web client, the Python orchestrator.
pub mod Prelude
pub mod Json
pub mod Contracts
pub mod Worker
pub mod Engagement
pub mod WorkflowService
pub mod Api
