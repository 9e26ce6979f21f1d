-- ===== src/Worker/NodeRuns.antt =====
-- `executeWorkflowNodes` of apps/execution-worker/src/index.ts: the rows and events of each node
-- around its execution, in the order that `orderWorkflowNodes` gives.
use vigil_summit_agent.Prelude.{
  ℕ, String, Bool, true, false, Option, none, some, List, [], ◌∷◌, ◌++◌, ◌&&◌, ◌=ₛ◌, if◌then◌else◌,
  length, find, insert,
}
use vigil_summit_agent.Json.{whole, num, str, obj, Fields, end, field, get, is_text}
use vigil_summit_agent.Contracts.Message.{
  RoutingKey, node_execution_started, node_execution_completed, node_execution_failed,
  producer_execution_worker, Failure, Message, Command,
}
use vigil_summit_agent.Contracts.Workflow.{node_type, Node, Definition}
use vigil_summit_agent.Contracts.Definition.{is_valid}
use vigil_summit_agent.Worker.State.{
  node_running, node_succeeded, node_failed, NodeExecution, Execution, Db, Error, worker_error,
  other_error, Env,
}
use vigil_summit_agent.Worker.Effects.{
  M, pure, throw, ◌>>=◌, ◌>>◌, try_then, access, now, fresh_id, ask,
}
use vigil_summit_agent.Worker.Outbox.{persist_outbox_event, dispatch_outbox_event}
use vigil_summit_agent.Worker.Nodes.{execute_config}
use vigil_summit_agent.Worker.Graph.{
  Order, ordered, unordered, no_fuel, order_workflow_nodes, Outputs, get_node_input,
}
use vigil_summit_agent.Worker.Events.{
  node_started_message, node_completed_message, node_failed_message,
}
use vigil_summit_agent.Worker.Trace.{normalize_worker_failure, record_succeeded, record_failed}

-- The unique key (executionId, nodeId).
abbrev pub is_run_of : String → String → NodeExecution → Bool
is_run_of execution_id node_id row = row.execution_id =ₛ execution_id && row.node_id =ₛ node_id

unfoldable pub map_rows :
    (NodeExecution → Bool)
    → (NodeExecution → NodeExecution)
    → List NodeExecution
    → List NodeExecution
map_rows p f [] = []
map_rows p f (row ∷ rows) = (if p row then f row else row) ∷ map_rows p f rows

unfoldable pub restarted : Fields → ℕ → NodeExecution → NodeExecution
restarted input started_at row = record row {
  status = node_running;
  input = input;
  output = none;
  error = none;
  started_at = started_at;
  completed_at = none;
}

unfoldable pub new_run : String → Command → Node → Fields → ℕ → NodeExecution
new_run id message node input started_at = record {
  id = id;
  execution_id = message.execution_id;
  node_id = node.id;
  node_type = node_type node.config;
  status = node_running;
  input = input;
  output = none;
  error = none;
  started_at = started_at;
  completed_at = none;
}

abbrev pub upsert_run :
    Option NodeExecution → Command → Node → Fields → ℕ → String → Db → String × Db
upsert_run (some old) message node input started_at id db = (
  old.id,
  record db {
    node_executions =
        map_rows (is_run_of message.execution_id node.id) (restarted input started_at)
          db.node_executions;
  },
)
upsert_run none message node input started_at id db = (
  id,
  record db {
    node_executions = db.node_executions ++ new_run id message node input started_at ∷ [];
  },
)

-- `upsertRunningNodeExecution`, which gives the row's id.
unfoldable pub upsert_running : Command → Node → Fields → ℕ → String → Db → String × Db
upsert_running message node input started_at id db =
    upsert_run (find (is_run_of message.execution_id node.id) db.node_executions) message node input
      started_at id db

unfoldable pub require_run : Option NodeExecution → M (Unit {0})
require_run none = throw (other_error "Record to update not found")
require_run (some _) = pure tt

unfoldable pub write_run : String → (NodeExecution → NodeExecution) → Db → Option NodeExecution × Db
write_run id f db = (
  find (λ r. r.id =ₛ id) db.node_executions,
  record db { node_executions = map_rows (λ r. r.id =ₛ id) f db.node_executions },
)

unfoldable pub completed_run : Fields → ℕ → NodeExecution → NodeExecution
completed_run output completed_at row = record row {
  status = node_succeeded;
  output = some output;
  error = none;
  completed_at = some completed_at;
}

unfoldable pub failed_run : Failure → ℕ → NodeExecution → NodeExecution
failed_run failure completed_at row = record row {
  status = node_failed;
  error = some failure;
  completed_at = some completed_at;
}

unfoldable pub complete_node_execution : String → Fields → ℕ → M (Unit {0})
complete_node_execution id output completed_at = do
  row ← access (write_run id (completed_run output completed_at))
  require_run row

unfoldable pub fail_node_execution : String → Failure → ℕ → M (Unit {0})
fail_node_execution id failure completed_at = do
  row ← access (write_run id (failed_run failure completed_at))
  require_run row

-- `persistOutboxEvent` and `dispatchOutboxEvent` of one message, as the `publishNode…Event` make them.
unfoldable pub publish_event : RoutingKey → (String → Message) → M (Unit {0})
publish_event key message_of = do
  event_id ← fresh_id
  row_id ← fresh_id
  row ← access (persist_outbox_event row_id key (message_of event_id))
  dispatch_outbox_event row

-- The body of the `try`.
unfoldable pub attempt_node : Command → Node → String → Fields → ℕ → M Fields
attempt_node message node node_execution_id input started_at = do
  output ← execute_config message node_execution_id node.id node.config input
  completed_at ← now
  complete_node_execution node_execution_id output completed_at
  record_succeeded message node node.config node_execution_id output started_at completed_at
  publish_event node_execution_completed (λ id.
      node_completed_message message id node node_execution_id output started_at completed_at)
  pure output

-- The `catch`, which throws its error again.
unfoldable pub on_node_failure : {A : Type 0} → Command → Node → String → ℕ → Error → M A
on_node_failure message node node_execution_id started_at error = do
  failed_at ← now
  fail_node_execution node_execution_id (normalize_worker_failure error) failed_at
  record_failed message node node.config node_execution_id (normalize_worker_failure error)
      started_at failed_at
  publish_event node_execution_failed (λ id.
      node_failed_message message id node node_execution_id (normalize_worker_failure error)
        failed_at)
  throw error

-- The part of the loop's body before the `try`: the row's id.
unfoldable pub begin_node : Command → Node → Fields → ℕ → M String
begin_node message node input started_at = do
  row_id ← fresh_id
  node_execution_id ← access (upsert_running message node input started_at row_id)
  publish_event node_execution_started
      (λ id. node_started_message message id node node_execution_id input started_at)
  pure node_execution_id

-- The loop over the ordered nodes; it gives the last `currentInput`.
unfoldable pub run_nodes : Command → Definition → List Node → Outputs → Fields → M Fields
run_nodes message d [] outputs current = pure current
run_nodes message d (node ∷ nodes) outputs current = do
  let input = get_node_input node d outputs current
  started_at ← now
  id ← begin_node message node input started_at
  try_then (attempt_node message node id input started_at)
      (λ output. run_nodes message d nodes (insert node.id output outputs) output)
      (on_node_failure message node id started_at)

-- `assertNoSimulatedWorkflowFailure`
unfoldable pub assert_no_simulated_failure : Command → Env → M (Unit {0})
assert_no_simulated_failure message env =
    if env.simulate_failures && is_text (get message.input "__flowpilotSimulateFailure") "retryable"
    then throw (
        worker_error "workflow_execution_simulated_retryable_failure"
          "Simulated retryable workflow execution failure" true)
    else if env.simulate_failures
        && is_text (get message.input "__flowpilotSimulateFailure") "non_retryable"
    then throw (
        worker_error "workflow_execution_simulated_non_retryable_failure"
          "Simulated non-retryable workflow execution failure" false)
    else pure tt

unfoldable pub invalid_definition : Error
invalid_definition =
    worker_error "workflow_definition_invalid" "Workflow definition is invalid for execution" false

-- `parseWorkflowDefinition`, after the shape has been read.
unfoldable pub parse_definition : Option Definition → M Definition
parse_definition none = throw invalid_definition
parse_definition (some d) = if is_valid d then pure d else throw invalid_definition

unfoldable pub ordered_nodes : Order → M (List Node)
ordered_nodes (ordered nodes) = pure nodes
ordered_nodes unordered = throw (
    worker_error "workflow_definition_unordered"
      "Workflow definition could not be ordered for sequential execution" false)
ordered_nodes no_fuel = throw (other_error "out of fuel")

-- The record that `executeWorkflowNodes` returns.
unfoldable pub execution_output : List Node → Fields → Fields
execution_output nodes final_output = field "status" (str "ok") (
    field "nodeCount" (num (whole (length nodes))) (
      field "finalOutput" (obj final_output)
        (field "processedBy" (str producer_execution_worker) end)))

unfoldable pub execute_workflow_nodes : Command → Execution → M Fields
execute_workflow_nodes message execution = do
  env ← ask (λ env. env)
  assert_no_simulated_failure message env
  d ← parse_definition (env.definition_shape execution.definition)
  nodes ← ordered_nodes (order_workflow_nodes d)
  final_output ← run_nodes message d nodes [] message.input
  pure (execution_output nodes final_output)
