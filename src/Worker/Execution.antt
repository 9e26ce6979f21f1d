-- ===== src/Worker/Execution.antt =====
-- `processWorkflowExecution` and `failWorkflowExecution` of apps/execution-worker/src/index.ts: the
-- life of an execution's row, each change of status in one transaction with its outbox event.
pub mod Safe
pub mod Rows
pub mod Advance
pub mod Ended
pub mod Terminal
use vigil_summit_agent.Prelude.{
  ℕ, String, Bool, true, false, Option, none, some, ◌=ₛ◌, if◌then◌else◌, get_or_else,
}
use vigil_summit_agent.Json.{Fields}
use vigil_summit_agent.Contracts.Message.{
  workflow_execution_started, workflow_execution_completed, workflow_execution_failed, Failure,
  RoutingKey, Message, Command,
}
use vigil_summit_agent.Worker.State.{
  ExecutionStatus, running, succeeded, failed, cancelled, Execution, OutboxMessage, Db,
  worker_error,
}
use vigil_summit_agent.Worker.Effects.{M, pure, throw, ◌>>=◌, ◌>>◌, access, now, fresh_id}
use vigil_summit_agent.Worker.Outbox.{
  persist_outbox_event, dispatch_outbox_event, dispatch_pending_execution_outbox,
}
use vigil_summit_agent.Worker.Events.{
  execution_started_message, execution_completed_message, execution_failed_message,
}
use vigil_summit_agent.Worker.NodeRuns.{execute_workflow_nodes}

-- `isTerminalExecutionStatus`
abbrev pub is_terminal : ExecutionStatus → Bool
is_terminal succeeded = true
is_terminal failed = true
is_terminal cancelled = true
is_terminal _ = false

abbrev pub is_pending : ExecutionStatus → Bool
is_pending ExecutionStatus.pending = true
is_pending _ = false

abbrev pub is_running : ExecutionStatus → Bool
is_running running = true
is_running _ = false

-- `status in ["PENDING", "RUNNING"]`
abbrev pub is_open : ExecutionStatus → Bool
is_open ExecutionStatus.pending = true
is_open running = true
is_open _ = false

abbrev pub put : (String → Option Execution) → String → Execution → String → Option Execution
put table id e j = if id =ₛ j then some e else table j

abbrev pub change_and_record :
    Option Execution
    → String
    → (ExecutionStatus → Bool)
    → (Execution → Execution)
    → (Db → OutboxMessage × Db)
    → Db
    → Option OutboxMessage × Db
change_and_record none id allowed change persist db = (none, db)
change_and_record (some e) id allowed change persist db =
    if allowed e.status
    then (let r = persist (record db { executions = put db.executions id (change e) }) in
        (some r.0, r.1))
    else (none, db)

-- The transactions of this file: an `updateMany` of the row with this id if its status is allowed,
-- and, where it changed a row, the outbox event. `none` is a count of 0; with a count of 1 there is
-- always an outbox row, so that the tests for a missing one never fire.
unfoldable pub transition :
    String
    → (ExecutionStatus → Bool)
    → (Execution → Execution)
    → String
    → RoutingKey
    → Message
    → Db
    → Option OutboxMessage × Db
transition id allowed change row_id key message db =
    change_and_record (db.executions id) id allowed change (persist_outbox_event row_id key message)
      db

unfoldable pub to_running : ℕ → Execution → Execution
to_running started_at e = record e { status = running; started_at = some started_at }

unfoldable pub to_succeeded : Fields → ℕ → Execution → Execution
to_succeeded output completed_at e = record e {
  status = succeeded;
  output = some output;
  completed_at = some completed_at;
}

unfoldable pub to_failed : Failure → ℕ → Execution → Execution
to_failed failure failed_at e = record e {
  status = failed;
  error = some failure;
  completed_at = some failed_at;
}

-- `findWorkflowExecutionForProcessing`, and the `findUnique` of a row alone
unfoldable pub find_execution : String → M (Option Execution)
find_execution id = access (λ db. (db.executions id, db))

-- After a lost race for PENDING: `none` where there is nothing left to do.
unfoldable pub after_conflict : String → Option Execution → M (Option Execution)
after_conflict id none = dispatch_pending_execution_outbox id >> pure none
after_conflict id (some e) =
    if is_terminal e.status
    then dispatch_pending_execution_outbox id >> pure none
    else pure (some e)

unfoldable pub after_start : String → Execution → ℕ → Option OutboxMessage → M (Option Execution)
after_start id e started_at none = find_execution id >>= after_conflict id
after_start id e started_at (some row) =
    dispatch_outbox_event row >> pure (some (to_running started_at e))

-- The part of `processWorkflowExecution` up to the nodes: the execution to run, or `none` to return.
unfoldable pub start_pending : Command → Execution → ℕ → M (Option Execution)
start_pending message e started_at = do
  event_id ← fresh_id
  row_id ← fresh_id
  row ← access (
      transition message.execution_id is_pending (to_running started_at) row_id
        workflow_execution_started (execution_started_message message event_id started_at))
  after_start message.execution_id e started_at row

unfoldable pub resume_running : Command → Execution → ℕ → M (Option Execution)
resume_running message e started_at = do
  event_id ← fresh_id
  row_id ← fresh_id
  row ← access (
      persist_outbox_event row_id workflow_execution_started
        (execution_started_message message event_id started_at))
  dispatch_outbox_event row >> pure (some e)

unfoldable pub after_missed_completion : String → Option Execution → M (Unit {0})
after_missed_completion id none = throw (
    worker_error "workflow_execution_completion_conflict"
      "Workflow execution could not be completed from RUNNING state" true)
after_missed_completion id (some e) =
    if is_terminal e.status
    then dispatch_pending_execution_outbox id
    else throw (
        worker_error "workflow_execution_completion_conflict"
          "Workflow execution could not be completed from RUNNING state" true)

unfoldable pub after_completion : String → Option OutboxMessage → M (Unit {0})
after_completion id none = find_execution id >>= after_missed_completion id
after_completion id (some row) = dispatch_outbox_event row

-- The part of `processWorkflowExecution` from the nodes on.
unfoldable pub run_and_complete : Command → ℕ → Option Execution → M (Unit {0})
run_and_complete message started_at none = pure tt
run_and_complete message started_at (some e) = do
  output ← execute_workflow_nodes message e
  completed_at ← now
  event_id ← fresh_id
  row_id ← fresh_id
  row ← access (
      transition message.execution_id is_running (to_succeeded output completed_at) row_id
        workflow_execution_completed
        (execution_completed_message message event_id output started_at completed_at))
  after_completion message.execution_id row

unfoldable pub process_found : Command → ℕ → Option Execution → M (Unit {0})
process_found message now_at none =
    throw (worker_error "workflow_execution_not_found" "Workflow execution was not found" false)
process_found message now_at (some e) =
    let started_at = get_or_else e.started_at now_at in
    if is_terminal e.status
    then dispatch_pending_execution_outbox message.execution_id
    else (if is_pending e.status
        then start_pending message e started_at
        else resume_running message e started_at)
      >>= run_and_complete message started_at

unfoldable pub process_workflow_execution : Command → M (Unit {0})
process_workflow_execution message = do
  now_at ← now
  e ← find_execution message.execution_id
  process_found message now_at e

unfoldable pub after_missed_failure : String → Option Execution → M (Unit {0})
after_missed_failure id none = throw (
    worker_error "workflow_execution_failure_conflict"
      "Workflow execution could not be failed from PENDING or RUNNING state" true)
after_missed_failure id (some e) =
    if is_terminal e.status
    then dispatch_pending_execution_outbox id
    else throw (
        worker_error "workflow_execution_failure_conflict"
          "Workflow execution could not be failed from PENDING or RUNNING state" true)

unfoldable pub after_failure : String → Option OutboxMessage → M (Unit {0})
after_failure id none = find_execution id >>= after_missed_failure id
after_failure id (some row) = dispatch_outbox_event row

-- `failureRecord`: the failure without its cause.
unfoldable pub failure_record : Failure → Failure
failure_record failure = record failure { response_body = none }

unfoldable pub fail_workflow_execution : Command → Failure → M (Unit {0})
fail_workflow_execution message failure = do
  failed_at ← now
  event_id ← fresh_id
  row_id ← fresh_id
  row ← access (
      transition message.execution_id is_open (to_failed (failure_record failure) failed_at) row_id
        workflow_execution_failed
        (execution_failed_message message event_id (failure_record failure) failed_at))
  after_failure message.execution_id row
