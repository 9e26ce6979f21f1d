-- ===== src/Worker/Runs.antt =====
-- Whole runs of the worker.
use vigil_summit_agent.Prelude.{Option, List, refl, String, none, some, [], ◌∷◌, ◌≡◌}
use vigil_summit_agent.Worker.State.{ExecutionStatus, Db, acked}
use vigil_summit_agent.Worker.Effects.{final}
use vigil_summit_agent.Worker.Command.{parse_command, retry_attempt}
use vigil_summit_agent.Worker.Delivery.{handle_delivery}
use vigil_summit_agent.Json.{as_record}
use vigil_summit_agent.Contracts.Message.{routing_key_text}
use vigil_summit_agent.Worker.Command.{read_command}
use vigil_summit_agent.Worker.Delivery.{retry_publication}
use vigil_summit_agent.Worker.Events.{execution_started_message}
use vigil_summit_agent.Worker.State.{Publication}
use vigil_summit_agent.Worker.Effects.{effects}
use vigil_summit_agent.Worker.Outbox.{outbox_code}
use vigil_summit_agent.Worker.Graph.{graph_code}
use vigil_summit_agent.Worker.Nodes.{nodes_code}
use vigil_summit_agent.Contracts.Workflow.{node_type}
use vigil_summit_agent.Contracts.Definition.{definition_code}
use vigil_summit_agent.Worker.NodeRuns.{
  execute_workflow_nodes, execution_output, ordered_nodes, parse_definition, invalid_definition,
  assert_no_simulated_failure, run_nodes, begin_node, on_node_failure, attempt_node, publish_event,
  fail_node_execution, complete_node_execution, failed_run, completed_run, write_run, require_run,
  upsert_running, new_run, restarted, map_rows,
}
use vigil_summit_agent.Worker.Execution.{
  process_workflow_execution, process_found, run_and_complete, after_completion,
  after_missed_completion, resume_running, start_pending, after_start, after_conflict,
  find_execution, to_failed, to_succeeded, to_running, transition,
}
use vigil_summit_agent.Worker.Delivery.{
  handle_parsed, handle_error, on_failure, give_up, publish_retry_command, publish_to,
}
use vigil_summit_agent.Worker.Events.{
  execution_completed_message, execution_failed_message, node_started_message,
  node_completed_message, node_failed_message,
}
use vigil_summit_agent.Worker.Trace.{record_succeeded, record_failed, normalize_worker_failure}
use vigil_summit_agent.Worker.Fixtures.{quiet_env, failing_env, first_world, first_delivery}

abbrev status_of : String → Db → Option ExecutionStatus
status_of id d = elim (d.executions id) [ none ↦ none | some e ↦ some e.status ]

abbrev routing_keys : List Publication → List String
routing_keys [] = []
routing_keys (p ∷ ps) = p.routing_key ∷ routing_keys ps

-- A whole run: the execution succeeds, each lifecycle event goes out once and in order, and the delivery
-- is acknowledged.
first_run :
    let w = final (handle_delivery first_delivery quiet_env first_world) in
    (status_of "run-1" w.db ≡ some ExecutionStatus.succeeded)
    × (w.settled ≡ acked ∷ [])
    × (routing_keys w.sent
        ≡ "workflow.execution.started" ∷ "workflow.node.execution.started"
          ∷ "workflow.node.execution.completed" ∷ "workflow.node.execution.started"
          ∷ "workflow.node.execution.completed" ∷ "workflow.execution.completed" ∷ [])
unfolding effects outbox_code graph_code nodes_code definition_code execute_workflow_nodes
    execution_output ordered_nodes parse_definition invalid_definition assert_no_simulated_failure
    run_nodes begin_node on_node_failure attempt_node publish_event fail_node_execution
    complete_node_execution failed_run completed_run write_run require_run upsert_running new_run
    restarted map_rows node_type process_workflow_execution process_found run_and_complete
    after_completion after_missed_completion resume_running start_pending after_start after_conflict
    find_execution to_failed to_succeeded to_running transition handle_delivery handle_parsed
    handle_error on_failure give_up parse_command read_command retry_attempt
    execution_started_message execution_completed_message execution_failed_message
    node_started_message node_completed_message node_failed_message record_succeeded record_failed
    normalize_worker_failure as_record routing_key_text
first_run = (refl, refl, refl)

-- A run whose first database call fails: the command goes to the first retry queue, the execution still
-- waits, and the delivery is acknowledged.
failing_run :
    let w = final (handle_delivery first_delivery failing_env first_world) in
    (status_of "run-1" w.db ≡ some ExecutionStatus.pending)
    × (w.settled ≡ acked ∷ [])
    × (routing_keys w.sent ≡ "workflow.execution.requested.retry.10s" ∷ [])
unfolding effects outbox_code graph_code nodes_code definition_code execute_workflow_nodes
    execution_output ordered_nodes parse_definition invalid_definition assert_no_simulated_failure
    run_nodes begin_node on_node_failure attempt_node publish_event fail_node_execution
    complete_node_execution failed_run completed_run write_run require_run upsert_running new_run
    restarted map_rows node_type process_workflow_execution process_found run_and_complete
    after_completion after_missed_completion resume_running start_pending after_start after_conflict
    find_execution to_failed to_succeeded to_running transition handle_delivery handle_parsed
    handle_error on_failure give_up parse_command read_command retry_attempt
    execution_started_message execution_completed_message execution_failed_message
    node_started_message node_completed_message node_failed_message publish_retry_command publish_to
    retry_publication record_succeeded record_failed normalize_worker_failure as_record
    routing_key_text
failing_run = (refl, refl, refl)
