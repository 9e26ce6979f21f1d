-- ===== src/Worker/Execution/Safe.antt =====
-- The code of an execution's life and of the delivery handler keeps every guarantee that the
-- transitions keep.
use vigil_summit_agent.Prelude.{ℕ, String, Option, none, some, List}
use vigil_summit_agent.Json.{Fields}
use vigil_summit_agent.Contracts.Message.{
  RoutingKey, workflow_execution_started, workflow_execution_completed, workflow_execution_failed,
  Failure, Message, Command,
}
use vigil_summit_agent.Worker.State.{Execution, OutboxMessage, Settlement, Db}
use vigil_summit_agent.Worker.Effects.{access}
use vigil_summit_agent.Worker.Keeps.{
  Guarantee, Keeps, Keeps-access, Keeps-pure, Keeps-throw, keeps_rules,
}
use vigil_summit_agent.Worker.Outbox.{
  persist_outbox_event, dispatch_outbox_event, dispatch_pending_execution_outbox,
}
use vigil_summit_agent.Worker.Outbox.Rows.{
  Keeps-dispatch_outbox_event, Keeps-dispatch_pending_execution_outbox, Keeps-read,
}
use vigil_summit_agent.Worker.Safe.{NodesSafe, Keeps-execute_workflow_nodes}
use vigil_summit_agent.Worker.Events.{
  execution_started_message, execution_completed_message, execution_failed_message,
}
use vigil_summit_agent.Worker.Execution.{
  is_pending, is_running, is_open, transition, to_running, to_succeeded, to_failed, find_execution,
  after_conflict, after_start, start_pending, resume_running, after_missed_completion,
  after_completion, run_and_complete, process_found, process_workflow_execution,
  after_missed_failure, after_failure, fail_workflow_execution,
}

-- The three transactions of an execution's life.
pub record WorkerSafe (G : Guarantee) : Type 0 where
  pub nodes : NodesSafe G
  pub started :
      (message : Command) (event_id row_id : String) (at : ℕ) (d : Db) (s : List Settlement)
      → G.rel
          (d, s)
          (
            (transition message.execution_id is_pending
                (to_running at)
                row_id
                workflow_execution_started
                (execution_started_message message event_id at)
                d).1,
            s,
          )
  pub completed :
      (message : Command) (event_id row_id : String) (output : Fields) (a b : ℕ) (d : Db)
      (s : List Settlement)
      → G.rel
          (d, s)
          (
            (transition message.execution_id is_running
                (to_succeeded output b)
                row_id
                workflow_execution_completed
                (execution_completed_message message event_id output a b)
                d).1,
            s,
          )
  pub failed :
      (message : Command) (event_id row_id : String) (failure : Failure) (at : ℕ) (d : Db)
      (s : List Settlement)
      → G.rel
          (d, s)
          (
            (transition message.execution_id is_open
                (to_failed failure at)
                row_id
                workflow_execution_failed
                (execution_failed_message message event_id failure at)
                d).1,
            s,
          )

module _ {G : Guarantee} (safe : WorkerSafe G) where
  pub Keeps-dispatch : (row : OutboxMessage) → Keeps G (dispatch_outbox_event row)
  Keeps-dispatch = Keeps-dispatch_outbox_event safe.nodes.outbox

  pub Keeps-pending : (id : String) → Keeps G (dispatch_pending_execution_outbox id)
  Keeps-pending = Keeps-dispatch_pending_execution_outbox safe.nodes.outbox

  pub Keeps-persist :
      (id : String) (key : RoutingKey) (m : Message)
      → Keeps G (access (persist_outbox_event id key m))
  Keeps-persist id key m = Keeps-access _ (safe.nodes.persist id key m)

  pub Keeps-find_execution : (id : String) → Keeps G (find_execution id)
  unfolding find_execution
  Keeps-find_execution id = Keeps-read safe.nodes.outbox (λ d. d.executions id)

  Keeps-after_conflict : (id : String) (o : Option Execution) → Keeps G (after_conflict id o)
  unfolding after_conflict
  Keeps-after_conflict id none = search (keeps_rules, Keeps-pending)
  Keeps-after_conflict id (some e) = search (keeps_rules, Keeps-pending)

  Keeps-after_start :
      (id : String) (e : Execution) (at : ℕ) (o : Option OutboxMessage)
      → Keeps G (after_start id e at o)
  unfolding after_start
  Keeps-after_start id e at none = search (keeps_rules, Keeps-find_execution, Keeps-after_conflict)
  Keeps-after_start id e at (some row) = search (keeps_rules, Keeps-dispatch)

  pub Keeps-started :
      (message : Command) (event_id row_id : String) (at : ℕ)
      → Keeps G (
          access (
            transition message.execution_id is_pending
              (to_running at)
              row_id
              workflow_execution_started
              (execution_started_message message event_id at)))
  Keeps-started message event_id row_id at =
      Keeps-access _ (safe.started message event_id row_id at)

  pub Keeps-completed :
      (message : Command) (event_id row_id : String) (output : Fields) (a b : ℕ)
      → Keeps G (
          access (
            transition message.execution_id is_running
              (to_succeeded output b)
              row_id
              workflow_execution_completed
              (execution_completed_message message event_id output a b)))
  Keeps-completed message event_id row_id output a b =
      Keeps-access _ (safe.completed message event_id row_id output a b)

  pub Keeps-failed :
      (message : Command) (event_id row_id : String) (failure : Failure) (at : ℕ)
      → Keeps G (
          access (
            transition message.execution_id is_open
              (to_failed failure at)
              row_id
              workflow_execution_failed
              (execution_failed_message message event_id failure at)))
  Keeps-failed message event_id row_id failure at =
      Keeps-access _ (safe.failed message event_id row_id failure at)

  Keeps-start_pending :
      (message : Command) (e : Execution) (at : ℕ) → Keeps G (start_pending message e at)
  unfolding start_pending
  Keeps-start_pending message e at = search (keeps_rules, Keeps-started, Keeps-after_start) depth 10

  pub Keeps-resume_running :
      (message : Command) (e : Execution) (at : ℕ) → Keeps G (resume_running message e at)
  unfolding resume_running
  Keeps-resume_running message e at = search (keeps_rules, Keeps-persist, Keeps-dispatch) depth 10

  Keeps-after_missed_completion :
      (id : String) (o : Option Execution) → Keeps G (after_missed_completion id o)
  unfolding after_missed_completion
  Keeps-after_missed_completion id none = Keeps-throw _
  Keeps-after_missed_completion id (some e) = search (keeps_rules, Keeps-pending)

  Keeps-after_completion :
      (id : String) (o : Option OutboxMessage) → Keeps G (after_completion id o)
  unfolding after_completion
  Keeps-after_completion id none =
      search (keeps_rules, Keeps-find_execution, Keeps-after_missed_completion)
  Keeps-after_completion id (some row) = Keeps-dispatch row

  Keeps-run_and_complete :
      (message : Command) (at : ℕ) (o : Option Execution) → Keeps G (run_and_complete message at o)
  unfolding run_and_complete
  Keeps-run_and_complete message at none = Keeps-pure tt
  Keeps-run_and_complete message at (some e) =
      search
        (
          keeps_rules,
          Keeps-execute_workflow_nodes safe.nodes,
          Keeps-completed,
          Keeps-after_completion,
        )
        depth 14

  Keeps-process_found :
      (message : Command) (at : ℕ) (o : Option Execution) → Keeps G (process_found message at o)
  unfolding process_found
  Keeps-process_found message at none = Keeps-throw _
  Keeps-process_found message at (some e) =
      search
        (
          keeps_rules, Keeps-pending, Keeps-start_pending, Keeps-resume_running,
          Keeps-run_and_complete,
        )
        depth 10

  pub Keeps-process_workflow_execution :
      (message : Command) → Keeps G (process_workflow_execution message)
  unfolding process_workflow_execution
  Keeps-process_workflow_execution message =
      search (keeps_rules, Keeps-find_execution, Keeps-process_found) depth 10

  Keeps-after_missed_failure :
      (id : String) (o : Option Execution) → Keeps G (after_missed_failure id o)
  unfolding after_missed_failure
  Keeps-after_missed_failure id none = Keeps-throw _
  Keeps-after_missed_failure id (some e) = search (keeps_rules, Keeps-pending)

  Keeps-after_failure : (id : String) (o : Option OutboxMessage) → Keeps G (after_failure id o)
  unfolding after_failure
  Keeps-after_failure id none =
      search (keeps_rules, Keeps-find_execution, Keeps-after_missed_failure)
  Keeps-after_failure id (some row) = Keeps-dispatch row

  pub Keeps-fail_workflow_execution :
      (message : Command) (failure : Failure) → Keeps G (fail_workflow_execution message failure)
  unfolding fail_workflow_execution
  Keeps-fail_workflow_execution message failure =
      search (keeps_rules, Keeps-failed, Keeps-after_failure) depth 12
