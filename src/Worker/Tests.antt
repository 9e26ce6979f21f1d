-- ===== src/Worker/Tests.antt =====
-- The theorems about the worker at concrete inputs.
use vigil_summit_agent.Prelude.{none, false, String, refl, some, [], ◌∷◌, ◌≡◌, ◌⊎◌, arith}
use vigil_summit_agent.Json.{obj, get, str, end, field}
use vigil_summit_agent.Worker.State.{Content, lifecycle, command, raw, World, acked, requeued}
use vigil_summit_agent.Worker.Effects.{final, ok}
use vigil_summit_agent.Worker.Triples.{Post}
use vigil_summit_agent.Worker.Outbox.Rows.{Extends, Extends-refl}
use vigil_summit_agent.Worker.Execution.Rows.{Advanced, Later-refl, Recorded}
use vigil_summit_agent.Worker.Command.{Delivery, header, parse_command, retry_attempt}
use vigil_summit_agent.Worker.Delivery.{handle_delivery}
use vigil_summit_agent.Worker.Delivery.Guarantees.{
  handle_delivery-Advanced, handle_delivery-Recorded, handle_delivery-Extends,
}
use vigil_summit_agent.Worker.Delivery.Accounted.{Done, handle_delivery-accounted}
use vigil_summit_agent.Worker.Delivery.Returns.{handle_delivery-returns}
use vigil_summit_agent.Json.{as_record}
use vigil_summit_agent.Contracts.Message.{
  Failure, Command, Message, workflow_execution_started, routing_key_text,
}
use vigil_summit_agent.Worker.Command.{read_command}
use vigil_summit_agent.Worker.Command.Redelivery.{retry_publication-read}
use vigil_summit_agent.Worker.Delivery.{RetryQueue, retry_publication}
use vigil_summit_agent.Worker.Delivery.Live.{handle_delivery-Live}
use vigil_summit_agent.Worker.Events.{
  execution_started_message, execution_completed_message, execution_failed_message,
}
use vigil_summit_agent.Worker.Outbox.{
  key_of, persist_outbox_event, dispatch_pending_outbox_messages,
}
use vigil_summit_agent.Worker.Outbox.Live.{Live}
use vigil_summit_agent.Worker.Outbox.Unique.{Unique}
use vigil_summit_agent.Worker.Delivery.Once.{handle_delivery-Unique}
use vigil_summit_agent.Worker.Outbox.Persist.{persist_outbox_event_idem}
use vigil_summit_agent.Worker.Outbox.Dispatch.{
  Counted, QueryFailed, dispatch_pending_outbox_messages-counts,
}
use vigil_summit_agent.Worker.Fixtures.{
  command_body, quiet_env, first_db, first_world, first_delivery,
}

first_db-Recorded : Recorded first_db
first_db-Recorded id e h = ground arith

handle_delivery-Advanced_example :
    Advanced first_db (final (handle_delivery first_delivery quiet_env first_world)).db
handle_delivery-Advanced_example =
    handle_delivery-Advanced first_delivery quiet_env first_world
      (record { at = λ n d s id e h. (e, h, Later-refl e) })

handle_delivery-Recorded_example :
    Recorded (final (handle_delivery first_delivery quiet_env first_world)).db
handle_delivery-Recorded_example =
    handle_delivery-Recorded first_delivery quiet_env first_world (record { at = λ n d s r. r })
      first_db-Recorded

handle_delivery-Extends_example :
    Extends [] (final (handle_delivery first_delivery quiet_env first_world)).db.outbox
handle_delivery-Extends_example =
    handle_delivery-Extends first_delivery quiet_env first_world
      (record { at = λ n d s. Extends-refl d.outbox })

handle_delivery-accounted_example :
    Post
      (λ u w'.
        (w'.settled ≡ requeued ∷ [])
        ⊎ ((w'.settled ≡ acked ∷ [])
            × Done
                (retry_attempt quiet_env first_delivery)
                first_delivery
                (parse_command quiet_env first_delivery)
                w'))
      (λ e w'. w'.settled ≡ [])
      (handle_delivery first_delivery quiet_env first_world)
handle_delivery-accounted_example =
    handle_delivery-accounted first_delivery quiet_env first_world
      (record { at = λ n d s id e h. (e, h, Later-refl e) }) refl

handle_delivery-returns_example :
    (w' : World) × (handle_delivery first_delivery quiet_env first_world ≡ ok tt w')
handle_delivery-returns_example =
    handle_delivery-returns first_delivery quiet_env first_world (λ n. tt)

handle_delivery-Live_example :
    Live (final (handle_delivery first_delivery quiet_env first_world)).db
    × Live (final (dispatch_pending_outbox_messages 25 quiet_env first_world)).db
handle_delivery-Live_example =
    handle_delivery-Live first_delivery 25 quiet_env first_world (record { at = λ n d s l. l }) tt

abbrev first_command : Command
first_command = record {
  body = command_body;
  event_id = "event-1";
  occurred_at = "2026-01-01T00:00:00.000Z";
  workspace_id = "space-1";
  correlation_id = "correlation-1";
  workflow_id = "flow-1";
  execution_id = "run-1";
  input = field "topic" (str "hello") end;
}

abbrev second_queue : RetryQueue
second_queue = record {
  queue = "flowpilot.retry.execution-worker.workflow-executions.1m";
  routing_key = "workflow.execution.requested.retry.1m";
  ttl_ms = 60000;
}

first_is_read : parse_command quiet_env first_delivery ≡ some first_command
unfolding parse_command read_command as_record routing_key_text
first_is_read = refl

abbrev second_delivery : Delivery
second_delivery = record first_delivery {
  headers =
      some (field "x-death" (obj end) (retry_publication first_command 2 second_queue).headers);
}

-- The texts of the contents: that of a command's body is the first delivery's.
abbrev text_of_body : Content → String
text_of_body (command fs) = first_delivery.content
text_of_body (raw s) = s
text_of_body (lifecycle m) = ""

retry_header_is_kept :
    header second_delivery.headers
    ≡ get (retry_publication first_command 2 second_queue).headers "x-flowpilot-retry-attempt"
unfolding retry_publication
retry_header_is_kept = refl

retry_publication-read_example :
    (parse_command quiet_env second_delivery ≡ some first_command)
    × (retry_attempt quiet_env second_delivery ≡ 2)
unfolding retry_publication
retry_publication-read_example =
    retry_publication-read quiet_env text_of_body first_delivery second_delivery first_command 2
      second_queue first_is_read refl refl retry_header_is_kept

abbrev started : Message
started = execution_started_message first_command "event-2" 7

persist_outbox_event_idem_example :
    persist_outbox_event "row-2" workflow_execution_started started
      (persist_outbox_event "row-1" workflow_execution_started started first_db).1
    ≡ persist_outbox_event "row-1" workflow_execution_started started first_db
persist_outbox_event_idem_example =
    persist_outbox_event_idem "row-1" "row-2" workflow_execution_started workflow_execution_started
      started started first_db refl

dispatch_pending_outbox_messages-counts_example :
    Post
      (Counted 25)
      (QueryFailed quiet_env first_world)
      (dispatch_pending_outbox_messages 25 quiet_env first_world)
dispatch_pending_outbox_messages-counts_example =
    dispatch_pending_outbox_messages-counts 25 quiet_env first_world

abbrev failure : Failure
failure = record { code = "code"; message = "text"; retryable = false; response_body = none }

handle_delivery-Unique_example :
    Unique (final (handle_delivery first_delivery quiet_env first_world)).db.outbox
    × Unique (final (dispatch_pending_outbox_messages 25 quiet_env first_world)).db.outbox
    × (key_of (execution_started_message first_command "event-2" 7)
        ≡ "workflow.execution.started:run-1")
    × (key_of (execution_completed_message first_command "event-2" end 5 7)
        ≡ "workflow.execution.completed:run-1")
    × (key_of (execution_failed_message first_command "event-2" failure 7)
        ≡ "workflow.execution.failed:run-1")
handle_delivery-Unique_example =
    handle_delivery-Unique first_delivery 25 quiet_env first_world first_command "event-2" end
      failure 5 7 (record { at = λ n d s u. u }) tt
