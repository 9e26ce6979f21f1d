-- ===== src/Api/Workflows/Requests.antt =====
-- What the execution worker reads of a request that the API publishes.
use vigil_summit_agent.Prelude.{String, Option, some, [], ◌∷◌, ◌++◌, ◌≡◌, refl, get_or_else, ◌<>◌}
use vigil_summit_agent.Json.{Fields, end, as_record}
use vigil_summit_agent.Contracts.Message.{routing_key_text}
use vigil_summit_agent.Worker.Command.{read_command}
use vigil_summit_agent.Api.Workflows.{
  Publishing, confirmed, unconfirmed, unsent, Version, Workflow, Requested, Store, Result, success,
  publish_failed, Fresh, current_version, find_workflow, requested_message, request_execution,
}

-- What a request leaves behind, for a workflow with a current version: the row of the execution, and,
-- the command that was sent for it, if it was sent.
abbrev pub Asked :
    Fresh
    → Workflow
    → Version
    → Fields
    → String
    → Publishing
    → Store
    → Result Requested × Store
    → Type 0
Asked fresh w v input actor answer before r =
    (e : Requested) × (r.1.executions ≡ before.executions ++ e ∷ [])
    × (e ≡ record {
      id = fresh.row_id;
      workspace_id = w.workspace_id;
      workflow_id = w.id;
      version_id = v.id;
      requested_by = actor;
      input = input;
    })
    × Published answer e
  where
    message : Requested → Fields
    message e = requested_message fresh e v.version actor

    -- The command is sent, and the execution worker reads it.
    Sent : Requested → Type 0
    Sent e =
        (r.1.published ≡ before.published ++ message e ∷ [])
        × (read_command (message e)
            ≡ some (record {
              body = message e;
              event_id = fresh.event_id;
              occurred_at = fresh.at;
              workspace_id = w.workspace_id;
              correlation_id = "workflow-execution:" <> fresh.row_id;
              workflow_id = w.id;
              execution_id = fresh.row_id;
              input = input;
            }))

    Published : Publishing → Requested → Type 0
    Published confirmed e = (r.0 ≡ success e) × Sent e
    Published unconfirmed e = (r.0 ≡ publish_failed "publish failed") × Sent e
    Published unsent e =
        (r.0 ≡ publish_failed "publish failed") × (r.1.published ≡ before.published)

-- A request for a workflow that has a version always stores one PENDING execution of the current
-- version. Where the broker confirms, the call returns the execution, and the command that was sent passes
-- the guard of the execution worker, which reads back the workspace, the workflow, the execution and its
-- input. Where the command is given to the channel and not confirmed, the call fails, but the same
-- command was sent; where it is not given to the channel, the call fails and nothing is sent. In both of
-- these the row stays.
pub request_execution-asks :
    (fresh : Fresh) (answer : Publishing) (workspace_id id : String) (input : Option Fields)
    (actor : String) (store : Store) (w : Workflow) (v : Version)
    → find_workflow workspace_id id store.workflows ≡ some w
    → current_version w.versions ≡ some v
    → Asked fresh w v
        (get_or_else input end)
        actor
        answer
        store
        (request_execution fresh answer workspace_id id input actor store)
unfolding request_execution requested_message read_command routing_key_text as_record
request_execution-asks fresh confirmed workspace_id id input actor store w v found current =
    rw (found, current) (_, refl, refl, (refl, (refl, refl)))
request_execution-asks fresh unconfirmed workspace_id id input actor store w v found current =
    rw (found, current) (_, refl, refl, (refl, (refl, refl)))
request_execution-asks fresh unsent workspace_id id input actor store w v found current =
    rw (found, current) (_, refl, refl, (refl, refl))
