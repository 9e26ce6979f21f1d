-- ===== src/Api/Tests.antt =====
-- The theorems about the API at concrete inputs.
use vigil_summit_agent.Prelude.{none, some, [], ◌∷◌, ◌≡◌, refl, arith}
use vigil_summit_agent.Json.{null, str, end, field}
use vigil_summit_agent.Api.Workflows.{
  confirmed, Version, Workflow, Store, Fresh, find_workflow, current_version, restore_version,
  request_execution,
}
use vigil_summit_agent.Api.Workflows.Versions.{Appended, restore_version-appends}
use vigil_summit_agent.Api.Workflows.Requests.{Asked, request_execution-asks}

abbrev first_version : Version
first_version = record { id = "version-1"; version = 1; definition = str "first" }

abbrev second_version : Version
second_version = record { id = "version-2"; version = 2; definition = null }

abbrev workflow : Workflow
workflow = record {
  id = "flow-1";
  workspace_id = "space-1";
  name = "Welcome";
  slug = "welcome";
  description = none;
  status = "DRAFT";
  versions = first_version ∷ second_version ∷ [];
}

abbrev store : Store
store = record { workflows = workflow ∷ []; executions = []; published = [] }

abbrev fresh : Fresh
fresh = record {
  row_id = "run-1";
  version_id = "version-3";
  event_id = "event-1";
  at = "2026-01-01T00:00:00.000Z";
}

workflow_is_found : find_workflow "space-1" "flow-1" store.workflows ≡ some workflow
unfolding find_workflow
workflow_is_found = refl

second_is_current : current_version workflow.versions ≡ some second_version
unfolding current_version
second_is_current = refl

restore_version-appends_example :
    Appended fresh
      (str "first")
      workflow
      store
      (restore_version fresh "space-1" "flow-1" "version-1" store)
restore_version-appends_example =
    restore_version-appends fresh "space-1" "flow-1" "version-1" store workflow first_version
      workflow_is_found refl ((refl, (refl, tt)), omega arith)

request_execution-asks_example :
    Asked fresh workflow second_version (field "topic" (str "hello") end) "user-1" confirmed store (
      request_execution fresh confirmed "space-1" "flow-1"
        (some (field "topic" (str "hello") end))
        "user-1"
        store)
request_execution-asks_example =
    request_execution-asks fresh confirmed "space-1" "flow-1"
      (some (field "topic" (str "hello") end)) "user-1" store workflow second_version
      workflow_is_found second_is_current
