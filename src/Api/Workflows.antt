-- ===== src/Api/Workflows.antt =====
-- The writing methods of `WorkflowsService` in apps/api/src/modules/workflows/workflows.service.ts, and
-- the reads that they share. Ids, times and the answer of the broker are arguments; the times of
-- creation and of update are left out.
pub mod Versions
pub mod Requests
use vigil_summit_agent.Prelude.{
  ℕ, ◌+◌, String, Bool, true, false, not, Option, none, some, List, [], ◌∷◌, ◌++◌, ◌&&◌, ◌=ₛ◌, ◌<>◌,
  ltb, if◌then◌else◌, find, any, map, get_or_else,
}
use vigil_summit_agent.Json.{whole, Json, num, str, obj, Fields, end, field}

-- `WorkflowVersion`
pub record Version : Type 0 where
  pub id : String
  pub version : ℕ
  pub definition : Json

-- `Workflow`, with its versions
pub record Workflow : Type 0 where
  pub id : String
  pub workspace_id : String
  pub name : String
  pub slug : String
  pub description : Option String
  pub status : String
  pub versions : List Version

-- The columns of a `WorkflowExecution` that `requestExecution` writes; the status is PENDING.
pub record Requested : Type 0 where
  pub id : String
  pub workspace_id : String
  pub workflow_id : String
  pub version_id : String
  pub requested_by : String
  pub input : Fields

-- The tables, and the messages that were given to the channel.
pub record Store : Type 0 where
  pub workflows : List Workflow
  pub executions : List Requested
  pub published : List Fields

-- What a method returns, or the exception that it throws.
pub data Result (A : Type 0) : Type 0 where
  success : A → Result A
  not_found conflict publish_failed : String → Result A

-- `orderBy: { version: "desc" }, take: 1`
abbrev pub newer : Version → Option Version → Version
newer v none = v
newer v (some u) = if ltb u.version v.version then v else u

unfoldable pub current_version : List Version → Option Version
current_version [] = none
current_version (v ∷ vs) = some (newer v (current_version vs))

-- `toWorkflowResponse`
pub record Response : Type 0 where
  pub id : String
  pub workspace_id : String
  pub name : String
  pub slug : String
  pub description : Option String
  pub status : String
  pub current : Version

abbrev response_with : Workflow → Option Version → Result Response
response_with w none = not_found "Workflow version not found"
response_with w (some v) = success (record {
  id = w.id;
  workspace_id = w.workspace_id;
  name = w.name;
  slug = w.slug;
  description = w.description;
  status = w.status;
  current = v;
})

unfoldable pub to_response : Workflow → Result Response
to_response w = response_with w (current_version w.versions)

-- `workflow.findFirst({ where: { id, workspaceId } })`
unfoldable pub find_workflow : String → String → List Workflow → Option Workflow
find_workflow workspace_id id workflows =
    find (λ w. w.id =ₛ id && w.workspace_id =ₛ workspace_id) workflows

-- The unique constraint on the workspace and the slug
abbrev pub slug_taken : String → String → String → List Workflow → Bool
slug_taken id workspace_id slug workflows =
    any (λ w. not (w.id =ₛ id) && w.workspace_id =ₛ workspace_id && w.slug =ₛ slug) workflows

abbrev pub update_workflow : String → (Workflow → Workflow) → List Workflow → List Workflow
update_workflow id f workflows = map (λ w. if w.id =ₛ id then f w else w) workflows

-- The new ids and the time of a call.
pub record Fresh : Type 0 where
  pub row_id : String
  pub version_id : String
  pub event_id : String
  pub at : String

-- `CreateWorkflowDto`
pub record CreateWorkflow : Type 0 where
  pub name : String
  pub slug : String
  pub description : Option String
  pub definition : Option Json

abbrev user : String → Json
user id = obj (field "type" (str "user") (field "id" (str id) end))

-- The envelope of the messages of the API
abbrev envelope : String → String → Fresh → String → String → String → String → Fields → Fields
envelope name event_id fresh workspace_id correlation actor key payload =
    field "eventName" (str name) (
      field "eventId" (str event_id) (
        field "schemaVersion" (num (whole 1)) (
          field "occurredAt" (str fresh.at) (
            field "workspaceId" (str workspace_id) (
              field "correlationId" (str correlation) (
                field "producer" (str "api") (
                  field "actor" (user actor)
                    (field "idempotencyKey" (str key) (field "payload" (obj payload) end)))))))))

-- `createWorkflowCreatedMessage`
unfoldable pub created_message : Fresh → Response → String → Fields
created_message fresh r actor =
    envelope "workflow.created" fresh.event_id fresh r.workspace_id ("workflow:" <> r.id) actor
      ("workflow.created:" <> r.id)
      (field "workflowId" (str r.id) (
        field "workflowVersionId" (str r.current.id) (
          field "version" (num (whole r.current.version)) (
            field "name" (str r.name)
              (field "slug" (str r.slug) (field "status" (str r.status) end))))))

-- `createWorkflowExecutionRequestedMessage`
unfoldable pub requested_message : Fresh → Requested → ℕ → String → Fields
requested_message fresh e version actor =
    envelope "workflow.execution.requested" fresh.event_id fresh e.workspace_id
      ("workflow-execution:" <> e.id) actor ("workflow.execution.requested:" <> e.id)
      (field "workflowId" (str e.workflow_id) (
        field "workflowVersion" (num (whole version)) (
          field "executionId" (str e.id)
            (field "requestedBy" (user actor) (field "input" (obj e.input) end)))))

-- How `publishEvent` ends: the broker confirms; or the message is given to the channel and the wait for
-- the confirmation throws; or it throws before that.
pub data Publishing : Type 0 where
  confirmed unconfirmed unsent : Publishing

-- `publishEvent`, and what follows it: a message that is not confirmed was sent all the same.
abbrev publish_then : {A : Type 0} → Publishing → Fields → A → Store → Result A × Store
publish_then confirmed message a store =
    (success a, record store { published = store.published ++ message ∷ [] })
publish_then unconfirmed message a store =
    (publish_failed "publish failed", record store { published = store.published ++ message ∷ [] })
publish_then unsent message a store = (publish_failed "publish failed", store)

abbrev announce : Publishing → Fresh → String → Result Response → Store → Result Response × Store
announce answer fresh actor (success r) store =
    publish_then answer (created_message fresh r actor) r store
announce answer fresh actor (not_found message) store = (not_found message, store)
announce answer fresh actor (conflict message) store = (conflict message, store)
announce answer fresh actor (publish_failed message) store = (publish_failed message, store)

abbrev new_workflow : Json → Fresh → String → CreateWorkflow → Workflow
new_workflow default_definition fresh workspace_id dto = record {
  id = fresh.row_id;
  workspace_id = workspace_id;
  name = dto.name;
  slug = dto.slug;
  description = dto.description;
  status = "DRAFT";
  versions =
      record {
        id = fresh.version_id;
        version = 1;
        definition = get_or_else dto.definition default_definition;
      }
      ∷ [];
}

-- `create`
unfoldable pub create :
    Json → Fresh → Publishing → String → CreateWorkflow → String → Store → Result Response × Store
create default_definition fresh answer workspace_id dto actor store =
    let w = new_workflow default_definition fresh workspace_id dto in
    if slug_taken fresh.row_id workspace_id dto.slug store.workflows
    then (conflict "Workflow slug already exists in this workspace", store)
    else announce answer fresh actor (to_response w)
        (record store { workflows = store.workflows ++ w ∷ [] })

-- `UpdateWorkflowDto`; `none` is `undefined`.
pub record UpdateWorkflow : Type 0 where
  pub name : Option String
  pub slug : Option String
  pub description : Option (Option String)
  pub status : Option String

abbrev pub apply_update : UpdateWorkflow → Workflow → Workflow
apply_update dto w = record w {
  name = get_or_else dto.name w.name;
  slug = get_or_else dto.slug w.slug;
  description = get_or_else dto.description w.description;
  status = get_or_else dto.status w.status;
}

abbrev update_found : String → UpdateWorkflow → Option Workflow → Store → Result Response × Store
update_found id dto none store = (not_found "Workflow not found", store)
update_found id dto (some w) store =
    if slug_taken id w.workspace_id (get_or_else dto.slug w.slug) store.workflows
    then (conflict "Workflow slug already exists in this workspace", store)
    else (
      to_response (apply_update dto w),
      record store { workflows = update_workflow id (apply_update dto) store.workflows },
    )

-- `updateMetadata`
unfoldable pub update_metadata : String → String → UpdateWorkflow → Store → Result Response × Store
update_metadata workspace_id id dto store =
    update_found id dto (find_workflow workspace_id id store.workflows) store

abbrev pub add_version : Version → Workflow → Workflow
add_version v w = record w { versions = w.versions ++ v ∷ [] }

-- The update that `createVersion` and `restoreVersion` share, after the current version was read
unfoldable pub append_version :
    Fresh → Json → Workflow → Option Version → Store → Result Response × Store
append_version fresh definition w none store = (not_found "Workflow version not found", store)
append_version fresh definition w (some current) store =
    let v : Version = record {
      id = fresh.version_id;
      version = current.version + 1;
      definition = definition;
    } in
    (
      to_response (add_version v w),
      record store { workflows = update_workflow w.id (add_version v) store.workflows },
    )

abbrev create_version_of : Fresh → Json → Option Workflow → Store → Result Response × Store
create_version_of fresh definition none store = (not_found "Workflow not found", store)
create_version_of fresh definition (some w) store =
    append_version fresh definition w (current_version w.versions) store

-- `createVersion`
unfoldable pub create_version : Fresh → String → String → Json → Store → Result Response × Store
create_version fresh workspace_id id definition store =
    create_version_of fresh definition (find_workflow workspace_id id store.workflows) store

abbrev restore_from : Fresh → Workflow → Option Version → Store → Result Response × Store
restore_from fresh w none store = (not_found "Workflow version not found", store)
restore_from fresh w (some source) store =
    append_version fresh source.definition w (current_version w.versions) store

abbrev restore_in : Fresh → String → Option Workflow → Store → Result Response × Store
restore_in fresh version_id none store = (not_found "Workflow not found", store)
restore_in fresh version_id (some w) store =
    restore_from fresh w (find (λ v. v.id =ₛ version_id) w.versions) store

-- `restoreVersion`
unfoldable pub restore_version : Fresh → String → String → String → Store → Result Response × Store
restore_version fresh workspace_id id version_id store =
    restore_in fresh version_id (find_workflow workspace_id id store.workflows) store

abbrev request_of :
    Fresh
    → Publishing
    → Option Fields
    → String
    → Workflow
    → Option Version
    → Store
    → Result Requested × Store
request_of fresh answer input actor w none store = (not_found "Workflow version not found", store)
request_of fresh answer input actor w (some v) store =
    let e : Requested = record {
      id = fresh.row_id;
      workspace_id = w.workspace_id;
      workflow_id = w.id;
      version_id = v.id;
      requested_by = actor;
      input = get_or_else input end;
    } in
    publish_then answer (requested_message fresh e v.version actor) e
      (record store { executions = store.executions ++ e ∷ [] })

abbrev request_in :
    Fresh → Publishing → Option Fields → String → Option Workflow → Store → Result Requested × Store
request_in fresh answer input actor none store = (not_found "Workflow not found", store)
request_in fresh answer input actor (some w) store =
    request_of fresh answer input actor w (current_version w.versions) store

-- `requestExecution`
unfoldable pub request_execution :
    Fresh → Publishing → String → String → Option Fields → String → Store → Result Requested × Store
request_execution fresh answer workspace_id id input actor store =
    request_in fresh answer input actor (find_workflow workspace_id id store.workflows) store
