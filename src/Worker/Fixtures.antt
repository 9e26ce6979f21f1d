-- ===== src/Worker/Fixtures.antt =====
-- What the runs and the tests of the worker start from: a definition of a trigger and a transform node,
-- one execution of it that waits, and the delivery that asks for it.
use vigil_summit_agent.Prelude.{
  ℕ, zero, suc, String, false, none, some, [], ◌∷◌, ◌=ₛ◌, ◌<>◌, if◌then◌else◌,
}
use vigil_summit_agent.Json.{whole, num, str, obj, Fields, end, field}
use vigil_summit_agent.Contracts.Workflow.{
  manual_trigger, transform_action, passthrough, Definition,
}
use vigil_summit_agent.Engagement.Tables.{
  Services, Tables, enrichment_broken, email_refused, draft_refused,
}
use vigil_summit_agent.Worker.State.{
  ExecutionStatus, Execution, Db, World, others, fault, accepted, refused, unreachable, other_error,
  Env,
}
use vigil_summit_agent.Worker.Command.{Delivery}

abbrev pub two_nodes : Definition
two_nodes = record {
  nodes =
      record { id = "start"; config = manual_trigger }
      ∷ record { id = "copy"; config = transform_action passthrough none }
      ∷ [];
  edges = record { id = "e1"; source = "start"; target = "copy" } ∷ [];
}

abbrev pub marks : ℕ → String
marks zero = ""
marks (suc n) = "x" <> marks n

abbrev pub command_body : Fields
command_body = field "eventName" (str "workflow.execution.requested") (
    field "eventId" (str "event-1") (
      field "schemaVersion" (num (whole 1)) (
        field "occurredAt" (str "2026-01-01T00:00:00.000Z") (
          field "workspaceId" (str "space-1") (
            field "correlationId" (str "correlation-1") (
              field "producer" (str "api") (
                field "payload"
                  (obj (
                    field "workflowId" (str "flow-1") (
                      field "workflowVersion" (num (whole 1)) (
                        field "executionId" (str "run-1") (
                          field "requestedBy"
                            (obj (field "type" (str "user") (field "id" (str "user-1") end)))
                            (field "input" (obj (field "topic" (str "hello") end)) end))))))
                  end)))))))

abbrev pub quiet_services : Services
quiet_services = record {
  provider_name = "synthetic";
  provider_version = "1";
  enrich = λ n input. enrichment_broken "no provider";
  send_email = λ n email. email_refused "no provider";
  text_ops = record {
    normalize = λ s. s;
    contains = λ a b. a =ₛ b;
    first_number = λ s. none;
    is_target_industry = λ s. false;
    is_positive = λ n. false;
    is_at_least = λ n m. false;
  };
  local_hour = λ zone t. 12;
  row_id = λ n label. label;
  random_token = λ n. "token";
  sha256 = λ s. s;
  first_word = λ s. s;
  slice = λ n s. s;
  public_url = "http://localhost:5173";
  ai_provider = "deterministic";
  ask_draft = λ n context. draft_refused "no orchestrator";
}

abbrev pub no_tables : Tables
no_tables = record {
  leads = [];
  events = [];
  registrations = [];
  snapshots = [];
  qualifications = [];
  consents = [];
  suppressions = [];
  meetings = [];
  conversations = [];
  enrollments = [];
  actions = [];
  signals = [];
  messages = [];
  decisions = [];
  tokens = [];
}

abbrev pub quiet_env : Env
quiet_env = record {
  turn = λ n. others (λ d. d);
  broker = λ n. accepted;
  clock = λ n. n;
  uuid = marks;
  simulate_failures = false;
  parse_json = λ text. if text =ₛ "command" then some (obj command_body) else none;
  parse_int = λ text. none;
  definition_shape = λ j. some two_nodes;
  run_prompt = λ n request. refused (other_error "no orchestrator");
  http_request = λ n method url headers body. unreachable "no network";
  text_of = λ j. "";
  number_less = λ a b. false;
  text_includes = λ a b. false;
  services = quiet_services;
}

-- The same, where the first database call fails.
abbrev pub failing_env : Env
failing_env = record quiet_env {
  turn = λ n. elim n [ suc zero ↦ fault "connection lost" | _ ↦ others (λ d. d) ];
}

abbrev pub waiting : Execution
waiting = record {
  id = "run-1";
  status = ExecutionStatus.pending;
  definition = obj end;
  started_at = none;
  completed_at = none;
  output = none;
  error = none;
}

abbrev pub first_db : Db
first_db = record {
  executions = λ id. if id =ₛ "run-1" then some waiting else none;
  node_executions = [];
  outbox = [];
  traces = [];
  engagement = no_tables;
}

abbrev pub first_world : World
first_world = record { db = first_db; sent = []; emails = []; settled = []; step = 0 }

abbrev pub first_delivery : Delivery
first_delivery = record {
  content = "command";
  routing_key = "workflow.execution.requested";
  message_id = some "event-1";
  type = some "workflow.execution.requested";
  headers = none;
}
