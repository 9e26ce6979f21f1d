-- ===== src/Worker/Safe.antt =====
-- What a guarantee has to say of each database call of the worker, so that all of the worker's code
-- keeps it: one lemma for each function, whichever way it ends.
use vigil_summit_agent.Prelude.{ℕ, String, Option, none, some, List, [], ◌∷◌, insert}
use vigil_summit_agent.Json.{Fields}
use vigil_summit_agent.Contracts.Message.{RoutingKey, Failure, Message, Command}
use vigil_summit_agent.Contracts.Workflow.{
  Config, HttpMode, mock, real, HttpConfig, manual_trigger, transform_action, condition_action,
  http_request_action, ai_prompt_action, Node, Definition,
}
use vigil_summit_agent.Worker.State.{
  NodeExecution, Execution, OutboxMessage, AiTrace, Settlement, Db, Error, Reply, replied, refused,
  HttpReply, response, unreachable, Env,
}
use vigil_summit_agent.Worker.Effects.{access}
use vigil_summit_agent.Worker.Keeps.{
  Guarantee, Keeps, Keeps-access, Keeps-bind, Keeps-pure, Keeps-throw, Keeps-try_then, Keeps-now,
  Keeps-ask, keeps_rules,
}
use vigil_summit_agent.Worker.Outbox.{persist_outbox_event, dispatch_outbox_event}
use vigil_summit_agent.Worker.Outbox.Rows.{OutboxSafe, Keeps-dispatch_outbox_event}
use vigil_summit_agent.Worker.Nodes.{
  real_response, execute_http_request, from_reply, execute_config,
}
use vigil_summit_agent.Worker.Graph.{Order, ordered, unordered, no_fuel, Outputs, get_node_input}
use vigil_summit_agent.Worker.Trace.{
  insert_trace, publish_ai_trace_created, record_trace, record_succeeded, record_failed,
}
use vigil_summit_agent.Worker.NodeRuns.{
  upsert_running, require_run, write_run, complete_node_execution, fail_node_execution,
  publish_event, attempt_node, on_node_failure, begin_node, run_nodes, assert_no_simulated_failure,
  parse_definition, ordered_nodes, execute_workflow_nodes,
}

-- The database calls of the node loop and of the outbox.
pub record NodesSafe (G : Guarantee) : Type 0 where
  pub outbox : OutboxSafe G
  pub persist :
      (id : String) (key : RoutingKey) (m : Message) (d : Db) (s : List Settlement)
      → G.rel (d, s) ((persist_outbox_event id key m d).1, s)
  pub start_run :
      (message : Command) (node : Node) (input : Fields) (at : ℕ) (id : String) (d : Db)
      (s : List Settlement)
      → G.rel (d, s) ((upsert_running message node input at id d).1, s)
  pub end_run :
      (id : String) (f : NodeExecution → NodeExecution) (d : Db) (s : List Settlement)
      → G.rel (d, s) ((write_run id f d).1, s)
  pub trace : (t : AiTrace) (d : Db) (s : List Settlement) → G.rel (d, s) ((insert_trace t d).1, s)

module _ {G : Guarantee} (safe : NodesSafe G) where
  Keeps-dispatch : (row : OutboxMessage) → Keeps G (dispatch_outbox_event row)
  Keeps-dispatch = Keeps-dispatch_outbox_event safe.outbox

  Keeps-persist :
      (id : String) (key : RoutingKey) (m : Message)
      → Keeps G (access (persist_outbox_event id key m))
  Keeps-persist id key m = Keeps-access _ (safe.persist id key m)

  Keeps-publish_event : (key : RoutingKey) (f : String → Message) → Keeps G (publish_event key f)
  unfolding publish_event
  Keeps-publish_event key f = search (keeps_rules, Keeps-persist, Keeps-dispatch)

  Keeps-insert_trace : (t : AiTrace) → Keeps G (access (insert_trace t))
  Keeps-insert_trace t = Keeps-access _ (safe.trace t)

  Keeps-publish_ai_trace_created :
      (message : Command) (t : AiTrace) (at : ℕ) → Keeps G (publish_ai_trace_created message t at)
  unfolding publish_ai_trace_created
  Keeps-publish_ai_trace_created message t at = search (keeps_rules, Keeps-persist, Keeps-dispatch)

  Keeps-record_trace : (message : Command) (f : String → AiTrace) → Keeps G (record_trace message f)
  unfolding record_trace
  Keeps-record_trace message f =
      search (keeps_rules, Keeps-insert_trace, Keeps-publish_ai_trace_created)

  Keeps-record_succeeded :
      (message : Command) (node : Node) (c : Config) (id : String) (output : Fields) (a b : ℕ)
      → Keeps G (record_succeeded message node c id output a b)
  unfolding record_succeeded
  Keeps-record_succeeded message node (ai_prompt_action c) id output a b =
      Keeps-record_trace message _
  Keeps-record_succeeded message node _ id output a b = Keeps-pure tt

  Keeps-record_failed :
      (message : Command) (node : Node) (c : Config) (id : String) (failure : Failure) (a b : ℕ)
      → Keeps G (record_failed message node c id failure a b)
  unfolding record_failed
  Keeps-record_failed message node (ai_prompt_action c) id failure a b =
      Keeps-record_trace message _
  Keeps-record_failed message node _ id failure a b = Keeps-pure tt

  Keeps-require_run : (o : Option NodeExecution) → Keeps G (require_run o)
  unfolding require_run
  Keeps-require_run none = Keeps-throw _
  Keeps-require_run (some row) = Keeps-pure tt

  Keeps-write_run :
      (id : String) (f : NodeExecution → NodeExecution) → Keeps G (access (write_run id f))
  Keeps-write_run id f = Keeps-access _ (safe.end_run id f)

  Keeps-complete_node_execution :
      (id : String) (output : Fields) (at : ℕ) → Keeps G (complete_node_execution id output at)
  unfolding complete_node_execution
  Keeps-complete_node_execution id output at =
      search (keeps_rules, Keeps-write_run, Keeps-require_run)

  Keeps-fail_node_execution :
      (id : String) (failure : Failure) (at : ℕ) → Keeps G (fail_node_execution id failure at)
  unfolding fail_node_execution
  Keeps-fail_node_execution id failure at = search (keeps_rules, Keeps-write_run, Keeps-require_run)

  Keeps-real_response :
      (env : Env) (c : HttpConfig) (input : Fields) (a b : ℕ) (r : HttpReply)
      → Keeps G (real_response env c input a b r)
  unfolding real_response
  Keeps-real_response env c input a b (unreachable message) = Keeps-throw _
  Keeps-real_response env c input a b (response is_ok status headers text) = Keeps-pure _

  Keeps-execute_http_request :
      (c : HttpConfig) (mode : HttpMode) (input : Fields)
      → Keeps G (execute_http_request c mode input)
  unfolding execute_http_request
  Keeps-execute_http_request c mock input = Keeps-pure _
  Keeps-execute_http_request c real input = search (keeps_rules, Keeps-real_response)

  Keeps-from_reply : (r : Reply) → Keeps G (from_reply r)
  unfolding from_reply
  Keeps-from_reply (replied output) = Keeps-pure output
  Keeps-from_reply (refused e) = Keeps-throw e

  Keeps-execute_config :
      (message : Command) (id node_id : String) (c : Config) (input : Fields)
      → Keeps G (execute_config message id node_id c input)
  unfolding execute_config
  Keeps-execute_config message id node_id manual_trigger input = Keeps-pure input
  Keeps-execute_config message id node_id (transform_action mode keys) input = Keeps-pure _
  Keeps-execute_config message id node_id (condition_action c) input = Keeps-ask _
  Keeps-execute_config message id node_id (http_request_action c) input =
      Keeps-execute_http_request c c.mode input
  Keeps-execute_config message id node_id (ai_prompt_action c) input =
      search (keeps_rules, Keeps-from_reply)

  Keeps-attempt_node :
      (message : Command) (node : Node) (id : String) (input : Fields) (at : ℕ)
      → Keeps G (attempt_node message node id input at)
  unfolding attempt_node
  Keeps-attempt_node message node id input at =
      search
        (
          keeps_rules, Keeps-execute_config, Keeps-complete_node_execution, Keeps-record_succeeded,
          Keeps-publish_event,
        )
        depth 12

  Keeps-on_node_failure :
      {A : Type 0} (message : Command) (node : Node) (id : String) (at : ℕ) (e : Error)
      → Keeps G (on_node_failure {A = A} message node id at e)
  unfolding on_node_failure
  Keeps-on_node_failure message node id at e =
      search (keeps_rules, Keeps-fail_node_execution, Keeps-record_failed, Keeps-publish_event)
        depth 12

  Keeps-upsert_running :
      (message : Command) (node : Node) (input : Fields) (at : ℕ) (id : String)
      → Keeps G (access (upsert_running message node input at id))
  Keeps-upsert_running message node input at id =
      Keeps-access _ (safe.start_run message node input at id)

  Keeps-begin_node :
      (message : Command) (node : Node) (input : Fields) (at : ℕ)
      → Keeps G (begin_node message node input at)
  unfolding begin_node
  Keeps-begin_node message node input at =
      search (keeps_rules, Keeps-upsert_running, Keeps-publish_event) depth 10

  Keeps-run_nodes :
      (message : Command) (d : Definition) (nodes : List Node) (outputs : Outputs)
      (current : Fields)
      → Keeps G (run_nodes message d nodes outputs current)
  unfolding run_nodes
  Keeps-run_nodes message d [] outputs current = Keeps-pure current
  Keeps-run_nodes message d (node ∷ nodes) outputs current =
      let input = get_node_input node d outputs current in
      Keeps-bind _ _ Keeps-now (λ at. Keeps-bind _ _ (Keeps-begin_node message node input at) (λ id.
        Keeps-try_then _ _ _ (Keeps-attempt_node message node id input at)
          (λ output. Keeps-run_nodes message d nodes (insert node.id output outputs) output)
          (Keeps-on_node_failure message node id at)))

  Keeps-assert_no_simulated_failure :
      (message : Command) (env : Env) → Keeps G (assert_no_simulated_failure message env)
  unfolding assert_no_simulated_failure
  Keeps-assert_no_simulated_failure message env = search keeps_rules

  Keeps-parse_definition : (o : Option Definition) → Keeps G (parse_definition o)
  unfolding parse_definition
  Keeps-parse_definition none = Keeps-throw _
  Keeps-parse_definition (some d) = search keeps_rules

  Keeps-ordered_nodes : (o : Order) → Keeps G (ordered_nodes o)
  unfolding ordered_nodes
  Keeps-ordered_nodes (ordered nodes) = Keeps-pure nodes
  Keeps-ordered_nodes unordered = Keeps-throw _
  Keeps-ordered_nodes no_fuel = Keeps-throw _

  pub Keeps-execute_workflow_nodes :
      (message : Command) (e : Execution) → Keeps G (execute_workflow_nodes message e)
  unfolding execute_workflow_nodes
  Keeps-execute_workflow_nodes message e =
      search
        (
          keeps_rules, Keeps-assert_no_simulated_failure, Keeps-parse_definition,
          Keeps-ordered_nodes, Keeps-run_nodes,
        )
        depth 12
