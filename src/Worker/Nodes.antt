-- ===== src/Worker/Nodes.antt =====
-- apps/execution-worker/src/nodes: the executors of the five node types, and their dispatch.
use Prim.Native.Char.{Char, code}
use Prim.Native.String
use vigil_summit_agent.Prelude.{
  ℕ, String, Bool, true, false, not, Option, none, some, List, [], ◌∷◌, ◌++◌, ◌==◌, ◌=ₛ◌,
  if◌then◌else◌, get_or_else,
}
use vigil_summit_agent.Json.{
  whole, Json, null, bool, num, str, obj, Fields, end, field, get, set, as_record, from_entries,
  or_default,
}
use vigil_summit_agent.Contracts.Message.{Command, elapsed}
use vigil_summit_agent.Contracts.Workflow.{
  TransformMode, passthrough, pick, Operator, exists, equals, not_equals, contains, greater_than,
  less_than, HttpMode, mock, real, ConditionConfig, HttpConfig, PromptConfig, Config,
  manual_trigger, transform_action, condition_action, http_request_action, ai_prompt_action,
}
use vigil_summit_agent.Worker.State.{
  worker_error, Reply, replied, refused, HttpReply, response, unreachable, PromptRequest, Env,
}
use vigil_summit_agent.Worker.Effects.{M, pure, throw, ◌>>=◌, now, ask, call, effects}

abbrev push : String → Char → String
push s c = String.◌++◌ s (String.◌∷◌ c String.[])

-- `path.split(".")`, with the parts so far and the part that is being read.
unfoldable pub split_dots : List String → String → String → List String
split_dots parts cur String.[] = parts ++ cur ∷ []
split_dots parts cur (String.◌∷◌ c s) =
    split_dots (if code c == b'.' then parts ++ cur ∷ [] else parts)
      (if code c == b'.' then "" else push cur c) s

abbrev field_of : Option Fields → String → Option Json
field_of none key = none
field_of (some fs) key = get fs key

-- The `reduce` of `getValueByPath`.
unfoldable pub follow : Option Json → List String → Option Json
follow v [] = v
follow v (segment ∷ path) = follow (field_of (as_record v) segment) path

unfoldable pub get_value_by_path : Fields → String → Option Json
get_value_by_path input path = follow (some (obj input)) (split_dots [] "" path)

-- `x !== undefined && x !== null && x !== ""`
unfoldable pub is_present : Option Json → Bool
is_present none = false
is_present (some null) = false
is_present (some (str s)) = not (s =ₛ "")
is_present (some v) = true

unfoldable pub evaluate_condition : Env → Operator → Option Json → Option Json → Bool
evaluate_condition env exists actual expected = is_present actual
evaluate_condition env equals actual expected = env.text_of actual =ₛ env.text_of expected
evaluate_condition env not_equals actual expected = not (env.text_of actual =ₛ env.text_of expected)
evaluate_condition env contains actual expected =
    env.text_includes (env.text_of (some (or_default actual (str ""))))
      (env.text_of (some (or_default expected (str ""))))
evaluate_condition env greater_than actual expected = env.number_less expected actual
evaluate_condition env less_than actual expected = env.number_less actual expected

unfoldable pub operator_text : Operator → String
operator_text exists = "exists"
operator_text equals = "equals"
operator_text not_equals = "notEquals"
operator_text contains = "contains"
operator_text greater_than = "greaterThan"
operator_text less_than = "lessThan"

unfoldable pub execute_condition : Env → ConditionConfig → Fields → Fields
execute_condition env c input =
    let actual = get_value_by_path input c.field_path in
    let matched = evaluate_condition env c.operator actual c.value in
    set input "condition" (
      obj (
        field "field" (str c.field_path) (
          field "operator" (str (operator_text c.operator)) (
            field "expected" (get_or_else c.value null) (
              field "actual" (or_default actual null) (
                field "matched" (bool matched)
                  (field "route" (str (if matched then c.true_label else c.false_label)) end)))))))

-- The picked keys that the input has, with their values.
unfoldable pub picked : Fields → List String → List (String × Json)
picked input [] = []
picked input (key ∷ keys) = elim (get input key) [
  | none ↦ picked input keys
  | some v ↦ (key, v) ∷ picked input keys
]

unfoldable pub execute_transform : TransformMode → Option (List String) → Fields → Fields
execute_transform passthrough keys input = input
execute_transform pick keys input = from_entries end (picked input (get_or_else keys []))

abbrev mode_text : HttpMode → String
mode_text mock = "mock"
mode_text real = "real"

abbrev request_body : HttpConfig → Fields → Fields
request_body c input = set (get_or_else c.body end) "input" (obj input)

unfoldable pub mock_response : HttpConfig → Fields → Fields
mock_response c input = field "status" (str "mocked") (
    field "request"
      (obj (
        field "mode" (str (mode_text c.mode)) (
          field "method" (str c.method) (
            field "url" (str c.url) (
              field "headers" (obj (get_or_else c.headers end))
                (field "body" (obj (request_body c input)) end))))))
      (field "response"
        (obj (
          field "statusCode" (num (whole 200)) (
            field "body" (obj (field "ok" (bool true) (field "echoedInput" (obj input) end))) end)))
        end))

-- `parseHttpResponseBody`
unfoldable pub parse_body : Env → String → Json
parse_body env text = if text =ₛ "" then null else get_or_else (env.parse_json text) (str text)

abbrev copy : Fields → Fields → Fields
copy base end = base
copy base (field k v fs) = copy (set base k v) fs

abbrev request_headers : HttpConfig → Fields
request_headers c =
    copy (field "content-type" (str "application/json") end) (get_or_else c.headers end)

-- What a real request gives, from the answer of `fetch`.
unfoldable pub real_response : Env → HttpConfig → Fields → ℕ → ℕ → HttpReply → M Fields
real_response env c input started ended (unreachable message) =
    throw (worker_error "http_request_failed" message true)
real_response env c input started ended (response is_ok status headers text) = pure (
    field "status" (str (if is_ok then "ok" else "http_error")) (
      field "request"
        (obj (
          field "mode" (str "real") (
            field "method" (str c.method) (
              field "url" (str c.url) (
                field "headers" (obj (request_headers c)) (
                  field "body" (if c.method =ₛ "GET" then null else obj (request_body c input))
                    end))))))
        (field "response"
          (obj (
            field "statusCode" (num (whole status)) (
              field "headers" (obj headers) (
                field "body" (parse_body env text)
                  (field "durationMs" (num (elapsed started ended)) end)))))
          end)))

unfoldable pub execute_http_request : HttpConfig → HttpMode → Fields → M Fields
execute_http_request c mock input = pure (mock_response c input)
execute_http_request c real input = do
  env ← ask (λ env. env)
  started ← now
  reply ← call (λ env n.
      env.http_request n c.method c.url (request_headers c)
        (if c.method =ₛ "GET" then none else some (obj (request_body c input))))
  ended ← now
  real_response env c input started ended reply

abbrev prompt_request : Command → String → String → PromptConfig → Fields → PromptRequest
prompt_request message node_execution_id node_id c input = record {
  execution_id = message.execution_id;
  node_execution_id = node_execution_id;
  node_id = node_id;
  correlation_id = message.correlation_id;
  input = input;
  provider = c.provider;
  credential_id = c.credential_id;
  model = c.model;
  prompt = c.prompt;
}

unfoldable pub from_reply : Reply → M Fields
from_reply (replied output) = pure output
from_reply (refused e) = throw e

-- `executeWorkflowNode`. The last `throw` of the source is for types that the schema does not let
-- through.
unfoldable pub execute_config : Command → String → String → Config → Fields → M Fields
execute_config message node_execution_id node_id manual_trigger input = pure input
execute_config message node_execution_id node_id (transform_action mode keys) input =
    pure (execute_transform mode keys input)
execute_config message node_execution_id node_id (condition_action c) input =
    ask (λ env. execute_condition env c input)
execute_config message node_execution_id node_id (http_request_action c) input =
    execute_http_request c c.mode input
execute_config message node_execution_id node_id (ai_prompt_action c) input = do
  reply ←
      call (λ env n. env.run_prompt n (prompt_request message node_execution_id node_id c input))
  from_reply reply

-- Everything above, for runs at concrete inputs.
unfoldable pub nodes_code : Unit {0}
unfolding split_dots follow get_value_by_path is_present evaluate_condition operator_text
    execute_condition picked execute_transform mock_response parse_body real_response
    execute_http_request from_reply execute_config as_record effects elapsed
nodes_code = tt
