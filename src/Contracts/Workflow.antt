-- ===== src/Contracts/Workflow.antt =====
-- packages/contracts/src/workflow-nodes and workflow-definition.ts: nodes, edges and definitions, as
-- the schemas leave them after defaults are filled in. The position and the name of a node do not
-- bear on its execution and are left out.
use vigil_summit_agent.Prelude.{String, Bool, true, false, Option, List}
use vigil_summit_agent.Json.{Number, Json, Fields}

pub data TransformMode : Type 0 where
  passthrough pick : TransformMode

pub data Operator : Type 0 where
  exists equals not_equals contains greater_than less_than : Operator

pub data HttpMode : Type 0 where
  mock real : HttpMode

pub record ConditionConfig : Type 0 where
  pub field_path : String
  pub operator : Operator
  pub value : Option Json
  pub true_label : String
  pub false_label : String

pub record HttpConfig : Type 0 where
  pub mode : HttpMode
  pub method : String
  pub url : String
  pub headers : Option Fields
  pub body : Option Fields

pub record PromptConfig : Type 0 where
  pub prompt : String
  pub system_prompt : Option String
  pub provider : String
  pub credential_id : Option String
  pub model : String
  pub temperature : Number

pub data Config : Type 0 where
  manual_trigger : Config
  transform_action : TransformMode → Option (List String) → Config
  condition_action : ConditionConfig → Config
  http_request_action : HttpConfig → Config
  ai_prompt_action : PromptConfig → Config

pub record Node : Type 0 where
  pub id : String
  pub config : Config

pub record Edge : Type 0 where
  pub id : String
  pub source : String
  pub target : String

pub record Definition : Type 0 where
  pub nodes : List Node
  pub edges : List Edge

-- `WORKFLOW_NODE_TYPES`: the `type` of a node.
unfoldable pub node_type : Config → String
node_type manual_trigger = "trigger.manual"
node_type (transform_action _ _) = "action.transform"
node_type (condition_action _) = "action.condition"
node_type (http_request_action _) = "action.httpRequest"
node_type (ai_prompt_action _) = "action.aiPrompt"

abbrev pub is_trigger : Config → Bool
is_trigger manual_trigger = true
is_trigger _ = false
