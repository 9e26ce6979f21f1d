-- ===== src/Worker/Topology.antt =====
-- The queues that declareTopology of apps/execution-worker/src/index.ts and declareLeadEnrichmentTopology
-- of enrichment/lead-enrichment-consumer.ts bind. The exchanges are topics, and no binding has a wildcard:
-- a message goes to the queue whose binding has its routing key, and is lost without one.
use vigil_summit_agent.Prelude.{String, Option, none, some, List, ◌∷◌, ◌++◌, ◌&&◌, ◌=ₛ◌, find, map}
use vigil_summit_agent.Contracts.Message.{
  exchange_commands, exchange_retry, exchange_dlx, workflow_execution_requested,
  lead_enrichment_requested, routing_key_text,
}
use vigil_summit_agent.Worker.Delivery.{RetryQueue, retry_queues}
use vigil_summit_agent.Worker.Enrichment.Consumer.{EnrichmentQueue, enrichment_queues}

-- The arguments of `bindQueue`
pub record Binding : Type 0 where
  pub queue : String
  pub exchange : String
  pub routing_key : String

abbrev pub bind_queue : String → String → String → Binding
bind_queue queue exchange routing_key = record {
  queue = queue;
  exchange = exchange;
  routing_key = routing_key;
}

-- `declareLeadEnrichmentTopology`
unfoldable pub enrichment_bindings : List Binding
enrichment_bindings =
    bind_queue "flowpilot.engagement-worker.lead-enrichment" exchange_commands
      (routing_key_text lead_enrichment_requested)
    ∷ bind_queue "flowpilot.dlq.engagement-worker.lead-enrichment" exchange_dlx
        (routing_key_text lead_enrichment_requested)
    ∷ map (λ (q : EnrichmentQueue). bind_queue q.queue exchange_retry q.routing_key)
        enrichment_queues

-- `declareTopology`
unfoldable pub bindings : List Binding
bindings =
    enrichment_bindings
    ++ bind_queue "flowpilot.execution-worker.workflow-executions" exchange_commands
        (routing_key_text workflow_execution_requested)
      ∷ bind_queue "flowpilot.dlq.execution-worker.workflow-executions" exchange_dlx
          (routing_key_text workflow_execution_requested)
      ∷ map (λ (q : RetryQueue). bind_queue q.queue exchange_retry q.routing_key) retry_queues

abbrev queue_name : Option Binding → Option String
queue_name none = none
queue_name (some b) = some b.queue

-- The queue that a message with this exchange and routing key goes to
unfoldable pub queue_of : String → String → Option String
queue_of exchange routing_key =
    queue_name
      (find (λ (b : Binding). b.exchange =ₛ exchange && b.routing_key =ₛ routing_key) bindings)
