-- ===== src/Worker/Delivery/Safe.antt =====
-- The delivery handler keeps every guarantee that the database calls keep.
use vigil_summit_agent.Prelude.{ℕ, Option, none, some, List, [], ◌∷◌, ◌++◌}
use vigil_summit_agent.Contracts.Message.{Failure, Command}
use vigil_summit_agent.Worker.State.{Settlement, Db, Error}
use vigil_summit_agent.Worker.Effects.{settle}
use vigil_summit_agent.Worker.Keeps.{
  Guarantee, Keeps, Keeps-throw, Keeps-publish, Keeps-settle, keeps_rules,
}
use vigil_summit_agent.Worker.Command.{Delivery}
use vigil_summit_agent.Worker.Execution.Safe.{
  WorkerSafe, Keeps-process_workflow_execution, Keeps-fail_workflow_execution,
}
use vigil_summit_agent.Worker.Delivery.{
  RetryQueue, publish_to, publish_retry_command, publish_command_dead_letter, give_up, on_failure,
  handle_error, handle_parsed, handle_delivery,
}

Keeps-publish_to :
    {G : Guarantee} (message : Command) (n : ℕ) (o : Option RetryQueue)
    → Keeps G (publish_to message n o)
unfolding publish_to
Keeps-publish_to message n none = Keeps-throw _
Keeps-publish_to message n (some q) = Keeps-publish _

Keeps-publish_retry_command :
    {G : Guarantee} (message : Command) (n : ℕ) → Keeps G (publish_retry_command message n)
unfolding publish_retry_command
Keeps-publish_retry_command message n = Keeps-publish_to message n _

Keeps-publish_command_dead_letter :
    {G : Guarantee} (message : Command) (failure : Failure) (n : ℕ)
    → Keeps G (publish_command_dead_letter message failure n)
unfolding publish_command_dead_letter
Keeps-publish_command_dead_letter message failure n = Keeps-publish _

module _ {G : Guarantee} (safe : WorkerSafe G)
    (settles : (x : Settlement) (d : Db) (s : List Settlement)
      → G.rel (d, s) (d, s ++ x ∷ [])) where
  Keeps-settled : (x : Settlement) → Keeps G (settle x)
  Keeps-settled x = Keeps-settle x (settles x)

  Keeps-give_up :
      (message : Command) (failure : Failure) (n : ℕ) → Keeps G (give_up message failure n)
  unfolding give_up
  Keeps-give_up message failure n =
      search
        (
          keeps_rules,
          Keeps-settled,
          Keeps-fail_workflow_execution safe,
          Keeps-publish_command_dead_letter,
        )
        depth 10

  Keeps-on_failure :
      (message : Command) (failure : Failure) (n : ℕ) → Keeps G (on_failure message failure n)
  unfolding on_failure
  Keeps-on_failure message failure n =
      search (keeps_rules, Keeps-settled, Keeps-publish_retry_command, Keeps-give_up) depth 10

  Keeps-handle_error :
      (delivery : Delivery) (message : Command) (e : Error)
      → Keeps G (handle_error delivery message e)
  unfolding handle_error
  Keeps-handle_error delivery message e = search (keeps_rules, Keeps-on_failure)

  Keeps-handle_parsed :
      (delivery : Delivery) (o : Option Command) → Keeps G (handle_parsed delivery o)
  unfolding handle_parsed
  Keeps-handle_parsed delivery none = search (keeps_rules, Keeps-settled)
  Keeps-handle_parsed delivery (some message) =
      search (keeps_rules, Keeps-settled, Keeps-process_workflow_execution safe, Keeps-handle_error)
        depth 10

  pub Keeps-handle_delivery : (delivery : Delivery) → Keeps G (handle_delivery delivery)
  unfolding handle_delivery
  Keeps-handle_delivery delivery = search (keeps_rules, Keeps-handle_parsed)
