-- ===== src/Worker/Execution/Terminal.antt =====
-- `processWorkflowExecution` and `failWorkflowExecution` return only with the execution's row in a
-- terminal status, and settle no delivery.
use vigil_summit_agent.Prelude.{
  ℕ, String, Bool, true, Option, none, some, List, ◌≡◌, refl, sym, ◌∙◌, subst, get_or_else,
}
use mathlib.Core.Option.{none-ne-some}
use vigil_summit_agent.Contracts.Message.{RoutingKey, Failure, Message, Command}
use vigil_summit_agent.Worker.State.{
  Execution, ExecutionStatus, OutboxMessage, Settlement, World, Env,
}
use vigil_summit_agent.Worker.Effects.{M, access}
use vigil_summit_agent.Worker.Keeps.{View, view, Rely, Keeps, Keeps-now, Keeps-fresh_id}
use vigil_summit_agent.Worker.Triples.{
  Ensures, Stable, Ensures-keeps, Ensures-access, Ensures-weaken, Ensures-bind, Ensures-if,
  Ensures-pure, Ensures-throw,
}
use vigil_summit_agent.Worker.Outbox.{dispatch_pending_execution_outbox}
use vigil_summit_agent.Worker.Execution.{
  is_terminal, is_pending, is_running, is_open, failure_record, resume_running, transition,
  find_execution, after_conflict, after_start, start_pending, after_missed_completion,
  after_completion, run_and_complete, process_found, process_workflow_execution,
  after_missed_failure, after_failure, fail_workflow_execution, to_succeeded, to_failed,
}
use vigil_summit_agent.Worker.Execution.Advance.{Held, Held-safe}
use vigil_summit_agent.Worker.Execution.Safe.{
  Keeps-dispatch, Keeps-pending, Keeps-persist, Keeps-started,
}
use vigil_summit_agent.Worker.Safe.{Keeps-execute_workflow_nodes}
use vigil_summit_agent.Worker.Execution.Ended.{Ended, EndedIf, transition-Ended}

module _ (env : Env) (r : Rely Held env) (s : List Settlement) (message : Command) where
  abbrev pub Quiet : View → Type 0
  Quiet v = v.1 ≡ s

  abbrev There : View → Type 0
  There v = (v.1 ≡ s) × ((e : Execution) × (v.0.executions message.execution_id ≡ some e))

  abbrev pub Finished : View → Type 0
  Finished v = (v.1 ≡ s) × Ended message.execution_id v.0

  Quiet-Stable : Stable Held Quiet
  Quiet-Stable v v' (a, same) q = same ∙ q

  There-Stable : Stable Held There
  There-Stable v v' (a, same) (q, (e, h)) =
      let (e', h', l) = a message.execution_id e h in (same ∙ q, (e', h'))

  Finished-Stable : Stable Held Finished
  Finished-Stable v v' (a, same) (q, (e, h, t)) =
      let (e', h', l) = a message.execution_id e h in
      (same ∙ q, (e', h', subst (λ (x : Execution). is_terminal x.status ≡ true) (l.frozen t) t))

  keep-Quiet :
      {A : Type 0} (m : M A)
      → Keeps Held m
      → Ensures env (λ w. Quiet (view w)) m (λ a w. Quiet (view w)) (λ e w. Quiet (view w))
  keep-Quiet m k = Ensures-keeps m k Quiet-Stable r

  keep-There :
      {A : Type 0} (m : M A)
      → Keeps Held m
      → Ensures env (λ w. There (view w)) m (λ a w. There (view w)) (λ e w. Quiet (view w))
  keep-There m k =
      Ensures-weaken m (λ w p. p) (λ a w q. q) (λ e w q. q.0) (Ensures-keeps m k There-Stable r)

  pub keep-Finished :
      {A : Type 0} (m : M A)
      → Keeps Held m
      → Ensures env (λ w. Finished (view w)) m (λ a w. Finished (view w)) (λ e w. Quiet (view w))
  keep-Finished m k =
      Ensures-weaken m (λ w p. p) (λ a w q. q) (λ e w q. q.0) (Ensures-keeps m k Finished-Stable r)

  abbrev Found : Option Execution → View → Type 0
  Found o v = (v.1 ≡ s) × (v.0.executions message.execution_id ≡ o)

  find-Quiet :
      Ensures env
        (λ w. Quiet (view w))
        (find_execution message.execution_id)
        (λ o w. Found o (view w))
        (λ e w. Quiet (view w))
  unfolding find_execution
  find-Quiet =
      Ensures-access Found (λ d. (d.executions message.execution_id, d)) Quiet-Stable r
        (λ d s' q. (q, refl))

  find-There :
      Ensures env
        (λ w. There (view w))
        (find_execution message.execution_id)
        (λ o w. There (view w) × (w.db.executions message.execution_id ≡ o))
        (λ e w. Quiet (view w))
  unfolding find_execution
  find-There =
      Ensures-weaken (access (λ d. (d.executions message.execution_id, d))) (λ w p. p) (λ a w q. q)
        (λ e w q. q.0)
        (Ensures-access (λ o v. There v × (v.0.executions message.execution_id ≡ o))
          (λ d. (d.executions message.execution_id, d)) There-Stable r (λ d s' q. (q, refl)))

  -- The execution to run, or none where nothing is left to do.
  abbrev Ready : Option Execution → World → Type 0
  Ready none w = Finished (view w)
  Ready (some _) w = There (view w)

  after_conflict-Ready :
      (o : Option Execution)
      → Ensures env
          (λ w. There (view w) × (w.db.executions message.execution_id ≡ o))
          (after_conflict message.execution_id o)
          Ready
          (λ e w. Quiet (view w))
  unfolding after_conflict
  after_conflict-Ready none = record { at = λ w (q, n). absurd (none-ne-some _ (sym n ∙ q.1.1)) }
  after_conflict-Ready (some e) =
      Ensures-if _ _ _
        (λ t.
          Ensures-bind _ _
            (Ensures-weaken _ (λ w (q, h). (q.0, (e, h, t))) (λ a w q. q) (λ x w q. q)
              (keep-Finished _ (Keeps-pending Held-safe message.execution_id)))
            (λ u. Ensures-pure none (λ w q. q)))
        (λ t. Ensures-pure (some e) (λ w q. q.0))

  after_start-Ready :
      (e : Execution) (at : ℕ) (o : Option OutboxMessage)
      → Ensures env
          (λ w. There (view w))
          (after_start message.execution_id e at o)
          Ready
          (λ e w. Quiet (view w))
  unfolding after_start
  after_start-Ready e at none = Ensures-bind _ _ find-There after_conflict-Ready
  after_start-Ready e at (some row) =
      Ensures-bind _ _ (keep-There _ (Keeps-dispatch Held-safe row))
        (λ u. Ensures-pure _ (λ w q. q))

  -- A row that was read in a terminal status: what is pending of it goes out, and it stays.
  ended_pending :
      (e : Execution)
      → is_terminal e.status ≡ true
      → Ensures env
          (λ w. Found (some e) (view w))
          (dispatch_pending_execution_outbox message.execution_id)
          (λ u w. Finished (view w))
          (λ x w. Quiet (view w))
  ended_pending e t =
      Ensures-weaken _ (λ w (q, h). (q, (e, h, t))) (λ a w q. q) (λ x w q. q)
        (keep-Finished _ (Keeps-pending Held-safe message.execution_id))

  after_missed_completion-Finished :
      (o : Option Execution)
      → Ensures env
          (λ w. Found o (view w))
          (after_missed_completion message.execution_id o)
          (λ u w. Finished (view w))
          (λ x w. Quiet (view w))
  unfolding after_missed_completion
  after_missed_completion-Finished none = Ensures-throw _ (λ w q. q.0)
  after_missed_completion-Finished (some e) =
      Ensures-if _ _ _ (ended_pending e) (λ t. Ensures-throw _ (λ w q. q.0))

  after_missed_failure-Finished :
      (o : Option Execution)
      → Ensures env
          (λ w. Found o (view w))
          (after_missed_failure message.execution_id o)
          (λ u w. Finished (view w))
          (λ x w. Quiet (view w))
  unfolding after_missed_failure
  after_missed_failure-Finished none = Ensures-throw _ (λ w q. q.0)
  after_missed_failure-Finished (some e) =
      Ensures-if _ _ _ (ended_pending e) (λ t. Ensures-throw _ (λ w q. q.0))

  -- After a transition to a terminal status: its row, or none where it changed nothing.
  abbrev Changed : Option OutboxMessage → View → Type 0
  Changed o v = (v.1 ≡ s) × EndedIf message.execution_id o v.0

  after_completion-Finished :
      (o : Option OutboxMessage)
      → Ensures env
          (λ w. Changed o (view w))
          (after_completion message.execution_id o)
          (λ u w. Finished (view w))
          (λ x w. Quiet (view w))
  unfolding after_completion
  after_completion-Finished none =
      Ensures-bind _ _ (Ensures-weaken _ (λ w q. q.0) (λ a w q. q) (λ x w q. q) find-Quiet)
        after_missed_completion-Finished
  after_completion-Finished (some row) = keep-Finished _ (Keeps-dispatch Held-safe row)

  after_failure-Finished :
      (o : Option OutboxMessage)
      → Ensures env
          (λ w. Changed o (view w))
          (after_failure message.execution_id o)
          (λ u w. Finished (view w))
          (λ x w. Quiet (view w))
  unfolding after_failure
  after_failure-Finished none =
      Ensures-bind _ _ (Ensures-weaken _ (λ w q. q.0) (λ a w q. q) (λ x w q. q) find-Quiet)
        after_missed_failure-Finished
  after_failure-Finished (some row) = keep-Finished _ (Keeps-dispatch Held-safe row)

  end_with :
      (allowed : ExecutionStatus → Bool) (change : Execution → Execution) (row_id : String)
      (key : RoutingKey) (m : Message)
      → ((e : Execution) → is_terminal (change e).status ≡ true)
      → Ensures env
          (λ w. Quiet (view w))
          (access (transition message.execution_id allowed change row_id key m))
          (λ o w. Changed o (view w))
          (λ x w. Quiet (view w))
  end_with allowed change row_id key m h =
      Ensures-access Changed (transition message.execution_id allowed change row_id key m)
        Quiet-Stable r
        (λ d s' q. (q, transition-Ended message.execution_id allowed change row_id key m d h))

  start_pending-Ready :
      (e : Execution) (at : ℕ)
      → Ensures env (λ w. There (view w)) (start_pending message e at) Ready (λ x w. Quiet (view w))
  unfolding start_pending
  start_pending-Ready e at = Ensures-bind _ _ (keep-There _ Keeps-fresh_id) (λ event_id.
      Ensures-bind _ _ (keep-There _ Keeps-fresh_id) (λ row_id.
        Ensures-bind _ _ (keep-There _ (Keeps-started Held-safe message event_id row_id at))
          (after_start-Ready e at)))

  resume_running-Ready :
      (e : Execution) (at : ℕ)
      → Ensures env
          (λ w. There (view w))
          (resume_running message e at)
          Ready
          (λ x w. Quiet (view w))
  unfolding resume_running
  resume_running-Ready e at = Ensures-bind _ _ (keep-There _ Keeps-fresh_id) (λ event_id.
      Ensures-bind _ _ (keep-There _ Keeps-fresh_id) (λ row_id.
        Ensures-bind _ _ (keep-There _ (Keeps-persist Held-safe row_id _ _)) (λ row.
          Ensures-bind _ _ (keep-There _ (Keeps-dispatch Held-safe row))
            (λ u. Ensures-pure _ (λ w q. q)))))

  run_and_complete-Finished :
      (at : ℕ) (o : Option Execution)
      → Ensures env
          (Ready o)
          (run_and_complete message at o)
          (λ u w. Finished (view w))
          (λ x w. Quiet (view w))
  unfolding run_and_complete to_succeeded
  run_and_complete-Finished at none = Ensures-pure tt (λ w q. q)
  run_and_complete-Finished at (some e) =
      Ensures-bind _ _
        (Ensures-weaken _ (λ w q. q.0) (λ a w q. q) (λ x w q. q)
          (keep-Quiet _ (Keeps-execute_workflow_nodes Held-safe.nodes message e)))
        (λ output. Ensures-bind _ _ (keep-Quiet _ Keeps-now) (λ completed_at.
          Ensures-bind _ _ (keep-Quiet _ Keeps-fresh_id) (λ event_id.
            Ensures-bind _ _ (keep-Quiet _ Keeps-fresh_id) (λ row_id.
              Ensures-bind _ _
                (end_with is_running (to_succeeded output completed_at) row_id _ _ (λ e. refl))
                after_completion-Finished))))

  process_found-Finished :
      (now_at : ℕ) (o : Option Execution)
      → Ensures env
          (λ w. Found o (view w))
          (process_found message now_at o)
          (λ u w. Finished (view w))
          (λ x w. Quiet (view w))
  unfolding process_found
  process_found-Finished now_at none = Ensures-throw _ (λ w q. q.0)
  process_found-Finished now_at (some e) =
      let at = get_or_else e.started_at now_at in
      Ensures-if _ _ _ (ended_pending e) (λ f.
        Ensures-weaken _ (λ w (q, h). (q, (e, h))) (λ a w q. q) (λ x w q. q)
          (Ensures-bind _ _
            (Ensures-if (is_pending e.status) (start_pending message e at)
              (resume_running message e at) (λ p. start_pending-Ready e at)
              (λ p. resume_running-Ready e at))
            (run_and_complete-Finished at)))

  pub process-Finished :
      Ensures env
        (λ w. Quiet (view w))
        (process_workflow_execution message)
        (λ u w. Finished (view w))
        (λ x w. Quiet (view w))
  unfolding process_workflow_execution
  process-Finished =
      Ensures-bind _ _ (keep-Quiet _ Keeps-now)
        (λ now_at. Ensures-bind _ _ find-Quiet (process_found-Finished now_at))

  pub fail-Finished :
      (failure : Failure)
      → Ensures env
          (λ w. Quiet (view w))
          (fail_workflow_execution message failure)
          (λ u w. Finished (view w))
          (λ x w. Quiet (view w))
  unfolding fail_workflow_execution to_failed
  fail-Finished failure = Ensures-bind _ _ (keep-Quiet _ Keeps-now) (λ failed_at.
      Ensures-bind _ _ (keep-Quiet _ Keeps-fresh_id) (λ event_id.
        Ensures-bind _ _ (keep-Quiet _ Keeps-fresh_id) (λ row_id.
          Ensures-bind _ _
            (end_with is_open (to_failed (failure_record failure) failed_at) row_id _ _ (λ e. refl))
            after_failure-Finished)))
