-- ===== src/Worker/Execution/Ended.antt =====
-- An execution that is over, and the transitions that end it.
use vigil_summit_agent.Prelude.{
  String, Bool, true, Option, none, some, ◌≡◌, refl, eq_refl, Bool-cases, inl, inr,
}
use vigil_summit_agent.Contracts.Message.{RoutingKey, Message}
use vigil_summit_agent.Worker.State.{Execution, ExecutionStatus, OutboxMessage, Db}
use vigil_summit_agent.Worker.Outbox.{persist_outbox_event}
use vigil_summit_agent.Worker.Execution.{is_terminal, change_and_record, transition}
use vigil_summit_agent.Worker.Execution.Rows.{persist-executions}

-- The execution's row is there, in a terminal status.
abbrev pub Ended : String → Db → Type 0
Ended id d = (e : Execution) × (d.executions id ≡ some e) × (is_terminal e.status ≡ true)

abbrev pub EndedIf : String → Option OutboxMessage → Db → Type 0
EndedIf id none d = Unit
EndedIf id (some _) d = Ended id d

-- A transition to a terminal status that changes a row leaves it terminal.
pub transition-Ended :
    (id : String) (allowed : ExecutionStatus → Bool) (change : Execution → Execution)
    (row_id : String) (key : RoutingKey) (m : Message) (d : Db)
    → ((e : Execution) → is_terminal (change e).status ≡ true)
    → EndedIf id
        (transition id allowed change row_id key m d).0
        (transition id allowed change row_id key m d).1
unfolding transition
transition-Ended id allowed change row_id key m d h = by_row (d.executions id)
  where
    by_row :
        (o : Option Execution)
        → let r = change_and_record o id allowed change (persist_outbox_event row_id key m) d in
          EndedIf id r.0 r.1
    by_row none = tt
    by_row (some old) = elim (Bool-cases (allowed old.status)) [
      | inl allows ↦ rw allows (change old, rw (persist-executions, eq_refl) refl, h old)
      | inr denies ↦ rw denies tt
    ]
