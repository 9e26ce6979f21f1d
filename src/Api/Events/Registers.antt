-- ===== src/Api/Events/Registers.antt =====
-- What a public registration does, in apps/api/src/modules/events/events.service.ts, with the reading
-- of its message in apps/execution-worker/src/enrichment/process-lead-enrichment.ts
use vigil_summit_agent.Prelude.{
  ◌≤◌, String, Bool, true, false, some, [], ◌∷◌, ◌++◌, ◌&&◌, ◌≡◌, ◌⊎◌, ◌=ₛ◌, ◌<>◌, any,
}
use vigil_summit_agent.Engagement.Policy.{registered}
use vigil_summit_agent.Engagement.Tables.{Lead, Event, Registration}
use vigil_summit_agent.Worker.Enrichment.{EnrichmentCommand}
use vigil_summit_agent.Worker.Enrichment.Reading.{read_enrichment}
use vigil_summit_agent.Api.Events.Register.{
  Store, Fresh, Registered, registered_as, takes_seat, occupied_seats, create_enrichment_message,
  enrichment_row,
}

-- The command that the enrichment consumer reads of the message
abbrev pub command_of : Fresh → String → String → String → String → EnrichmentCommand
command_of fresh workspace_id event_id lead_id registration_id = record {
  body = create_enrichment_message fresh workspace_id event_id lead_id registration_id;
  message_id = fresh.message_id;
  workspace_id = workspace_id;
  correlation_id = "registration:" <> registration_id;
  event_id = event_id;
  lead_id = lead_id;
  registration_id = registration_id;
}

abbrev pub is_stored : String → String → String → Registration → Bool
is_stored id event_id lead_id r = r.id =ₛ id && r.event_id =ₛ event_id && r.lead_id =ₛ lead_id

-- The two answers: a new registration is stored and keeps the seats within the capacity, it waits only
-- when the seats are taken, and one message is added to the outbox, which the consumer reads back as
-- the command for it; or a registration that is stored already, and nothing is changed.
abbrev pub Handed : Fresh → Event → Store → Registered → Store → Type 0
Handed fresh e s (registered_as true id lead_id status) s' =
    (any (is_stored id e.id lead_id) s'.tables.registrations ≡ true)
    × (occupied_seats e.id s'.tables.registrations ≤ e.capacity)
    × ((status ≡ registered) ⊎ (occupied_seats e.id s.tables.registrations ≡ e.capacity))
    × (s'.outbox ≡ s.outbox ++ enrichment_row fresh e.workspace_id e.id lead_id id ∷ [])
    × (read_enrichment (enrichment_row fresh e.workspace_id e.id lead_id id).payload
        ≡ some (command_of fresh e.workspace_id e.id lead_id id))
Handed fresh e s (registered_as false id lead_id status) s' =
    (any (is_stored id e.id lead_id) s.tables.registrations ≡ true) × (s' ≡ s)
Handed fresh e s _ s' = ⊥

abbrev seated : Event → Registration → Bool
seated e r = r.event_id =ₛ e.id && takes_seat r.status

abbrev theirs_of : Event → Lead → Registration → Bool
theirs_of e lead r = r.event_id =ₛ e.id && r.lead_id =ₛ lead.id
