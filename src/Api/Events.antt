-- ===== src/Api/Events.antt =====
-- The life of an event, in apps/api/src/modules/events/events.service.ts
pub mod Register
pub mod Registers
use vigil_summit_agent.Prelude.{
  String, Bool, true, false, Option, none, some, List, ◌&&◌, ◌=ₛ◌, if◌then◌else◌, find, any, map,
}
use vigil_summit_agent.Engagement.Tables.{
  EventStatus, event_draft, event_published, event_live, event_completed, event_cancelled, Event,
  Tables,
}

abbrev pub is_public : EventStatus → Bool
is_public event_published = true
is_public event_live = true
is_public _ = false

-- `findPublicEvent`
unfoldable pub find_public_event : String → List Event → Option Event
find_public_event event_id events =
    find (λ (e : Event). e.id =ₛ event_id && is_public e.status) events

-- What `publish` and `transition` return, or the exceptions that they throw.
pub data Changed : Type 0 where
  changed : EventStatus → Changed
  event_not_found : Changed
  event_conflict : Changed

abbrev pub is_event : String → String → Event → Bool
is_event workspace_id event_id e = e.id =ₛ event_id && e.workspace_id =ₛ workspace_id

abbrev pub is_draft : EventStatus → Bool
is_draft event_draft = true
is_draft _ = false

abbrev pub set_event_status : (Event → Bool) → EventStatus → List Event → List Event
set_event_status p status events =
    map (λ (e : Event). if p e then record e { status = status } else e) events

-- `publish`
unfoldable pub publish : String → String → Tables → Changed × Tables
publish workspace_id event_id t =
    let wanted = λ (e : Event). is_event workspace_id event_id e && is_draft e.status in
    if any wanted t.events
    then (
      changed event_published,
      record t { events = set_event_status wanted event_published t.events },
    )
    else (event_not_found, t)

unfoldable pub can_transition : EventStatus → EventStatus → Bool
can_transition event_published event_live = true
can_transition event_published event_cancelled = true
can_transition event_live event_completed = true
can_transition event_live event_cancelled = true
can_transition _ _ = false

abbrev pub transition_found : Option Event → EventStatus → Tables → Changed × Tables
transition_found none target t = (event_not_found, t)
transition_found (some e) target t =
    if can_transition e.status target
    then (
      changed target,
      record t { events = set_event_status (λ x. x.id =ₛ e.id) target t.events },
    )
    else (event_conflict, t)

-- `transition`: the event is read before it is updated.
unfoldable pub transition : String → String → EventStatus → Tables → Tables → Changed × Tables
transition workspace_id event_id target before t =
    transition_found (find (is_event workspace_id event_id) before.events) target t
