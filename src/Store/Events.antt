-- ===== src/Store/Events.antt =====
-- The operations of the store on the table `events`.

pub mod Recorded
use othala.Base.{
  ℕ, ◌≡◌, Bool, true, false, ◌&&◌, Option, none, some, List, [], ◌∷◌, String, Action, Result, ok,
  err, pure, or_raise, ◌>>=◌, if◌then◌else◌, filter, length, ◌==◌, string_eq,
}
use othala.Base.Sorting.{sort_by}
use othala.Core.Task.{TaskId}
use othala.Core.Event.{Event, event_kind_tag}
use othala.Store.{
  EventRow, Tables, PersistenceError, json, timestamp_parse, Connection, Codecs, Json,
}
use othala.Store.Sql.{insert_row, execute, query}
use othala.Store.Tasks.{text_after, is_of}

module _ {Doc : Type 0} where
  abbrev pub same_event : EventRow Doc → EventRow Doc → Bool
  same_event a b = a.event_id == b.event_id

module _ {Doc F : Type 0} where
  abbrev pub insert_event_row : EventRow Doc → Tables Doc F → Option (Unit {0} × Tables Doc F)
  insert_event_row row t = elim (insert_row same_event t.events row) [
    | none ↦ none
    | some rows ↦ some (tt, record t { events = rows })
  ]

module _ {Doc T F : Type 0} (c : Codecs Doc T F) where
  unfoldable pub event_row : Event T → Doc → EventRow Doc
  event_row event payload = record {
    event_id = event.id;
    task_id = event.task_id;
    repo_id = event.repo_id;
    at = c.to_rfc3339 event.at;
    kind_tag = event_kind_tag event.kind;
    payload_json = payload;
  }

  -- The ids are a primary key: a second event of one id is refused.
  unfoldable pub append_event :
      Event T → Action (Connection Doc F) (PersistenceError Doc) (Unit {0})
  unfolding event_row
  append_event event = do
    payload ← or_raise (c.events.to_string event) json
    execute (insert_event_row (event_row event payload))

  abbrev cons_event : Option (Event T) → Option (List (Event T)) → Option (List (Event T))
  cons_event (some event) (some events) = some (event ∷ events)
  cons_event _ _ = none

  unfoldable pub events_of_rows : List (EventRow Doc) → Option (List (Event T))
  events_of_rows [] = some []
  events_of_rows (row ∷ rows) =
      cons_event (c.events.from_str row.payload_json) (events_of_rows rows)

  -- `ORDER BY at ASC, event_id ASC`
  abbrev event_after : EventRow Doc → EventRow Doc → Bool
  event_after a b =
      if c.doc_le a.at b.at then c.doc_le b.at a.at && text_after a.event_id b.event_id else true

  abbrev list_events :
      (EventRow Doc → Bool) → Action (Connection Doc F) (PersistenceError Doc) (List (Event T))
  list_events keep = do
    rows ← query (λ t. sort_by event_after (filter keep t.events))
    or_raise (events_of_rows rows) json

  unfoldable pub list_events_for_task :
      TaskId → Action (Connection Doc F) (PersistenceError Doc) (List (Event T))
  unfolding events_of_rows
  list_events_for_task task_id = list_events (λ r. is_of task_id r.task_id)

  -- Both ends are inclusive, and are compared as texts.
  abbrev in_range : Option Doc → Option Doc → EventRow Doc → Bool
  in_range none none row = true
  in_range (some since) none row = c.doc_le since row.at
  in_range none (some until) row = c.doc_le row.at until
  in_range (some since) (some until) row = c.doc_le since row.at && c.doc_le row.at until

  unfoldable pub list_all_events :
      Option Doc → Option Doc → Action (Connection Doc F) (PersistenceError Doc) (List (Event T))
  unfolding events_of_rows
  list_all_events since until = list_events (in_range since until)

  unfoldable pub list_events_global :
      Action (Connection Doc F) (PersistenceError Doc) (List (Event T))
  unfolding list_all_events
  list_events_global = list_all_events none none

  unfoldable pub total_event_count : Action (Connection Doc F) (PersistenceError Doc) ℕ
  total_event_count = query (λ t. length t.events)

  -- `ORDER BY at DESC LIMIT 1`
  abbrev at_desc : EventRow Doc → EventRow Doc → Bool
  at_desc a b = if c.doc_le b.at a.at then false else true

  abbrev parse_first : List (EventRow Doc) → Result (Option T) (PersistenceError Doc)
  parse_first [] = ok none
  parse_first (row ∷ _) = elim (c.parse_from_rfc3339 row.at) [
    | none ↦ err (timestamp_parse row.at)
    | some at ↦ ok (some at)
  ]

  abbrev answer_first :
      List (EventRow Doc) → Action (Connection Doc F) (PersistenceError Doc) (Option T)
  answer_first rows s = (parse_first rows, s)

  unfoldable pub latest_event_at_for_task :
      TaskId → Action (Connection Doc F) (PersistenceError Doc) (Option T)
  latest_event_at_for_task task_id = do
    rows ← query (λ t. sort_by at_desc (filter (λ r. is_of task_id r.task_id) t.events))
    answer_first rows
