-- ===== src/Store/Events/Recorded.antt =====
-- What is recorded of an event, and that no id is recorded twice.
use mathlib.Core.Option.{some_inj, none-ne-some}
use othala.Base.{
  ◌≡◌, refl, sym, ap, ◌∙◌, false, some, [], ◌∷◌, ◌++◌, ok, err, Result, Option-cases, inl, inr, any,
  ◌==◌, string_eq,
}
use othala.Core.Event.{Event}
use othala.Store.{Codecs, Tables, Connection, PersistenceError}
use othala.Store.Sql.{next, insert_row, insert_row-some, execute-rule}
use othala.Store.Events.{same_event, insert_event_row, event_row, append_event}

module _ {Doc T F : Type 0} (c : Codecs Doc T F) (s : Connection Doc F) (event : Event T) where
  -- What appending an event has done, by how it ended.
  abbrev pub Records : Result (Unit {0}) (PersistenceError Doc) × Connection Doc F → Type 0
  Records (ok _, after) =
      (payload : Doc) × (c.events.from_str payload ≡ some event)
      × (any (λ r. event.id == r.event_id) s.tables.events ≡ false)
      × (after.tables
          ≡ record s.tables { events = s.tables.events ++ event_row c event payload ∷ [] })
  Records (err _, after) = after.tables ≡ s.tables

  insert_event_row-Records :
      (payload : Doc) (tables : Tables Doc F)
      → c.events.to_string event ≡ some payload
      → insert_event_row (event_row c event payload) s.tables ≡ some (tt, tables)
      → Records (ok tt, record (next s) { tables = tables })
  unfolding event_row
  insert_event_row-Records payload tables written h =
      elim (Option-cases (insert_row same_event s.tables.events (event_row c event payload))) [
        | inl taken ↦ absurd (none-ne-some _ (rw (insert_event_row, taken) at h))
        | inr (rows, e) ↦
            let (grown, fresh) = insert_row-some same_event s.tables.events _ e in
            (
              payload,
              c.events.from_str-to_string event payload written,
              fresh,
              sym (
                    ap (λ (answer : Unit {0} × Tables Doc F). answer.1)
                      (some_inj.0 (rw (insert_event_row, e) at h)))
                  ∙ ap (λ events. record s.tables { events = events }) grown,
            )
      ]

  -- An event that is appended has an id that no event had, is read back as it was, and stands behind
  -- the others; a call that fails changes no table.
  pub append_event-Records : Records (append_event c event s)
  unfolding append_event
  append_event-Records = elim (Option-cases (c.events.to_string event)) [
    | inl miss ↦ rw miss refl
    | inr (payload, written) ↦ rw written (
        execute-rule Records s (insert_event_row (event_row c event payload)) refl
          (λ _ tables h. insert_event_row-Records payload tables written h))
  ]
