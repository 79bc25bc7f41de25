-- ===== src/Store/Sessions.antt =====
-- The operations of the store on the table `sessions`.
use Prim.Native.String.{◌++◌ as ◌++ₛ◌}
use othala.Base.{
  Bool, Option, none, some, List, [], ◌∷◌, String, Action, Result, ok, err, pure, raise, or_raise,
  ◌>>=◌, ◌>>◌, if◌then◌else◌, find, any, ◌==◌, string_eq, unwrap_or,
}
use othala.Base.Sorting.{sort_by}
use othala.Core.Task.{TaskId}
use othala.Core.Words.{Session, active, status_str, parse_status}
use othala.Store.{
  SessionRow, Tables, PersistenceError, json, timestamp_parse, session_not_found, Connection,
  Codecs,
}
use othala.Store.Sql.{insert_row, update_where, execute, query}
use othala.Store.Tasks.{desc_after}

module _ {Doc : Type 0} where
  abbrev same_session : SessionRow Doc → SessionRow Doc → Bool
  same_session a b = a.session_id == b.session_id

module _ {Doc F : Type 0} where
  abbrev insert_session_row : SessionRow Doc → Tables Doc F → Option (Unit {0} × Tables Doc F)
  insert_session_row row t = elim (insert_row same_session t.sessions row) [
    | none ↦ none
    | some rows ↦ some (tt, record t { sessions = rows })
  ]

  -- The answer is whether a row was updated.
  abbrev update_session_row : SessionRow Doc → Tables Doc F → Option (Bool × Tables Doc F)
  update_session_row row t = some (
    any (same_session row) t.sessions,
    record t { sessions = update_where (same_session row) (λ _. row) t.sessions },
  )

module _ {Doc T F : Type 0} (c : Codecs Doc T F) where
  unfoldable pub session_row : Session T → Doc → SessionRow Doc
  session_row session task_ids = record {
    session_id = session.id;
    title = session.title;
    created_at = c.to_rfc3339 session.created_at;
    updated_at = c.to_rfc3339 session.updated_at;
    task_ids_json = task_ids;
    parent_session_id = session.parent_session_id;
    status = status_str session.status;
  }

  unfoldable pub create_session :
      Session T → Action (Connection Doc F) (PersistenceError Doc) (Unit {0})
  unfolding session_row
  create_session session = do
    task_ids ← or_raise (c.strings.to_string session.task_ids) json
    execute (insert_session_row (session_row session task_ids))

  abbrev built :
      SessionRow Doc
      → Option T
      → Option T
      → Option (List TaskId)
      → Result (Session T) (PersistenceError Doc)
  built row none _ _ = err (timestamp_parse row.created_at)
  built row (some _) none _ = err (timestamp_parse row.updated_at)
  built row (some _) (some _) none = err json
  built row (some created_at) (some updated_at) (some task_ids) = ok (record {
    id = row.session_id;
    title = row.title;
    created_at = created_at;
    updated_at = updated_at;
    task_ids = task_ids;
    parent_session_id = row.parent_session_id;
    status = unwrap_or (parse_status row.status) active;
  })

  -- A session from its columns; the first column that cannot be read is the error.
  unfoldable pub session_of_row : SessionRow Doc → Result (Session T) (PersistenceError Doc)
  session_of_row row =
      built row (c.parse_from_rfc3339 row.created_at) (c.parse_from_rfc3339 row.updated_at)
        (c.strings.from_str row.task_ids_json)

  abbrev optional :
      Result (Session T) (PersistenceError Doc) → Result (Option (Session T)) (PersistenceError Doc)
  optional (ok session) = ok (some session)
  optional (err e) = err e

  abbrev session_of_found :
      Option (SessionRow Doc)
      → Action (Connection Doc F) (PersistenceError Doc) (Option (Session T))
  session_of_found none s = (ok none, s)
  session_of_found (some row) s = (optional (session_of_row row), s)

  unfoldable pub get_session :
      String → Action (Connection Doc F) (PersistenceError Doc) (Option (Session T))
  unfolding session_of_row
  get_session id = do
    row ← query (λ t. find (λ r. id == r.session_id) t.sessions)
    session_of_found row

  abbrev cons_session :
      Result (Session T) (PersistenceError Doc)
      → Result (List (Session T)) (PersistenceError Doc)
      → Result (List (Session T)) (PersistenceError Doc)
  cons_session (err e) sessions = err e
  cons_session (ok session) (err e) = err e
  cons_session (ok session) (ok sessions) = ok (session ∷ sessions)

  unfoldable pub sessions_of_rows :
      List (SessionRow Doc) → Result (List (Session T)) (PersistenceError Doc)
  unfolding session_of_row
  sessions_of_rows [] = ok []
  sessions_of_rows (row ∷ rows) = cons_session (session_of_row row) (sessions_of_rows rows)

  abbrev answer_sessions :
      List (SessionRow Doc) → Action (Connection Doc F) (PersistenceError Doc) (List (Session T))
  answer_sessions rows s = (sessions_of_rows rows, s)

  unfoldable pub list_sessions : Action (Connection Doc F) (PersistenceError Doc) (List (Session T))
  unfolding sessions_of_rows
  list_sessions = do
    rows ← query (λ t.
        sort_by (λ a b. desc_after c a.updated_at a.session_id b.updated_at b.session_id)
          t.sessions)
    answer_sessions rows

  unfoldable pub update_session :
      Session T → Action (Connection Doc F) (PersistenceError Doc) (Unit {0})
  unfolding session_row
  update_session session = do
    task_ids ← or_raise (c.strings.to_string session.task_ids) json
    updated ← execute (update_session_row (session_row session task_ids))
    if updated then pure tt else raise (session_not_found session.id)

  -- `now` and `nanos` are what the clock answers, the instant and its text for the new id.
  abbrev fork_of : T → String → Session T → Session T
  fork_of now nanos parent = record {
    id = "S-" ++ₛ nanos;
    title = parent.title ++ₛ " (fork)";
    created_at = now;
    updated_at = now;
    task_ids = parent.task_ids;
    parent_session_id = some parent.id;
    status = active;
  }

  unfoldable pub fork_session :
      T → String → String → Action (Connection Doc F) (PersistenceError Doc) (Session T)
  unfolding get_session create_session
  fork_session now nanos id = do
    found ← get_session id
    parent ← or_raise found (session_not_found id)
    create_session (fork_of now nanos parent)
    pure (fork_of now nanos parent)
