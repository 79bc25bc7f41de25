-- ===== src/Store/Sql.antt =====
-- What the SQL statements of the store do to a table, and how one statement is run.
use othala.Base.{
  ℕ, ◌+◌, ◌≡◌, refl, Bool, true, false, not, Option, none, some, List, [], ◌∷◌, ◌++◌, any, filter,
  Action, Result, ok, err, arith, if◌then◌else◌, Bool-cases, inl, inr, Option-cases, ◌>>=◌, bind-ok,
  bind-err, ◌∙◌, subst, sym,
}
use othala.Store.{Tables, PersistenceError, sql, Connection}

module _ {Row : Type 0} where
  -- `INSERT INTO`, where `same` compares the primary keys: a key that is there is an error.
  unfoldable pub insert_row : (Row → Row → Bool) → List Row → Row → Option (List Row)
  insert_row same rows row = if any (same row) rows then none else some (rows ++ row ∷ [])

  -- `INSERT ... ON CONFLICT DO UPDATE`, where `update old new` is the row after the update.
  unfoldable pub upsert_row : (Row → Row → Bool) → (Row → Row → Row) → List Row → Row → List Row
  upsert_row same update [] row = row ∷ []
  upsert_row same update (old ∷ rows) row =
      let later = upsert_row same update rows row in
      if same row old then update old row ∷ rows else old ∷ later

  -- `UPDATE ... SET ... WHERE`
  unfoldable pub update_where : (Row → Bool) → (Row → Row) → List Row → List Row
  update_where test set [] = []
  update_where test set (row ∷ rows) =
      let later = update_where test set rows in if test row then set row ∷ later else row ∷ later

  -- `DELETE FROM ... WHERE`
  abbrev pub delete_where : (Row → Bool) → List Row → List Row
  delete_where test rows = filter (λ row. not (test row)) rows

  pub insert_row-some :
      (same : Row → Row → Bool) (rows : List Row) (row : Row) {rows' : List Row}
      → insert_row same rows row ≡ some rows'
      → (rows' ≡ rows ++ row ∷ []) × (any (same row) rows ≡ false)
  unfolding insert_row
  insert_row-some same rows row h = ground arith

module _ {Doc F : Type 0} where
  abbrev pub next : Connection Doc F → Connection Doc F
  next c = record c { statements = c.statements + 1 }

  abbrev answer :
      {A : Type 0}
      → Option (A × Tables Doc F)
      → Connection Doc F
      → Result A (PersistenceError Doc) × Connection Doc F
  answer none c = (err sql, next c)
  answer (some (a, tables)) c = (ok a, record (next c) { tables = tables })

  -- One statement. When it fails, the tables are as they were.
  unfoldable pub execute :
      {A : Type 0}
      → (Tables Doc F → Option (A × Tables Doc F))
      → Action (Connection Doc F) (PersistenceError Doc) A
  execute statement c =
      if c.refuses c.statements then (err sql, next c) else answer (statement c.tables) c

  -- A `SELECT`.
  abbrev pub query :
      {A : Type 0} → (Tables Doc F → A) → Action (Connection Doc F) (PersistenceError Doc) A
  query select = execute (λ tables. some (select tables, tables))

  -- A statement that cannot fail by itself.
  abbrev pub change :
      (Tables Doc F → Tables Doc F) → Action (Connection Doc F) (PersistenceError Doc) (Unit {0})
  change set = execute (λ tables. some (tt, set tables))

  -- The database will run the next statements.
  abbrev pub Accepts : Connection Doc F → Type 0
  Accepts c = (n : ℕ) → c.refuses n ≡ false

  module _ {A : Type 0} (statement : Tables Doc F → Option (A × Tables Doc F))
      (c : Connection Doc F) where
    pub execute-ok :
        {a : A}
        → (execute statement c).0 ≡ ok a
        → statement c.tables ≡ some (a, (execute statement c).1.tables)
    unfolding execute
    execute-ok h = elim (Option-cases (statement c.tables)) [
      | inl e ↦ ground (arith, e)
      | inr (p, e) ↦ ground (arith, e)
    ]

    pub execute-err :
        {e : PersistenceError Doc}
        → (execute statement c).0 ≡ err e
        → (execute statement c).1.tables ≡ c.tables
    unfolding execute
    execute-err h = elim (Option-cases (statement c.tables)) [
      | inl e ↦ ground (arith, e)
      | inr (p, e) ↦ ground (arith, e)
    ]

    pub execute-refuses : (execute statement c).1.refuses ≡ c.refuses
    unfolding execute
    execute-refuses = elim (Option-cases (statement c.tables)) [
      | inl e ↦ ground (arith, e)
      | inr (p, e) ↦ ground (arith, e)
    ]

  pub execute_refused :
      {A : Type 0} (statement : Tables Doc F → Option (A × Tables Doc F)) (c : Connection Doc F)
      → c.refuses c.statements ≡ true
      → execute statement c ≡ (err sql, next c)
  unfolding execute
  execute_refused statement c h = rw h

  execute_failed :
      {A : Type 0} (statement : Tables Doc F → Option (A × Tables Doc F)) (c : Connection Doc F)
      → statement c.tables ≡ none
      → execute statement c ≡ (err sql, next c)
  unfolding execute
  execute_failed statement c e = elim (Bool-cases (c.refuses c.statements)) [
    | inl refused ↦ rw refused
    | inr accepted ↦ rw (accepted, e)
  ]

  pub execute_accepted :
      {A : Type 0} (statement : Tables Doc F → Option (A × Tables Doc F)) (c : Connection Doc F)
      {a : A} {tables : Tables Doc F}
      → c.refuses c.statements ≡ false
      → statement c.tables ≡ some (a, tables)
      → execute statement c ≡ (ok a, record (next c) { tables = tables })
  unfolding execute
  execute_accepted statement c h e = rw (h, e)

  -- A `SELECT` and what is made of its rows, when that leaves the connection alone.
  pub query-then :
      {A B : Type 0} (select : Tables Doc F → A)
      (read : A → Action (Connection Doc F) (PersistenceError Doc) B) (c : Connection Doc F) (b : B)
      → read (select c.tables) (next c) ≡ (ok b, next c)
      → (query select >>= read) c ≡ (if c.refuses c.statements then err sql else ok b, next c)
  query-then select read c b e = elim (Bool-cases (c.refuses c.statements)) [
    | inl refused ↦ rw refused (bind-err (query select) read (execute_refused _ c refused))
    | inr accepted ↦
        rw accepted (bind-ok (query select) read (execute_accepted _ c accepted refl) ∙ e)
  ]

  module _ {ℓ} {B : Type 0} (P : Result B (PersistenceError Doc) × Connection Doc F → Type ℓ)
      (c : Connection Doc F) where
    -- A statement that changes the tables, and then `k`.
    pub change-rule :
        (set : Tables Doc F → Tables Doc F)
        (k : Unit {0} → Action (Connection Doc F) (PersistenceError Doc) B)
        → P (err sql, next c)
        → P (k tt (record (next c) { tables = set c.tables }))
        → P ((change set >>= k) c)
    change-rule set k bad good = elim (Bool-cases (c.refuses c.statements)) [
      | inl refused ↦ subst P (sym (bind-err (change set) k (execute_refused _ c refused))) bad
      | inr accepted ↦
          subst P (sym (bind-ok (change set) k (execute_accepted _ c accepted refl))) good
    ]

    -- A last statement, which cannot fail by itself.
    pub answer-rule :
        (result : Tables Doc F → B) (set : Tables Doc F → Tables Doc F)
        → P (err sql, next c)
        → P (ok (result c.tables), record (next c) { tables = set c.tables })
        → P (execute (λ t. some (result t, set t)) c)
    answer-rule result set bad good = elim (Bool-cases (c.refuses c.statements)) [
      | inl refused ↦ subst P (sym (execute_refused _ c refused)) bad
      | inr accepted ↦ subst P (sym (execute_accepted _ c accepted refl)) good
    ]

    -- A single statement.
    pub execute-rule :
        (statement : Tables Doc F → Option (B × Tables Doc F))
        → P (err sql, next c)
        → ((b : B) (tables : Tables Doc F)
            → statement c.tables ≡ some (b, tables)
            → P (ok b, record (next c) { tables = tables }))
        → P (execute statement c)
    execute-rule statement bad good = elim (Bool-cases (c.refuses c.statements)) [
      | inl refused ↦ subst P (sym (execute_refused statement c refused)) bad
      | inr accepted ↦ elim (Option-cases (statement c.tables)) [
        | inl failed ↦ subst P (sym (execute_failed statement c failed)) bad
        | inr ((b, tables), e) ↦
            subst P (sym (execute_accepted statement c accepted e)) (good b tables e)
      ]
    ]

    -- A `SELECT`, and then `k`.
    pub query-rule :
        {A : Type 0} (select : Tables Doc F → A)
        (k : A → Action (Connection Doc F) (PersistenceError Doc) B)
        → P (err sql, next c)
        → P (k (select c.tables) (next c))
        → P ((query select >>= k) c)
    query-rule select k bad good = elim (Bool-cases (c.refuses c.statements)) [
      | inl refused ↦ subst P (sym (bind-err (query select) k (execute_refused _ c refused))) bad
      | inr accepted ↦
          subst P (sym (bind-ok (query select) k (execute_accepted _ c accepted refl))) good
    ]
