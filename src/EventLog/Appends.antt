-- ===== src/EventLog/Appends.antt =====
-- What an append that succeeds leaves in the files.
use mathlib.Core.Option.{some_inj}
use mathlib.Core.Bool.{true≢false}
use othala.Base.{
  ◌≡◌, ◌≢◌, refl, sym, ap, subst, bind-rule, append-snoc, append-nil, ◌∙◌, Bool, true, false,
  Option, none, some, List, [], ◌∷◌, ◌++◌, Result, ok, err, arith, Option-cases, Bool-cases, inl,
  inr, if◌then◌else◌, bind-ok, bind-err, Action, ◌>>=◌, ◌>>◌, ◌==◌, string_eq,
}
use othala.Core.Task.{TaskId}
use othala.Core.Event.{Event}
use othala.Store.{Json}
use othala.EventLog.{
  FilePath, Location, Chunk, text, newline, Disk, EventLogError, create_dir, append, JsonlEventLog,
  task_log_path, attempt, append_json_line, ensure_layout, append_global, append_task, append_both,
  append_for,
}

module _ {ℓ} {W B : Type 0} (P : Result B EventLogError × W → Type ℓ) (call : W → Bool × W)
    (e : EventLogError) where
  attempt-rule :
      (k : Unit {0} → Action W EventLogError B) (w : W)
      → ((call w).0 ≡ true → P (k tt (call w).1))
      → P (err e, (call w).1)
      → P ((attempt call e >>= k) w)
  attempt-rule k w good bad = elim (Bool-cases (call w).0) [
    | inl done ↦
        subst P (sym (bind-ok (attempt call e) k (λ i. (answer_ok done i, (call w).1)))) (good done)
    | inr failed ↦
        subst P (sym (bind-err (attempt call e) k (λ i. (answer_err failed i, (call w).1)))) bad
  ]
    where
      answer_ok : (call w).0 ≡ true → (attempt call e w).0 ≡ ok tt
      answer_ok h = rw h

      answer_err : (call w).0 ≡ false → (attempt call e w).0 ≡ err e
      answer_err h = rw h

module _ {ℓ} {W : Type 0} (P : Result (Unit {0}) EventLogError × W → Type ℓ) (call : W → Bool × W)
    (e : EventLogError) (w : W) where
  attempt-last :
      ((call w).0 ≡ true → P (ok tt, (call w).1)) → P (err e, (call w).1) → P (attempt call e w)
  attempt-last good bad = elim (Bool-cases (call w).0) [
    | inl done ↦ subst P (sym (λ i. (if done i then ok tt else err e, (call w).1))) (good done)
    | inr failed ↦ subst P (sym (λ i. (if failed i then ok tt else err e, (call w).1))) bad
  ]

module _ {W Doc T : Type 0} (disk : Disk W Doc) (events : Json Doc (Event T)) where
  -- The line as it is added to a file, or nothing.
  abbrev pub share : Bool → Doc → List (Chunk Doc)
  share hit line = if hit then text line ∷ newline ∷ [] else []

  missed :
      (path : FilePath) (at : Location) → (at == disk.names path) ≡ false → at ≢ disk.names path
  missed path at miss same = true≢false (sym ((string_eq.same_iff at _).1 same) ∙ miss)

  wrote :
      (path : FilePath) (chunk : Chunk Doc) (w : W) (at : Location)
      → (disk.write_all path chunk w).0 ≡ true
      → disk.content (disk.write_all path chunk w).1 at
        ≡ disk.content w at ++ (if at == disk.names path then chunk ∷ [] else [])
  wrote path chunk w at good = elim (Bool-cases (at == disk.names path)) [
    | inl hit ↦
        let same = (string_eq.same_iff at (disk.names path)).0 hit in
        rw hit (
          subst
            (λ k. disk.content (disk.write_all path chunk w).1 k ≡ disk.content w k ++ chunk ∷ [])
            (sym same) (disk.write_appends path chunk w good))
    | inr miss ↦ rw miss (
        disk.write_keeps path at chunk w (missed path at miss)
        ∙ sym (append-nil (disk.content w at)))
  ]

  -- The files before and after: the file that the path names has this event as a further line.
  abbrev Lines : FilePath → Event T → W → Result (Unit {0}) EventLogError × W → Type 0
  Lines path event w (ok _, w') =
      (line : Doc) × (events.to_string event ≡ some line)
      × ((at : Location)
          → disk.content w' at ≡ disk.content w at ++ share (at == disk.names path) line)
  Lines path event w (err _, w') =
      (at : Location) → (at == disk.names path) ≡ false → disk.content w' at ≡ disk.content w at

  two_chunks :
      (hit : Bool) (before : List (Chunk Doc)) (line : Doc)
      → (before ++ (if hit then text line ∷ [] else [])) ++ (if hit then newline ∷ [] else [])
        ≡ before ++ share hit line
  two_chunks true before line = append-snoc before (text line) (newline ∷ [])
  two_chunks false before line = append-nil (before ++ [])

  append_json_line-Lines :
      (path : FilePath) (event : Event T) (w : W)
      → Lines path event w (append_json_line disk events path event w)
  unfolding append_json_line
  append_json_line-Lines path event w = elim (Option-cases (events.to_string event)) [
    | inl miss ↦ rw miss (λ at ne. refl)
    | inr (line, e) ↦
        let opened = (disk.open_append path w).1 in
        let written = (disk.write_all path (text line) opened).1 in
        rw e (
          attempt-rule (Lines path event w) (disk.open_append path) (append path)
            (λ _.
              attempt (disk.write_all path (text line)) (append path)
              >> attempt (disk.write_all path newline) (append path))
            w
            (λ _.
              attempt-rule (Lines path event w) (disk.write_all path (text line)) (append path)
                (λ _. attempt (disk.write_all path newline) (append path)) opened
                (λ first.
                  attempt-last (Lines path event w) (disk.write_all path newline) (append path)
                    written
                    (λ second. (
                      line,
                      e,
                      λ at.
                          wrote path newline written at second
                          ∙ ap (λ cs. cs ++ (if at == disk.names path then newline ∷ [] else []))
                              (wrote path (text line) opened at first
                                ∙ ap
                                    (λ cs.
                                      cs ++ (if at == disk.names path then text line ∷ [] else []))
                                    (disk.open_keeps path at w))
                          ∙ two_chunks (at == disk.names path) (disk.content w at) line,
                    ))
                    (λ at off.
                      disk.write_keeps path at newline written (missed path at off)
                      ∙ disk.write_keeps path at (text line) opened (missed path at off)
                      ∙ disk.open_keeps path at w))
                (λ at off.
                  disk.write_keeps path at (text line) opened (missed path at off)
                  ∙ disk.open_keeps path at w))
            (λ at off. disk.open_keeps path at w))
  ]

  Lines-ok :
      (path : FilePath) (event : Event T) (w : W) (x : Result (Unit {0}) EventLogError × W)
      → Lines path event w x
      → x.0 ≡ ok tt
      → (line : Doc) × (events.to_string event ≡ some line)
        × ((at : Location)
            → disk.content x.1 at ≡ disk.content w at ++ share (at == disk.names path) line)
  Lines-ok path event w (ok _, w') h good = h
  Lines-ok path event w (err _, w') h good = ground arith

  Lines-off :
      (path : FilePath) (event : Event T) (w : W) (x : Result (Unit {0}) EventLogError × W)
      → Lines path event w x
      → (at : Location) → (at == disk.names path) ≡ false
      → disk.content x.1 at ≡ disk.content w at
  Lines-off path event w (ok _, w') (line, _, lines) at off =
      lines at ∙ ap (λ b. disk.content w at ++ share b line) off ∙ append-nil (disk.content w at)
  Lines-off path event w (err _, w') h at off = h at off

  ensure_layout-keeps :
      (log : JsonlEventLog) (w : W) (at : Location)
      → disk.content (ensure_layout disk events log w).1 at ≡ disk.content w at
  unfolding ensure_layout
  ensure_layout-keeps log w at =
      let made = (disk.create_dir_all log.root w).1 in
      let Keeps : Result (Unit {0}) EventLogError × W → Type 0 =
        λ x. disk.content x.1 at ≡ disk.content w at in
      attempt-rule Keeps (disk.create_dir_all log.root) (create_dir log.root)
        (λ _. attempt (disk.create_dir_all log.task_dir) (create_dir log.task_dir)) w
        (λ _.
          attempt-last Keeps (disk.create_dir_all log.task_dir) (create_dir log.task_dir) made
            (λ _. disk.create_keeps log.task_dir at made ∙ disk.create_keeps log.root at w)
            (disk.create_keeps log.task_dir at made ∙ disk.create_keeps log.root at w))
        (disk.create_keeps log.root at w)

  module _ (log : JsonlEventLog) (event : Event T) (w : W) where
    abbrev is_global : Location → Bool
    is_global at = at == disk.names log.global_file

    -- The file is the one that the task's path names, if the event has a task.
    abbrev is_own : Option TaskId → Location → Bool
    is_own none at = false
    is_own (some id) at = at == disk.names (task_log_path log id)

    -- What logging an event has done, by how it ended.
    abbrev pub Logs : Result (Unit {0}) EventLogError × W → Type 0
    Logs (ok _, w') =
        (line : Doc) × (events.from_str line ≡ some event)
        × ((at : Location)
            → disk.content w' at
              ≡ (disk.content w at ++ share (is_global at) line)
                ++ share (is_own event.task_id at) line)
    Logs (err _, w') =
        (at : Location)
        → is_global at ≡ false
        → is_own event.task_id at ≡ false
        → disk.content w' at ≡ disk.content w at

    module _ (w₁ w₂ : W) (kept : (at : Location) → disk.content w₁ at ≡ disk.content w at)
        (line : Doc) (e : events.to_string event ≡ some line)
        (logged : (at : Location)
          → disk.content w₂ at ≡ disk.content w₁ at ++ share (is_global at) line) where
      after_global :
          (at : Location) → disk.content w₂ at ≡ disk.content w at ++ share (is_global at) line
      after_global at = logged at ∙ ap (λ cs. cs ++ share (is_global at) line) (kept at)

      unshared : (at : Location) → is_global at ≡ false → disk.content w₂ at ≡ disk.content w at
      unshared at off =
          after_global at
          ∙ ap (λ b. disk.content w at ++ share b line) off
          ∙ append-nil (disk.content w at)

      Logs-own :
          (id : TaskId) (x : Result (Unit {0}) EventLogError × W)
          → event.task_id ≡ some id
          → Lines (task_log_path log id) event w₂ x
          → Logs x
      Logs-own id (ok _, w₃) own (again, e', lines) = (
        line,
        events.from_str-to_string event line e,
        λ at.
            lines at
            ∙ ap (λ l. disk.content w₂ at ++ share (is_own (some id) at) l)
                (some_inj.0 (sym e' ∙ e))
            ∙ ap (λ cs. cs ++ share (is_own (some id) at) line) (after_global at)
            ∙ ap (λ k. (disk.content w at ++ share (is_global at) line) ++ share (is_own k at) line)
                (sym own),
      )
      Logs-own id (err _, w₃) own h =
          λ at off off'. h at (ap (λ k. is_own k at) (sym own) ∙ off') ∙ unshared at off

      append_for-Logs :
          (o : Option TaskId) → event.task_id ≡ o → Logs (append_for disk events log o event w₂)
      append_for-Logs none own = (
        line,
        events.from_str-to_string event line e,
        λ at.
            after_global at
            ∙ sym (append-nil (disk.content w at ++ share (is_global at) line))
            ∙ ap (λ k. (disk.content w at ++ share (is_global at) line) ++ share (is_own k at) line)
                (sym own),
      )
      append_for-Logs (some id) own =
          Logs-own id _ own (append_json_line-Lines (task_log_path log id) event w₂)

    -- If logging an event succeeds, one line was written, which is read back as the event. Each file of
    -- the disk has it once more at its end if the path of the global file names it, and once more if the
    -- event has a task and the path made from that task's id names it, thus twice if both do; every
    -- other file is as it was. If it fails, the files that neither path names are as they were.
    pub append_both-Logs : Logs (append_both disk events log event w)
    unfolding append_both append_global append_task
    append_both-Logs =
        let w₁ = (ensure_layout disk events log w).1 in
        let kept = ensure_layout-keeps log w in
        let lines = append_json_line-Lines log.global_file event w₁ in
        bind-rule (ensure_layout disk events log)
          (λ _. append_global disk events log event >> append_task disk events log event) Logs w
          (λ _ _.
            bind-rule (append_global disk events log event) (λ _. append_task disk events log event)
              Logs w₁
              (λ _ good.
                let (line, e, logged) = Lines-ok log.global_file event w₁ _ lines good in
                append_for-Logs w₁ _ kept line e logged event.task_id refl)
              (λ _ _ at off _. Lines-off log.global_file event w₁ _ lines at off ∙ kept at))
          (λ _ _ at _ _. kept at)
