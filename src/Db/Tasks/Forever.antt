-- ===== src/Db/Tasks/Forever.antt =====
-- What the task table of src/db/models/tasks.ts promises over any sequence of its operations.
use looping_core.Base.{
  ℕ, String, false, not, ◌&&◌, Option, none, some, ◌≡◌, ◌≢◌, refl, sym, ap, ◌∙◌, subst, inl, inr,
  arith, Bool-cases, Option-cases, List, [], ◌∷◌, All,
}
use looping_core.Db.Tasks.Table.{
  TaskState, submitted, working, canceled, PlainTask, TaskRow, TaskTable,
}
use looping_core.Db.Tasks.Model.{
  state_eq, is_refused, task_of, read_one, upsert, begin_over, submitted_row, with_task, begin,
  save_over, save, moved, mark_read, mark_working, cancel_read, cancel,
}
use looping_core.Db.Tasks.Moves.{same_or_not, read_one-upsert, read_one-upsert_other}

-- The calls that change one task, with the clock's reading.
pub data Op (Body : Type 0) : Type 0 where
  begins : ℕ → Body → String → String → String → Op Body
  saves : ℕ → PlainTask Body → Op Body
  marks : ℕ → String → Op Body
  cancels : ℕ → String → Op Body

-- What is known of a state that this call saves.
abbrev pub Saves : {Body : Type 0} → (TaskState → Type 0) → Op Body → Type 0
Saves Q (saves now task) = Q task.state
Saves Q _ = Unit

module _ {Body : Type 0} (table : TaskTable Body) where
  open table use {State, by_id, insert, inserted, insert_other, insert_taken}

  -- An insert that throws leaves the table as it was.
  abbrev begun : State → Option (PlainTask Body × State) → State
  begun s none = s
  begun s (some (task, s')) = s'

  unfoldable pub apply : Op Body → State → State
  apply (begins now body m id context) s = begun s (begin table now body m id context s)
  apply (saves now task) s = (save table now task s).1
  apply (marks now id) s = (mark_working table now id s).1
  apply (cancels now id) s = (cancel table now id s).1

  unfoldable pub run : List (Op Body) → State → State
  unfolding apply
  run [] s = s
  run (op ∷ ops) s = run ops (apply op s)

  -- A row's key is its task's id.
  abbrev pub IsKeyed : State → Type 0
  IsKeyed s = (k : String) (t : PlainTask Body) → read_one table k s ≡ some t → t.id ≡ k

  -- The task `k` is stored, in a state that the predicate admits.
  pub record Stays (P : TaskState → Type 0) (k : String) (s : State) : Type 0 where
    pub keyed : IsKeyed s
    pub task : PlainTask Body
    pub stored : read_one table k s ≡ some task
    pub admitted : P task.state

  upsert-IsKeyed :
      (now : ℕ) (task : PlainTask Body) (s : State) → IsKeyed s → IsKeyed (upsert table now task s)
  upsert-IsKeyed now task s keyed k t h = elim (same_or_not k task.id) [
    | inl same ↦
        let found : some task ≡ some t =
          sym (read_one-upsert table now task s)
          ∙ ap (λ i. read_one table i (upsert table now task s)) (sym same)
          ∙ h in
        let e : task ≡ t = cc in sym (ap (λ x. x.id) e) ∙ sym same
    | inr other ↦ keyed k t (sym (read_one-upsert_other table now task s k other) ∙ h)
  ]

  -- A write keeps the promise where it is not of the task `k`, or writes an admitted state.
  upsert-Stays :
      (P : TaskState → Type 0) (k : String) (now : ℕ) (task : PlainTask Body) (s : State)
      → Stays P k s
      → (task.id ≡ k → P task.state)
      → Stays P k (upsert table now task s)
  upsert-Stays P k now task s v w = elim (same_or_not k task.id) [
    | inl same ↦ record {
      keyed = upsert-IsKeyed now task s v.keyed;
      task = task;
      stored =
          ap (λ i. read_one table i (upsert table now task s)) same
          ∙ read_one-upsert table now task s;
      admitted = w (sym same);
    }
    | inr other ↦ record {
      keyed = upsert-IsKeyed now task s v.keyed;
      task = v.task;
      stored = read_one-upsert_other table now task s k other ∙ v.stored;
      admitted = v.admitted;
    }
  ]

  task-row :
      (k : String) (s : State) (t : PlainTask Body)
      → read_one table k s ≡ some t
      → (row : TaskRow Body) × (by_id k s ≡ some row)
  unfolding read_one
  task-row k s t h = elim (Option-cases (by_id k s)) [
    | inl gone ↦ absurd (cc (sym (ap task_of gone) ∙ h))
    | inr found ↦ found
  ]

  insert-IsKeyed :
      (row : TaskRow Body) (s s' : State)
      → insert row s ≡ some s'
      → row.task.id ≡ row.task_id
      → IsKeyed s
      → IsKeyed s'
  unfolding read_one
  insert-IsKeyed row s s' h e keyed k t g = elim (same_or_not k row.task_id) [
    | inl same ↦
        let found : some row.task ≡ some t =
          sym (ap task_of (inserted row s s' h)) ∙ ap (λ i. task_of (by_id i s')) (sym same) ∙ g in
        let it : row.task ≡ t = cc in sym (ap (λ x. x.id) it) ∙ e ∙ sym same
    | inr other ↦ keyed k t (sym (ap task_of (insert_other row s s' k h other)) ∙ g)
  ]

  -- What a set of states needs, so that no operation leaves it: `Q` is known of a saved state.
  pub record IsClosed (P Q : TaskState → Type 0) : Type 0 where
    pub on_save : (old new : TaskState) → P old → is_refused old new ≡ false → Q new → P new
    pub on_move :
        (t : TaskState) → P t → (state_eq t submitted ≡ false) × (state_eq t working ≡ false)

  -- The task under the key `k` is the one of the promise.
  same_state :
      {P : TaskState → Type 0} {k : String} {s : State} (v : Stays P k s) (id : String)
      (t : PlainTask Body)
      → read_one table id s ≡ some t
      → t.id ≡ k
      → P t.state
  same_state {P} {k} {s} v id t h e =
      let found : some v.task ≡ some t =
        sym v.stored ∙ ap (λ i. read_one table i s) (sym e ∙ v.keyed id t h) ∙ h in
      let same : v.task ≡ t = cc in subst (λ x. P x.state) same v.admitted

  module _ (P Q : TaskState → Type 0) (closed : IsClosed P Q) (k : String) where
    insert-Stays :
        (row : TaskRow Body) (s : State) (o : Option State)
        → insert row s ≡ o
        → row.task.id ≡ row.task_id
        → Stays P k s
        → Stays P k (begun s (with_task row.task o))
    unfolding read_one
    insert-Stays row s none h e v = v
    insert-Stays row s (some s') h e v =
        let (old, at) = task-row k s v.task v.stored in
        let fresh : k ≢ row.task_id =
          λ e. cc (insert_taken row old s (ap (λ i. by_id i s) (sym e) ∙ at), h) in
        record {
          keyed = insert-IsKeyed row s s' h e v.keyed;
          task = v.task;
          stored = ap task_of (insert_other row s s' k h fresh) ∙ v.stored;
          admitted = v.admitted;
        }

    begin-Stays :
        (row : TaskRow Body) (s : State) (o : Option (TaskRow Body))
        → row.task.id ≡ row.task_id
        → Stays P k s
        → Stays P k (begun s (begin_over table row s o))
    unfolding begin_over
    begin-Stays row s (some existing) e v = v
    begin-Stays row s none e v = insert-Stays row s (insert row s) refl e v

    save-Stays :
        (now : ℕ) (task : PlainTask Body) (s : State) (o : Option (PlainTask Body))
        → read_one table task.id s ≡ o
        → Q task.state
        → Stays P k s
        → Stays P k (save_over table now task s o).1
    unfolding save_over
    save-Stays now task s none h q v =
        upsert-Stays P k now task s v
          (λ e. absurd (cc (sym h ∙ ap (λ i. read_one table i s) e ∙ v.stored)))
    save-Stays now task s (some old) h q v = elim (Bool-cases (is_refused old.state task.state)) [
      | inl refused ↦ rw (save_over, refused) v
      | inr applied ↦
          rw (save_over, applied)
            (upsert-Stays P k now task s v (λ e.
              closed.on_save old.state task.state
                (same_state v task.id old h (v.keyed task.id old h ∙ e)) applied q))
    ]

    mark-Stays :
        (now : ℕ) (id : String) (s : State) (o : Option (PlainTask Body))
        → read_one table id s ≡ o
        → Stays P k s
        → Stays P k (mark_read table now s o).1
    unfolding mark_read moved
    mark-Stays now id s none h v = v
    mark-Stays now id s (some task) h v = elim (Bool-cases (state_eq task.state canceled)) [
      | inl stopped ↦ rw (mark_read, stopped) v
      | inr going ↦ elim (Bool-cases (state_eq task.state submitted)) [
        | inl fresh ↦
            rw (mark_read, going, fresh)
              (upsert-Stays P k now (moved table now working task) s v (λ e.
                absurd (cc (fresh, (closed.on_move task.state (same_state v id task h e)).0))))
        | inr late ↦ rw (mark_read, going, late) v
      ]
    ]

    cancel-Stays :
        (now : ℕ) (id : String) (s : State) (o : Option (PlainTask Body))
        → read_one table id s ≡ o
        → Stays P k s
        → Stays P k (cancel_read table now s o).1
    unfolding cancel_read moved
    cancel-Stays now id s none h v = v
    cancel-Stays now id s (some task) h v =
        elim (Bool-cases
          (not (state_eq task.state submitted) && not (state_eq task.state working))) [
            | inl late ↦ rw (cancel_read, late) v
            | inr early ↦
                rw (cancel_read, early)
                  (upsert-Stays P k now (moved table now canceled task) s v (λ e.
                    let (a, b) = closed.on_move task.state (same_state v id task h e) in
                    absurd (ground arith)))
          ]

    pub apply-Stays : (op : Op Body) (s : State) → Saves Q op → Stays P k s → Stays P k (apply op s)
    unfolding apply begin submitted_row save mark_working cancel
    apply-Stays (begins now body m id context) s q v =
        begin-Stays (submitted_row table now body m id context) s (table.by_message m s) refl v
    apply-Stays (saves now task) s q v = save-Stays now task s (read_one table task.id s) refl q v
    apply-Stays (marks now id) s q v = mark-Stays now id s (read_one table id s) refl v
    apply-Stays (cancels now id) s q v = cancel-Stays now id s (read_one table id s) refl v

    pub run-Stays :
        (ops : List (Op Body)) (s : State) → All (Saves Q) ops → Stays P k s → Stays P k (run ops s)
    unfolding run
    run-Stays [] s q v = v
    run-Stays (op ∷ ops) s q v = run-Stays ops (apply op s) q.1 (apply-Stays op s q.0 v)
