-- ===== src/Db/Tasks/Promises.antt =====
-- The promises of src/db/models/tasks.ts: which states a task never leaves.
use looping_core.Base.{
  ℕ, String, true, false, Option, none, some, ◌≡◌, refl, sym, ap, ◌∙◌, subst, List, [], ◌∷◌, All,
}
use looping_core.Db.Tasks.Table.{
  TaskState, submitted, working, canceled, PlainTask, TaskRow, TaskTable,
}
use looping_core.Db.Tasks.Model.{
  is_terminal, state_eq, is_refused, read_one, begin_over, begin, save_over, save, upsert,
  with_task, submitted_row,
}
use looping_core.Db.Tasks.Moves.{
  is_refused_lem, canceled_is_refused, open_passes, terminal_differs, read_one-upsert,
}
use looping_core.Db.Tasks.Forever.{
  Op, saves, Saves, begins, marks, cancels, run, Stays, IsClosed, run-Stays,
}

module _ {Body : Type 0} (table : TaskTable Body) where
  open table use {State, by_message, insert, inserted_message}

  abbrev pub InState : TaskState → String → State → Type 0
  InState st = Stays table (λ t. t ≡ st)

  any_save : (ops : List (Op Body)) → All (Saves (λ t. Unit)) ops
  any_save [] = tt
  any_save (begins _ _ _ _ _ ∷ ops) = (tt, any_save ops)
  any_save (saves _ _ ∷ ops) = (tt, any_save ops)
  any_save (marks _ _ ∷ ops) = (tt, any_save ops)
  any_save (cancels _ _ ∷ ops) = (tt, any_save ops)

  not_moved :
      (st : TaskState)
      → is_terminal st ≡ true
      → (t : TaskState) → t ≡ st
      → (state_eq t submitted ≡ false) × (state_eq t working ≡ false)
  unfolding is_terminal
  not_moved st h t e =
      let terminal : is_terminal t ≡ true = ap is_terminal e ∙ h in
      (terminal_differs t submitted terminal refl, terminal_differs t working terminal refl)

  canceled-IsClosed : IsClosed table (λ t. t ≡ canceled) (λ t. Unit)
  unfolding is_terminal
  canceled-IsClosed = record {
    on_save = λ old new h r _. canceled_is_refused new (subst (λ t. is_refused t new ≡ false) h r);
    on_move = not_moved canceled refl;
  }

  -- A canceled task stays canceled, whatever is begun, saved, marked or canceled afterwards.
  pub canceled_forever :
      (k : String) (ops : List (Op Body)) (s : State)
      → InState canceled k s
      → InState canceled k (run table ops s)
  canceled_forever k ops s v = run-Stays table _ _ canceled-IsClosed k ops s (any_save ops) v

  terminal-IsClosed :
      (st : TaskState)
      → is_terminal st ≡ true
      → IsClosed table (λ t. t ≡ st) (λ t. is_terminal t ≡ true)
  terminal-IsClosed st h = record {
    on_save = λ old new e r n. is_refused_lem old new r (ap is_terminal e ∙ h) n ∙ e;
    on_move = not_moved st h;
  }

  -- Where every saved task is terminal, as those of the deliveries are, a terminal task never changes
  -- its state again.
  pub terminal_forever :
      (st : TaskState) (k : String) (ops : List (Op Body)) (s : State)
      → is_terminal st ≡ true
      → All (Saves (λ t. is_terminal t ≡ true)) ops
      → InState st k s
      → InState st k (run table ops s)
  terminal_forever st k ops s h q v = run-Stays table _ _ (terminal-IsClosed st h) k ops s q v

  stored_over :
      (row : TaskRow Body) (m : String) (s s' : State) (task : PlainTask Body)
      (o : Option (TaskRow Body)) (p : Option State)
      → by_message m s ≡ o
      → insert row s ≡ p
      → row.message_id ≡ some m
      → begin_over table row s o ≡ some (task, s')
      → (again : TaskRow Body) × (by_message m s' ≡ some again) × (again.task ≡ task)
  unfolding begin_over
  stored_over row m s s' task (some old) p h i e b =
      let same : s ≡ s' = cc in (old, ap (by_message m) (sym same) ∙ h, cc)
  stored_over row m s s' task none none h i e b = absurd (cc (sym (ap (with_task row.task) i) ∙ b))
  stored_over row m s s' task none (some s₁) h i e b =
      let made : some (row.task, s₁) ≡ some (task, s') = sym (ap (with_task row.task) i) ∙ b in
      let same : s₁ ≡ s' = cc in
      (row, ap (by_message m) (sym same) ∙ inserted_message row s s₁ m i e, cc)

  -- A turn that is dispatched again under its message id gets the task that its first dispatch made,
  -- and makes no second one.
  pub begin_replay :
      (now later : ℕ) (body body' : Body) (m id id' context context' : String) (s s' : State)
      (task : PlainTask Body)
      → begin table now body m id context s ≡ some (task, s')
      → begin table later body' m id' context' s' ≡ some (task, s')
  unfolding begin begin_over submitted_row
  begin_replay now later body body' m id id' context context' s s' task h =
      let row : TaskRow Body = submitted_row table now body m id context in
      let (again, found, same) =
        stored_over row m s s' task (by_message m s) (insert row s) refl refl refl h in
      ap (begin_over table (submitted_row table later body' m id' context') s') found
      ∙ ap (λ t. some (t, s')) same

  applied :
      (now : ℕ) (s : State) (task old : PlainTask Body)
      → is_refused old.state task.state ≡ false
      → save_over table now task s (some old) ≡ (true, upsert table now task s)
  unfolding save_over
  applied now s task old fine = rw (save_over, fine)

  -- A save that is not terminal is not refused over a terminal task other than a canceled one: such a
  -- task leaves its state.
  pub save_reopens :
      (now : ℕ) (s : State) (task old : PlainTask Body)
      → read_one table task.id s ≡ some old
      → is_terminal old.state ≡ true
      → state_eq old.state canceled ≡ false
      → is_terminal task.state ≡ false
      → read_one table task.id (save table now task s).1 ≡ some task
  unfolding save
  save_reopens now s task old h o c n =
      ap (λ r. read_one table task.id (save_over table now task s r).1) h
      ∙ ap (λ r. read_one table task.id r.1)
          (applied now s task old (open_passes old.state task.state c n))
      ∙ read_one-upsert table now task s
