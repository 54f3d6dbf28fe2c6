-- ===== src/Db/Tasks/Model.antt =====
-- src/db/models/tasks.ts, `makeTasks`: the operations on one task. `now` is the clock's reading.
-- `list` and `cleanup` are queries over the whole table and are left out.
use looping_core.Base.{
  ℕ, String, Bool, true, false, not, ◌&&◌, ◌||◌, Option, none, some, if◌then◌else◌, ◌==◌,
}
use looping_core.Db.Tasks.Table.{
  TaskState, unspecified, submitted, working, input_required, auth_required, completed, failed,
  canceled, rejected, PlainTask, TaskRow, TaskTable,
}

unfoldable pub is_terminal : TaskState → Bool
is_terminal completed = true
is_terminal failed = true
is_terminal canceled = true
is_terminal rejected = true
is_terminal _ = false

unfoldable pub position : TaskState → ℕ
position unspecified = 0
position submitted = 1
position working = 2
position input_required = 3
position auth_required = 4
position completed = 5
position failed = 6
position canceled = 7
position rejected = 8

-- `===` on two states.
unfoldable pub state_eq : TaskState → TaskState → Bool
unfolding position
state_eq a b = position a == position b

-- What `save` refuses, by the state that is stored and the one that comes in.
unfoldable pub is_refused : TaskState → TaskState → Bool
unfolding is_terminal state_eq
is_refused old new =
    (state_eq old canceled && not (state_eq new canceled))
    || ((state_eq new canceled
          && (not (state_eq old submitted)
              && (not (state_eq old working) && not (state_eq old canceled))))
        || (is_terminal old && (is_terminal new && not (state_eq new old))))

abbrev pub task_of : {Body : Type 0} → Option (TaskRow Body) → Option (PlainTask Body)
task_of none = none
task_of (some row) = some row.task

pub data MarkWorking : Type 0 where
  ok_working canceled_working : MarkWorking

abbrev pub with_task : {A S : Type 0} → A → Option S → Option (A × S)
with_task task none = none
with_task task (some s) = some (task, s)

module _ {Body : Type 0} (table : TaskTable Body) where
  open table use {State, by_id, by_message, insert, upsert_row}

  unfoldable pub read_one : String → State → Option (PlainTask Body)
  read_one id s = task_of (by_id id s)

  -- The conflict clause keeps the message id and the time of creation.
  unfoldable pub upsert : ℕ → PlainTask Body → State → State
  upsert now task s =
      let row : TaskRow Body = record {
        task_id = task.id;
        message_id = none;
        context_id = task.context_id;
        state = task.state;
        task = task;
        created_at = now;
        updated_at = now;
      } in
      let set : TaskRow Body → TaskRow Body = λ old. record old {
        context_id = task.context_id;
        state = task.state;
        task = task;
        updated_at = now;
      } in
      upsert_row row set s

  -- `buildSubmittedTask` with its row.
  unfoldable pub submitted_row : ℕ → Body → String → String → String → TaskRow Body
  submitted_row now body message_id task_id context_id = record {
    task_id = task_id;
    message_id = some message_id;
    context_id = context_id;
    state = submitted;
    task = record {
      id = task_id;
      context_id = context_id;
      state = submitted;
      timestamp = now;
      body = body;
    };
    created_at = now;
    updated_at = now;
  }

  unfoldable pub begin_over :
      TaskRow Body → State → Option (TaskRow Body) → Option (PlainTask Body × State)
  begin_over row s (some existing) = some (existing.task, s)
  begin_over row s none = with_task row.task (insert row s)

  -- A throw of the insert (a task id that is taken) is `none`.
  unfoldable pub begin :
      ℕ → Body → String → String → String → State → Option (PlainTask Body × State)
  unfolding begin_over submitted_row
  begin now body message_id task_id context_id s =
      begin_over (submitted_row now body message_id task_id context_id) s (by_message message_id s)

  unfoldable pub save_over : ℕ → PlainTask Body → State → Option (PlainTask Body) → Bool × State
  unfolding upsert is_refused
  save_over now task s none = (true, upsert now task s)
  save_over now task s (some existing) =
      if is_refused existing.state task.state then (false, s) else (true, upsert now task s)

  unfoldable pub save : ℕ → PlainTask Body → State → Bool × State
  unfolding save_over read_one
  save now task s = save_over now task s (read_one task.id s)

  -- The task in another state, stamped with the time.
  unfoldable pub moved : ℕ → TaskState → PlainTask Body → PlainTask Body
  moved now state task = record task { state = state; timestamp = now }

  unfoldable pub mark_read : ℕ → State → Option (PlainTask Body) → MarkWorking × State
  unfolding upsert moved state_eq
  mark_read now s none = (ok_working, s)
  mark_read now s (some task) =
      if state_eq task.state canceled
      then (canceled_working, s)
      else if not (state_eq task.state submitted)
      then (ok_working, s)
      else (ok_working, upsert now (moved now working task) s)

  unfoldable pub mark_working : ℕ → String → State → MarkWorking × State
  unfolding mark_read read_one
  mark_working now task_id s = mark_read now s (read_one task_id s)

  unfoldable pub cancel_read : ℕ → State → Option (PlainTask Body) → Option (PlainTask Body) × State
  unfolding upsert moved state_eq
  cancel_read now s none = (none, s)
  cancel_read now s (some task) =
      if not (state_eq task.state submitted) && not (state_eq task.state working)
      then (none, s)
      else (some (moved now canceled task), upsert now (moved now canceled task) s)

  unfoldable pub cancel : ℕ → String → State → Option (PlainTask Body) × State
  unfolding cancel_read read_one
  cancel now task_id s = cancel_read now s (read_one task_id s)
