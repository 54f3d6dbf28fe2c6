-- ===== src/Db/Tasks/Table.antt =====
-- src/db/models/tasks.ts, the rows of `notify_tasks` and the SQL statements that the model issues on
-- them. The statements are SQLite's: they enter with what a primary key promises of them. A row holds
-- the task that its wire form decodes to.
use looping_core.Base.{ℕ, String, ◌≡◌, ◌≢◌, Option, none, some}

-- The SDK's states, as far as the source names them.
pub data TaskState : Type 0 where
  unspecified submitted working input_required auth_required : TaskState
  completed failed canceled rejected : TaskState

-- `Body` is the rest of a task: its message, artifacts and history.
pub record PlainTask (Body : Type 0) : Type 0 where
  pub id : String
  pub context_id : String
  pub state : TaskState
  pub timestamp : ℕ
  pub body : Body

pub record TaskRow (Body : Type 0) : Type 0 where
  pub task_id : String
  pub message_id : Option String
  pub context_id : String
  pub state : TaskState
  pub task : PlainTask Body
  pub created_at : ℕ
  pub updated_at : ℕ

-- The row that an upsert leaves: the new one, or the old one as the conflict clause sets it.
abbrev pub merged : {Row : Type 0} → Row → (Row → Row) → Option Row → Row
merged r f none = r
merged r f (some old) = f old

-- Selects by key, an insert that a taken key refuses, and an insert with a conflict clause.
pub record TaskTable (Body : Type 0) : Type 1 where
  pub State : Type 0
  pub by_id : String → State → Option (TaskRow Body)
  pub by_message : String → State → Option (TaskRow Body)
  pub insert : TaskRow Body → State → Option State
  pub upsert_row : TaskRow Body → (TaskRow Body → TaskRow Body) → State → State
  pub inserted :
      (r : TaskRow Body) (s s' : State) → insert r s ≡ some s' → by_id r.task_id s' ≡ some r
  pub inserted_message :
      (r : TaskRow Body) (s s' : State) (m : String)
      → insert r s ≡ some s'
      → r.message_id ≡ some m
      → by_message m s' ≡ some r
  pub insert_other :
      (r : TaskRow Body) (s s' : State) (k : String)
      → insert r s ≡ some s'
      → k ≢ r.task_id
      → by_id k s' ≡ by_id k s
  pub insert_taken :
      (r old : TaskRow Body) (s : State) → by_id r.task_id s ≡ some old → insert r s ≡ none
  pub upserted :
      (r : TaskRow Body) (f : TaskRow Body → TaskRow Body) (s : State)
      → ((x : TaskRow Body) → (f x).task_id ≡ x.task_id)
      → by_id r.task_id (upsert_row r f s) ≡ some (merged r f (by_id r.task_id s))
  pub upserted_other :
      (r : TaskRow Body) (f : TaskRow Body → TaskRow Body) (s : State) (k : String)
      → ((x : TaskRow Body) → (f x).task_id ≡ x.task_id)
      → k ≢ r.task_id
      → by_id k (upsert_row r f s) ≡ by_id k s
