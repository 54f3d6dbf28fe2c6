-- ===== src/Db/Subtasks/Table.antt =====
-- src/db/models/subtasks.ts, a row of `subtasks` and the SQL statements that the model issues. The
-- statements are SQLite's: an update sets the rows that match, a select gives every row that matches
-- (in ordinal order), an insert adds a row under a fresh id. A row's JSON columns hold what they parse
-- to.
use looping_core.Base.{
  ℕ, String, Bool, false, List, [], ◌∷◌, ◌++◌, map, any, if◌then◌else◌, ◌≡◌, Option,
}
use looping_core.Subtasks.Types.{SubtaskStatus, SubtaskReference, SubtaskParams}

pub record Subtask : Type 0 where
  pub id : ℕ
  pub task_id : String
  pub round : ℕ
  pub ordinal : ℕ
  pub type : String
  pub recipe_id : Option String
  pub recipe_version : Option ℕ
  pub prompt : String
  pub references : List SubtaskReference
  pub params : SubtaskParams
  pub status : SubtaskStatus
  pub result_parts : Option (List String)
  pub error : Option String
  pub created_at : ℕ
  pub updated_at : ℕ
  pub completed_at : Option ℕ

pub record SubtaskTable : Type 1 where
  pub State : Type 0
  pub rows : State → List Subtask
  pub select : (Subtask → Bool) → State → List Subtask
  pub fresh_id : State → ℕ
  pub insert : Subtask → State → State
  pub update : (Subtask → Bool) → (Subtask → Subtask) → State → State
  pub selected_none : (p : Subtask → Bool) (s : State) → select p s ≡ [] → any p (rows s) ≡ false
  pub inserted : (r : Subtask) (s : State) → rows (insert r s) ≡ rows s ++ r ∷ []
  pub updated :
      (p : Subtask → Bool) (f : Subtask → Subtask) (s : State)
      → rows (update p f s) ≡ map (λ r. if p r then f r else r) (rows s)
