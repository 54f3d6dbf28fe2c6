-- ===== src/Round/Chunk/Env.antt =====
-- src/round/agent.ts, what a chunk of a subtask reaches: the two tables, the types' recipes, and the
-- managed child and the plugins, which are operations. Deletions, aborts and releases that are best
-- effort never throw. What other calls do to the rows in the meantime, they do while the child runs.
use looping_core.Base.{
  ℕ, String, Bool, false, Option, List, [], ◌∷◌, any, keep_if, Outcome, ◌==◌, if◌then◌else◌, ◌≡◌,
}
use looping_core.Contract.Recipe.{ResolvedRecipe, ValidatedRecipe, RecipePolicy, RecipeFault}
use looping_core.Db.Subtasks.Model.{SubtaskFault}
use looping_core.Db.Subtasks.Table.{Subtask, SubtaskTable}
use looping_core.Db.Tasks.Table.{TaskTable}
use looping_core.Subtasks.Types.{SubtaskStatus}
use looping_core.Subagent.Env.{RecipeExecutionResult, RecipeChunkResult}
use looping_core.Subagent.Prompt.{Assignment}

-- At most one row bears an id.
abbrev pub IsOnly : ℕ → List Subtask → Type 0
IsOnly id [] = Unit
IsOnly id (r ∷ rs) = if r.id == id then any (λ q. q.id == id) rs ≡ false else IsOnly id rs

pub record ChunkWorld {Body : Type 0} (tasks : TaskTable Body) (subtasks : SubtaskTable)
    (Rest : Type 0) : Type 0 where
  pub task_rows : tasks.State
  pub subtask_rows : subtasks.State
  pub rest : Rest

pub record ChildEnv {Body : Type 0} (tasks : TaskTable Body) (subtasks : SubtaskTable)
    : Type 1 where
  pub E : Type 0
  pub Rest : Type 0
  pub Runtime : Type 0
  pub Event : Type 0
  pub policy : RecipePolicy
  pub resolve_recipe : String → Option ResolvedRecipe
  pub unknown_type : String → String
  pub unusable : ResolvedRecipe → RecipeFault → String
  pub malformed : SubtaskFault → String
  pub delete_quietly : String → Rest → Rest
  pub abort_quietly : String → List String → Rest → Rest
  pub release_quietly : Subtask → List String → Rest → Rest
  pub release : Assignment → ValidatedRecipe → Rest → Option E × Rest
  pub delete_child : String → Rest → Option E × Rest
  pub resolve_runtime : Assignment → ValidatedRecipe → Rest → Outcome E Runtime × Rest
  pub enrich_result :
      Assignment → Runtime → RecipeExecutionResult → Rest → Outcome E RecipeExecutionResult × Rest
  pub post_progress : List Event → Rest → Rest
  pub is_mismatch : E → Bool
  pub execute_chunk :
      String
      → Assignment
      → ValidatedRecipe
      → ℕ
      → Runtime
      → ChunkWorld tasks subtasks Rest
      → Outcome E (RecipeChunkResult Event) × ChunkWorld tasks subtasks Rest
  pub selected :
      (p : Subtask → Bool) (s : subtasks.State) → subtasks.select p s ≡ keep_if p (subtasks.rows s)
  pub ids_stay :
      (name : String) (request : Assignment) (recipe : ValidatedRecipe) (chunk : ℕ)
      (runtime : Runtime) (w : ChunkWorld tasks subtasks Rest) (id : ℕ)
      → IsOnly id (subtasks.rows w.subtask_rows)
      → IsOnly id (subtasks.rows (execute_chunk name request recipe chunk runtime w).1.subtask_rows)

-- What a chunk throws: a row that is missing or gone, a result that no row took, or a fault from outside.
pub data ChunkFault (E : Type 0) : Type 0 where
  unknown_subtask disappeared : ℕ → ChunkFault E
  unrecorded : ℕ → SubtaskStatus → ChunkFault E
  fault : E → ChunkFault E

pub record SubtaskChunkOutcome (Event : Type 0) : Type 0 where
  pub done : Bool
  pub status : SubtaskStatus
  pub progress : List Event
