-- ===== src/Round/Chunk/Examples.antt =====
-- A chunk of src/round/agent.ts over two tables in memory, and the theorems about it there.
use looping_core.Base.{
  ℕ, Bool, true, false, String, Option, none, some, List, [], ◌∷◌, Outcome, returned, ◌≡◌, refl,
}
use looping_core.Contract.Examples.{chess, policy}
use looping_core.Db.Subtasks.Examples.{rows_table as subtask_table, first_row}
use looping_core.Db.Subtasks.Model.{get_subtask, is_live}
use looping_core.Db.Subtasks.Table.{Subtask}
use looping_core.Db.Tasks.Examples.{rows_table as task_table, row_in, Rows}
use looping_core.Db.Tasks.Table.{submitted}
use looping_core.Subtasks.Types.{completed}
use looping_core.Subagent.Env.{RecipeExecutionResult, done}
use looping_core.Round.Chunk.Env.{IsOnly, ChunkWorld, ChildEnv}
use looping_core.Round.Chunk.Execute.{execute_subtask_chunk, fail_subtask}
use looping_core.Round.Chunk.Reported.{
  IsReported, execute_subtask_chunk-IsReported, fail_subtask_ends,
}

-- The child answers at once; the rest of the world lists what was cleaned up.
abbrev child : ChildEnv task_table subtask_table
child = record {
  E = String;
  Rest = List String;
  Runtime = Unit;
  Event = Unit;
  policy = policy;
  resolve_recipe = λ type. some chess;
  unknown_type = λ type. "unknown type";
  unusable = λ recipe f. "unusable";
  malformed = λ f. "malformed";
  delete_quietly = λ name x. name ∷ x;
  abort_quietly = λ name families x. x;
  release_quietly = λ r families x. x;
  release = λ request v x. (none, x);
  delete_child = λ name x. (none, name ∷ x);
  resolve_runtime = λ request v x. (returned tt, x);
  enrich_result = λ request runtime result x. (returned result, x);
  post_progress = λ events x. x;
  is_mismatch = λ e. false;
  execute_chunk = λ name request v chunk runtime w.
      (returned (done (RecipeExecutionResult.completed ("found" ∷ []) "large") []), w);
  selected = λ p s. refl;
  ids_stay = λ name request v chunk runtime w id only. only;
}

abbrev one_row : ChunkWorld task_table subtask_table (List String)
one_row = record { task_rows = row_in submitted ∷ []; subtask_rows = first_row ∷ []; rest = [] }

row_found : get_subtask subtask_table 0 one_row.subtask_rows ≡ some first_row
unfolding get_subtask looping_core.Db.Subtasks.Model.draft_row
row_found = refl

one_row-IsOnly : IsOnly 0 one_row.subtask_rows
unfolding looping_core.Db.Subtasks.Model.draft_row
one_row-IsOnly = refl

reports :
    (execute_subtask_chunk task_table subtask_table child 5 0 0 false one_row).0
    ≡ returned (record { done = true; status = completed; progress = [] })
unfolding execute_subtask_chunk looping_core.Db.Subtasks.Model.draft_row
    looping_core.Db.Tasks.Examples.row_of looping_core.Contract.Recipe.validate_recipe
    looping_core.Base.is_blank
reports = refl

execute_subtask_chunk-IsReported_example :
    IsReported task_table subtask_table child "t" 0
      (execute_subtask_chunk task_table subtask_table child 5 0 0 false one_row)
unfolding looping_core.Db.Subtasks.Model.draft_row
execute_subtask_chunk-IsReported_example =
    execute_subtask_chunk-IsReported task_table subtask_table child 5 0 0 false one_row first_row
      one_row-IsOnly row_found

abbrev failed_row : Subtask
failed_row = looping_core.Db.Subtasks.Model.failure 5 "gave up" first_row

abbrev given_up : Subtask
given_up = record failed_row { updated_at = 5 }

given_up_found :
    get_subtask subtask_table 0
      (fail_subtask task_table subtask_table child 5 0 "gave up" one_row).subtask_rows
    ≡ some given_up
unfolding fail_subtask get_subtask looping_core.Db.Subtasks.Model.draft_row
given_up_found = refl

fail_subtask_ends_example : is_live given_up.status ≡ false
fail_subtask_ends_example =
    fail_subtask_ends task_table subtask_table child 5 0 "gave up" one_row given_up given_up_found
