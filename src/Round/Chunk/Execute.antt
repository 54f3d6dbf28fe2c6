-- ===== src/Round/Chunk/Execute.antt =====
-- src/round/agent.ts, `executeSubtaskChunk`: one chunk in the managed child, and what becomes of its row.
-- Also `failSubtask`, `scanSubtasks` and `cancelPendingSubtasks`, which the Workflow calls.
use looping_core.Base.{
  ℕ, String, Bool, true, false, Option, none, some, List, [], map, keep_if, Outcome, returned,
  threw, if◌then◌else◌,
}
use looping_core.Contract.Recipe.{ValidatedRecipe}
use looping_core.Db.Subtasks.Model.{
  SubtaskFault, is_live, get_subtask, complete, fail, cancel_running, list_round,
}
use looping_core.Db.Subtasks.Table.{Subtask, SubtaskTable}
use looping_core.Db.Tasks.Table.{TaskTable}
use looping_core.Round.Agent.{is_task_canceled}
use looping_core.Subtasks.Types.{running}
use looping_core.Subagent.Env.{
  RecipeExecutionResult, completed, failed, RecipeChunkResult, done, not_done,
}
use looping_core.Subagent.Prompt.{Assignment}
use looping_core.Round.Chunk.Env.{
  ChildEnv, ChunkFault, disappeared, unrecorded, fault, SubtaskChunkOutcome,
}
use looping_core.Round.Chunk.Prepare.{
  terminal, ready, World, Preparation, with_rest, with_subtasks, prepare_chunk, subagent_name,
  tool_families_for_type,
}

module _ {Body : Type 0} (tasks : TaskTable Body) (subtasks : SubtaskTable)
    (env : ChildEnv tasks subtasks) where
  open env use {E, Rest, Runtime, Event}

  abbrev pub ChunkEnd : Type 0
  ChunkEnd = Outcome (ChunkFault E) (SubtaskChunkOutcome Event) × World tasks subtasks env

  abbrev pub ChildRun : Type 0
  ChildRun = Outcome E (RecipeChunkResult Event) × World tasks subtasks env

  -- After the deletion of a stale child, which may fail.
  unfoldable pub run_again :
      String
      → Assignment
      → ValidatedRecipe
      → ℕ
      → Runtime
      → Option E × Rest
      → World tasks subtasks env
      → ChildRun
  run_again name request v chunk runtime (none, x) w =
      env.execute_chunk name request v chunk runtime (record w { rest = x })
  run_again name request v chunk runtime (some e, x) w = (threw e, record w { rest = x })

  unfoldable pub recreate_once :
      String → Assignment → ValidatedRecipe → ℕ → Runtime → ChildRun → ChildRun
  unfolding run_again
  recreate_once name request v chunk runtime (returned o, w) = (returned o, w)
  recreate_once name request v chunk runtime (threw e, w) =
      let again = run_again name request v chunk runtime (env.delete_child name w.rest) w in
      if env.is_mismatch e then again else (threw e, w)

  unfoldable pub execute_chunk_in_child :
      String → Assignment → ValidatedRecipe → ℕ → Runtime → World tasks subtasks env → ChildRun
  unfolding recreate_once
  execute_chunk_in_child name request v chunk runtime w =
      recreate_once name request v chunk runtime (env.execute_chunk name request v chunk runtime w)

  -- A result that completes without a text is recorded as a failure.
  unfoldable pub complete_or_fail :
      ℕ → ℕ → Outcome SubtaskFault Bool × subtasks.State → Bool × subtasks.State
  unfolding fail
  complete_or_fail now id (returned applied, s) = (applied, s)
  complete_or_fail now id (threw f, s) = fail subtasks now id (env.malformed f) s

  unfoldable pub persist_result :
      ℕ → ℕ → RecipeExecutionResult → subtasks.State → Bool × subtasks.State
  unfolding complete_or_fail complete fail
  persist_result now id (failed error model) s = fail subtasks now id error s
  persist_result now id (completed parts model) s =
      complete_or_fail now id (complete subtasks now id parts s)

  -- The row, which must be there, ends the chunk.
  unfoldable pub report_row : ℕ → List Event → Option Subtask → World tasks subtasks env → ChunkEnd
  report_row id events none w = (threw (disappeared id), w)
  report_row id events (some r) w =
      (returned (record { done = true; status = r.status; progress = events }), w)

  -- No row took the result: it has ended meanwhile, or something is wrong.
  unfoldable pub report_unrecorded :
      ℕ → String → List Event → Option Subtask → World tasks subtasks env → ChunkEnd
  unfolding is_live
  report_unrecorded id name events none w = (threw (disappeared id), w)
  report_unrecorded id name events (some r) w =
      if is_live r.status then (threw (unrecorded id r.status), w) else (
        returned (record { done = true; status = r.status; progress = events }),
        with_rest tasks subtasks env (env.delete_quietly name) w,
      )

  unfoldable pub persist :
      ℕ
      → ℕ
      → String
      → List Event
      → Outcome E RecipeExecutionResult × Rest
      → World tasks subtasks env
      → ChunkEnd
  unfolding persist_result report_row report_unrecorded get_subtask
  persist now id name events (threw e, x) w = (threw (fault e), record w { rest = x })
  persist now id name events (returned result, x) w =
      let stored = persist_result now id result w.subtask_rows in
      let after : World tasks subtasks env = record w { subtask_rows = stored.1; rest = x } in
      let row = get_subtask subtasks id stored.1 in
      if stored.0
      then report_row id events row after
      else report_unrecorded id name events row after

  -- The Task is live: progress goes out, and a terminal result is stored.
  unfoldable pub publish_chunk :
      ℕ
      → ℕ
      → Bool
      → Assignment
      → String
      → Runtime
      → RecipeChunkResult Event
      → World tasks subtasks env
      → ChunkEnd
  unfolding persist
  publish_chunk now id push request name runtime (not_done events) w =
      let posted = if push then with_rest tasks subtasks env (env.post_progress events) w else w in
      (returned (record { done = false; status = running; progress = events }), posted)
  publish_chunk now id push request name runtime (done result events) w =
      let posted = if push then with_rest tasks subtasks env (env.post_progress events) w else w in
      persist now id name events (env.enrich_result request runtime result posted.rest) posted

  abbrev pub events_of : RecipeChunkResult Event → List Event
  events_of (not_done events) = events
  events_of (done result events) = events

  -- The Task was canceled while the chunk ran.
  unfoldable pub abandon :
      ℕ
      → String
      → ValidatedRecipe
      → List Event
      → Option E × Rest
      → World tasks subtasks env
      → ChunkEnd
  unfolding report_row get_subtask
  abandon id name v events (some e, x) w = (threw (fault e), record w { rest = x })
  abandon id name v events (none, x) w =
      let freed : World tasks subtasks env = record w {
        rest = env.delete_quietly name (env.abort_quietly name v.tool_families x);
      } in
      report_row id events (get_subtask subtasks id w.subtask_rows) freed

  unfoldable pub after_child :
      ℕ → ℕ → Bool → Assignment → ValidatedRecipe → String → Runtime → ChildRun → ChunkEnd
  unfolding publish_chunk abandon cancel_running is_task_canceled
  after_child now id push request v name runtime (threw e, w) = (threw (fault e), w)
  after_child now id push request v name runtime (returned o, w) =
      let stopped =
        with_subtasks tasks subtasks env (cancel_running subtasks now id w.subtask_rows).1 w in
      if is_task_canceled tasks request.task_id w.task_rows
      then abandon id name v (events_of o) (env.release request v w.rest) stopped
      else publish_chunk now id push request name runtime o w

  unfoldable pub run_prepared : ℕ → ℕ → ℕ → Bool → Preparation tasks subtasks env → ChunkEnd
  unfolding after_child execute_chunk_in_child
  run_prepared now id chunk push (threw e, w) = (threw e, w)
  run_prepared now id chunk push (returned (terminal r), w) =
      (returned (record { done = true; status = r.status; progress = [] }), w)
  run_prepared now id chunk push (returned (ready request v name runtime), w) =
      after_child now id push request v name runtime
        (execute_chunk_in_child name request v chunk runtime w)

  unfoldable pub execute_subtask_chunk : ℕ → ℕ → ℕ → Bool → World tasks subtasks env → ChunkEnd
  unfolding run_prepared prepare_chunk
  execute_subtask_chunk now id chunk push w =
      run_prepared now id chunk push (prepare_chunk tasks subtasks env now id w)

  -- `none` stands for a canceled Task.
  unfoldable pub scan_subtasks : String → ℕ → World tasks subtasks env → Option (List ℕ)
  unfolding is_task_canceled list_round is_live
  scan_subtasks task_id round w =
      if is_task_canceled tasks task_id w.task_rows
      then none
      else some (
          map (λ r. r.id)
            (keep_if (λ r. is_live r.status) (list_round subtasks task_id round w.subtask_rows)))

  unfoldable pub fail_row :
      ℕ → ℕ → String → Option Subtask → World tasks subtasks env → World tasks subtasks env
  unfolding fail subagent_name tool_families_for_type
  fail_row now id error none w = w
  fail_row now id error (some r) w =
      let name = subagent_name r.task_id id in
      let families = tool_families_for_type tasks subtasks env r.type in
      let failing = fail subtasks now id error w.subtask_rows in
      let after = with_subtasks tasks subtasks env failing.1 w in
      if failing.0
      then with_rest tasks subtasks env
          (λ x.
            env.delete_quietly name
              (env.abort_quietly name families (env.release_quietly r families x)))
          after
      else after

  unfoldable pub fail_subtask : ℕ → ℕ → String → World tasks subtasks env → World tasks subtasks env
  unfolding fail_row get_subtask
  fail_subtask now id error w = fail_row now id error (get_subtask subtasks id w.subtask_rows) w
