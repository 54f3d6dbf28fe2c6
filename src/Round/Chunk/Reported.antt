-- ===== src/Round/Chunk/Reported.antt =====
-- src/round/agent.ts: what `executeSubtaskChunk` reports is what the row says.
use looping_core.Base.{
  ℕ, String, Bool, true, false, Option, none, some, List, Outcome, returned, threw, ◌≡◌, refl, sym,
  ap, ◌∙◌, subst, Bool-cases, ◌⊎◌, inl, inr,
}
use looping_core.Contract.Recipe.{ValidatedRecipe}
use looping_core.Db.Subtasks.Model.{SubtaskFault, is_live, get_subtask, fail, complete}
use looping_core.Db.Subtasks.Table.{Subtask, SubtaskTable}
use looping_core.Db.Tasks.Table.{TaskTable}
use looping_core.Round.Agent.{is_task_canceled}
use looping_core.Subtasks.Types.{SubtaskStatus, running}
use looping_core.Subagent.Env.{
  RecipeExecutionResult, completed, failed, RecipeChunkResult, done, not_done,
}
use looping_core.Subagent.Prompt.{Assignment}
use looping_core.Round.Chunk.Env.{IsOnly, ChildEnv}
use looping_core.Round.Chunk.Prepare.{
  terminal, ready, World, Preparation, prepare_row, prepare_chunk,
}
use looping_core.Round.Chunk.Execute.{
  ChunkEnd, ChildRun, run_again, recreate_once, execute_chunk_in_child, complete_or_fail,
  persist_result, report_row, report_unrecorded, persist, publish_chunk, abandon, after_child,
  run_prepared, execute_subtask_chunk, fail_row, fail_subtask,
}
use looping_core.Round.Chunk.Rows.{fail_ends, complete_ends}
use looping_core.Round.Chunk.Prepared.{IsOver, IsPrepared, prepare_row-IsPrepared}

module _ {Body : Type 0} (tasks : TaskTable Body) (subtasks : SubtaskTable)
    (env : ChildEnv tasks subtasks) where
  open env use {E, Rest, Runtime, Event}

  abbrev ReportedAs : String → ℕ → Bool → SubtaskStatus → World tasks subtasks env → Type 0
  ReportedAs task_id id true status w = IsOver tasks subtasks env task_id id status w
  ReportedAs task_id id false status w = status ≡ running

  -- What a chunk reports: done, and then the row is over; or not done, with the status running.
  abbrev pub IsReported : String → ℕ → ChunkEnd tasks subtasks env → Type 0
  IsReported task_id id (returned o, w) = ReportedAs task_id id o.done o.status w
  IsReported task_id id (threw e, w) = Unit

  report_row-IsReported :
      (task_id : String) (id : ℕ) (events : List Event) (o : Option Subtask)
      (w : World tasks subtasks env)
      → get_subtask subtasks id w.subtask_rows ≡ o
      → ((r : Subtask)
          → o ≡ some r
          → (is_live r.status ≡ false) ⊎ (is_task_canceled tasks task_id w.task_rows ≡ true))
      → IsReported task_id id (report_row tasks subtasks env id events o w)
  unfolding report_row
  report_row-IsReported task_id id events none w h k = tt
  report_row-IsReported task_id id events (some r) w h k = record {
    row = r;
    found = h;
    says = refl;
    over = k r refl;
  }

  report_unrecorded-IsReported :
      (task_id : String) (id : ℕ) (name : String) (events : List Event) (o : Option Subtask)
      (w : World tasks subtasks env)
      → get_subtask subtasks id w.subtask_rows ≡ o
      → IsReported task_id id (report_unrecorded tasks subtasks env id name events o w)
  unfolding report_unrecorded
  report_unrecorded-IsReported task_id id name events none w h = tt
  report_unrecorded-IsReported task_id id name events (some r) w h =
      elim (Bool-cases (is_live r.status)) [
        | inl live ↦ rw live tt
        | inr ended ↦ rw ended (record { row = r; found = h; says = refl; over = inl ended })
      ]

  -- A result that was persisted has ended the row.
  complete_or_fail_ends :
      (now id : ℕ) (s : subtasks.State) (parts : List String) (q : Subtask)
      (o : Outcome SubtaskFault Bool × subtasks.State)
      → complete subtasks now id parts s ≡ o
      → IsOnly id (subtasks.rows s)
      → (complete_or_fail tasks subtasks env now id o).0 ≡ true
      → get_subtask subtasks id (complete_or_fail tasks subtasks env now id o).1 ≡ some q
      → is_live q.status ≡ false
  unfolding complete_or_fail
  complete_or_fail_ends now id s parts q (returned applied, t) e only stored h =
      complete_ends subtasks env.selected now id parts s q only
        (ap (λ x. x.0) e ∙ ap returned stored) (ap (λ x. get_subtask subtasks id x.1) e ∙ h)
  complete_or_fail_ends now id s parts q (threw f, t) e only stored h =
      fail_ends subtasks env.selected now id (env.malformed f) t q h

  persist_result_ends :
      (now id : ℕ) (result : RecipeExecutionResult) (s : subtasks.State) (q : Subtask)
      → IsOnly id (subtasks.rows s)
      → (persist_result tasks subtasks env now id result s).0 ≡ true
      → get_subtask subtasks id (persist_result tasks subtasks env now id result s).1 ≡ some q
      → is_live q.status ≡ false
  unfolding persist_result
  persist_result_ends now id (failed error model) s q only stored h =
      fail_ends subtasks env.selected now id error s q h
  persist_result_ends now id (completed parts model) s q only stored h =
      complete_or_fail_ends now id s parts q (complete subtasks now id parts s) refl only stored h

  persist-IsReported :
      (task_id : String) (now id : ℕ) (name : String) (events : List Event)
      (o : Outcome E RecipeExecutionResult × Rest) (w : World tasks subtasks env)
      → IsOnly id (subtasks.rows w.subtask_rows)
      → IsReported task_id id (persist tasks subtasks env now id name events o w)
  unfolding persist
  persist-IsReported task_id now id name events (threw e, x) w only = tt
  persist-IsReported task_id now id name events (returned result, x) w only =
      let stored = persist_result tasks subtasks env now id result w.subtask_rows in
      let row = get_subtask subtasks id stored.1 in
      elim (Bool-cases stored.0) [
        | inl applied ↦ rw applied (
            report_row-IsReported task_id id events row _ refl
              (λ r h. inl (persist_result_ends now id result w.subtask_rows r only applied h)))
        | inr missed ↦ rw missed (report_unrecorded-IsReported task_id id name events row _ refl)
      ]

  publish_chunk-IsReported :
      (task_id : String) (now id : ℕ) (push : Bool) (request : Assignment) (name : String)
      (runtime : Runtime) (o : RecipeChunkResult Event) (w : World tasks subtasks env)
      → IsOnly id (subtasks.rows w.subtask_rows)
      → IsReported task_id id
          (publish_chunk tasks subtasks env now id push request name runtime o w)
  unfolding publish_chunk
  publish_chunk-IsReported task_id now id push request name runtime (not_done events) w only = refl
  publish_chunk-IsReported task_id now id true request name runtime (done result events) w only =
      persist-IsReported task_id now id name events _ _ only
  publish_chunk-IsReported task_id now id false request name runtime (done result events) w only =
      persist-IsReported task_id now id name events _ w only

  abandon-IsReported :
      (task_id : String) (id : ℕ) (name : String) (v : ValidatedRecipe) (events : List Event)
      (o : Option E × Rest) (w : World tasks subtasks env)
      → is_task_canceled tasks task_id w.task_rows ≡ true
      → IsReported task_id id (abandon tasks subtasks env id name v events o w)
  unfolding abandon
  abandon-IsReported task_id id name v events (some e, x) w stopped = tt
  abandon-IsReported task_id id name v events (none, x) w stopped =
      report_row-IsReported task_id id events _ _ refl (λ r h. inr stopped)

  after_child-IsReported :
      (now id : ℕ) (push : Bool) (request : Assignment) (v : ValidatedRecipe) (name : String)
      (runtime : Runtime) (run : ChildRun tasks subtasks env)
      → IsOnly id (subtasks.rows run.1.subtask_rows)
      → IsReported request.task_id id
          (after_child tasks subtasks env now id push request v name runtime run)
  unfolding after_child
  after_child-IsReported now id push request v name runtime (threw e, w) only = tt
  after_child-IsReported now id push request v name runtime (returned o, w) only =
      elim (Bool-cases (is_task_canceled tasks request.task_id w.task_rows)) [
        | inl stopped ↦ rw stopped (abandon-IsReported request.task_id id name v _ _ _ stopped)
        | inr going ↦
            rw going
              (publish_chunk-IsReported request.task_id now id push request name runtime o w only)
      ]

  run_again-IsOnly :
      (id : ℕ) (name : String) (request : Assignment) (v : ValidatedRecipe) (chunk : ℕ)
      (runtime : Runtime) (o : Option E × Rest) (w : World tasks subtasks env)
      → IsOnly id (subtasks.rows w.subtask_rows)
      → IsOnly id (
          subtasks.rows
            (run_again tasks subtasks env name request v chunk runtime o w).1.subtask_rows)
  unfolding run_again
  run_again-IsOnly id name request v chunk runtime (none, x) w only =
      env.ids_stay name request v chunk runtime (record w { rest = x }) id only
  run_again-IsOnly id name request v chunk runtime (some e, x) w only = only

  recreate_once-IsOnly :
      (id : ℕ) (name : String) (request : Assignment) (v : ValidatedRecipe) (chunk : ℕ)
      (runtime : Runtime) (run : ChildRun tasks subtasks env)
      → IsOnly id (subtasks.rows run.1.subtask_rows)
      → IsOnly id (
          subtasks.rows
            (recreate_once tasks subtasks env name request v chunk runtime run).1.subtask_rows)
  unfolding recreate_once
  recreate_once-IsOnly id name request v chunk runtime (returned o, w) only = only
  recreate_once-IsOnly id name request v chunk runtime (threw e, w) only =
      elim (Bool-cases (env.is_mismatch e)) [
        | inl stale ↦
            rw stale (
              run_again-IsOnly id name request v chunk runtime (env.delete_child name w.rest) w
                only)
        | inr other ↦ rw other only
      ]

  run_prepared-IsReported :
      (task_id : String) (now id chunk : ℕ) (push : Bool) (p : Preparation tasks subtasks env)
      → IsPrepared tasks subtasks env task_id id p
      → IsReported task_id id (run_prepared tasks subtasks env now id chunk push p)
  unfolding run_prepared execute_chunk_in_child
  run_prepared-IsReported task_id now id chunk push (threw e, w) h = tt
  run_prepared-IsReported task_id now id chunk push (returned (terminal r), w) h = h
  run_prepared-IsReported task_id now id chunk push (returned (ready request v name runtime), w) h =
      let run = env.execute_chunk name request v chunk runtime w in
      subst
        (λ t. IsReported t id (
          after_child tasks subtasks env now id push request v name runtime
            (recreate_once tasks subtasks env name request v chunk runtime run)))
        h.0
        (after_child-IsReported now id push request v name runtime _ (
          recreate_once-IsOnly id name request v chunk runtime run
            (env.ids_stay name request v chunk runtime w id h.1)))

  -- A chunk of a subtask that is reported done tells the status that its row has at the end, and the row
  -- has then completed, failed or been canceled, or else its Task is canceled; whatever the rows have been
  -- changed to while the child ran. A chunk that is reported not done gives the status running. At most
  -- one row bears the id, and the row is there when the chunk begins.
  pub execute_subtask_chunk-IsReported :
      (now id chunk : ℕ) (push : Bool) (w : World tasks subtasks env) (r : Subtask)
      → IsOnly id (subtasks.rows w.subtask_rows)
      → get_subtask subtasks id w.subtask_rows ≡ some r
      → IsReported r.task_id id (execute_subtask_chunk tasks subtasks env now id chunk push w)
  unfolding execute_subtask_chunk prepare_chunk
  execute_subtask_chunk-IsReported now id chunk push w r only h =
      let prepared = prepare_row-IsPrepared tasks subtasks env now id r w only h in
      run_prepared-IsReported r.task_id now id chunk push
        (prepare_chunk tasks subtasks env now id w)
        (subst
          (λ o.
            IsPrepared tasks subtasks env r.task_id id (prepare_row tasks subtasks env now id o w))
          (sym h) prepared)

  -- When the Workflow has given a branch up, its row has ended: whichever row is found under the id after
  -- `failSubtask` has completed, failed or been canceled.
  pub fail_subtask_ends :
      (now id : ℕ) (error : String) (w : World tasks subtasks env) (q : Subtask)
      → get_subtask subtasks id (fail_subtask tasks subtasks env now id error w).subtask_rows
        ≡ some q
      → is_live q.status ≡ false
  unfolding fail_subtask fail_row
  fail_subtask_ends now id error w q h =
      let found = get_subtask subtasks id w.subtask_rows in failed_row found refl h
    where
      failed_row :
          (o : Option Subtask)
          → get_subtask subtasks id w.subtask_rows ≡ o
          → get_subtask subtasks id (fail_row tasks subtasks env now id error o w).subtask_rows
            ≡ some q
          → is_live q.status ≡ false
      failed_row none missing h = let clash = sym missing ∙ h in absurd (cc)
      failed_row (some r) here h =
          let failing = fail subtasks now id error w.subtask_rows in
          elim (Bool-cases failing.0) [
            | inl applied ↦
                fail_ends subtasks env.selected now id error w.subtask_rows q (rw applied at h)
            | inr missed ↦
                fail_ends subtasks env.selected now id error w.subtask_rows q (rw missed at h)
          ]
