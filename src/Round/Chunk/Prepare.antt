-- ===== src/Round/Chunk/Prepare.antt =====
-- src/round/agent.ts, `prepareChunk`: the front half of a chunk. `now` is the clock's reading.
use Prim.Native.String.{◌++◌ as ◌<>◌}
use looping_core.Base.{
  ℕ, String, not, Option, none, some, List, [], Outcome, returned, threw, show, if◌then◌else◌,
}
use looping_core.Contract.Recipe.{ResolvedRecipe, ValidatedRecipe, RecipeFault, validate_recipe}
use looping_core.Db.Subtasks.Model.{is_live, is_running, get_subtask, start, fail, cancel_running}
use looping_core.Db.Subtasks.Table.{Subtask, SubtaskTable}
use looping_core.Db.Tasks.Table.{TaskTable}
use looping_core.Round.Agent.{is_task_canceled}
use looping_core.Subagent.Prompt.{Assignment}
use looping_core.Round.Chunk.Env.{
  ChunkWorld, ChildEnv, ChunkFault, unknown_subtask, disappeared, fault,
}

unfoldable pub subagent_name : String → ℕ → String
subagent_name task_id id = "subtask:" <> task_id <> ":" <> show id

unfoldable pub assignment_of : Subtask → Assignment
assignment_of r = record {
  task_id = r.task_id;
  subtask_id = r.id;
  type = r.type;
  prompt = r.prompt;
  references = r.references;
  params = r.params;
}

-- A chunk that is not to run has its row; one that is to run, what it needs.
pub data Prepared (Runtime : Type 0) : Type 0 where
  terminal : Subtask → Prepared Runtime
  ready : Assignment → ValidatedRecipe → String → Runtime → Prepared Runtime

module _ {Body : Type 0} (tasks : TaskTable Body) (subtasks : SubtaskTable)
    (env : ChildEnv tasks subtasks) where
  open env use {E, Rest, Runtime}

  abbrev pub World : Type 0
  World = ChunkWorld tasks subtasks Rest

  abbrev pub Preparation : Type 0
  Preparation = Outcome (ChunkFault E) (Prepared Runtime) × World

  abbrev pub with_rest : (Rest → Rest) → World → World
  with_rest f w = record w { rest = f w.rest }

  abbrev pub with_subtasks : subtasks.State → World → World
  with_subtasks s w = record w { subtask_rows = s }

  unfoldable pub families_of : Outcome RecipeFault ValidatedRecipe → List String
  families_of (returned v) = v.tool_families
  families_of (threw f) = []

  unfoldable pub families_for : Option ResolvedRecipe → List String
  unfolding families_of
  families_for none = []
  families_for (some recipe) = families_of (validate_recipe recipe env.policy)

  unfoldable pub tool_families_for_type : String → List String
  unfolding families_for
  tool_families_for_type type = families_for (env.resolve_recipe type)

  -- The row, which must be there, as the end of the chunk.
  unfoldable pub end_with : ℕ → Option Subtask → World → Preparation
  end_with id none w = (threw (disappeared id), w)
  end_with id (some r) w = (returned (terminal r), w)

  -- A live row of a canceled Task.
  unfoldable pub prepare_canceled : ℕ → ℕ → Subtask → World → Preparation
  unfolding end_with is_running cancel_running get_subtask subagent_name tool_families_for_type
  prepare_canceled now id r w =
      let name = subagent_name r.task_id id in
      let families = tool_families_for_type r.type in
      let stopped = with_subtasks (cancel_running subtasks now id w.subtask_rows).1 w in
      let freed =
        with_rest
          (λ x.
            env.delete_quietly name
              (env.abort_quietly name families (env.release_quietly r families x)))
          stopped in
      if is_running r.status
      then end_with id (get_subtask subtasks id freed.subtask_rows) freed
      else (returned (terminal r), w)

  -- A recipe that cannot be used fails the branch.
  unfoldable pub refuse : ℕ → ℕ → String → ℕ → String → World → Preparation
  unfolding end_with start fail get_subtask
  refuse now id recipe_id version message w =
      let begun = (start subtasks now id recipe_id version w.subtask_rows).1 in
      let failed = with_subtasks (fail subtasks now id message begun).1 w in
      end_with id (get_subtask subtasks id failed.subtask_rows) failed

  unfoldable pub make_ready :
      Assignment → ValidatedRecipe → String → Outcome E Runtime × Rest → World → Preparation
  make_ready request v name (returned runtime, x) w =
      (returned (ready request v name runtime), record w { rest = x })
  make_ready request v name (threw e, x) w = (threw (fault e), record w { rest = x })

  unfoldable pub assemble : ℕ → Subtask → ValidatedRecipe → World → Preparation
  unfolding make_ready assignment_of subagent_name
  assemble id r v w =
      let request = assignment_of r in
      make_ready request v (subagent_name r.task_id id) (env.resolve_runtime request v w.rest) w

  -- A row that was claimed before: it is being run, or has ended since.
  unfoldable pub resume_or_end :
      ℕ → Subtask → ValidatedRecipe → Option Subtask → World → Preparation
  unfolding assemble is_running
  resume_or_end id r v none w = (threw (disappeared id), w)
  resume_or_end id r v (some current) w =
      let resumed = assemble id r v w in
      if not (is_running current.status) then (returned (terminal current), w) else resumed

  unfoldable pub claim_row : ℕ → ℕ → Subtask → ValidatedRecipe → World → Preparation
  unfolding assemble resume_or_end start get_subtask subagent_name
  claim_row now id r v w =
      let claimed = start subtasks now id v.key v.version w.subtask_rows in
      let after = with_subtasks claimed.1 w in
      let fresh =
        assemble id r v (with_rest (env.delete_quietly (subagent_name r.task_id id)) after) in
      let again = resume_or_end id r v (get_subtask subtasks id claimed.1) after in
      if claimed.0 then fresh else again

  unfoldable pub prepare_valid :
      ℕ → ℕ → Subtask → ResolvedRecipe → Outcome RecipeFault ValidatedRecipe → World → Preparation
  unfolding claim_row refuse
  prepare_valid now id r recipe (returned v) w = claim_row now id r v w
  prepare_valid now id r recipe (threw f) w =
      refuse now id recipe.key recipe.version (env.unusable recipe f) w

  unfoldable pub prepare_recipe : ℕ → ℕ → Subtask → Option ResolvedRecipe → World → Preparation
  unfolding prepare_valid refuse
  prepare_recipe now id r none w = refuse now id r.type 0 (env.unknown_type r.type) w
  prepare_recipe now id r (some recipe) w =
      prepare_valid now id r recipe (validate_recipe recipe env.policy) w

  unfoldable pub prepare_row : ℕ → ℕ → Option Subtask → World → Preparation
  unfolding prepare_canceled prepare_recipe is_live is_task_canceled subagent_name
  prepare_row now id none w = (threw (unknown_subtask id), w)
  prepare_row now id (some r) w =
      if not (is_live r.status)
      then (returned (terminal r), with_rest (env.delete_quietly (subagent_name r.task_id id)) w)
      else if is_task_canceled tasks r.task_id w.task_rows
      then prepare_canceled now id r w
      else prepare_recipe now id r (env.resolve_recipe r.type) w

  unfoldable pub prepare_chunk : ℕ → ℕ → World → Preparation
  unfolding prepare_row get_subtask
  prepare_chunk now id w = prepare_row now id (get_subtask subtasks id w.subtask_rows) w
