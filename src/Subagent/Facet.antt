-- ===== src/Subagent/Facet.antt =====
-- src/subagent/index.ts: `executeChunk` over the two rows that the child keeps. A row that was written
-- reads back as it was. Building the model pair and the tools does not fail.
use looping_core.Base.{
  String, Option, none, some, List, [], ◌∷◌, Outcome, returned, threw, str_eq, is_blank,
  if◌then◌else◌,
}
use looping_core.Contract.Recipe.{
  ResolvedRecipe, ValidatedRecipe, RecipePolicy, RecipeFault, validate_recipe,
}
use looping_core.Subtasks.Types.{SubtaskParams}
use looping_core.Subagent.Messages.{WindowWidth}
use looping_core.Subagent.Prompt.{Assignment}
use looping_core.Subagent.Env.{
  SubagentEnv, ChunkRunState, RecipeExecutionResult, failed, RecipeChunkResult, done, not_done,
}
use looping_core.Subagent.Chunk.{ChunkEnd, run_resumable_chunk}
use looping_core.Subagent.Execution.{RecipeRunDeps, chunk_deps}

-- A row of a table with one slot.
pub record Row (A : Type 0) : Type 0 where
  pub fingerprint : String
  pub value : A

pub record Facet (Json : Type 0) : Type 0 where
  pub execution_cache : Option (Row RecipeExecutionResult)
  pub run_state : Option (Row (ChunkRunState Json))

-- The host's part: `validate_params` gives the message of a parameter error, and `fault_text` that of a
-- refused recipe. The fingerprint is a digest of the request.
pub record SubagentRuntime : Type 0 where
  pub policy : RecipePolicy
  pub validate_params : String → SubtaskParams → Option String
  pub tool_output_window : WindowWidth
  pub fault_text : ResolvedRecipe → RecipeFault → String
  pub fingerprint : Assignment → ResolvedRecipe → String

pub data FacetFault (E : Type 0) : Type 0 where
  terminal_mismatch in_progress_mismatch : FacetFault E
  fault : E → FacetFault E

-- The pair that the host stamped on the recipe.
unfoldable pub run_deps : SubagentRuntime → ValidatedRecipe → RecipeRunDeps
run_deps rt recipe = record {
  primary_id = recipe.primary_model_id;
  fallback_id = recipe.fallback_model_id;
  policy = rt.policy;
  tool_output_window = rt.tool_output_window;
}

module _ (env : SubagentEnv) where
  open env use {E, World, Json, ProgressEvent}

  abbrev pub Call : Type 0
  Call = Outcome (FacetFault E) (RecipeChunkResult ProgressEvent) × (Facet Json × World)

  unfoldable pub save_run_state : String → ChunkRunState Json → Facet Json → Facet Json
  save_run_state key s f = record f { run_state = some (record { fingerprint = key; value = s }) }

  unfoldable pub cache_terminal :
      String → RecipeExecutionResult → List ProgressEvent → Facet Json → World → Call
  cache_terminal key result events f w = (
    returned (done result events),
    (record f { execution_cache = some (record { fingerprint = key; value = result }) }, w),
  )

  -- The row that the checkpoints of a chunk left.
  unfoldable pub checkpointed : String → List (ChunkRunState Json) → Facet Json → Facet Json
  unfolding save_run_state
  checkpointed key [] f = f
  checkpointed key (s ∷ older) f = save_run_state key s f

  unfoldable pub store_outcome : String → Facet Json → ChunkEnd env → Call
  unfolding save_run_state cache_terminal checkpointed
  store_outcome key f (threw e, c) = (threw (fault e), (checkpointed key c.checkpoints f, c.world))
  store_outcome key f (returned (done result events), c) =
      cache_terminal key result events (save_run_state key c.state f) c.world
  store_outcome key f (returned (not_done events), c) =
      (returned (not_done events), (save_run_state key c.state f, c.world))

  unfoldable pub play :
      SubagentRuntime
      → Assignment
      → ValidatedRecipe
      → String
      → Option (ChunkRunState Json)
      → Facet Json
      → World
      → Call
  unfolding store_outcome run_deps
  play rt request recipe key prev f w = store_outcome key f (
      run_resumable_chunk env prev (chunk_deps (run_deps rt recipe) request recipe)
        (env.clear_progress w))

  unfoldable pub resume :
      SubagentRuntime
      → Assignment
      → ValidatedRecipe
      → String
      → Option (Row (ChunkRunState Json))
      → Facet Json
      → World
      → Call
  unfolding play
  resume rt request recipe key none f w = play rt request recipe key none f w
  resume rt request recipe key (some row) f w =
      if str_eq row.fingerprint key
      then play rt request recipe key (some row.value) f w
      else (threw in_progress_mismatch, (f, w))

  unfoldable pub check_params :
      SubagentRuntime
      → Assignment
      → ValidatedRecipe
      → String
      → Option String
      → Facet Json
      → World
      → Call
  unfolding resume cache_terminal
  check_params rt request recipe key none f w = resume rt request recipe key f.run_state f w
  check_params rt request recipe key (some message) f w =
      cache_terminal key (failed message none) [] f w

  unfoldable pub begin_chunk :
      SubagentRuntime
      → Assignment
      → ResolvedRecipe
      → String
      → Outcome RecipeFault ValidatedRecipe
      → Facet Json
      → World
      → Call
  unfolding check_params cache_terminal
  begin_chunk rt request recipe key (threw refusal) f w =
      cache_terminal key (failed (rt.fault_text recipe refusal) none) [] f w
  begin_chunk rt request recipe key (returned valid) f w =
      if is_blank request.prompt
      then cache_terminal key (failed "empty subtask prompt" none) [] f w
      else check_params rt request valid key (rt.validate_params request.type request.params) f w

  unfoldable pub look_up :
      SubagentRuntime
      → Assignment
      → ResolvedRecipe
      → String
      → Option (Row RecipeExecutionResult)
      → Facet Json
      → World
      → Call
  unfolding begin_chunk
  look_up rt request recipe key none f w =
      begin_chunk rt request recipe key (validate_recipe recipe rt.policy) f w
  look_up rt request recipe key (some row) f w =
      if str_eq row.fingerprint key
      then (returned (done row.value []), (f, w))
      else (threw terminal_mismatch, (f, w))

  unfoldable pub execute_chunk :
      SubagentRuntime → Assignment → ResolvedRecipe → Facet Json → World → Call
  unfolding look_up
  execute_chunk rt request recipe f w =
      look_up rt request recipe (rt.fingerprint request recipe) f.execution_cache f w
