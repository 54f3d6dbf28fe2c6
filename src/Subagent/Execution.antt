-- ===== src/Subagent/Execution.antt =====
-- src/subagent/run.ts, `runRecipeExecution`: the chunks of a run, one after another in memory.
use Prim.Native.String.{◌++◌ as ◌<>◌}
use looping_core.Base.{
  ℕ, zero, suc, ◌+◌, String, Option, none, some, Outcome, returned, threw, show, is_blank,
  if◌then◌else◌, ◌⊎◌, inl, inr,
}
use looping_core.Contract.Recipe.{
  ResolvedRecipe, ValidatedRecipe, RecipePolicy, RecipeFault, validate_recipe,
}
use looping_core.Subagent.Messages.{WindowWidth}
use looping_core.Subagent.Prompt.{Assignment, render_subagent_prompt}
use looping_core.Subagent.Env.{
  SubagentEnv, ChunkRunState, ChunkRunDeps, RecipeExecutionResult, failed, done, not_done,
  without_signal,
}
use looping_core.Subagent.Chunk.{ChunkEnd, run_resumable_chunk}

-- `CHUNK_SOFT_MS` of src/platform.ts.
unfoldable pub chunk_soft_ms : ℕ
chunk_soft_ms = 900000

pub record RecipeRunDeps : Type 0 where
  pub primary_id : String
  pub fallback_id : String
  pub policy : RecipePolicy
  pub tool_output_window : WindowWidth

-- What each chunk of one execution is given.
unfoldable pub chunk_deps : RecipeRunDeps → Assignment → ValidatedRecipe → ChunkRunDeps
unfolding render_subagent_prompt chunk_soft_ms
chunk_deps deps request recipe =
    let rendered = render_subagent_prompt request recipe in
    record {
      system = rendered.system;
      seed_prompt = rendered.prompt;
      primary_id = deps.primary_id;
      fallback_id = deps.fallback_id;
      limits = recipe.limits;
      chunk_soft_ms = chunk_soft_ms;
      history_window = recipe.history_window;
      tool_output_window = deps.tool_output_window;
      report_metrics = recipe.report_metrics;
    }

unfoldable pub out_of_chunks : ℕ → RecipeExecutionResult
out_of_chunks max_chunks =
    failed ("recipe did not terminate within " <> show max_chunks <> " chunks") none

module _ (env : SubagentEnv) where
  open env use {E, World, Json, ProgressEvent}

  unfoldable pub follow :
      (Option (ChunkRunState Json) → World → Outcome E RecipeExecutionResult × World)
      → ChunkEnd env
      → Outcome E RecipeExecutionResult × World
  follow again (returned (done result events), c) = (returned result, c.world)
  follow again (returned (not_done events), c) = again (some c.state) c.world
  follow again (threw e, c) = (threw e, c.world)

  -- The chunks that are left, and how many there are in all.
  unfoldable pub drive_chunks :
      ℕ
      → ℕ
      → ChunkRunDeps
      → Option (ChunkRunState Json)
      → World
      → Outcome E RecipeExecutionResult × World
  unfolding follow out_of_chunks
  drive_chunks zero max_chunks deps prev w = (returned (out_of_chunks max_chunks), w)
  drive_chunks (suc n) max_chunks deps prev w =
      follow (drive_chunks n max_chunks deps)
        (run_resumable_chunk env prev deps (env.clear_progress w))

  unfoldable pub max_chunks : ChunkRunDeps → ℕ
  max_chunks deps = deps.limits.max_turns + 2

  -- The faults of a run, the refusal of its recipe among them.
  abbrev pub as_run :
      Outcome E RecipeExecutionResult × World
      → Outcome (RecipeFault ⊎ E) RecipeExecutionResult × World
  as_run (returned result, w) = (returned result, w)
  as_run (threw e, w) = (threw (inr e), w)

  unfoldable pub run_validated :
      RecipeRunDeps
      → Assignment
      → Outcome RecipeFault ValidatedRecipe
      → World
      → Outcome (RecipeFault ⊎ E) RecipeExecutionResult × World
  unfolding drive_chunks chunk_deps max_chunks
  run_validated deps request (threw fault) w = (threw (inl fault), w)
  run_validated deps request (returned recipe) w =
      let each = chunk_deps deps request recipe in
      as_run (drive_chunks (max_chunks each) (max_chunks each) each none w)

-- No chunk is given an abort signal.
unfoldable pub run_recipe_execution :
    (env : SubagentEnv)
    → RecipeRunDeps
    → Assignment
    → ResolvedRecipe
    → env.World
    → Outcome (RecipeFault ⊎ env.E) RecipeExecutionResult × env.World
unfolding run_validated without_signal
run_recipe_execution env deps request recipe w =
    if is_blank request.prompt
    then (returned (failed "empty subtask prompt" none), w)
    else run_validated (without_signal env) deps request (validate_recipe recipe deps.policy) w
