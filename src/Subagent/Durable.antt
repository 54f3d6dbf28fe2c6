-- ===== src/Subagent/Durable.antt =====
-- The child of src/subagent/index.ts, asked for one chunk after another, against the loop in memory of
-- `runRecipeExecution` in src/subagent/run.ts.
use looping_core.Base.{
  ℕ, zero, suc, String, false, Option, none, some, Outcome, returned, threw, str_eq_iff, is_blank,
  ◌≡◌, refl, ap, ◌∙◌,
}
use looping_core.Contract.Recipe.{ResolvedRecipe, ValidatedRecipe, validate_recipe}
use looping_core.Subagent.Prompt.{Assignment}
use looping_core.Subagent.Env.{SubagentEnv, ChunkRunState, RecipeExecutionResult, done, not_done}
use looping_core.Subagent.Chunk.{ChunkEnd, run_resumable_chunk}
use looping_core.Subagent.Execution.{chunk_deps, out_of_chunks, follow, drive_chunks}
use looping_core.Subagent.Facet.{
  Facet, SubagentRuntime, FacetFault, fault, run_deps, Call, save_run_state, cache_terminal,
  store_outcome, play, resume, check_params, begin_chunk, look_up, execute_chunk,
}

module _ (env : SubagentEnv) where
  open env use {E, World, Json, ProgressEvent}

  abbrev pub Observed : Type 0
  Observed = Outcome (FacetFault E) RecipeExecutionResult × World

  abbrev pub pursue : (Facet Json → World → Observed) → Call env → Observed
  pursue again (returned (done result events), (f, w)) = (returned result, w)
  pursue again (returned (not_done events), (f, w)) = again f w
  pursue again (threw e, (f, w)) = (threw e, w)

  -- A caller that asks the child for at most so many chunks, and keeps nothing between two of them.
  unfoldable pub ask_chunks :
      ℕ → ℕ → SubagentRuntime → Assignment → ResolvedRecipe → Facet Json → World → Observed
  ask_chunks zero max_chunks rt request recipe f w = (returned (out_of_chunks max_chunks), w)
  ask_chunks (suc n) max_chunks rt request recipe f w =
      pursue (ask_chunks n max_chunks rt request recipe) (execute_chunk env rt request recipe f w)

  abbrev pub as_observed : Outcome E RecipeExecutionResult × World → Observed
  as_observed (returned result, w) = (returned result, w)
  as_observed (threw e, w) = (threw (fault e), w)

  -- A child between two chunks: no terminal result, and the state of the run as last saved.
  abbrev pub midway : String → Option (ChunkRunState Json) → Facet Json
  midway key none = record { execution_cache = none; run_state = none }
  midway key (some s) = record {
    execution_cache = none;
    run_state = some (record { fingerprint = key; value = s });
  }

  -- What a request must satisfy for its run to begin.
  pub record IsRunnable (rt : SubagentRuntime) (request : Assignment) (recipe : ResolvedRecipe)
      (valid : ValidatedRecipe) : Type 0 where
    pub accepted : validate_recipe recipe rt.policy ≡ returned valid
    pub prompted : is_blank request.prompt ≡ false
    pub with_params : rt.validate_params request.type request.params ≡ none

  execute_chunk-midway :
      (rt : SubagentRuntime) (request : Assignment) (recipe : ResolvedRecipe)
      (valid : ValidatedRecipe) (prev : Option (ChunkRunState Json)) (w : World)
      → IsRunnable rt request recipe valid
      → execute_chunk env rt request recipe (midway (rt.fingerprint request recipe) prev) w
        ≡ play env rt request valid
            (rt.fingerprint request recipe)
            prev
            (midway (rt.fingerprint request recipe) prev)
            w
  unfolding execute_chunk look_up begin_chunk check_params resume
  execute_chunk-midway rt request recipe valid none w ok =
      rw (ok.accepted, begin_chunk, ok.prompted, ok.with_params) refl
  execute_chunk-midway rt request recipe valid (some s) w ok =
      let key = rt.fingerprint request recipe in
      let same = (str_eq_iff key key).1 refl in
      rw (ok.accepted, begin_chunk, ok.prompted, ok.with_params, resume, same) refl

  pursue-store_outcome :
      (key : String) (prev : Option (ChunkRunState Json)) (n m : ℕ) (rt : SubagentRuntime)
      (request : Assignment) (recipe : ResolvedRecipe) (e : ChunkEnd env)
      (again : Option (ChunkRunState Json) → World → Outcome E RecipeExecutionResult × World)
      → ((s : ChunkRunState Json) (w : World)
          → ask_chunks n m rt request recipe (midway key (some s)) w
            ≡ as_observed (again (some s) w))
      → pursue (ask_chunks n m rt request recipe) (store_outcome env key (midway key prev) e)
        ≡ as_observed (follow env again e)
  unfolding store_outcome cache_terminal follow save_run_state
  pursue-store_outcome key prev n m rt request recipe (returned (done result events), c) again k =
      refl
  pursue-store_outcome key none n m rt request recipe (returned (not_done events), c) again k =
      k c.state c.world
  pursue-store_outcome key (some s) n m rt request recipe (returned (not_done events), c) again k =
      k c.state c.world
  pursue-store_outcome key prev n m rt request recipe (threw e, c) again k = refl

  -- A caller that asks the child for chunk after chunk, and keeps nothing itself, observes what the loop
  -- in memory gives: the same result or error, in the same world. The child may be fresh, or hold the
  -- state of the same run; the recipe is one that is accepted, the prompt is not blank, and the
  -- parameters are those of the type.
  pub ask_chunks-refines :
      (n m : ℕ) (rt : SubagentRuntime) (request : Assignment) (recipe : ResolvedRecipe)
      (valid : ValidatedRecipe) (prev : Option (ChunkRunState Json)) (w : World)
      → IsRunnable rt request recipe valid
      → ask_chunks n m rt request recipe (midway (rt.fingerprint request recipe) prev) w
        ≡ as_observed (drive_chunks env n m (chunk_deps (run_deps rt valid) request valid) prev w)
  unfolding ask_chunks drive_chunks play
  ask_chunks-refines zero m rt request recipe valid prev w ok = refl
  ask_chunks-refines (suc n) m rt request recipe valid prev w ok =
      let key = rt.fingerprint request recipe in
      let each = chunk_deps (run_deps rt valid) request valid in
      ap (pursue (ask_chunks n m rt request recipe))
        (execute_chunk-midway rt request recipe valid prev w ok)
      ∙ pursue-store_outcome key prev n m rt request recipe
          (run_resumable_chunk env prev each (env.clear_progress w)) (drive_chunks env n m each)
          (λ s v. ask_chunks-refines n m rt request recipe valid (some s) v ok)
