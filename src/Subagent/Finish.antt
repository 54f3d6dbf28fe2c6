-- ===== src/Subagent/Finish.antt =====
-- src/subagent/run.ts: a run always comes to an end of its own.
use looping_core.Base.{
  ℕ, zero, suc, ◌+◌, ◌≤◌, ◌<◌, true, false, Option, none, some, Outcome, returned, threw, is_blank,
  ◌≡◌, refl, arith, ◌⊎◌, inl, inr,
}
use looping_core.Contract.Recipe.{ResolvedRecipe, ValidatedRecipe, RecipeFault, validate_recipe}
use looping_core.Subagent.Prompt.{Assignment}
use looping_core.Subagent.Env.{
  SubagentEnv, ChunkRunState, ChunkRunDeps, RecipeExecutionResult, done, not_done, without_signal,
}
use looping_core.Subagent.Chunk.{ChunkEnd}
use looping_core.Subagent.Ends.{NamesModel, Ends, turns_so_far, run_resumable_chunk-Ends}
use looping_core.Subagent.Execution.{
  RecipeRunDeps, chunk_deps, follow, drive_chunks, max_chunks, as_run, run_validated,
  run_recipe_execution,
}

module _ (env : SubagentEnv) where
  open env use {E, World, Json}

  -- What a run says at its end.
  abbrev pub IsProduced : Outcome E RecipeExecutionResult → Type 0
  IsProduced (returned result) = NamesModel result
  IsProduced (threw e) = env.is_transient e ≡ true

  follow-IsProduced :
      (again : Option (ChunkRunState Json) → World → Outcome E RecipeExecutionResult × World)
      (deps : ChunkRunDeps) (t : ℕ) (e : ChunkEnd env)
      → ((w : World) → env.aborted w ≡ false)
      → Ends env deps t e
      → ((s : ChunkRunState Json) (w : World)
          → t < s.turns
          → s.turns < deps.limits.max_turns
          → IsProduced (again (some s) w).0)
      → IsProduced (follow env again e).0
  unfolding follow
  follow-IsProduced again deps t (returned (done result events), c) unset ends k = ends.1
  follow-IsProduced again deps t (returned (not_done events), c) unset (inl set) k =
      let clash = unset c.world in absurd (cc)
  follow-IsProduced again deps t (returned (not_done events), c) unset (inr (more, few)) k =
      k c.state c.world more few
  follow-IsProduced again deps t (threw e, c) unset ends k = ends

  pub drive_chunks-IsProduced :
      (n m : ℕ) (deps : ChunkRunDeps) (prev : Option (ChunkRunState Json)) (w : World)
      → ((w : World) → env.aborted w ≡ false)
      → 1 ≤ n
      → deps.limits.max_turns < turns_so_far env prev + n
      → IsProduced (drive_chunks env n m deps prev w).0
  unfolding drive_chunks
  drive_chunks-IsProduced zero m deps prev w unset pos enough = absurd (omega arith)
  drive_chunks-IsProduced (suc n) m deps prev w unset pos enough =
      follow-IsProduced (drive_chunks env n m deps) deps (turns_so_far env prev) _ unset
        (run_resumable_chunk-Ends env prev deps (env.clear_progress w))
        (λ s v more few.
          drive_chunks-IsProduced n m deps (some s) v unset (omega arith) (omega arith))

  -- What a whole run says at its end: besides, its recipe may have been refused.
  abbrev pub IsConcluded : Outcome (RecipeFault ⊎ E) RecipeExecutionResult → Type 0
  IsConcluded (returned result) = NamesModel result
  IsConcluded (threw (inl fault)) = Unit
  IsConcluded (threw (inr e)) = env.is_transient e ≡ true

  as_run-IsConcluded :
      (o : Outcome E RecipeExecutionResult × World) → IsProduced o.0 → IsConcluded (as_run env o).0
  as_run-IsConcluded (returned result, w) h = h
  as_run-IsConcluded (threw e, w) h = h

  run_validated-IsConcluded :
      (deps : RecipeRunDeps) (request : Assignment) (o : Outcome RecipeFault ValidatedRecipe)
      (w : World)
      → ((w : World) → env.aborted w ≡ false)
      → IsConcluded (run_validated env deps request o w).0
  unfolding run_validated max_chunks
  run_validated-IsConcluded deps request (threw fault) w unset = tt
  run_validated-IsConcluded deps request (returned recipe) w unset =
      let each = chunk_deps deps request recipe in
      as_run-IsConcluded _ (
        drive_chunks-IsProduced (max_chunks env each) (max_chunks env each) each none w unset
          (omega arith) (omega arith))

-- A whole run of a prompt that is not blank comes to an end within its chunks: it returns a result that
-- names its model (the result for a run out of chunks names none, so it is never returned), or it throws
-- because its recipe is refused, or it throws a transient error.
pub run_recipe_execution-IsConcluded :
    (env : SubagentEnv) (deps : RecipeRunDeps) (request : Assignment) (recipe : ResolvedRecipe)
    (w : env.World)
    → is_blank request.prompt ≡ false
    → IsConcluded env (run_recipe_execution env deps request recipe w).0
unfolding run_recipe_execution without_signal
run_recipe_execution-IsConcluded env deps request recipe w full = rw full (
    run_validated-IsConcluded (without_signal env) deps request (validate_recipe recipe deps.policy)
      w (λ v. refl))
