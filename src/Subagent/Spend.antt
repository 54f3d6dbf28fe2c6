-- ===== src/Subagent/Spend.antt =====
-- src/subagent/run.ts: what one chunk costs, in turns and in model calls.
use looping_core.Base.{ℕ, suc, ◌+◌, ◌≤◌, max, Option, none, some, List, [], ◌∷◌, ◌≡◌, refl, arith}
use looping_core.Agent.Budget.{step_allowance, step_allowance-pos}
use looping_core.Round.Turn.Env.{Slot, primary, fallback}
use looping_core.Subagent.Messages.{Message}
use looping_core.Subagent.Env.{SubagentEnv, ChunkRunState, ChunkRunDeps, Chunk}
use looping_core.Subagent.Attempt.{
  bill, move, on_step_end, on_step_ends, boundaries, work_call, attempt, summarize,
}
use looping_core.Subagent.Chunk.{open_state, run_resumable_chunk}
use looping_core.Subagent.Reading.{attempt-turns}
use looping_core.Subagent.Ends.{turns_so_far}
use looping_core.Subagent.Stages.{Stage, fresh, tried, over, summed, ended, Lasts, advance-lasts}

module _ (env : SubagentEnv) where
  open env use {World}

  on_step_ends-calls :
      (deps : ChunkRunDeps) (c : Chunk env) (steps : List (List (Message env.Json)))
      → (on_step_ends env deps c steps).state.llm_calls ≡ c.state.llm_calls
  unfolding on_step_ends on_step_end
  on_step_ends-calls deps c [] = refl
  on_step_ends-calls deps c (new ∷ steps) =
      on_step_ends-calls deps (on_step_end env deps c new) steps

  attempt-calls :
      (deps : ChunkRunDeps) (k : ℕ) (slot : Slot) (c : Chunk env)
      → (attempt env deps k slot c).1.state.llm_calls ≡ suc c.state.llm_calls
  unfolding attempt
  attempt-calls deps k slot c =
      on_step_ends-calls deps (bill env c)
        (env.generate slot (work_call env deps k c.state) c.world).0.steps

  attempt-turns-le :
      (deps : ChunkRunDeps) (k : ℕ) (slot : Slot) (c : Chunk env)
      → (attempt env deps k slot c).1.state.turns ≤ max (suc c.state.turns) deps.limits.max_turns
  unfolding work_call boundaries step_allowance
  attempt-turns-le deps k slot c =
      let call = work_call env deps k c.state in
      let pos = step_allowance-pos deps.limits.max_turns c.state.turns in
      omega (arith, attempt-turns env deps k slot c, env.steps_within slot call c.world pos)

  -- At each stage: the model calls that may still come, and the turn that the fallback may still take.
  abbrev Fits : ℕ → ℕ → Stage → Chunk env → Type 0
  Fits t l fresh c = (c.state.turns ≤ t) × (c.state.llm_calls + 4 ≤ l)
  Fits t l tried c = (suc c.state.turns ≤ t) × (c.state.llm_calls + 3 ≤ l)
  Fits t l over c = (c.state.turns ≤ t) × (c.state.llm_calls + 2 ≤ l)
  Fits t l summed c = (c.state.turns ≤ t) × (c.state.llm_calls + 1 ≤ l)
  Fits t l ended c = (c.state.turns ≤ t) × (c.state.llm_calls ≤ l)

  Fits-moves :
      (t l : ℕ) (s : Stage) (c : Chunk env) (w : World) → Fits t l s c → Fits t l s (move env c w)
  Fits-moves t l fresh c w h = h
  Fits-moves t l tried c w h = h
  Fits-moves t l over c w h = h
  Fits-moves t l summed c w h = h
  Fits-moves t l ended c w h = h

  Fits-Lasts :
      (deps : ChunkRunDeps) (t l : ℕ) → suc deps.limits.max_turns ≤ t → Lasts env deps (Fits t l)
  unfolding summarize
  Fits-Lasts deps t l room = record {
    moves = Fits-moves t l;
    first = λ k c h few. (
      omega (arith, h.0, attempt-turns-le deps k primary c),
      omega (arith, h.1, attempt-calls deps k primary c),
    );
    second = λ k c h. (
      omega (arith, h.0, attempt-turns-le deps k fallback c),
      omega (arith, h.1, attempt-calls deps k fallback c),
    );
    sums = λ ms c h. (h.0, omega (arith, h.1));
    sums_again = λ ms c h. (h.0, omega (arith, h.1));
    untried = λ c h. (h.0, omega (arith, h.1));
    enough = λ c h. (omega (arith, h.0), omega (arith, h.1));
    unsummed = λ c h. (h.0, omega (arith, h.1));
    ends = λ c h. (h.0, omega (arith, h.1));
  }

  -- The model calls of a run that the next chunk continues.
  abbrev calls_so_far : Option (ChunkRunState env.Json) → ℕ
  calls_so_far none = 0
  calls_so_far (some s) = s.llm_calls

  -- After a chunk, however it ends, the run has made at most one turn more than its budget, unless it had
  -- made more before the chunk and then it has made no turn since; and the chunk has made at most four
  -- model calls.
  pub run_resumable_chunk-spent :
      (prev : Option (ChunkRunState env.Json)) (deps : ChunkRunDeps) (w : World)
      → ((run_resumable_chunk env prev deps w).1.state.turns
          ≤ max (turns_so_far env prev) (suc deps.limits.max_turns))
        × ((run_resumable_chunk env prev deps w).1.state.llm_calls ≤ calls_so_far prev + 4)
  unfolding run_resumable_chunk open_state
  run_resumable_chunk-spent none deps w =
      let t = max 0 (suc deps.limits.max_turns) in
      advance-lasts env deps (Fits t 4) (Fits-Lasts deps t 4 (omega arith))
        (open_state env deps none w) (omega arith, omega arith)
  run_resumable_chunk-spent (some s) deps w =
      let t = max s.turns (suc deps.limits.max_turns) in
      let l = s.llm_calls + 4 in
      advance-lasts env deps (Fits t l) (Fits-Lasts deps t l (omega arith))
        (open_state env deps (some s) w) (omega arith, omega arith)
