-- ===== src/Subagent/Attempt.antt =====
-- src/subagent/run.ts: one model call of a chunk, its steps and how its end is read.
use looping_core.Base.{
  ℕ, suc, ◌+◌, String, true, false, Option, none, some, List, [], ◌∷◌, ◌++◌, Outcome, returned,
  threw, str_eq, is_blank, trim, if◌then◌else◌,
}
use looping_core.Agent.Budget.{step_allowance}
use looping_core.Round.Turn.Env.{Slot, primary, fallback}
use looping_core.Subagent.Messages.{Message, window_messages, elide_tool_outputs}
use looping_core.Subagent.Env.{
  SubagentEnv, Boundaries, ModelCall, ModelResult, ChunkRunState, ChunkRunDeps, Chunk,
}

-- A failure: its diagnostic, the error if one was thrown, and the model.
pub record Failure (E : Type 0) : Type 0 where
  pub diagnostic : String
  pub error : Option E
  pub model_id : String

pub data ChunkAttempt (E : Type 0) : Type 0 where
  completed : String → String → ChunkAttempt E
  yield aborted : ChunkAttempt E
  failed : Failure E → ChunkAttempt E

unfoldable pub model_id : ChunkRunDeps → Slot → String
model_id deps primary = deps.primary_id
model_id deps fallback = deps.fallback_id

module _ (env : SubagentEnv) where
  open env use {Json, E}

  abbrev pub bill : Chunk env → Chunk env
  bill c = record c { state = record c.state { llm_calls = suc c.state.llm_calls } }

  abbrev pub move : Chunk env → env.World → Chunk env
  move c w = record c { world = w }

  -- The state after one step.
  unfoldable pub step_state :
      ChunkRunDeps → ChunkRunState Json → List (Message Json) → ChunkRunState Json
  step_state deps s new = record s {
    messages =
        elide_tool_outputs env.json_size (window_messages (s.messages ++ new) deps.history_window)
          deps.tool_output_window;
    turns = suc s.turns;
  }

  unfoldable pub on_step_end : ChunkRunDeps → Chunk env → List (Message Json) → Chunk env
  unfolding step_state
  on_step_end deps c new =
      let next = step_state deps c.state new in
      record c { state = next; checkpoints = next ∷ c.checkpoints }

  unfoldable pub on_step_ends : ChunkRunDeps → Chunk env → List (List (Message Json)) → Chunk env
  unfolding on_step_end
  on_step_ends deps c [] = c
  on_step_ends deps c (new ∷ steps) = on_step_ends deps (on_step_end deps c new) steps

  unfoldable pub boundaries : ChunkRunDeps → ℕ → ChunkRunState Json → Boundaries
  unfolding step_allowance
  boundaries deps chunk_start s = record {
    step_count = step_allowance deps.limits.max_turns s.turns;
    deadlines = some (record {
      run_ends_at = s.started_at_ms + deps.limits.max_wall_ms;
      chunk_ends_at = chunk_start + deps.chunk_soft_ms;
      on_progress = true;
    });
  }

  unfoldable pub work_call : ChunkRunDeps → ℕ → ChunkRunState Json → ModelCall Json
  unfolding boundaries
  work_call deps chunk_start s = record {
    instructions = deps.system;
    messages = s.messages;
    with_tools = true;
    stop_when = boundaries deps chunk_start s;
  }

  unfoldable pub read_result : ChunkRunDeps → Slot → ModelResult → ChunkAttempt E
  unfolding model_id
  read_result deps slot r =
      let failing : String → ChunkAttempt E = λ d.
        ChunkAttempt.failed
          (record { diagnostic = d; error = none; model_id = model_id deps slot }) in
      if str_eq r.finish_reason "length"
      then failing "truncated (finish_reason=length)"
      else if str_eq r.finish_reason "stop"
      then if is_blank r.text
        then failing "empty final reply"
        else ChunkAttempt.completed (trim r.text) (model_id deps slot)
      else ChunkAttempt.yield

  unfoldable pub read_summary : ChunkRunDeps → Slot → ModelResult → ChunkAttempt E
  unfolding model_id
  read_summary deps slot r =
      if is_blank r.text
      then ChunkAttempt.failed
          (record { diagnostic = "empty summary"; error = none; model_id = model_id deps slot })
      else ChunkAttempt.completed (trim r.text) (model_id deps slot)

  -- The signal is looked at first, whether the call threw or returned.
  unfoldable pub read_run :
      ChunkRunDeps
      → Slot
      → (ModelResult → ChunkAttempt E)
      → Outcome E ModelResult
      → env.World
      → ChunkAttempt E
  unfolding model_id
  read_run deps slot read (threw e) w =
      if env.aborted w
      then ChunkAttempt.aborted
      else ChunkAttempt.failed
          (record { diagnostic = env.show_error e; error = some e; model_id = model_id deps slot })
  read_run deps slot read (returned r) w = if env.aborted w then ChunkAttempt.aborted else read r

  unfoldable pub attempt : ChunkRunDeps → ℕ → Slot → Chunk env → ChunkAttempt E × Chunk env
  unfolding read_run read_result on_step_ends work_call
  attempt deps chunk_start slot c =
      let run = env.generate slot (work_call deps chunk_start c.state) c.world in
      let after = move (on_step_ends deps (bill c) run.0.steps) run.1 in
      (read_run deps slot (read_result deps slot) run.0.result run.1, after)

  -- The call of `summarizeBudget`: one step without tools, whose messages are not kept. It has no
  -- boundary but the count of steps.
  unfoldable pub summarize :
      ChunkRunDeps → List (Message Json) → Slot → Chunk env → ChunkAttempt E × Chunk env
  unfolding read_run read_summary
  summarize deps messages slot c =
      let call : ModelCall Json = record {
        instructions = deps.system;
        messages = messages;
        with_tools = false;
        stop_when = record { step_count = 1; deadlines = none };
      } in
      let run = env.generate slot call c.world in
      (read_run deps slot (read_summary deps slot) run.0.result run.1, move (bill c) run.1)
