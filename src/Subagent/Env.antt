-- ===== src/Subagent/Env.antt =====
-- src/subagent/run.ts: what a chunk is given, what it keeps, and what it reaches outside. A model call is
-- the AI SDK's `generateText`, with the documented effect of `isStepCount`; the tests on errors stand for
-- src/agent/inference.ts.
use looping_core.Base.{
  ℕ, ◌≤◌, String, Bool, Option, List, length, Outcome, returned, false, ◌≡◌, refl,
}
use looping_core.Contract.Limits.{AgentLimits}
use looping_core.Round.Turn.Env.{Slot}
use looping_core.Subagent.Messages.{Message, WindowWidth}

-- Where a model call stops between two steps: a count of steps, and for the calls of the work loop the
-- times at which the run and the chunk end and that there is progress to report.
pub record Deadlines : Type 0 where
  pub run_ends_at : ℕ
  pub chunk_ends_at : ℕ
  pub on_progress : Bool

pub record Boundaries : Type 0 where
  pub step_count : ℕ
  pub deadlines : Option Deadlines

pub record ModelCall (Json : Type 0) : Type 0 where
  pub instructions : String
  pub messages : List (Message Json)
  pub with_tools : Bool
  pub stop_when : Boundaries

pub record ModelResult : Type 0 where
  pub finish_reason : String
  pub text : String

-- The messages of each step that ended, and what the call came to.
pub record ModelRun (Json E : Type 0) : Type 0 where
  pub steps : List (List (Message Json))
  pub result : Outcome E ModelResult

-- What a chunk reaches outside this file. `World` holds the clock, the abort signal, the progress sink
-- and all that a tool may change. A clock is read, and a signal looked at, in one turn of the event loop.
pub record SubagentEnv : Type 1 where
  pub World : Type 0
  pub Json : Type 0
  pub E : Type 0
  pub Kind : Type 0
  pub ProgressEvent : Type 0
  pub json_size : Json → Option ℕ
  pub now : World → ℕ × World
  pub aborted : World → Bool
  pub now-aborted : (w : World) → aborted (now w).1 ≡ aborted w
  pub progress : World → List ProgressEvent
  pub clear_progress : World → World
  pub generate : Slot → ModelCall Json → World → ModelRun Json E × World
  pub steps_within :
      (slot : Slot) (c : ModelCall Json) (w : World)
      → 1 ≤ c.stop_when.step_count
      → length (generate slot c w).0.steps ≤ c.stop_when.step_count
  pub steps_made :
      (slot : Slot) (c : ModelCall Json) (w : World) (r : ModelResult)
      → (generate slot c w).0.result ≡ returned r
      → 1 ≤ length (generate slot c w).0.steps
  pub show_error : E → String
  pub show_kind : Kind → String
  pub non_recoverable_kind : Option E → Option Kind
  pub is_transient : E → Bool

pub record ChunkRunState (Json : Type 0) : Type 0 where
  pub messages : List (Message Json)
  pub turns : ℕ
  pub llm_calls : ℕ
  pub started_at_ms : ℕ

pub record ChunkRunDeps : Type 0 where
  pub system : String
  pub seed_prompt : String
  pub primary_id : String
  pub fallback_id : String
  pub limits : AgentLimits
  pub chunk_soft_ms : ℕ
  pub history_window : ℕ
  pub tool_output_window : WindowWidth
  pub report_metrics : Bool

-- `RecipeExecutionResult` of src/subtasks/types.ts: the texts of its result parts and the model's id, or
-- the diagnostic.
pub data RecipeExecutionResult : Type 0 where
  completed : List String → String → RecipeExecutionResult
  failed : String → Option String → RecipeExecutionResult

pub data RecipeChunkResult (Event : Type 0) : Type 0 where
  done : RecipeExecutionResult → List Event → RecipeChunkResult Event
  not_done : List Event → RecipeChunkResult Event

-- A chunk at work: its state, the states that it has checkpointed, newest first, and the world.
pub record Chunk (env : SubagentEnv) : Type 0 where
  pub state : ChunkRunState env.Json
  pub checkpoints : List (ChunkRunState env.Json)
  pub world : env.World

-- A run that is given no abort signal: one is never seen set.
unfoldable pub without_signal : SubagentEnv → SubagentEnv
without_signal env = record env { aborted = λ w. false; now-aborted = λ w. refl }
