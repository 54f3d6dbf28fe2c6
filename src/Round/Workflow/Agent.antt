-- ===== src/Round/Workflow/Agent.antt =====
-- src/round/workflow.ts, what the Workflow reaches: the agent's Durable Object by RPC, the clock, and
-- the delivery. Each operation is a durable step, and throws once the step's retries are spent.
use looping_core.Base.{ℕ, String, Bool, Option, List}
use looping_core.Base.Step.{Step}
use looping_core.A2a.Deliver.{DeliverTerminalOptions}
use looping_core.Round.Turn.Env.{RoundMode}

-- What `runTaskTurn` returns, with what the round cost.
pub data TurnTaskResult (Kind : Type 0) : Type 0 where
  replied : String → ℕ → TurnTaskResult Kind
  delegated : ℕ → TurnTaskResult Kind
  failed : Kind → String → ℕ → TurnTaskResult Kind
  canceled : ℕ → TurnTaskResult Kind

pub data SubtaskScan : Type 0 where
  scan_canceled : SubtaskScan
  scan_ids : List ℕ → SubtaskScan

pub record TaskAgent : Type 1 where
  pub W : Type 0
  pub E : Type 0
  pub Kind : Type 0
  pub mark_working : Step W E Bool
  pub now : Step W E ℕ
  pub run_task_turn : ℕ → RoundMode → ℕ → Step W E (TurnTaskResult Kind)
  pub scan_subtasks : ℕ → Step W E SubtaskScan
  pub cancel_pending_subtasks : Step W E (Unit {0})
  pub execute_subtask_chunk : ℕ → ℕ → Step W E Bool
  pub fail_subtask : ℕ → Step W E (Unit {0})
  pub delivery : DeliverTerminalOptions W E

-- `HandleTaskDeps`: the limits, the platform's cap and the copy.
pub record HandleTaskDeps (Kind : Type 0) : Type 0 where
  pub max_turns : ℕ
  pub max_wall_ms : ℕ
  pub task_failed : String
  pub failure_copy : Kind → String → Option String
