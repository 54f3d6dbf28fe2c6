-- ===== src/Round/Turn/Env.antt =====
-- src/round/turn.ts, the arguments of a round and what it reaches outside its own file. A model call is
-- the AI SDK's `generateText`, with the documented effect of `isStepCount`: a call takes no more steps
-- than its budget. The Session is src/agent/session.ts, the control tools are src/agent/control.ts, and
-- the two tests on errors stand for src/agent/errors.ts. Log lines and streamed content are left out.
use looping_core.Base.{ℕ, ◌≤◌, String, Bool, Option, List, Outcome}
use looping_core.Agent.Session.{SessionStore}
use looping_core.Agent.History.{SessionMessage}
use looping_core.Agent.Control.{ControlTool}
use looping_core.Subtasks.Types.{CompositionBranch, SubtaskDraft}
use looping_core.Round.Render.{ModelMessage, ReferenceCatalogEntry}

pub data RoundMode : Type 0 where
  open_round final_round : RoundMode

pub data Slot : Type 0 where
  primary fallback : Slot

pub record ToolCall (Input : Type 0) : Type 0 where
  pub tool_name : String
  pub input : Input

pub record GenerateResult (Input : Type 0) : Type 0 where
  pub tool_calls : List (ToolCall Input)
  pub finish_reason : String
  pub text_length : ℕ

-- The arguments of `generateText` that differ between attempts.
pub record GenerateCall (Input E : Type 0) : Type 0 where
  pub instructions : String
  pub messages : List (ModelMessage Input E)
  pub work_tools : Bool
  pub control_names : List String
  pub step_budget : ℕ

-- The steps that ran, each billed as it ended, and what the call came to.
pub record GenerateRun (Input E : Type 0) : Type 0 where
  pub steps : ℕ
  pub result : Outcome E (GenerateResult Input)

-- What a round reaches outside this file. `World` is the Session's state with all else that a model
-- call may change.
pub record RoundEnv : Type 1 where
  pub Input : Type 0
  pub E : Type 0
  pub Kind : Type 0
  pub session : SessionStore
  pub refresh_system_prompt : session.State → Outcome session.Fault String × session.State
  pub generate : Slot → GenerateCall Input E → session.State → GenerateRun Input E × session.State
  pub steps_within :
      (slot : Slot) (c : GenerateCall Input E) (w : session.State)
      → 1 ≤ c.step_budget
      → (generate slot c w).0.steps ≤ c.step_budget
  pub no_decision : String → ℕ → E
  pub non_recoverable_kind : E → Option Kind
  pub is_transient : E → Bool
  pub is_compaction : SessionMessage → Bool
  pub control_tools : List ReferenceCatalogEntry → Bool → List (ControlTool Input E)

-- What a round throws: a fault of the models, or of the Session's storage.
pub data TurnFault (E Fault : Type 0) : Type 0 where
  model_fault : E → TurnFault E Fault
  storage_fault : Fault → TurnFault E Fault

pub record RunTurnArgs : Type 0 where
  pub task_id : String
  pub round : ℕ
  pub text : String
  pub mode : RoundMode
  pub system_suffix : String
  pub open_instructions : String
  pub final_instructions : String
  pub branches : List CompositionBranch
  pub partial_note : String

-- One line of the round's diagnostics: `errors` holds the same errors in the same order.
pub record Diagnostic (E : Type 0) : Type 0 where
  pub slot : Slot
  pub repair : Option ℕ
  pub error : E

pub data RunTurnOutcome (E Kind : Type 0) : Type 0 where
  replied : String → RunTurnOutcome E Kind
  delegated : String → List SubtaskDraft → RunTurnOutcome E Kind
  unrecoverable : Kind → E → RunTurnOutcome E Kind
  exhausted : ℕ → List (Diagnostic E) → RunTurnOutcome E Kind
