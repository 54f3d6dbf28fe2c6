-- ===== src/Agent/Control.antt =====
-- src/agent/control.ts: the calls that end a round.
use looping_core.Base.{ℕ, String, List, Outcome}
use looping_core.Subtasks.Types.{SubtaskDraft}

-- What one round decided.
pub data TurnDecision : Type 0 where
  reply : String → TurnDecision
  delegate : String → List SubtaskDraft → TurnDecision

-- A call's input is unchecked until `parse` has run; both functions may throw. The declaration that
-- the model is shown is the name alone.
pub record ControlTool (Input E : Type 0) : Type 0 where
  pub name : String
  pub precedence : ℕ
  pub select : List Input → Outcome E Input
  pub parse : Input → Outcome E TurnDecision
