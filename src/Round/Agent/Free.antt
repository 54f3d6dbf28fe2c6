-- ===== src/Round/Agent/Free.antt =====
-- src/round/agent.ts in a final round: the rows that it hands out are recovered ones.
use looping_core.Base.{
  ℕ, true, false, Bool, List, [], ◌∷◌, Option, none, some, Outcome, returned, threw, ◌≡◌, refl,
}
use looping_core.Agent.Budget.{TurnBudget, new_turn_budget}
use looping_core.Agent.ControlTools.{ControlEnv, control_tools}
use looping_core.Agent.History.{SessionMessage}
use looping_core.Db.Tasks.Table.{TaskTable}
use looping_core.Db.Subtasks.Table.{Subtask, SubtaskTable}
use looping_core.Round.Turn.Env.{
  RoundEnv, RunTurnArgs, final_round, TurnFault, RunTurnOutcome, replied, delegated, unrecoverable,
  exhausted,
}
use looping_core.Round.Turn.Final.{IsAnswered, run_turn-IsAnswered}
use looping_core.Round.Agent.{
  TurnInput, TurnVerdict, hands_out, RoundFault, World, composition_branches, conclude, recover,
  infer, decide_rows, decide_answered, decide_live, decide_round, run_task_turn,
}

module _ (env : RoundEnv) {Body : Type 0} (tasks : TaskTable Body) (subtasks : SubtaskTable)
    (meanwhile : tasks.State → tasks.State) where
  open env use {E, Kind, Input, session}

  -- Rows are handed out at no turns.
  abbrev pub IsFree : Outcome (RoundFault E session.Fault) (TurnVerdict E Kind) → ℕ → Type 0
  IsFree (returned (hands_out text rows)) turns = turns ≡ 0
  IsFree _ turns = Unit

  conclude-IsFree :
      (input : TurnInput) (b : TurnBudget) (w : World env tasks subtasks)
      (o : Outcome (TurnFault E session.Fault) (RunTurnOutcome E Kind)) (c : Bool) (n : ℕ)
      → IsAnswered env o
      → IsFree (conclude env tasks subtasks input b w o c).outcome n
  unfolding conclude
  conclude-IsFree input b w (threw e) c n h = tt
  conclude-IsFree input b w (returned (unrecoverable k e)) c n h = tt
  conclude-IsFree input b w (returned (exhausted r d)) c n h = tt
  conclude-IsFree input b w (returned (replied t)) true n h = tt
  conclude-IsFree input b w (returned (replied t)) false n h = tt
  conclude-IsFree input b w (returned (delegated t ds)) c n h = absurd h

  module _ (tools : ControlEnv Input E) (input : TurnInput) (left : ℕ)
      (w : World env tasks subtasks) (same : env.control_tools ≡ control_tools tools)
      (last : input.args.mode ≡ final_round) where
    infer-IsFree :
        let d = infer env tasks subtasks meanwhile input (new_turn_budget left) w in
        IsFree d.outcome d.budget.spent
    unfolding infer
    infer-IsFree =
        let args : RunTurnArgs = record input.args {
          branches = composition_branches env tasks subtasks input.args.task_id w.subtask_rows;
        } in
        conclude-IsFree input _ _ _ _ _
          (run_turn-IsAnswered env tools args (new_turn_budget left) w.conversation same last)

    recover-IsFree :
        (rows : List Subtask) (m : Outcome session.Fault (Option SessionMessage))
        → let d = recover env tasks subtasks input (new_turn_budget left) w rows m in
          IsFree d.outcome d.budget.spent
    unfolding recover new_turn_budget
    recover-IsFree rows (returned m) = refl
    recover-IsFree rows (threw f) = tt

    rows-IsFree :
        (rows : List Subtask)
        → let d = decide_rows env tasks subtasks meanwhile input (new_turn_budget left) w rows in
          IsFree d.outcome d.budget.spent
    unfolding decide_rows
    rows-IsFree [] = infer-IsFree
    rows-IsFree (r ∷ rs) = recover-IsFree (r ∷ rs) _

    answered-IsFree :
        (m : Outcome session.Fault (Option SessionMessage))
        → let d = decide_answered env tasks subtasks meanwhile input (new_turn_budget left) w m in
          IsFree d.outcome d.budget.spent
    unfolding decide_answered
    answered-IsFree (threw f) = tt
    answered-IsFree (returned (some m)) = tt
    answered-IsFree (returned none) = rows-IsFree _

    live-IsFree :
        (c : Bool)
        → let d = decide_live env tasks subtasks meanwhile input (new_turn_budget left) w c in
          IsFree d.outcome d.budget.spent
    unfolding decide_live
    live-IsFree true = tt
    live-IsFree false = answered-IsFree _

  -- With the control tools of the source, a round in the final mode hands out rows at no turns only,
  -- whatever its models call.
  pub run_task_turn-IsFree :
      (tools : ControlEnv Input E) (input : TurnInput) (left : ℕ) (w : World env tasks subtasks)
      → env.control_tools ≡ control_tools tools
      → input.args.mode ≡ final_round
      → let d = run_task_turn env tasks subtasks meanwhile input left w in
        IsFree d.outcome d.budget.spent
  unfolding run_task_turn decide_round
  run_task_turn-IsFree tools input left w same last = live-IsFree tools input left w same last _
