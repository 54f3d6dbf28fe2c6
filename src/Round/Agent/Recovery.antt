-- ===== src/Round/Agent/Recovery.antt =====
-- The recovery order of src/round/agent.ts: what a round that is run again does, and what it costs.
use looping_core.Base.{
  ℕ, ◌+◌, ◌≤◌, max, String, Bool, true, false, List, [], ◌∷◌, Option, none, some, Outcome, returned,
  threw, ◌≡◌, refl, arith,
}
use looping_core.Agent.Budget.{TurnBudget, new_turn_budget}
use looping_core.Agent.History.{SessionMessage}
use looping_core.Db.Tasks.Table.{TaskTable}
use looping_core.Db.Subtasks.Table.{Subtask, SubtaskTable}
use looping_core.Db.Subtasks.Model.{SubtaskFault}
use looping_core.Round.Turn.Env.{
  RoundEnv, RunTurnArgs, TurnFault, RunTurnOutcome, replied, delegated, unrecoverable, exhausted,
}
use looping_core.Round.Turn.Spend.{run_turn-spent}
use looping_core.Round.Agent.{
  TurnInput, World, composition_branches, is_task_canceled, created, conclude, recover, infer,
  decide_rows, decide_answered, decide_live, decide_round, run_task_turn,
}

module _ (env : RoundEnv) {Body : Type 0} (tasks : TaskTable Body) (subtasks : SubtaskTable)
    (meanwhile : tasks.State → tasks.State) where
  created-budget :
      (text : String) (b : TurnBudget) (w : World env tasks subtasks)
      (r : Outcome SubtaskFault (List Subtask) × subtasks.State)
      → (created env tasks subtasks text b w r).budget ≡ b
  unfolding created
  created-budget text b w (returned rows, s) = refl
  created-budget text b w (threw e, s) = refl

  conclude-budget :
      (input : TurnInput) (b : TurnBudget) (w : World env tasks subtasks)
      (o : Outcome (TurnFault env.E env.session.Fault) (RunTurnOutcome env.E env.Kind)) (c : Bool)
      → (conclude env tasks subtasks input b w o c).budget ≡ b
  unfolding conclude
  conclude-budget input b w (threw e) c = refl
  conclude-budget input b w (returned (unrecoverable k e)) c = refl
  conclude-budget input b w (returned (exhausted r d)) c = refl
  conclude-budget input b w (returned (replied t)) true = refl
  conclude-budget input b w (returned (replied t)) false = refl
  conclude-budget input b w (returned (delegated t ds)) true = refl
  conclude-budget input b w (returned (delegated t ds)) false = created-budget t b w _

  infer-spent :
      (input : TurnInput) (left : ℕ) (w : World env tasks subtasks)
      → (infer env tasks subtasks meanwhile input (new_turn_budget left) w).budget.spent
        ≤ max 2 (left + 1)
  unfolding infer
  infer-spent input left w =
      let args : RunTurnArgs = record input.args {
        branches = composition_branches env tasks subtasks input.args.task_id w.subtask_rows;
      } in
      rw (conclude-budget input _ _ _ _) (run_turn-spent env args left w.conversation)

  recover-spent :
      (input : TurnInput) (left : ℕ) (w : World env tasks subtasks) (rows : List Subtask)
      (m : Outcome env.session.Fault (Option SessionMessage))
      → (recover env tasks subtasks input (new_turn_budget left) w rows m).budget.spent
        ≤ max 2 (left + 1)
  unfolding recover new_turn_budget
  recover-spent input left w rows (returned m) = omega arith
  recover-spent input left w rows (threw f) = omega arith

  rows-spent :
      (input : TurnInput) (left : ℕ) (w : World env tasks subtasks) (rows : List Subtask)
      → (decide_rows env tasks subtasks meanwhile input (new_turn_budget left) w rows).budget.spent
        ≤ max 2 (left + 1)
  unfolding decide_rows new_turn_budget
  rows-spent input left w [] = infer-spent input left w
  rows-spent input left w (r ∷ rs) = recover-spent input left w (r ∷ rs) _

  answered-spent :
      (input : TurnInput) (left : ℕ) (w : World env tasks subtasks)
      (m : Outcome env.session.Fault (Option SessionMessage))
      → (decide_answered env tasks subtasks meanwhile input (new_turn_budget left) w m).budget.spent
        ≤ max 2 (left + 1)
  unfolding decide_answered new_turn_budget
  answered-spent input left w (threw f) = omega arith
  answered-spent input left w (returned none) = rows-spent input left w _
  answered-spent input left w (returned (some m)) = omega arith

  live-spent :
      (input : TurnInput) (left : ℕ) (w : World env tasks subtasks) (c : Bool)
      → (decide_live env tasks subtasks meanwhile input (new_turn_budget left) w c).budget.spent
        ≤ max 2 (left + 1)
  unfolding decide_live new_turn_budget
  live-spent input left w true = omega arith
  live-spent input left w false = answered-spent input left w _

  -- A round costs what is left of the Task's turns and one more at most, or two where nothing is left,
  -- on every branch: recovered, canceled, failed or thrown.
  pub run_task_turn-spent :
      (input : TurnInput) (left : ℕ) (w : World env tasks subtasks)
      → (run_task_turn env tasks subtasks meanwhile input left w).budget.spent ≤ max 2 (left + 1)
  unfolding run_task_turn decide_round
  run_task_turn-spent input left w = live-spent input left w _

  conclude-rows :
      (input : TurnInput) (b : TurnBudget) (w : World env tasks subtasks)
      (o : Outcome (TurnFault env.E env.session.Fault) (RunTurnOutcome env.E env.Kind)) (c : Bool)
      → c ≡ true
      → (conclude env tasks subtasks input b w o c).world.subtask_rows ≡ w.subtask_rows
  unfolding conclude
  conclude-rows input b w (threw e) c h = refl
  conclude-rows input b w (returned (unrecoverable k e)) c h = refl
  conclude-rows input b w (returned (exhausted r d)) c h = refl
  conclude-rows input b w (returned (replied t)) true h = refl
  conclude-rows input b w (returned (replied t)) false h = refl
  conclude-rows input b w (returned (delegated t ds)) true h = refl
  conclude-rows input b w (returned (delegated t ds)) false h = absurd (cc)

  module _ (input : TurnInput) (b : TurnBudget) (w : World env tasks subtasks)
      (late : is_task_canceled tasks input.args.task_id (meanwhile w.task_rows) ≡ true) where
    recover-rows :
        (rows : List Subtask) (m : Outcome env.session.Fault (Option SessionMessage))
        → (recover env tasks subtasks input b w rows m).world.subtask_rows ≡ w.subtask_rows
    unfolding recover
    recover-rows rows (returned m) = refl
    recover-rows rows (threw f) = refl

    decide_rows-rows :
        (rows : List Subtask)
        → (decide_rows env tasks subtasks meanwhile input b w rows).world.subtask_rows
          ≡ w.subtask_rows
    unfolding decide_rows infer
    decide_rows-rows [] = conclude-rows input _ _ _ _ late
    decide_rows-rows (r ∷ rs) = recover-rows (r ∷ rs) _

    decide_answered-rows :
        (m : Outcome env.session.Fault (Option SessionMessage))
        → (decide_answered env tasks subtasks meanwhile input b w m).world.subtask_rows
          ≡ w.subtask_rows
    unfolding decide_answered
    decide_answered-rows (threw f) = refl
    decide_answered-rows (returned none) = decide_rows-rows _
    decide_answered-rows (returned (some m)) = refl

    decide_live-rows :
        (c : Bool)
        → (decide_live env tasks subtasks meanwhile input b w c).world.subtask_rows ≡ w.subtask_rows
    unfolding decide_live
    decide_live-rows true = refl
    decide_live-rows false = decide_answered-rows _

  -- A Task that is canceled by the time the models are done gets no rows from that round, whatever they
  -- decided.
  pub run_task_turn-rows :
      (input : TurnInput) (left : ℕ) (w : World env tasks subtasks)
      → is_task_canceled tasks input.args.task_id (meanwhile w.task_rows) ≡ true
      → (run_task_turn env tasks subtasks meanwhile input left w).world.subtask_rows
        ≡ w.subtask_rows
  unfolding run_task_turn decide_round
  run_task_turn-rows input left w late = decide_live-rows input (new_turn_budget left) w late _
