-- ===== src/Round/Agent.antt =====
-- src/round/agent.ts, `runTaskTurn` and `decideRound`: one round over the Session and the two tables,
-- with its recovery order. The task's row may change while the models work: `meanwhile` is what happens
-- to it in that window. Progress posts are best-effort and left out.
use looping_core.Base.{
  ℕ, String, Bool, true, false, List, [], ◌∷◌, map, str_eq, Option, none, some, Outcome, returned,
  threw,
}
use looping_core.Agent.Budget.{TurnBudget, new_turn_budget}
use looping_core.Agent.History.{
  SessionMessage, session_text, final_reply_message_id, round_ack_message_id,
}
use looping_core.Subtasks.Types.{CompositionBranch, SubtaskDraft}
use looping_core.Db.Tasks.Table.{canceled, PlainTask, TaskTable}
use looping_core.Db.Tasks.Model.{state_eq, read_one}
use looping_core.Db.Subtasks.Table.{Subtask, SubtaskTable}
use looping_core.Db.Subtasks.Model.{SubtaskFault, list_round, create_decomposition}
use looping_core.Round.Turn.Env.{
  RoundEnv, RunTurnArgs, RunTurnOutcome, replied, delegated, unrecoverable, exhausted, Diagnostic,
  TurnFault, storage_fault,
}
use looping_core.Round.Turn.Ladder.{TurnRun, run_turn}
pub mod Recovery
pub mod Free
pub mod Examples

pub data TurnVerdict (E Kind : Type 0) : Type 0 where
  answers : String → TurnVerdict E Kind
  hands_out : String → List Subtask → TurnVerdict E Kind
  fails : RunTurnOutcome E Kind → TurnVerdict E Kind
  stops : TurnVerdict E Kind

-- What a round throws: a fault of the turn (of the models or the Session), or of the rows' creation.
pub data RoundFault (E Fault : Type 0) : Type 0 where
  turn_fault : TurnFault E Fault → RoundFault E Fault
  table_fault : SubtaskFault → RoundFault E Fault

-- The arguments of a round, with the bounds and the copy that the agent's policy sets.
pub record TurnInput : Type 0 where
  pub args : RunTurnArgs
  pub now : ℕ
  pub max_subtasks : ℕ
  pub recovered_reply : String

unfoldable pub branch_of : Subtask → CompositionBranch
branch_of r = record {
  subtask_id = r.id;
  round = r.round;
  ordinal = r.ordinal;
  type = r.type;
  prompt = r.prompt;
  params = r.params;
  status = r.status;
  result_parts = r.result_parts;
  error = r.error;
}

module _ {Body : Type 0} (tasks : TaskTable Body) where
  is_canceled_task : Option (PlainTask Body) → Bool
  unfolding state_eq
  is_canceled_task none = false
  is_canceled_task (some task) = state_eq task.state canceled

  unfoldable pub is_task_canceled : String → tasks.State → Bool
  unfolding is_canceled_task read_one
  is_task_canceled task_id s = is_canceled_task (read_one tasks task_id s)

module _ (env : RoundEnv) {Body : Type 0} (tasks : TaskTable Body) (subtasks : SubtaskTable) where
  open env use {E, Kind, session}

  pub record World : Type 0 where
    pub conversation : session.State
    pub task_rows : tasks.State
    pub subtask_rows : subtasks.State

  -- A round's end, the budget it charged and the world it left.
  pub record Decision : Type 0 where
    pub outcome : Outcome (RoundFault E session.Fault) (TurnVerdict E Kind)
    pub budget : TurnBudget
    pub world : World

  unfoldable pub composition_branches : String → subtasks.State → List CompositionBranch
  unfolding branch_of
  composition_branches task_id s = map branch_of (subtasks.select (λ r. str_eq r.task_id task_id) s)

  -- Rows are created after the acknowledgment is in the Session.
  unfoldable pub created :
      String → TurnBudget → World → Outcome SubtaskFault (List Subtask) × subtasks.State → Decision
  created text budget w (returned rows, s) = record {
    outcome = returned (hands_out text rows);
    budget = budget;
    world = record w { subtask_rows = s };
  }
  created text budget w (threw fault, s) = record {
    outcome = threw (table_fault fault);
    budget = budget;
    world = record w { subtask_rows = s };
  }

  -- What an outcome becomes, given whether the Task was canceled while the models worked.
  unfoldable pub conclude :
      TurnInput
      → TurnBudget
      → World
      → Outcome (TurnFault E session.Fault) (RunTurnOutcome E Kind)
      → Bool
      → Decision
  unfolding created create_decomposition
  conclude input b w (threw e) stopped = record {
    outcome = threw (turn_fault e);
    budget = b;
    world = w;
  }
  conclude input b w (returned (unrecoverable kind e)) stopped = record {
    outcome = returned (fails (unrecoverable kind e));
    budget = b;
    world = w;
  }
  conclude input b w (returned (exhausted round diagnostics)) stopped = record {
    outcome = returned (fails (exhausted round diagnostics));
    budget = b;
    world = w;
  }
  conclude input b w (returned (replied text)) true = record {
    outcome = returned stops;
    budget = b;
    world = w;
  }
  conclude input b w (returned (replied text)) false = record {
    outcome = returned (answers text);
    budget = b;
    world = w;
  }
  conclude input b w (returned (delegated text drafts)) true = record {
    outcome = returned stops;
    budget = b;
    world = w;
  }
  conclude input b w (returned (delegated text drafts)) false = created text b w (
      create_decomposition subtasks input.max_subtasks input.now input.args.task_id input.args.round
        drafts w.subtask_rows)

  unfoldable pub acknowledgment : TurnInput → Option SessionMessage → String
  acknowledgment input none = input.recovered_reply
  acknowledgment input (some m) = session_text m

  -- The rows of the round are handed out again, with the text that acknowledged them; a storage fault
  -- of the read is thrown.
  unfoldable pub recover :
      TurnInput
      → TurnBudget
      → World
      → List Subtask
      → Outcome session.Fault (Option SessionMessage)
      → Decision
  unfolding acknowledgment
  recover input b w rows (returned m) = record {
    outcome = returned (hands_out (acknowledgment input m) rows);
    budget = b;
    world = w;
  }
  recover input b w rows (threw f) = record {
    outcome = threw (turn_fault (storage_fault f));
    budget = b;
    world = w;
  }

  module _ (meanwhile : tasks.State → tasks.State) where
    unfoldable pub infer : TurnInput → TurnBudget → World → Decision
    unfolding run_turn conclude composition_branches is_task_canceled
    infer input b w =
        let args = record input.args {
          branches = composition_branches input.args.task_id w.subtask_rows;
        } in
        let run = run_turn env args b w.conversation in
        let after : World = record w {
          conversation = run.world;
          task_rows = meanwhile w.task_rows;
        } in
        conclude input run.budget after run.outcome
          (is_task_canceled tasks input.args.task_id after.task_rows)

    unfoldable pub decide_rows : TurnInput → TurnBudget → World → List Subtask → Decision
    unfolding infer recover round_ack_message_id
    decide_rows input b w [] = infer input b w
    decide_rows input b w (r ∷ rs) =
        let id = round_ack_message_id input.args.task_id input.args.round in
        recover input b w (r ∷ rs) (session.get_message id w.conversation)

    unfoldable pub decide_answered :
        TurnInput → TurnBudget → World → Outcome session.Fault (Option SessionMessage) → Decision
    unfolding decide_rows list_round
    decide_answered input b w (threw f) = record {
      outcome = threw (turn_fault (storage_fault f));
      budget = b;
      world = w;
    }
    decide_answered input b w (returned (some m)) = record {
      outcome = returned (answers (session_text m));
      budget = b;
      world = w;
    }
    decide_answered input b w (returned none) =
        decide_rows input b w
          (list_round subtasks input.args.task_id input.args.round w.subtask_rows)

    unfoldable pub decide_live : TurnInput → TurnBudget → World → Bool → Decision
    unfolding decide_answered final_reply_message_id
    decide_live input b w true = record { outcome = returned stops; budget = b; world = w }
    decide_live input b w false =
        decide_answered input b w
          (session.get_message (final_reply_message_id input.args.task_id) w.conversation)

    unfoldable pub decide_round : TurnInput → TurnBudget → World → Decision
    unfolding decide_live is_task_canceled
    decide_round input b w =
        decide_live input b w (is_task_canceled tasks input.args.task_id w.task_rows)

    -- The cost of a round is what its budget was charged.
    unfoldable pub run_task_turn : TurnInput → ℕ → World → Decision
    unfolding decide_round new_turn_budget
    run_task_turn input turns_remaining w = decide_round input (new_turn_budget turns_remaining) w
